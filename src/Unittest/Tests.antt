-- ===== src/Unittest/Tests.antt =====
-- src/unittest.cpp with resolvers that answer, and that do not.
use distray.Base.{
  ℕ, ◌≡◌, ◌↔◌, refl, Bool, true, false, Option, none, some, ◌+◌, ◌*◌, ◌/◌, ◌%◌, Bytes, codes,
  eq_bytes, if◌then◌else◌,
}
use distray.Base.Int.{pos, negsuc}
use distray.Util.Endpoint.Lookup.{Resolver, Listing, failed, listed}
use distray.Unittest.{Inet, exits, start_unittests}
use distray.Unittest.Outcome.{Gives, start_unittests_iff}

-- On a little-endian machine.
abbrev swapped : ℕ → ℕ
swapped n = n % 256 * 256 + n / 256 % 256

abbrev swapped_long : ℕ → ℕ
swapped_long n = swapped (n % 65536) * 65536 + swapped (n / 65536)

abbrev inet : Inet (ℕ × ℕ)
inet = record { sin_port = λ a. a.0; s_addr = λ a. a.1; htons = swapped; htonl = swapped_long }

abbrev service : Bytes → ℕ
service port = if eq_bytes port (codes "80") then swapped 80 else swapped 1120

abbrev answer : Option Bytes → Bytes → Bool → Listing (ℕ × ℕ)
answer none port true = listed 16 (service port, 0)
answer none port false = listed 16 (service port, swapped_long 0x7F000001)
answer (some host) port is_server =
    if eq_bytes host (codes "teamten.com")
    then listed 16 (service port, swapped_long 0x17EF04EB)
    else listed 16 (service port, swapped_long 0x7F000001)

abbrev resolver : Resolver
resolver = record { Address = ℕ × ℕ; sockaddr_in_size = 16; getaddrinfo = answer }

-- A machine without a network knows no hostname but its own.
abbrev nearby : Option Bytes → Bytes → Bool → Listing (ℕ × ℕ)
nearby none port is_server = answer none port is_server
nearby (some host) port is_server =
    if eq_bytes host (codes "localhost") then answer (some host) port is_server else failed

abbrev offline : Resolver
offline = record resolver { getaddrinfo = nearby }

online_pass : start_unittests resolver inet ≡ exits (pos 0)
unfolding start_unittests eq_bytes
online_pass = refl

offline_fail : start_unittests offline inet ≡ exits (negsuc 0)
unfolding start_unittests eq_bytes
offline_fail = refl

start_unittests_iff_example :
    (start_unittests resolver inet ≡ exits (pos 0))
    ↔ Gives resolver inet (some (codes "localhost")) 1120 false 0x7F000001
      × Gives resolver inet (some (codes "teamten.com")) 80 false 0x17EF04EB
      × Gives resolver inet none 80 false 0x7F000001
      × Gives resolver inet none 80 true 0
start_unittests_iff_example = start_unittests_iff resolver inet
