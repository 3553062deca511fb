-- ===== src/Util/Endpoint/Tests.antt =====
-- src/unittest.cpp, test_parse_endpoint, and the theorems at concrete endpoints.
use distray.Base.{
  ◌≡◌, ℕ, refl, true, false, Option, none, some, [], ◌∷◌, ◌++◌, codes, arith, Bytes, eq_bytes,
  if◌then◌else◌,
}
use distray.Base.Int.{pos}
use distray.Util.Decimal.{decimal}
use distray.Util.Endpoint.Forms.{parse_endpoint_forms}
use distray.Util.Endpoint.Lookup.{
  Resolver, Listing, failed, listed, undefined, found, resolve, ServerCalls, create_server_socket,
}
use distray.Util.Endpoint.{Parsed, parse_endpoint}

abbrev parsed_foo : Parsed
parsed_foo = record { success = true; hostname = codes "foo"; port = pos 1120 }

parse_endpoint_cases :
    (parse_endpoint [] (codes "foo") (pos 1120) ≡ parsed_foo)
    × (parse_endpoint (codes "bar") (codes "foo") (pos 1120)
        ≡ record parsed_foo { hostname = codes "bar" })
    × (parse_endpoint (codes "9999") (codes "foo") (pos 1120)
        ≡ record parsed_foo { port = pos 9999 })
    × (parse_endpoint (codes "bar:9999") (codes "foo") (pos 1120)
        ≡ record { success = true; hostname = codes "bar"; port = pos 9999 })
    × (parse_endpoint (codes ":9999") (codes "foo") (pos 1120)
        ≡ record { success = true; hostname = []; port = pos 9999 })
    × ((parse_endpoint (codes "bar:xyz") (codes "foo") (pos 1120)).success ≡ false)
unfolding parse_endpoint
parse_endpoint_cases = (refl, refl, refl, refl, refl, refl)

parse_endpoint_forms_example :
    (parse_endpoint (codes "bar" ++ b':' ∷ decimal 9999) (codes "foo") (pos 1120)
      ≡ record { success = true; hostname = codes "bar"; port = pos 9999 })
    × (parse_endpoint (codes "bar" ++ b':' ∷ []) (codes "foo") (pos 1120)
        ≡ record { success = true; hostname = codes "bar"; port = pos 1120 })
    × (parse_endpoint (codes "bar") (codes "foo") (pos 1120)
        ≡ record { success = true; hostname = codes "bar"; port = pos 1120 })
    × (parse_endpoint (b':' ∷ decimal 9999) (codes "foo") (pos 1120)
        ≡ record { success = true; hostname = []; port = pos 9999 })
    × (parse_endpoint (decimal 9999) (codes "foo") (pos 1120)
        ≡ record { success = true; hostname = codes "foo"; port = pos 9999 })
    × (parse_endpoint [] (codes "foo") (pos 1120) ≡ parsed_foo)
parse_endpoint_forms_example =
    parse_endpoint_forms (codes "bar") (codes "foo") 9999 (pos 1120) (omega arith) (omega arith)
      (λ h. cc (h.0)) (omega arith)

-- One host has an address, which is that of every port; the null pointer is the machine itself.
abbrev listing : Option Bytes → Listing ℕ
listing none = listed 16 127
listing (some host) = if eq_bytes host (codes "bar") then listed 16 10 else failed

abbrev resolver : Resolver
resolver = record {
  Address = ℕ;
  sockaddr_in_size = 16;
  getaddrinfo = λ host port is_server. listing host;
}

-- getaddrinfo does not know this machine.
abbrev lost : Resolver
lost = record resolver { getaddrinfo = λ host port is_server. failed }

resolve_found : resolve resolver (codes "bar:9999") true [] (pos 1120) ≡ found 10
unfolding distray.Util.Endpoint.Lookup.parse_and_lookup_endpoint parse_endpoint eq_bytes
resolve_found = refl

-- Where the hostname is empty and the lookup fails, a null pointer is written.
resolve_undefined : resolve lost (codes ":9999") true [] (pos 1120) ≡ undefined
unfolding distray.Util.Endpoint.Lookup.parse_and_lookup_endpoint parse_endpoint
resolve_undefined = refl
