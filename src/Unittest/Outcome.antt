-- ===== src/Unittest/Outcome.antt =====
-- When the unit tests pass: it is up to the lookups alone.
use distray.Base.{
  ℕ, ◌≡◌, ◌↔◌, inl, inr, refl, sym, ◌∙◌, ap, Bool, true, false, ◌&&◌, List, [], ◌∷◌, Option, none,
  some, arith, if◌then◌else◌, Bytes, codes, ◌==◌,
}
use distray.Base.{Bool-cases, ==_iff, ==_refl}
use distray.Base.Int.{pos}
use distray.Util.CString.{c_str}
use distray.Util.Decimal.{decimal}
use distray.Util.Endpoint.Lookup.{
  Resolver, Listing, failed, empty, listed, found, not_found, first_option, do_dns_lookup,
  hostname_s,
}
use distray.Unittest.{
  Inet, Checked, checked, exits, DoDnsLookup, lookup_case, agrees, and_also, status, lookup_cases,
  test_do_dns_lookup, start_unittests, has_parameter_cases, substitute_cases, local_cases,
  endpoint_cases, test_has_parameter, test_substitute_parameter, test_is_pathname_local,
  test_parse_endpoint,
}

both_same : (a b c d : ℕ) → ((a == b) && (c == d)) ≡ true → (a ≡ b) × (c ≡ d)
both_same a b c d e = ground arith

checked_inj : (b : Bool) → checked b ≡ checked true → b ≡ true
checked_inj true e = refl
checked_inj false e = cc

-- No lookup decides about these four.
texts_pass :
    (test_has_parameter has_parameter_cases
      && (test_substitute_parameter substitute_cases
          && (test_is_pathname_local local_cases && test_parse_endpoint endpoint_cases)))
    ≡ true
unfolding test_has_parameter test_substitute_parameter test_is_pathname_local test_parse_endpoint
texts_pass = refl

module _ (resolver : Resolver) (inet : Inet resolver.Address) where
  open resolver use {Address, sockaddr_in_size, getaddrinfo}
  open inet use {sin_port, s_addr, htons, htonl}

  -- getaddrinfo has an address of the right size first, with this port and this IPv4 address.
  abbrev pub Gives : Option Bytes → ℕ → Bool → ℕ → Type 0
  Gives hostname port is_server address =
      (a : Address) × (getaddrinfo hostname (decimal port) is_server ≡ listed sockaddr_in_size a)
      × (sin_port a ≡ htons port)
      × (s_addr a ≡ htonl address)

  answered :
      (hostname : Bytes) (port : ℕ) (is_server : Bool) (address : ℕ) (h : Option Bytes)
      (l : Listing Address)
      → agrees resolver inet
          (lookup_case hostname port is_server address)
          (first_option sockaddr_in_size h l)
        ≡ checked true
      → (a : Address) × (l ≡ listed sockaddr_in_size a)
        × (sin_port a ≡ htons port)
        × (s_addr a ≡ htonl address)
  answered hostname port is_server address none failed c = cc
  answered hostname port is_server address (some h) failed c = cc
  answered hostname port is_server address none empty c = cc
  answered hostname port is_server address (some h) empty c = cc
  answered hostname port is_server address h (listed n a) c =
      elim (Bool-cases (n == sockaddr_in_size)) [
        | inl e ↦
            let same =
              checked_inj (sin_port a == htons port && s_addr a == htonl address)
                (sym (ap judged e) ∙ c) in
            let (port_same, address_same) =
              both_same (sin_port a) (htons port) (s_addr a) (htonl address) same in
            (a, ap (λ k. listed k a) ((==_iff n sockaddr_in_size).0 e), port_same, address_same)
        | inr e ↦ let wrong : checked false ≡ checked true = sym (ap judged e) ∙ c in cc
      ]
    where
      judged : Bool → Checked
      judged b =
          agrees resolver inet (lookup_case hostname port is_server address)
            (if b then found a else not_found)

  agrees-Gives :
      (hostname : Bytes) (port : ℕ) (is_server : Bool) (address : ℕ)
      → agrees resolver inet
          (lookup_case hostname port is_server address)
          (do_dns_lookup resolver hostname (pos port) is_server)
        ≡ checked true
      → Gives (hostname_s hostname) port is_server address
  unfolding do_dns_lookup
  agrees-Gives hostname port is_server address e =
      answered hostname port is_server address (hostname_s hostname)
        (getaddrinfo (hostname_s hostname) (decimal port) is_server) e

  Gives-agrees :
      (hostname : Bytes) (port : ℕ) (is_server : Bool) (address : ℕ)
      → Gives (hostname_s hostname) port is_server address
      → agrees resolver inet
          (lookup_case hostname port is_server address)
          (do_dns_lookup resolver hostname (pos port) is_server)
        ≡ checked true
  unfolding do_dns_lookup
  Gives-agrees hostname port is_server address (a, is, same_port, same_address) =
      rw
        (
          is,
          ==_refl sockaddr_in_size,
          same_port,
          same_address,
          ==_refl (htons port),
          ==_refl (htonl address),
        )
        refl

  both_checked :
      (x y : Checked)
      → (and_also resolver inet x y ≡ checked true) ↔ (x ≡ checked true) × (y ≡ checked true)
  both_checked (checked true) y = (λ e. (refl, e), λ h. h.1)
  both_checked (checked false) y = (λ e. cc, λ h. cc (h.0))
  both_checked Checked.undefined y = (λ e. cc, λ h. cc (h.0))

  status_iff : (c : Checked) → (status resolver inet true c ≡ exits (pos 0)) ↔ (c ≡ checked true)
  status_iff (checked true) = (λ e. refl, λ e. refl)
  status_iff (checked false) = (λ e. cc, λ e. cc)
  status_iff Checked.undefined = (λ e. cc, λ e. cc)

  case_iff :
      (hostname : Bytes) (port : ℕ) (is_server : Bool) (address : ℕ) (ps : List DoDnsLookup)
      → (test_do_dns_lookup resolver inet (lookup_case hostname port is_server address ∷ ps)
          ≡ checked true)
        ↔ Gives (hostname_s hostname) port is_server address
          × (test_do_dns_lookup resolver inet ps ≡ checked true)
  unfolding test_do_dns_lookup
  case_iff hostname port is_server address ps =
      let answer =
        agrees resolver inet (lookup_case hostname port is_server address)
          (do_dns_lookup resolver hostname (pos port) is_server) in
      let (split, join) = both_checked answer (test_do_dns_lookup resolver inet ps) in
      (
        λ e. (agrees-Gives hostname port is_server address (split e).0, (split e).1),
        λ h. join (Gives-agrees hostname port is_server address h.0, h.1),
      )

  lookups_iff :
      (test_do_dns_lookup resolver inet lookup_cases ≡ checked true)
      ↔ Gives (hostname_s (codes "localhost")) 1120 false 0x7F000001
        × Gives (hostname_s (codes "teamten.com")) 80 false 0x17EF04EB
        × Gives none 80 false 0x7F000001
        × Gives none 80 true 0
  unfolding test_do_dns_lookup
  lookups_iff =
      let any = lookup_case [] 80 true 0 in
      let this = lookup_case [] 80 false 0x7F000001 in
      let (first, first') =
        case_iff (codes "localhost") 1120 false 0x7F000001
          (lookup_case (codes "teamten.com") 80 false 0x17EF04EB ∷ this ∷ any ∷ []) in
      let (second, second') =
        case_iff (codes "teamten.com") 80 false 0x17EF04EB (this ∷ any ∷ []) in
      let (third, third') = case_iff [] 80 false 0x7F000001 (any ∷ []) in
      let (fourth, fourth') = case_iff [] 80 true 0 [] in
      (
        λ e.
            let (a, e2) = first e in
            let (b, e3) = second e2 in let (c, e4) = third e3 in (a, b, c, (fourth e4).0),
        λ (a, b, c, d). first' (a, second' (b, third' (c, fourth' (d, refl)))),
      )

  -- The unit tests exit with 0 if and only if each of the four lookups has an address of the size of
  -- a sockaddr_in first in its list, with the port that was asked for and the IPv4 address that the
  -- table expects: "localhost" 127.0.0.1, "teamten.com" 23.239.4.235, no hostname 127.0.0.1 for a
  -- client and 0.0.0.0 for a server. The texts' tests pass always.
  pub start_unittests_iff :
      (start_unittests resolver inet ≡ exits (pos 0))
      ↔ Gives (some (codes "localhost")) 1120 false 0x7F000001
        × Gives (some (codes "teamten.com")) 80 false 0x17EF04EB
        × Gives none 80 false 0x7F000001
        × Gives none 80 true 0
  unfolding start_unittests c_str
  start_unittests_iff =
      let (passes, pass) = status_iff (test_do_dns_lookup resolver inet lookup_cases) in
      let (split, join) = lookups_iff in
      let whole : start_unittests resolver inet
          ≡ status resolver inet true (test_do_dns_lookup resolver inet lookup_cases) =
        ap (λ b. status resolver inet b (test_do_dns_lookup resolver inet lookup_cases))
          texts_pass in
      (λ e. split (passes (sym whole ∙ e)), λ h. whole ∙ pass (join h))
