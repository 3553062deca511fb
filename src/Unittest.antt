-- ===== src/Unittest.antt =====
-- src/unittest.cpp: the tables of cases, and the loops that check them.
pub mod Outcome
mod Tests
use distray.Base.{
  ℕ, Bool, true, false, ◌||◌, ◌&&◌, not, List, [], ◌∷◌, if◌then◌else◌, Bytes, codes, eq_bytes, ◌==◌,
}
use distray.Base.Int.{ℤ, pos, negsuc, ◌==ℤ◌}
use distray.Util.Parameter.{string_has_parameter, substitute_parameter}
use distray.Util.Pathname.{is_pathname_local}
use distray.Util.Endpoint.{Parsed, parse_endpoint}
use distray.Util.Endpoint.Lookup.{Resolver, Lookup, found, not_found, do_dns_lookup}

abbrev pub eq_bool : Bool → Bool → Bool
eq_bool true b = b
eq_bool false b = not b

pub record PathnameHasParameter : Type 0 where
  pub str : Bytes
  pub expected : Bool

abbrev has_parameter_case : Bytes → Bool → PathnameHasParameter
has_parameter_case str expected = record { str = str; expected = expected }

abbrev pub has_parameter_cases : List PathnameHasParameter
has_parameter_cases =
    has_parameter_case (codes "image.png") false
    ∷ has_parameter_case (codes "image-%d.png") true
    ∷ has_parameter_case (codes "image-%03d.png") true
    ∷ has_parameter_case (codes "image-%3d.png") false
    ∷ has_parameter_case (codes "image-%f.png") false
    ∷ has_parameter_case (codes "image-%d%d.png") true
    ∷ has_parameter_case (codes "image-% 3d.png") false
    ∷ []

unfoldable pub test_has_parameter : List PathnameHasParameter → Bool
unfolding string_has_parameter
test_has_parameter [] = true
test_has_parameter (p ∷ ps) =
    if eq_bool (string_has_parameter p.str) p.expected then test_has_parameter ps else false

pub record SubstituteParameter : Type 0 where
  pub str : Bytes
  pub parameter : ℤ
  pub expected : Bytes

abbrev substitute_case : Bytes → ℤ → Bytes → SubstituteParameter
substitute_case str parameter expected = record {
  str = str;
  parameter = parameter;
  expected = expected;
}

abbrev pub substitute_cases : List SubstituteParameter
substitute_cases =
    substitute_case [] (pos 0) []
    ∷ substitute_case (codes "no parameter") (pos 0) (codes "no parameter")
    ∷ substitute_case (codes "%d") (pos 123) (codes "123")
    ∷ substitute_case (codes "%d") (negsuc 0) (codes "%d")
    ∷ substitute_case (codes "%05d") (pos 123) (codes "00123")
    ∷ substitute_case (codes "abc%ddef") (pos 123) (codes "abc123def")
    ∷ substitute_case (codes "abc%05ddef") (pos 123) (codes "abc00123def")
    ∷ substitute_case (codes "abc%05ddef%dghi") (pos 123) (codes "abc00123def123ghi")
    ∷ substitute_case (codes "%5d") (pos 123) (codes "%5d")
    ∷ substitute_case (codes "%g") (pos 123) (codes "%g")
    ∷ substitute_case (codes "%%") (pos 123) (codes "%%")
    ∷ []

unfoldable pub test_substitute_parameter : List SubstituteParameter → Bool
unfolding substitute_parameter eq_bytes
test_substitute_parameter [] = true
test_substitute_parameter (p ∷ ps) =
    if eq_bytes (substitute_parameter p.str p.parameter) p.expected
    then test_substitute_parameter ps
    else false

pub record IsPathnameLocal : Type 0 where
  pub str : Bytes
  pub expected : Bool

abbrev local_case : Bytes → Bool → IsPathnameLocal
local_case str expected = record { str = str; expected = expected }

abbrev pub local_cases : List IsPathnameLocal
local_cases =
    local_case (codes "image.png") true
    ∷ local_case (codes "./image.png") true
    ∷ local_case (codes "foo/bar/./image.png") true
    ∷ local_case (codes "../image.png") false
    ∷ local_case (codes "foo/bar/../image.png") false
    ∷ local_case (codes "/image.png") false
    ∷ []

unfoldable pub test_is_pathname_local : List IsPathnameLocal → Bool
unfolding is_pathname_local
test_is_pathname_local [] = true
test_is_pathname_local (p ∷ ps) =
    if eq_bool (is_pathname_local p.str) p.expected then test_is_pathname_local ps else false

pub record ParseEndpoint : Type 0 where
  pub endpoint : Bytes
  pub default_hostname : Bytes
  pub default_port : ℤ
  pub expected : Parsed

abbrev endpoint_case : Bytes → Bool → Bytes → ℤ → ParseEndpoint
endpoint_case endpoint success hostname port = record {
  endpoint = endpoint;
  default_hostname = codes "foo";
  default_port = pos 1120;
  expected = record { success = success; hostname = hostname; port = port };
}

abbrev pub endpoint_cases : List ParseEndpoint
endpoint_cases =
    endpoint_case [] true (codes "foo") (pos 1120)
    ∷ endpoint_case (codes "bar") true (codes "bar") (pos 1120)
    ∷ endpoint_case (codes "9999") true (codes "foo") (pos 9999)
    ∷ endpoint_case (codes "bar:9999") true (codes "bar") (pos 9999)
    ∷ endpoint_case (codes ":9999") true [] (pos 9999)
    ∷ endpoint_case (codes "bar:xyz") false [] (pos 0)
    ∷ []

-- The condition of a failure: the hostname and the port count only where there are any.
abbrev pub differs : Parsed → Parsed → Bool
differs actual expected =
    not (eq_bool actual.success expected.success)
    || (actual.success
        && (not (eq_bytes actual.hostname expected.hostname)
            || not (actual.port ==ℤ expected.port)))

unfoldable pub test_parse_endpoint : List ParseEndpoint → Bool
unfolding parse_endpoint eq_bytes
test_parse_endpoint [] = true
test_parse_endpoint (p ∷ ps) =
    if differs (parse_endpoint p.endpoint p.default_hostname p.default_port) p.expected
    then false
    else test_parse_endpoint ps

pub record DoDnsLookup : Type 0 where
  pub hostname : Bytes
  pub port : ℕ
  pub is_server : Bool
  pub success : Bool
  pub address : ℕ

abbrev pub lookup_case : Bytes → ℕ → Bool → ℕ → DoDnsLookup
lookup_case hostname port is_server address = record {
  hostname = hostname;
  port = port;
  is_server = is_server;
  success = true;
  address = address;
}

-- INADDR_ANY is 0.
abbrev pub lookup_cases : List DoDnsLookup
lookup_cases =
    lookup_case (codes "localhost") 1120 false 0x7F000001
    ∷ lookup_case (codes "teamten.com") 80 false 0x17EF04EB
    ∷ lookup_case [] 80 false 0x7F000001
    ∷ lookup_case [] 80 true 0
    ∷ []

-- What the test reads of a sockaddr_in, and the conversions of the C library.
pub record Inet (Address : Type 0) : Type 0 where
  pub sin_port : Address → ℕ
  pub s_addr : Address → ℕ
  pub htons : ℕ → ℕ
  pub htonl : ℕ → ℕ

-- A test's result, where it has one.
pub data Checked : Type 0 where
  checked : Bool → Checked
  undefined : Checked

-- start_unittests: 0, -1, or behaviour that is undefined.
pub data Exit : Type 0 where
  exits : ℤ → Exit
  undefined : Exit

module _ (resolver : Resolver) (inet : Inet resolver.Address) where
  open resolver use {Address}
  open inet use {sin_port, s_addr, htons, htonl}

  -- What is compared of one lookup.
  abbrev pub agrees : DoDnsLookup → Lookup Address → Checked
  agrees p (found a) =
      checked (p.success && (sin_port a == htons p.port && s_addr a == htonl p.address))
  agrees p not_found = checked (not p.success)
  agrees p Lookup.undefined = Checked.undefined

  abbrev pub and_also : Checked → Checked → Checked
  and_also (checked true) rest = rest
  and_also (checked false) rest = checked false
  and_also Checked.undefined rest = Checked.undefined

  unfoldable pub test_do_dns_lookup : List DoDnsLookup → Checked
  unfolding do_dns_lookup
  test_do_dns_lookup [] = checked true
  test_do_dns_lookup (p ∷ ps) =
      and_also (agrees p (do_dns_lookup resolver p.hostname (pos p.port) p.is_server))
        (test_do_dns_lookup ps)

  abbrev pub status : Bool → Checked → Exit
  status pass (checked lookups) = exits (if pass && lookups then pos 0 else negsuc 0)
  status pass Checked.undefined = Exit.undefined

  -- Each test is run, whatever came of those before it.
  unfoldable pub start_unittests : Exit
  unfolding test_has_parameter test_substitute_parameter test_is_pathname_local test_parse_endpoint
      test_do_dns_lookup
  start_unittests =
      status
        (test_has_parameter has_parameter_cases
          && (test_substitute_parameter substitute_cases
              && (test_is_pathname_local local_cases && test_parse_endpoint endpoint_cases)))
        (test_do_dns_lookup lookup_cases)
