-- ===== src/Util/Endpoint.antt =====
-- src/util.cpp, parse_integer and parse_endpoint: "HOSTNAME:PORT" with defaults for either part.
pub mod Forms
pub mod Lookup
mod Tests
use distray.Base.{
  ℕ, ◌+◌, Bool, true, false, ◌||◌, List, [], ◌∷◌, Option, none, some, ltb, ◌==◌, if◌then◌else◌,
  Bytes, take,
}
use distray.Base.Int.{ℤ, pos, negsuc, to_int, ltb_ℤ}
use distray.Util.CString.{c_str, peek, is_digit, strchr}
use distray.Util.Strtol.{strtol}

-- parse_integer: the value as an `int`, or -1.
unfoldable pub parse_integer : Bytes → ℤ
unfolding strtol
parse_integer s =
    let (value, rest) = strtol s in
    if is_digit (peek s) then (elim rest [ [] ↦ to_int value | c ∷ r ↦ negsuc 0 ]) else negsuc 0

-- The result of parse_endpoint and its two out parameters.
pub record Parsed : Type 0 where
  pub success : Bool
  pub hostname : Bytes
  pub port : ℤ

-- Behind the colon: an empty port keeps the default, and any other must be an integer.
abbrev pub with_port : Bytes → ℤ → Bytes → Parsed
with_port hostname default_port [] = record {
  success = true;
  hostname = hostname;
  port = default_port;
}
with_port hostname default_port (c ∷ s) =
    if ltb_ℤ (parse_integer (c ∷ s)) (pos 0)
    then record { success = false; hostname = hostname; port = default_port }
    else record { success = true; hostname = hostname; port = parse_integer (c ∷ s) }

-- No colon: a port if it is an integer, else a hostname, unless it is empty.
abbrev pub without_colon : Bytes → Bytes → ℤ → Parsed
without_colon [] default_hostname default_port = record {
  success = true;
  hostname = default_hostname;
  port = default_port;
}
without_colon (c ∷ s) default_hostname default_port =
    if ltb_ℤ (parse_integer (c_str (c ∷ s))) (pos 0)
    then record { success = true; hostname = c ∷ s; port = default_port }
    else record {
      success = true;
      hostname = default_hostname;
      port = parse_integer (c_str (c ∷ s));
    }

-- endpoint_s is endpoint.c_str(); a hostname without a colon is the whole text.
unfoldable pub parse_endpoint : Bytes → Bytes → ℤ → Parsed
unfolding parse_integer strchr c_str
parse_endpoint endpoint default_hostname default_port = elim (strchr b':' 0 (c_str endpoint)) [
  | none ↦ without_colon endpoint default_hostname default_port
  | some (offset, []) ↦ without_colon endpoint default_hostname default_port
  | some (offset, colon ∷ port) ↦ with_port (take offset (c_str endpoint)) default_port port
]
