-- ===== src/Util/Endpoint/Forms.antt =====
-- The forms of an endpoint that src/util.hpp documents.
use Prim.Native.Nat.add
use distray.Base.{
  ℕ, ◌+◌, ◌^◌, ◌<◌, ◌≡◌, ◌≢◌, refl, sym, ap, ◌∙◌, true, false, [], ◌∷◌, ◌++◌, none, some, arith,
  Bytes, length, take-append, append-nil, All, All-append, subst,
}
use distray.Base.Int.{ℤ, pos, negsuc}
use distray.Util.CString.{
  c_str, c_str_lem, NoNul, IsDigits-NoNul, strchr, IsDigits, value, span_digits, span_digits_lem,
  span_digits-append,
}
use distray.Util.Decimal.{decimal, decimal-IsDigits, decimal-ne-nil, value-decimal}
use distray.Util.Strtol.{skip_space}
use distray.Util.Endpoint.{parse_integer, parse_endpoint, with_port, without_colon}

-- Digits alone are read as the number that they spell, if an `int` holds it.
pub parse_integer-digits :
    (s : Bytes) → s ≢ [] → IsDigits s → value 0 s < 2 ^ 31 → parse_integer s ≡ pos (value 0 s)
unfolding parse_integer skip_space
parse_integer-digits [] h _ _ = absurd (h refl)
parse_integer-digits (c ∷ s) _ (d, ds) fits =
    let e = span_digits-append (c ∷ s) [] (d, ds) refl in ground (arith, e, append-nil (c ∷ s))

-- Any other text is refused.
pub parse_integer-refuses : (s : Bytes) → ¬ IsDigits s → parse_integer s ≡ negsuc 0
unfolding parse_integer skip_space
parse_integer-refuses [] h = refl
parse_integer-refuses (c ∷ s) h =
    let (digits, join, _) = span_digits_lem (c ∷ s) in
    go (span_digits (c ∷ s)).0 (span_digits (c ∷ s)).1 refl digits join
  where
    go :
        (ds rest : Bytes)
        → span_digits (c ∷ s) ≡ (ds, rest)
        → IsDigits ds
        → ds ++ rest ≡ c ∷ s
        → parse_integer (c ∷ s) ≡ negsuc 0
    go ds [] e digits join = absurd (h (subst IsDigits (sym (append-nil ds) ∙ join) digits))
    go [] (x ∷ r) e digits join = ground arith
    go (d ∷ ds) (x ∷ r) e digits join = ground arith

strchr-append :
    (c offset : ℕ) (a t : Bytes)
    → All (λ x. x ≢ c) a
    → strchr c offset (a ++ c ∷ t) ≡ some (offset + length a, c ∷ t)
unfolding strchr
strchr-append c offset [] t h = ground arith
strchr-append c offset (x ∷ a) t (h, hs) = ground (arith, strchr-append c (offset + 1) a t hs)

strchr-none : (c offset : ℕ) (a : Bytes) → All (λ x. x ≢ c) a → strchr c offset a ≡ none
unfolding strchr
strchr-none c offset [] h = refl
strchr-none c offset (x ∷ a) (h, hs) = ground (arith, strchr-none c (offset + 1) a hs)

abbrev pub NoColon : Bytes → Type 0
NoColon = All (λ c. c ≢ b':')

IsDigits-NoColon : (s : Bytes) → IsDigits s → NoColon s
IsDigits-NoColon [] h = tt
IsDigits-NoColon (c ∷ s) (h, hs) = (ground arith, IsDigits-NoColon s hs)

-- On a text without NUL.
endpoint-colon :
    (host port dh : Bytes) (dp : ℤ)
    → NoColon host
    → NoNul host
    → NoNul port
    → parse_endpoint (host ++ b':' ∷ port) dh dp ≡ with_port host dp port
unfolding parse_endpoint
endpoint-colon host port dh dp h nh np =
    let whole : c_str (host ++ b':' ∷ port) ≡ host ++ b':' ∷ port =
      c_str_lem (host ++ b':' ∷ port) (All-append _ host (b':' ∷ port) nh (omega arith, np)) in
    rw (whole, parse_endpoint)
      (ground (
        arith,
        strchr-append b':' 0 host port h,
        add.zero (length host),
        take-append host (b':' ∷ port),
      ))

endpoint-plain :
    (text dh : Bytes) (dp : ℤ)
    → NoColon text
    → NoNul text
    → parse_endpoint text dh dp ≡ without_colon text dh dp
unfolding parse_endpoint
endpoint-plain text dh dp h n =
    let none_found : strchr b':' 0 (c_str text) ≡ none =
      ap (strchr b':' 0) (c_str_lem text n) ∙ strchr-none b':' 0 text h in
    rw (none_found, parse_endpoint)

parse_integer-decimal : (p : ℕ) → p < 2 ^ 31 → parse_integer (decimal p) ≡ pos p
parse_integer-decimal p fits =
    let e = value-decimal p in
    parse_integer-digits (decimal p) (decimal-ne-nil p) (decimal-IsDigits p) (omega arith)
    ∙ ap pos e

with_port-digits :
    (host port : Bytes) (dp : ℤ) (p : ℕ)
    → port ≢ []
    → parse_integer port ≡ pos p
    → with_port host dp port ≡ record { success = true; hostname = host; port = pos p }
with_port-digits host [] dp p h e = absurd (h refl)
with_port-digits host (c ∷ s) dp p h e = ground arith

without_colon-digits :
    (text dh : Bytes) (dp : ℤ) (p : ℕ)
    → text ≢ []
    → NoNul text
    → parse_integer text ≡ pos p
    → without_colon text dh dp ≡ record { success = true; hostname = dh; port = pos p }
without_colon-digits [] dh dp p h n e = absurd (h refl)
without_colon-digits (c ∷ s) dh dp p h n e =
    let read : parse_integer (c_str (c ∷ s)) ≡ pos p = ap parse_integer (c_str_lem (c ∷ s) n) ∙ e in
    rw read (ground arith)

-- With a decimal port below 2 ^ 31 and a hostname without a colon or a NUL that is not all digits,
-- parse_endpoint takes "hostname:port" for both, "hostname:" and "hostname" for the hostname with the
-- default port, ":port" for the empty hostname and the port, "port" for the default hostname and the
-- port, and the empty text for both defaults.
pub parse_endpoint_forms :
    (host dh : Bytes) (p : ℕ) (dp : ℤ)
    → NoColon host
    → NoNul host
    → ¬ IsDigits host
    → p < 2 ^ 31
    → (parse_endpoint (host ++ b':' ∷ decimal p) dh dp
        ≡ record { success = true; hostname = host; port = pos p })
      × (parse_endpoint (host ++ b':' ∷ []) dh dp
          ≡ record { success = true; hostname = host; port = dp })
      × (parse_endpoint host dh dp ≡ record { success = true; hostname = host; port = dp })
      × (parse_endpoint (b':' ∷ decimal p) dh dp
          ≡ record { success = true; hostname = []; port = pos p })
      × (parse_endpoint (decimal p) dh dp ≡ record { success = true; hostname = dh; port = pos p })
      × (parse_endpoint [] dh dp ≡ record { success = true; hostname = dh; port = dp })
parse_endpoint_forms host dh p dp colon nul name fits =
    let number = parse_integer-decimal p fits in
    let filled = decimal-ne-nil p in
    let clean = IsDigits-NoNul (decimal p) (decimal-IsDigits p) in
    (
      endpoint-colon host (decimal p) dh dp colon nul clean
          ∙ with_port-digits host (decimal p) dp p filled number,
      endpoint-colon host [] dh dp colon nul tt,
      endpoint-plain host dh dp colon nul ∙ plain_name host nul name,
      endpoint-colon [] (decimal p) dh dp tt tt clean
          ∙ with_port-digits [] (decimal p) dp p filled number,
      endpoint-plain (decimal p) dh dp (IsDigits-NoColon (decimal p) (decimal-IsDigits p)) clean
          ∙ without_colon-digits (decimal p) dh dp p filled clean number,
      endpoint-plain [] dh dp tt tt,
    )
  where
    plain_name :
        (t : Bytes)
        → NoNul t
        → ¬ IsDigits t
        → without_colon t dh dp ≡ record { success = true; hostname = t; port = dp }
    plain_name [] n h = absurd (h tt)
    plain_name (x ∷ t) n h =
        let read : parse_integer (c_str (x ∷ t)) ≡ negsuc 0 =
          ap parse_integer (c_str_lem (x ∷ t) n) ∙ parse_integer-refuses (x ∷ t) h in
        rw read refl

-- A port without NUL that is neither empty nor all digits is an error, behind any hostname without a
-- colon and without NUL.
pub parse_endpoint-bad_port :
    (host port dh : Bytes) (dp : ℤ)
    → NoColon host
    → NoNul host
    → NoNul port
    → port ≢ []
    → ¬ IsDigits port
    → (parse_endpoint (host ++ b':' ∷ port) dh dp).success ≡ false
parse_endpoint-bad_port host [] dh dp colon nh np h bad = absurd (h refl)
parse_endpoint-bad_port host (c ∷ s) dh dp colon nh np h bad =
    rw (endpoint-colon host (c ∷ s) dh dp colon nh np, parse_integer-refuses (c ∷ s) bad) refl
