-- ===== src/Frames/Parsing.antt =====
-- Frames::parse reads back each of the three forms of a range.
use distray.Base.{
  ℕ, suc, ◌<◌, ◌≡◌, ◌≢◌, refl, true, false, [], ◌∷◌, ◌++◌, some, arith, if◌then◌else◌, Bytes,
  length, length-append, All-append, append-nil, subst,
}
use distray.Base.Int.{ℤ, pos, negsuc, to_int_of_fits, fits_int, ltb_ℤ}
use distray.Util.CString.{
  c_str_lem, NoNul, IsDigits-NoNul, peek, is_digit, IsDigits, span_digits-append, value,
}
use distray.Util.Decimal.{decimal, decimal-IsDigits, decimal-ne-nil, value-decimal}
use distray.Util.Strtol.{strtol, skip_space, to_long}
use distray.Frames.{Frames, parse_int, parse}

-- A number as it is written in a range.
unfoldable pub number : ℤ → Bytes
number (pos n) = decimal n
number (negsuc n) = b'-' ∷ decimal (suc n)

strtol-digits :
    (d : ℕ) (ds rest : Bytes)
    → IsDigits (d ∷ ds)
    → is_digit (peek rest) ≡ false
    → strtol ((d ∷ ds) ++ rest) ≡ (to_long false (value 0 (d ∷ ds)), rest)
unfolding strtol skip_space
strtol-digits d ds rest (h, hs) e =
    let spaced : skip_space (d ∷ (ds ++ rest)) ≡ d ∷ (ds ++ rest) = ground arith in
    rw spaced (ground (arith, span_digits-append (d ∷ ds) rest (h, hs) e))

strtol-minus :
    (d : ℕ) (ds rest : Bytes)
    → IsDigits (d ∷ ds)
    → is_digit (peek rest) ≡ false
    → strtol (b'-' ∷ ((d ∷ ds) ++ rest)) ≡ (to_long true (value 0 (d ∷ ds)), rest)
unfolding strtol skip_space
strtol-minus d ds rest h e = ground (arith, span_digits-append (d ∷ ds) rest h e)

decimal-cons :
    (n : ℕ)
    → (d : ℕ) × (ds : Bytes) × (decimal n ≡ d ∷ ds) × IsDigits (d ∷ ds) × (value 0 (d ∷ ds) ≡ n)
decimal-cons n = go (decimal n) (decimal-ne-nil n) (decimal-IsDigits n) (value-decimal n)
  where
    go :
        (s : Bytes)
        → s ≢ []
        → IsDigits s
        → value 0 s ≡ n
        → (d : ℕ) × (ds : Bytes) × (s ≡ d ∷ ds) × IsDigits (d ∷ ds) × (value 0 (d ∷ ds) ≡ n)
    go [] h _ _ = absurd (h refl)
    go (d ∷ ds) _ h e = (d, ds, refl, h, e)

strtol-number :
    (z : ℤ) (rest : Bytes)
    → fits_int z ≡ true
    → is_digit (peek rest) ≡ false
    → strtol (number z ++ rest) ≡ (z, rest)
unfolding number
strtol-number (pos n) rest fits e =
    let (d, ds, same, digits, spelt) = decimal-cons n in
    rw (same, strtol-digits d ds rest digits e, spelt) (ground arith)
strtol-number (negsuc n) rest fits e =
    let (d, ds, same, digits, spelt) = decimal-cons (suc n) in
    rw (same, strtol-minus d ds rest digits e, spelt) (ground arith)

number-length : (z : ℤ) → 0 < length (number z)
unfolding number
number-length (pos n) = let (d, ds, same, _, _) = decimal-cons n in rw same (omega arith)
number-length (negsuc n) = omega arith

parse_int-number :
    (z : ℤ) (rest : Bytes)
    → fits_int z ≡ true
    → is_digit (peek rest) ≡ false
    → parse_int (number z ++ rest) ≡ some (z, rest)
unfolding parse_int
parse_int-number z rest fits e =
    rw (strtol-number z rest fits e, to_int_of_fits z fits)
      (ground (arith, length-append (number z) rest, number-length z))

number-NoNul : (z : ℤ) → NoNul (number z)
unfolding number
number-NoNul (pos n) = IsDigits-NoNul (decimal n) (decimal-IsDigits n)
number-NoNul (negsuc n) = (omega arith, IsDigits-NoNul (decimal (suc n)) (decimal-IsDigits (suc n)))

parse_int-end : (z : ℤ) → fits_int z ≡ true → parse_int (number z) ≡ some (z, [])
parse_int-end z fits =
    subst (λ t. parse_int t ≡ some (z, [])) (append-nil (number z))
      (parse_int-number z [] fits refl)

-- Two numbers, or a number and a range, with a comma between them.
abbrev pub comma : Bytes → Bytes → Bytes
comma a b = a ++ b',' ∷ b

comma-NoNul : (a b : Bytes) → NoNul a → NoNul b → NoNul (comma a b)
comma-NoNul a b h k = All-append _ a (b',' ∷ b) h (omega arith, k)

-- Frames::parse takes each documented form, whatever the range held before: FIRST alone is one frame
-- with step 1, FIRST,LAST has the step 1 or -1 that goes from FIRST to LAST, and FIRST,LAST,STEP is
-- taken as it stands, for all numbers that an `int` can hold.
pub parse_forms :
    (f : Frames) (a b c : ℤ)
    → fits_int a ≡ true
    → fits_int b ≡ true
    → fits_int c ≡ true
    → (parse f (number a) ≡ (record { first = a; last = a; step = pos 1 }, true))
      × (parse f (comma (number a) (number b))
          ≡ (record { first = a; last = b; step = if ltb_ℤ b a then negsuc 0 else pos 1 }, true))
      × (parse f (comma (number a) (comma (number b) (number c)))
          ≡ (record { first = a; last = b; step = c }, true))
unfolding parse
parse_forms f a b c ha hb hc =
    let na = number-NoNul a in
    let nb = number-NoNul b in
    let nc = number-NoNul c in
    (
      ground (arith, c_str_lem (number a) na, parse_int-end a ha),
      ground (
        arith,
        c_str_lem (comma (number a) (number b)) (comma-NoNul (number a) (number b) na nb),
        parse_int-number a (b',' ∷ number b) ha refl,
        parse_int-end b hb,
      ),
      ground (
        arith,
        c_str_lem (comma (number a) (comma (number b) (number c))) (
            comma-NoNul (number a) (comma (number b) (number c)) na
              (comma-NoNul (number b) (number c) nb nc)),
        parse_int-number a (b',' ∷ comma (number b) (number c)) ha refl,
        parse_int-number b (b',' ∷ number c) hb refl,
        parse_int-end c hc,
      ),
    )
