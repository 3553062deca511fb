-- ===== src/Util/CString.antt =====
-- What src/util.cpp and src/Frames.cpp use of the C library on NUL-terminated text: a `char *` is
-- the list of the bytes from it up to the terminator, and `*p` at the end is 0.
use distray.Base.{
  Option, none, some, ℕ, ◌+◌, ◌*◌, ◌-◌, Bool, true, false, ◌&&◌, [], ◌∷◌, ◌++◌, ◌≡◌, ◌≢◌, refl,
  arith, leb, ◌==◌, if◌then◌else◌, Bytes, All,
}

-- `str.c_str()`: the text up to the first NUL.
unfoldable pub c_str : Bytes → Bytes
c_str [] = []
c_str (c ∷ s) = if c == 0 then [] else c ∷ c_str s

-- `*p`
abbrev pub peek : Bytes → ℕ
peek [] = 0
peek (c ∷ s) = c

-- strchr(p, c), with the offset of p carried along.
unfoldable pub strchr : ℕ → ℕ → Bytes → Option (ℕ × Bytes)
strchr c offset [] = none
strchr c offset (x ∷ p) = if x == c then some (offset, x ∷ p) else strchr c (offset + 1) p

abbrev pub is_digit : ℕ → Bool
is_digit c = leb b'0' c && leb c b'9'

-- The digits that a text begins with, and the rest.
unfoldable pub span_digits : Bytes → Bytes × Bytes
span_digits [] = ([], [])
span_digits (c ∷ s) =
    let (ds, rest) = span_digits s in if is_digit c then (c ∷ ds, rest) else ([], c ∷ s)

-- The number that digits spell behind `n`.
abbrev pub value : ℕ → Bytes → ℕ
value n [] = n
value n (c ∷ s) = value (n * 10 + (c - b'0')) s

abbrev pub IsDigits : Bytes → Type 0
IsDigits = All (λ c. is_digit c ≡ true)

-- A `std::string` that came from `argv` holds no NUL.
abbrev pub NoNul : Bytes → Type 0
NoNul = All (λ c. c ≢ 0)

pub c_str_lem : (s : Bytes) → NoNul s → c_str s ≡ s
unfolding c_str
c_str_lem [] h = refl
c_str_lem (c ∷ s) (h, hs) = ground (arith, c_str_lem s hs)

pub c_str-NoNul : (s : Bytes) → NoNul (c_str s)
unfolding c_str
c_str-NoNul [] = tt
c_str-NoNul (c ∷ s) = ground (arith, c_str-NoNul s)

-- The first part is all digits, the two parts are the text, and no digit is left in front.
pub span_digits_lem :
    (s : Bytes)
    → let (ds, rest) = span_digits s in
      IsDigits ds × (ds ++ rest ≡ s) × (is_digit (peek rest) ≡ false)
unfolding span_digits
span_digits_lem [] = (tt, refl, refl)
span_digits_lem (c ∷ s) = ground (arith, span_digits_lem s)

pub span_digits-append :
    (ds rest : Bytes)
    → IsDigits ds
    → is_digit (peek rest) ≡ false
    → span_digits (ds ++ rest) ≡ (ds, rest)
unfolding span_digits
span_digits-append [] [] h e = refl
span_digits-append [] (c ∷ rest) h e = ground arith
span_digits-append (d ∷ ds) rest (hd, hs) e = ground (arith, span_digits-append ds rest hs e)

pub IsDigits-NoNul : (s : Bytes) → IsDigits s → NoNul s
IsDigits-NoNul [] h = tt
IsDigits-NoNul (c ∷ s) (h, hs) = (ground arith, IsDigits-NoNul s hs)
