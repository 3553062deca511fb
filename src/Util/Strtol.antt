-- ===== src/Util/Strtol.antt =====
-- strtol(s, &e, 10) of the C library, with the 64-bit `long` of the platforms that the program
-- compiles on: white space, a sign, digits; a value out of range is the nearest `long`. Its result
-- is stored in an `int` by src/Frames.cpp (parse_int) and src/util.cpp (parse_integer).
use distray.Base.{
  ℕ, ◌-◌, ◌^◌, min, Bool, true, false, ◌||◌, ◌&&◌, [], ◌∷◌, leb, ◌==◌, if◌then◌else◌, Bytes,
}
use distray.Base.Int.{ℤ, pos, negsuc}
use distray.Util.CString.{span_digits, value}

-- isspace, in the C locale
abbrev pub is_space : ℕ → Bool
is_space c = c == b' ' || (leb 9 c && leb c 13)

unfoldable pub skip_space : Bytes → Bytes
skip_space [] = []
skip_space (c ∷ s) = if is_space c then skip_space s else c ∷ s

-- The value of digits behind a sign, held within [LONG_MIN, LONG_MAX].
abbrev pub to_long : Bool → ℕ → ℤ
to_long false n = pos (min n (2 ^ 63 - 1))
to_long true n = if n == 0 then pos 0 else negsuc (min (n - 1) (2 ^ 63 - 1))

-- The digits behind the sign; without one nothing is parsed, and the end is the start.
abbrev pub strtol_digits : Bytes → Bool → Bytes × Bytes → ℤ × Bytes
strtol_digits start negative ([], rest) = (pos 0, start)
strtol_digits start negative (d ∷ ds, rest) = (to_long negative (value 0 (d ∷ ds)), rest)

abbrev pub strtol_sign : Bytes → Bytes → ℤ × Bytes
strtol_sign start [] = (pos 0, start)
strtol_sign start (c ∷ s) =
    if c == b'-'
    then strtol_digits start true (span_digits s)
    else if c == b'+'
    then strtol_digits start false (span_digits s)
    else strtol_digits start false (span_digits (c ∷ s))

-- The value and the end pointer.
unfoldable pub strtol : Bytes → ℤ × Bytes
unfolding span_digits skip_space
strtol s = strtol_sign s (skip_space s)
