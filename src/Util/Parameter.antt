-- ===== src/Util/Parameter.antt =====
-- src/util.cpp, find_parameter, string_has_parameter and substitute_parameter: the patterns "%d" and
-- "%0Nd" of pathnames and arguments. A pointer into the text is its offset and the text from there.
pub mod Pattern
pub mod Occurrences
pub mod Find
pub mod Substitute
mod Tests
use distray.Base.{
  ℕ, zero, suc, ◌+◌, ◌*◌, ◌-◌, Bool, true, false, ◌||◌, List, [], ◌∷◌, ◌++◌, Option, none, some,
  ◌==◌, ltb, ◌^◌, if◌then◌else◌, Bytes, length, take, drop,
}
use distray.Base.Int.{ℤ, pos, negsuc}
use distray.Util.CString.{c_str, peek, is_digit, strchr}
use distray.Util.Decimal.{decimal, padded}

-- The value of an `int` that has only grown, from 0; `none` where it has overflowed, which is undefined
-- behaviour in C++.
abbrev pub in_int : ℕ → Option ℕ
in_int n = if ltb n (2 ^ 31) then some n else none

-- width*10 + (*p - '0')
abbrev pub push_digit : Option ℕ → ℕ → Option ℕ
push_digit none c = none
push_digit (some width) c = in_int (width * 10 + (c - b'0'))

-- The out parameters of find_parameter.
pub record Found : Type 0 where
  pub begin : ℕ
  pub end : ℕ
  pub width : Option ℕ

-- while (*p >= '0' && *p <= '9') { width = width*10 + (*p - '0'); p++; }
unfoldable pub scan_width : Option ℕ → ℕ → Bytes → Option ℕ × ℕ × Bytes
scan_width width offset [] = (width, offset, [])
scan_width width offset (c ∷ p) =
    let rest = scan_width (push_digit width c) (offset + 1) p in
    if is_digit c then rest else (width, offset, c ∷ p)

-- The outer loop of find_parameter from p on; each round takes a '%', so the length is enough fuel.
unfoldable pub find_from : ℕ → ℕ → Bytes → Option Found
unfolding strchr scan_width
find_from zero offset p = none
find_from (suc fuel) offset p = elim (strchr b'%' offset p) [
  | none ↦ none
  | some (begin, []) ↦ none
  | some (begin, percent ∷ q) ↦
      let skip = find_from fuel (begin + 1) q in
      if peek q == b'0' || peek q == b'd'
      then (let (width, end, r) = scan_width (some 0) (begin + 1) q in
          let again = find_from fuel end r in
          if peek r == b'd'
          then some (record { begin = begin; end = end + 1; width = width })
          else again)
      else skip
]

unfoldable pub find_parameter : Bytes → Option Found
unfolding c_str find_from
find_parameter str = find_from (suc (length (c_str str))) 0 (c_str str)

unfoldable pub string_has_parameter : Bytes → Bool
unfolding find_parameter
string_has_parameter str = elim (find_parameter str) [ none ↦ false | some _ ↦ true ]

-- The text that a parameter is replaced by. Behind an overflow C++ leaves it open; here it is then the
-- number alone.
unfoldable pub value_str : Option ℕ → ℕ → Bytes
unfolding decimal padded
value_str none value = decimal value
value_str (some width) value = if width == 0 then decimal value else padded width value

-- The recursion of substitute_parameter for value >= 0; each call takes a parameter off the text.
unfoldable pub substitute_from : ℕ → Bytes → ℕ → Bytes
unfolding find_parameter value_str
substitute_from zero str value = str
substitute_from (suc fuel) str value = elim (find_parameter str) [
  | none ↦ str
  | some found ↦
      take found.begin str
      ++ value_str found.width value
      ++ substitute_from fuel (drop found.end str) value
]

unfoldable pub substitute_parameter : Bytes → ℤ → Bytes
unfolding substitute_from
substitute_parameter str (pos value) = substitute_from (suc (length str)) str value
substitute_parameter str (negsuc value) = str
