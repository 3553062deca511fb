-- ===== src/Frames.antt =====
-- src/Frames.hpp and src/Frames.cpp: the frame range "first[,last[,step]]".
pub mod Parsing
pub mod Range
mod Tests
use distray.Base.{
  ℕ, zero, suc, ◌+◌, Bool, true, false, List, [], ◌∷◌, ◌++◌, Option, none, some, ltb, ◌==◌,
  if◌then◌else◌, Bytes, length,
}
use distray.Base.Int.{ℤ, pos, negsuc, ◌+ℤ◌, ltb_ℤ, to_int, fits_int}
use distray.Util.CString.{c_str, peek}
use distray.Util.Strtol.{strtol}

pub record Frames : Type 0 where
  pub first : ℤ
  pub last : ℤ
  pub step : ℤ

-- parse_int: the number at s and s moved forward, or `none` for std::invalid_argument, which is
-- thrown where strtol does not move.
unfoldable pub parse_int : Bytes → Option (ℤ × Bytes)
unfolding strtol
parse_int s =
    let (value, e) = strtol s in if length e == length s then none else some (to_int value, e)

-- After the third number, and after each early end: "Must have eaten up entire string."
abbrev pub finish : Frames → Bytes → Frames × Bool
finish frames [] = (frames, true)
finish frames (c ∷ s) = (frames, false)

unfoldable pub parse_step : Frames → Bytes → Frames × Bool
unfolding parse_int
parse_step frames s = elim (parse_int s) [
  | none ↦ (frames, false)
  | some (value, e) ↦ finish (record frames { step = value }) e
]

-- m_step = m_first <= m_last ? 1 : -1
abbrev pub auto_step : Frames → ℤ
auto_step frames = if ltb_ℤ frames.last frames.first then negsuc 0 else pos 1

abbrev pub behind_last : Frames → Bytes → Frames × Bool
behind_last frames [] = finish (record frames { step = auto_step frames }) []
behind_last frames (c ∷ s) =
    if c == b','
    then parse_step frames s
    else finish (record frames { step = auto_step frames }) (c ∷ s)

unfoldable pub parse_last : Frames → Bytes → Frames × Bool
unfolding parse_int parse_step
parse_last frames s = elim (parse_int s) [
  | none ↦ (frames, false)
  | some (value, e) ↦ behind_last (record frames { last = value }) e
]

abbrev pub behind_first : Frames → Bytes → Frames × Bool
behind_first frames [] = finish (record frames { last = frames.first; step = pos 1 }) []
behind_first frames (c ∷ s) =
    if c == b','
    then parse_last frames s
    else finish (record frames { last = frames.first; step = pos 1 }) (c ∷ s)

-- Frames::parse: the fields as they are left, and whether the text was accepted.
unfoldable pub parse : Frames → Bytes → Frames × Bool
unfolding parse_last c_str
parse frames spec = elim (parse_int (c_str spec)) [
  | none ↦ (frames, false)
  | some (value, e) ↦ behind_first (record frames { first = value }) e
]

-- return m_step > 0 ? frame > m_last : frame < m_last;
abbrev pub is_done : Frames → ℤ → Bool
is_done frames frame =
    if ltb_ℤ (pos 0) frames.step then ltb_ℤ frames.last frame else ltb_ℤ frame frames.last

-- What a run of the loop of get_all comes to: the frames, a signed overflow of `frame += m_step`
-- (undefined in C++), or the end of the fuel.
pub data Collected : Type 0 where
  collected : List ℤ → Collected
  overflow : Collected
  unfinished : Collected

abbrev pub push_front : ℤ → Collected → Collected
push_front frame (collected v) = collected (frame ∷ v)
push_front frame overflow = overflow
push_front frame unfinished = unfinished

-- The loop from `frame` on; `v.push_back(frame)` comes before the rest of the frames.
unfoldable pub get_all_from : ℕ → Frames → ℤ → Collected
unfolding ◌+ℤ◌
get_all_from zero frames frame = unfinished
get_all_from (suc fuel) frames frame =
    let next = frame +ℤ frames.step in
    let rest = push_front frame (get_all_from fuel frames next) in
    if is_done frames frame then collected [] else if fits_int next then rest else overflow

unfoldable pub get_all : ℕ → Frames → Collected
unfolding get_all_from
get_all fuel frames = get_all_from fuel frames frames.first
