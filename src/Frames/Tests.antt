-- ===== src/Frames/Tests.antt =====
-- Ranges of the documentation, and the theorems at concrete ranges.
use distray.Base.{◌≡◌, refl, true, false, List, [], ◌∷◌, codes, arith, if◌then◌else◌}
use distray.Base.Int.{ℤ, pos, negsuc, ltb_ℤ, ◌+ℤ◌}
use distray.Frames.Range.{IsWalkable, Lists, get_all-Lists, get_all-zero_step}
use distray.Frames.Parsing.{number, comma, parse_forms}
use distray.Frames.{Frames, parse, collected, unfinished, get_all}

abbrev blank : Frames
blank = record { first = pos 0; last = pos 0; step = pos 0 }

abbrev by_three : Frames
by_three = record { first = pos 10; last = pos 3; step = negsuc 2 }

abbrev stuck : Frames
stuck = record { first = pos 5; last = pos 5; step = pos 0 }

parse_cases :
    (parse blank (codes "0,199") ≡ (record { first = pos 0; last = pos 199; step = pos 1 }, true))
    × (parse blank (codes "10,3,-3") ≡ (by_three, true))
    × (parse blank (codes "5,5,0") ≡ (stuck, true))
    × ((parse blank (codes "1,x")).1 ≡ false)
    × ((parse blank (codes "1,2,3,4")).1 ≡ false)
unfolding parse
parse_cases = (refl, refl, refl, refl, refl)

get_all_cases : get_all 9 by_three ≡ collected (pos 10 ∷ pos 7 ∷ pos 4 ∷ [])
unfolding get_all
get_all_cases = refl

parse_forms_example :
    (parse blank (number (pos 7)) ≡ (record { first = pos 7; last = pos 7; step = pos 1 }, true))
    × (parse blank (comma (number (pos 7)) (number (negsuc 1))) ≡ (
      record {
        first = pos 7;
        last = negsuc 1;
        step = if ltb_ℤ (negsuc 1) (pos 7) then negsuc 0 else pos 1;
      },
      true,
    ))
    × (parse blank (comma (number (pos 7)) (comma (number (negsuc 1)) (number (negsuc 2))))
        ≡ (record { first = pos 7; last = negsuc 1; step = negsuc 2 }, true))
parse_forms_example = parse_forms blank (pos 7) (negsuc 1) (negsuc 2) refl refl refl

by_three-IsWalkable : IsWalkable by_three
unfolding ◌+ℤ◌
by_three-IsWalkable = record {
  moves = λ e. cc;
  first_fits = refl;
  last_fits = refl;
  end_fits = refl;
}

get_all-Lists_example :
    (v : List ℤ) × (get_all 10 by_three ≡ collected v) × Lists by_three (pos 10) v
get_all-Lists_example = get_all-Lists by_three 10 by_three-IsWalkable (omega arith)

get_all-zero_step_example : get_all 1000 stuck ≡ unfinished
get_all-zero_step_example = get_all-zero_step stuck 1000 refl refl refl
