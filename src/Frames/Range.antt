-- ===== src/Frames/Range.antt =====
-- Frames::get_all: which frames it lists, and when its loop ends.
use distray.Base.{
  ℕ, zero, suc, ◌+◌, ◌-◌, ◌^◌, ◌≤◌, ◌<◌, ◌≡◌, ◌≢◌, refl, true, false, List, [], ◌∷◌, none, some,
  arith, if◌then◌else◌, get_elem?, Bool-cases, inl, inr,
}
use distray.Base.Int.{
  ℤ, pos, pos_part, neg_part, ◌+ℤ◌, scale, ltb_ℤ, fits_int, +ℤ_parts, eq_of_parts, int_laws,
  scale_parts, one_part, fits_int-parts, fits_int_of_parts,
}
use distray.Frames.{Frames, is_done, collected, unfinished, get_all_from, get_all}

-- A range that get_all can walk: a step other than 0, and no overflow one step behind the last frame.
pub record IsWalkable (f : Frames) : Type 0 where
  pub moves : f.step ≢ pos 0
  pub first_fits : fits_int f.first ≡ true
  pub last_fits : fits_int f.last ≡ true
  pub end_fits : fits_int (f.last +ℤ f.step) ≡ true

-- a - b for integers, 0 where it is negative.
abbrev pub gap : ℤ → ℤ → ℕ
gap a b = pos_part a + neg_part b - (pos_part b + neg_part a)

-- How far the last frame is ahead of `frame`.
abbrev pub ahead : Frames → ℤ → ℕ
ahead f frame = if ltb_ℤ (pos 0) f.step then gap f.last frame else gap frame f.last

-- More than the rounds that the loop makes from `frame` on.
abbrev pub rounds : Frames → ℤ → ℕ
rounds f frame = if is_done f frame then 0 else suc (ahead f frame)

abbrev pub kth : Frames → ℤ → ℕ → ℤ
kth f frame k = frame +ℤ scale k f.step

is_done-kth :
    (f : Frames) (frame : ℤ) (k : ℕ) → is_done f frame ≡ true → is_done f (kth f frame k) ≡ true
is_done-kth f frame k h = ground (arith, +ℤ_parts frame (scale k f.step), scale_parts k f.step)

kth-zero : (f : Frames) (frame : ℤ) → kth f frame 0 ≡ frame
kth-zero f frame = omega (int_laws, scale_parts 0 f.step)

kth-suc : (f : Frames) (frame : ℤ) (k : ℕ) → kth f frame (suc k) ≡ kth f (frame +ℤ f.step) k
kth-suc f frame k = omega (int_laws, scale_parts k f.step, scale_parts (suc k) f.step)

-- Short of the end the next frame fits, and is nearer to the end.
next_fits :
    (f : Frames) (frame : ℤ)
    → IsWalkable f
    → fits_int frame ≡ true
    → is_done f frame ≡ false
    → fits_int (frame +ℤ f.step) ≡ true
next_fits f frame w fits h =
    let next = frame +ℤ f.step in
    let (a, b) = fits_int-parts frame fits in
    let (c, d) = fits_int-parts _ w.end_fits in
    fits_int_of_parts next (bounds a b c d).0 (bounds a b c d).1
  where
    bounds :
        pos_part frame < 2 ^ 31
        → neg_part frame ≤ 2 ^ 31
        → pos_part (f.last +ℤ f.step) < 2 ^ 31
        → neg_part (f.last +ℤ f.step) ≤ 2 ^ 31
        → (pos_part (frame +ℤ f.step) < 2 ^ 31) × (neg_part (frame +ℤ f.step) ≤ 2 ^ 31)
    bounds a b c d = ground (
      arith,
      +ℤ_parts frame f.step,
      +ℤ_parts f.last f.step,
      one_part (frame +ℤ f.step),
      one_part (f.last +ℤ f.step),
      one_part frame,
      one_part f.step,
    )

rounds_fall :
    (f : Frames) (frame : ℤ)
    → f.step ≢ pos 0
    → is_done f frame ≡ false
    → rounds f (frame +ℤ f.step) < rounds f frame
rounds_fall f frame w h = ground (arith, +ℤ_parts frame f.step, eq_of_parts f.step (pos 0))

-- `v` lists the frames from `frame` on: entry k is k steps behind it, up to the last one that is not
-- past the end.
abbrev pub Lists : Frames → ℤ → List ℤ → Type 0
Lists f frame v =
    (k : ℕ) → get_elem? v k ≡ (if is_done f (kth f frame k) then none else some (kth f frame k))

Lists-nil : (f : Frames) (frame : ℤ) → is_done f frame ≡ true → Lists f frame []
Lists-nil f frame h k = rw (is_done-kth f frame k h)

Lists-cons :
    (f : Frames) (frame : ℤ) (v : List ℤ)
    → is_done f frame ≡ false
    → Lists f (frame +ℤ f.step) v
    → Lists f frame (frame ∷ v)
Lists-cons f frame v h l zero = rw (kth-zero f frame, h)
Lists-cons f frame v h l (suc k) = rw (kth-suc f frame k) (l k)

get_all_from-Lists :
    (fuel : ℕ) (f : Frames) (frame : ℤ)
    → IsWalkable f
    → fits_int frame ≡ true
    → rounds f frame < fuel
    → (v : List ℤ) × (get_all_from fuel f frame ≡ collected v) × Lists f frame v
unfolding get_all_from
get_all_from-Lists zero f frame w fits h = absurd (omega arith)
get_all_from-Lists (suc fuel) f frame w fits h = elim (Bool-cases (is_done f frame)) [
  | inl e ↦ ([], rw e, Lists-nil f frame e)
  | inr e ↦
      let next = next_fits f frame w fits e in
      let (v, g, l) =
        get_all_from-Lists fuel f (frame +ℤ f.step) w next
          (omega (arith, rounds_fall f frame w.moves e)) in
      (frame ∷ v, rw (e, next, g), Lists-cons f frame v e l)
]

-- With a step other than 0 and no overflow the loop of get_all ends, within the distance of the ends
-- and two rounds, and lists first, first + step, first + 2 * step and so on: exactly those which
-- are not past the last frame, in this order, and none if the first already is.
pub get_all-Lists :
    (f : Frames) (fuel : ℕ)
    → IsWalkable f
    → ahead f f.first + 1 < fuel
    → (v : List ℤ) × (get_all fuel f ≡ collected v) × Lists f f.first v
unfolding get_all
get_all-Lists f fuel w h = get_all_from-Lists fuel f f.first w w.first_fits (ground arith)

get_all_from-unfinished :
    (fuel : ℕ) (f : Frames) (frame : ℤ)
    → f.step ≡ pos 0
    → fits_int frame ≡ true
    → frame ≡ f.first
    → is_done f f.first ≡ false
    → get_all_from fuel f frame ≡ unfinished
unfolding get_all_from
get_all_from-unfinished zero f frame s fits e h = refl
get_all_from-unfinished (suc fuel) f frame s fits e h =
    let same : frame +ℤ f.step ≡ frame = rw s (omega int_laws) in
    rw (same, get_all_from-unfinished fuel f frame s fits e h, fits, e, h)

-- With step 0 and a first frame that is not below the last, the loop of get_all never ends, however
-- long it runs.
pub get_all-zero_step :
    (f : Frames) (fuel : ℕ)
    → f.step ≡ pos 0
    → fits_int f.first ≡ true
    → is_done f f.first ≡ false
    → get_all fuel f ≡ unfinished
unfolding get_all
get_all-zero_step f fuel s fits h = get_all_from-unfinished fuel f f.first s fits refl h
