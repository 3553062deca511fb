-- ===== src/Base/Members.antt =====
-- That a list has an element, by recursion, so that the tactics read it.
use Prim.Native.Nat.{ℕ, zero, suc}
use mathlib.Core.Path.{◌≡◌, subst}
use mathlib.Core.Logic.{◌⊎◌, inl, inr}
use mathlib.Core.List.{List, [], ◌∷◌, ◌++◌}
use mathlib.Core.Option.{some}
use native.Mathlib.Omega.{arith}
use distray.Base.Lists.{All, get_elem?, update_at, erase_at}

module _ {ℓ} {A : Type ℓ} (P : A → Type 0) where
  abbrev pub Any : List A → Type 0
  Any [] = ⊥
  Any (x ∷ xs) = P x ⊎ Any xs

  pub Any-append_left : (xs ys : List A) → Any xs → Any (xs ++ ys)
  Any-append_left [] ys h = elim h [ ]
  Any-append_left (x ∷ xs) ys (inl p) = inl p
  Any-append_left (x ∷ xs) ys (inr h) = inr (Any-append_left xs ys h)

  pub Any-append_right : (xs ys : List A) → Any ys → Any (xs ++ ys)
  Any-append_right [] ys h = h
  Any-append_right (x ∷ xs) ys h = inr (Any-append_right xs ys h)

  pub Any-get_elem? : (xs : List A) (i : ℕ) {x : A} → get_elem? xs i ≡ some x → P x → Any xs
  Any-get_elem? [] i e p = cc
  Any-get_elem? (y ∷ xs) zero e p = let same : _ ≡ y = ground arith in inl (subst P same p)
  Any-get_elem? (y ∷ xs) (suc i) e p = inr (Any-get_elem? xs i e p)

  -- Taking one element away.
  pub Any-erase_at :
      (xs : List A) (i : ℕ) {x : A} → get_elem? xs i ≡ some x → Any xs → Any (erase_at i xs) ⊎ P x
  Any-erase_at [] i e h = elim h [ ]
  Any-erase_at (y ∷ xs) zero e (inl p) = let same : y ≡ _ = ground arith in inr (subst P same p)
  Any-erase_at (y ∷ xs) zero e (inr h) = inl h
  Any-erase_at (y ∷ xs) (suc i) e (inl p) = inl (inl p)
  Any-erase_at (y ∷ xs) (suc i) e (inr h) = elim (Any-erase_at xs i e h) [
    | inl k ↦ inl (inr k)
    | inr p ↦ inr p
  ]

  -- Putting another element in its place.
  pub Any-update_at :
      (xs : List A) (i : ℕ) {x : A} (y : A)
      → get_elem? xs i ≡ some x
      → Any xs
      → Any (update_at i (λ _. y) xs) ⊎ P x
  Any-update_at [] i y e h = elim h [ ]
  Any-update_at (z ∷ xs) zero y e (inl p) = let same : z ≡ _ = ground arith in inr (subst P same p)
  Any-update_at (z ∷ xs) zero y e (inr h) = inl (inr h)
  Any-update_at (z ∷ xs) (suc i) y e (inl p) = inl (inl p)
  Any-update_at (z ∷ xs) (suc i) y e (inr h) = elim (Any-update_at xs i y e h) [
    | inl k ↦ inl (inr k)
    | inr p ↦ inr p
  ]

  pub Any-update_at_here :
      (xs : List A) (i : ℕ) {x : A} (y : A)
      → get_elem? xs i ≡ some x
      → P y
      → Any (update_at i (λ _. y) xs)
  Any-update_at_here [] i y e p = cc
  Any-update_at_here (z ∷ xs) zero y e p = inl p
  Any-update_at_here (z ∷ xs) (suc i) y e p = inr (Any-update_at_here xs i y e p)

-- The same steps on a property of all elements.
module _ {ℓ} {A : Type ℓ} (P : A → Type 0) where
  pub All-get_elem? : (xs : List A) (i : ℕ) {x : A} → get_elem? xs i ≡ some x → All P xs → P x
  All-get_elem? [] i e h = cc
  All-get_elem? (y ∷ xs) zero e (p, h) = let same : y ≡ _ = ground arith in subst P same p
  All-get_elem? (y ∷ xs) (suc i) e (p, h) = All-get_elem? xs i e h

  pub All-erase_at : (xs : List A) (i : ℕ) → All P xs → All P (erase_at i xs)
  All-erase_at [] i h = h
  All-erase_at (y ∷ xs) zero (p, h) = h
  All-erase_at (y ∷ xs) (suc i) (p, h) = (p, All-erase_at xs i h)

  pub All-update_at :
      (xs : List A) (i : ℕ) (y : A) → P y → All P xs → All P (update_at i (λ _. y) xs)
  All-update_at [] i y p h = h
  All-update_at (z ∷ xs) zero y p (q, h) = (p, h)
  All-update_at (z ∷ xs) (suc i) y p (q, h) = (q, All-update_at xs i y p h)

-- `a` is in the list.
abbrev pub In : {A : Type 0} → A → List A → Type 0
In a = Any (λ x. x ≡ a)
