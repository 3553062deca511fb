-- ===== src/Proxy/Find.antt =====
-- What find finds, and how the descriptors of the connections change with the list.
use distray.Base.{
  ℕ, zero, suc, ◌≡◌, ◌⊎◌, inl, inr, refl, Bool, true, false, ◌||◌, List, [], ◌∷◌, ◌++◌, none, some,
  arith, get_elem?, update_at, erase_at, Bool-cases,
}
use distray.Base.Int.{ℤ, ◌==ℤ◌}
use distray.Proxy.Connections.{Connection, find}

-- The connection has this worker or this controller.
abbrev pub fits : ℤ → ℤ → Connection → Bool
fits w k c = (c.worker_fd ==ℤ w) || (c.controller_fd ==ℤ k)

abbrev pub owns : ℤ → Connection → Bool
owns fd = fits fd fd

abbrev pub any_fits : ℤ → ℤ → List Connection → Bool
any_fits w k [] = false
any_fits w k (c ∷ cs) = fits w k c || any_fits w k cs

abbrev pub any_owns : ℤ → List Connection → Bool
any_owns fd = any_fits fd fd

pub find-none : (w k : ℤ) (cs : List Connection) → find cs w k ≡ none → any_fits w k cs ≡ false
unfolding find
find-none w k [] e = refl
find-none w k (c ∷ cs) e = ground (arith, find-none w k cs)

pub find-some :
    (w k : ℤ) (cs : List Connection) (i : ℕ)
    → find cs w k ≡ some i
    → (c : Connection) × (get_elem? cs i ≡ some c) × (fits w k c ≡ true)
unfolding find
find-some w k [] i e = cc
find-some w k (c ∷ cs) zero e = (c, refl, ground arith)
find-some w k (c ∷ cs) (suc i) e = find-some w k cs i (ground arith)

pub any_owns-update :
    (fd : ℤ) (f : Connection → Connection) (cs : List Connection) (i : ℕ) {c : Connection}
    → get_elem? cs i ≡ some c
    → (owns fd c ≡ true → owns fd (f c) ≡ true)
    → any_owns fd cs ≡ true
    → any_owns fd (update_at i f cs) ≡ true
any_owns-update fd f [] i e h o = cc
any_owns-update fd f (x ∷ cs) zero e h o = elim (Bool-cases (owns fd x)) [
  | inl own ↦ let same = h (ground arith) in ground arith
  | inr other ↦ ground arith
]
any_owns-update fd f (x ∷ cs) (suc i) e h o = ground (arith, any_owns-update fd f cs i e h)

pub any_owns-erase :
    (fd : ℤ) (cs : List Connection) (i : ℕ) {c : Connection}
    → get_elem? cs i ≡ some c
    → any_owns fd cs ≡ true
    → (owns fd c ≡ true) ⊎ (any_owns fd (erase_at i cs) ≡ true)
any_owns-erase fd [] i e o = cc
any_owns-erase fd (x ∷ cs) zero e o = ground arith
any_owns-erase fd (x ∷ cs) (suc i) {c} e o = ground (arith, any_owns-erase fd cs i {c = c} e)

pub any_owns-append :
    (fd : ℤ) (cs : List Connection) (c : Connection)
    → any_owns fd cs ≡ true
    → any_owns fd (cs ++ c ∷ []) ≡ true
any_owns-append fd [] c o = cc
any_owns-append fd (x ∷ cs) c o = ground (arith, any_owns-append fd cs c)
