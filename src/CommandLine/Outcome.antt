-- ===== src/CommandLine/Outcome.antt =====
-- What parse_arguments comes to: parameters, an exit status other than 0, an exception, or the end of
-- the fuel. What a refused command line has filled is used by nothing.
use distray.Base.{ℕ, ◌≡◌, ◌⊎◌, refl, Bool, true, false, if◌then◌else◌}

pub data Verdict {ℓ} (A : Type ℓ) : Type ℓ where
  accepted : A → Verdict A
  refused : ℕ → Verdict A
  threw : Verdict A
  unfinished : Verdict A

-- The first refusal is that of the chain.
infixl 5 ◌>>=◌
abbrev pub ◌>>=◌ {ℓ κ} :
    {A : Type ℓ} {B : Type κ} (first : Verdict A) (next : A → Verdict B) → Verdict B
accepted value >>= next = next value
refused status >>= next = refused status
threw >>= next = threw
unfinished >>= next = unfinished

-- Parameters with a property, or one of the two exit statuses: neither an exception nor the end of
-- the fuel.
module _ {ℓ} {A : Type ℓ} (Q : A → Type 0) where
  abbrev pub Settles : Verdict A → Type 0
  Settles (accepted a) = Q a
  Settles (refused status) = (status ≡ 1) ⊎ (status ≡ 2)
  Settles threw = ⊥
  Settles unfinished = ⊥

  pub Settles-if :
      (b : Bool) (m n : Verdict A)
      → (b ≡ true → Settles m)
      → (b ≡ false → Settles n)
      → Settles (if b then m else n)
  Settles-if true m n h k = h refl
  Settles-if false m n h k = k refl

pub Settles-bind {ℓ κ} :
    {A : Type ℓ} {B : Type κ} (Q : A → Type 0) (R : B → Type 0) (m : Verdict A) (f : A → Verdict B)
    → Settles Q m
    → ((a : A) → Q a → Settles R (f a))
    → Settles R (m >>= f)
Settles-bind Q R (accepted a) f h k = k a h
Settles-bind Q R (refused status) f h k = h
Settles-bind Q R threw f h k = elim h [ ]
Settles-bind Q R unfinished f h k = elim h [ ]
