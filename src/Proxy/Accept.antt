-- ===== src/Proxy/Accept.antt =====
-- How accepting a connection changes the list: the descriptors stay, and each newcomer is paired with
-- the oldest connection that waits for one.
use distray.Base.{
  ℕ, zero, suc, ◌≡◌, ◌≢◌, ◌⊎◌, inl, inr, sym, ap, subst, true, false, List, [], ◌∷◌, ◌++◌, none,
  some, arith, get_elem?, update_at, Bool-cases, Option-cases, All, All-append, take,
}
use distray.Base.Int.{ℤ, ◌==ℤ◌, ==ℤ_eq}
use distray.Proxy.Connections.{Connection, find, set_worker_fd, set_controller_fd}
use distray.Proxy.Find.{any_owns, find-some, any_owns-update, any_owns-append}
use distray.Proxy.{no_fd, dont_care, accept_worker, accept_controller}

-- No descriptor is the -2 that find takes for "don't care".
abbrev pub IsLegal : Connection → Type 0
IsLegal c = (c.worker_fd ≢ dont_care) × (c.controller_fd ≢ dont_care)

abbrev pub HasWorker : Connection → Type 0
HasWorker c = c.worker_fd ≢ no_fd

abbrev pub HasController : Connection → Type 0
HasController c = c.controller_fd ≢ no_fd

All-get_elem? :
    (P : Connection → Type 0) (cs : List Connection) (k : ℕ) {c : Connection}
    → All P cs
    → get_elem? cs k ≡ some c
    → P c
All-get_elem? P [] k h e = cc
All-get_elem? P (x ∷ cs) zero {c} h e = let same : x ≡ c = ground arith in subst P same h.0
All-get_elem? P (x ∷ cs) (suc k) h e = All-get_elem? P cs k h.1 e

All-update_at :
    (P : Connection → Type 0) (f : Connection → Connection) (cs : List Connection) (k : ℕ)
    → ((c : Connection) → P c → P (f c))
    → All P cs
    → All P (update_at k f cs)
All-update_at P f [] k g h = tt
All-update_at P f (x ∷ cs) zero g h = (g x h.0, h.1)
All-update_at P f (x ∷ cs) (suc k) g h = (h.0, All-update_at P f cs k g h.1)

not-eq : (a b : ℤ) → a ≢ b → (a ==ℤ b) ≡ false
not-eq a b h = elim (Bool-cases (a ==ℤ b)) [ inl e ↦ absurd (h (==ℤ_eq a b e)) | inr e ↦ e ]

-- Whom a new worker finds has no worker, and those before it have one.
find-waiting_controller :
    (cs : List Connection) (k : ℕ)
    → All IsLegal cs
    → find cs no_fd dont_care ≡ some k
    → (c : Connection) × (get_elem? cs k ≡ some c) × (c.worker_fd ≡ no_fd)
find-waiting_controller cs k legal e =
    let (c, at, f) = find-some no_fd dont_care cs k e in
    let l = All-get_elem? IsLegal cs k legal at in
    let away = not-eq c.controller_fd dont_care l.1 in
    (c, at, ==ℤ_eq c.worker_fd no_fd (ground arith))

find-waiting_worker :
    (cs : List Connection) (k : ℕ)
    → All IsLegal cs
    → find cs dont_care no_fd ≡ some k
    → (c : Connection) × (get_elem? cs k ≡ some c) × (c.controller_fd ≡ no_fd)
find-waiting_worker cs k legal e =
    let (c, at, f) = find-some dont_care no_fd cs k e in
    let l = All-get_elem? IsLegal cs k legal at in
    let away = not-eq c.worker_fd dont_care l.0 in
    (c, at, ==ℤ_eq c.controller_fd no_fd (ground arith))

find-before_worker :
    (cs : List Connection) (k : ℕ) → find cs no_fd dont_care ≡ some k → All HasWorker (take k cs)
unfolding find
find-before_worker [] k e = cc
find-before_worker (c ∷ cs) zero e = tt
find-before_worker (c ∷ cs) (suc k) e =
    (λ h. ground (arith, ap (λ w. w ==ℤ no_fd) h), find-before_worker cs k (ground arith))

find-before_controller :
    (cs : List Connection) (k : ℕ)
    → find cs dont_care no_fd ≡ some k
    → All HasController (take k cs)
unfolding find
find-before_controller [] k e = cc
find-before_controller (c ∷ cs) zero e = tt
find-before_controller (c ∷ cs) (suc k) e =
    (λ h. ground (arith, ap (λ w. w ==ℤ no_fd) h), find-before_controller cs k (ground arith))

find-none_worker : (cs : List Connection) → find cs no_fd dont_care ≡ none → All HasWorker cs
unfolding find
find-none_worker [] e = tt
find-none_worker (c ∷ cs) e =
    (λ h. ground (arith, ap (λ w. w ==ℤ no_fd) h), find-none_worker cs (ground arith))

find-none_controller :
    (cs : List Connection) → find cs dont_care no_fd ≡ none → All HasController cs
unfolding find
find-none_controller [] e = tt
find-none_controller (c ∷ cs) e =
    (λ h. ground (arith, ap (λ w. w ==ℤ no_fd) h), find-none_controller cs (ground arith))

-- A connection that has only a worker, or only a controller, and no bytes on their way.
abbrev pub lone_worker : ℤ → Connection
lone_worker fd = record { worker_fd = fd; controller_fd = no_fd; w2c = []; c2w = [] }

abbrev pub lone_controller : ℤ → Connection
lone_controller fd = record { worker_fd = no_fd; controller_fd = fd; w2c = []; c2w = [] }

-- Where no descriptor of a connection is -2, a new worker joins the oldest connection that waits for
-- one, which keeps all else; only where none waits does it open a connection of its own, at the end.
pub accept_worker_lem :
    (cs : List Connection) (fd : ℤ)
    → All IsLegal cs
    → (All HasWorker cs × (accept_worker cs fd ≡ cs ++ lone_worker fd ∷ []))
      ⊎ ((k : ℕ) × (c : Connection) × (get_elem? cs k ≡ some c)
          × (c.worker_fd ≡ no_fd)
          × All HasWorker (take k cs)
          × (accept_worker cs fd ≡ update_at k (set_worker_fd fd) cs))
unfolding accept_worker
accept_worker_lem cs fd legal = elim (Option-cases (find cs no_fd dont_care)) [
  | inl e ↦ inl (find-none_worker cs e, rw (e, accept_worker))
  | inr (k, e) ↦
      let (c, at, waits) = find-waiting_controller cs k legal e in
      inr (k, c, at, waits, find-before_worker cs k e, rw (e, accept_worker))
]

-- Where no descriptor of a connection is -2, a new controller joins the oldest connection that waits
-- for one, which keeps all else; only where none waits does it open a connection of its own, at the
-- end.
pub accept_controller_lem :
    (cs : List Connection) (fd : ℤ)
    → All IsLegal cs
    → (All HasController cs × (accept_controller cs fd ≡ cs ++ lone_controller fd ∷ []))
      ⊎ ((k : ℕ) × (c : Connection) × (get_elem? cs k ≡ some c)
          × (c.controller_fd ≡ no_fd)
          × All HasController (take k cs)
          × (accept_controller cs fd ≡ update_at k (set_controller_fd fd) cs))
unfolding accept_controller
accept_controller_lem cs fd legal = elim (Option-cases (find cs dont_care no_fd)) [
  | inl e ↦ inl (find-none_controller cs e, rw (e, accept_controller))
  | inr (k, e) ↦
      let (c, at, waits) = find-waiting_worker cs k legal e in
      inr (k, c, at, waits, find-before_controller cs k e, rw (e, accept_controller))
]

-- No connection waits for a worker while another waits for a controller.
abbrev pub Paired : List Connection → Type 0
Paired cs = All HasWorker cs ⊎ All HasController cs

pub accept_worker-Paired :
    (cs : List Connection) (fd : ℤ)
    → All IsLegal cs
    → fd ≢ no_fd
    → Paired cs
    → Paired (accept_worker cs fd)
accept_worker-Paired cs fd legal n paired = elim (accept_worker_lem cs fd legal) [
  | inl (full, e) ↦ inl (rw e (All-append HasWorker cs _ full (n, tt)))
  | inr (k, c, at, waits, _, e) ↦ elim paired [
    | inl full ↦ absurd (All-get_elem? HasWorker cs k full at waits)
    | inr full ↦ inr (rw e (All-update_at HasController _ cs k (λ _ h. h) full))
  ]
]

pub accept_controller-Paired :
    (cs : List Connection) (fd : ℤ)
    → All IsLegal cs
    → fd ≢ no_fd
    → Paired cs
    → Paired (accept_controller cs fd)
accept_controller-Paired cs fd legal n paired = elim (accept_controller_lem cs fd legal) [
  | inl (full, e) ↦ inr (rw e (All-append HasController cs _ full (n, tt)))
  | inr (k, c, at, waits, _, e) ↦ elim paired [
    | inr full ↦ absurd (All-get_elem? HasController cs k full at waits)
    | inl full ↦ inl (rw e (All-update_at HasWorker _ cs k (λ _ h. h) full))
  ]
]

pub accept_worker-IsLegal :
    (cs : List Connection) (fd : ℤ)
    → fd ≢ dont_care
    → All IsLegal cs
    → All IsLegal (accept_worker cs fd)
accept_worker-IsLegal cs fd n legal = elim (accept_worker_lem cs fd legal) [
  | inl (_, e) ↦ rw e (All-append IsLegal cs _ legal ((n, λ h. cc), tt))
  | inr (k, c, _, _, _, e) ↦ rw e (All-update_at IsLegal _ cs k (λ _ h. (n, h.1)) legal)
]

pub accept_controller-IsLegal :
    (cs : List Connection) (fd : ℤ)
    → fd ≢ dont_care
    → All IsLegal cs
    → All IsLegal (accept_controller cs fd)
accept_controller-IsLegal cs fd n legal = elim (accept_controller_lem cs fd legal) [
  | inl (_, e) ↦ rw e (All-append IsLegal cs _ legal ((λ h. cc, n), tt))
  | inr (k, c, _, _, _, e) ↦ rw e (All-update_at IsLegal _ cs k (λ _ h. (h.0, n)) legal)
]

-- No descriptor is lost when a newcomer is accepted.
pub accept_worker-owns :
    (cs : List Connection) (new_fd fd : ℤ)
    → All IsLegal cs
    → fd ≢ no_fd
    → any_owns fd cs ≡ true
    → any_owns fd (accept_worker cs new_fd) ≡ true
accept_worker-owns cs new_fd fd legal n o = elim (accept_worker_lem cs new_fd legal) [
  | inl (_, e) ↦ rw e (any_owns-append fd cs _ o)
  | inr (k, c, at, waits, _, e) ↦
      let other = not-eq no_fd fd (λ h. n (sym h)) in
      rw e (any_owns-update fd _ cs k at (λ h. ground (arith, ap (λ w. w ==ℤ fd) waits)) o)
]

pub accept_controller-owns :
    (cs : List Connection) (new_fd fd : ℤ)
    → All IsLegal cs
    → fd ≢ no_fd
    → any_owns fd cs ≡ true
    → any_owns fd (accept_controller cs new_fd) ≡ true
accept_controller-owns cs new_fd fd legal n o = elim (accept_controller_lem cs new_fd legal) [
  | inl (_, e) ↦ rw e (any_owns-append fd cs _ o)
  | inr (k, c, at, waits, _, e) ↦
      let other = not-eq no_fd fd (λ h. n (sym h)) in
      rw e (any_owns-update fd _ cs k at (λ h. ground (arith, ap (λ w. w ==ℤ fd) waits)) o)
]
