-- ===== src/Controller/Proxies.antt =====
-- The connections to the proxies, before each poll.
use distray.Base.{
  ℕ, zero, suc, ◌+◌, ◌≤◌, ◌<◌, ◌≡◌, inl, inr, refl, sym, subst, Bool, true, false, List, [], ◌∷◌,
  ◌++◌, arith, ap, ◌∙◌, ◌≢◌, if◌then◌else◌, length, Bool-cases, Any, ◌==◌,
}
use distray.Base.Int.{pos, ◌==ℤ◌, ==ℤ_refl}
use distray.Parameters.{Parameters}
use distray.RemoteWorker.{
  RemoteWorker, System, continues, new, start, enough, send_request, dispatch_from,
  receive_welcome_response,
}
use distray.Drp.{welcome, request_of}
use distray.RemoteWorker.Transfer.{set_proxy_index}
use distray.Controller.{
  Controller, Step, running, stopped, is_taken, missing, connect_proxy, connect_proxies,
}

abbrev pub one_if : Bool → ℕ
one_if b = if b then 1 else 0

-- How many workers stand for a proxy.
abbrev pub count : ℕ → List RemoteWorker → ℕ
count k [] = 0
count k (w ∷ ws) = one_if (w.proxy_index ==ℤ pos k) + count k ws

abbrev times : ℕ → List ℕ → ℕ
times k [] = 0
times k (i ∷ is) = one_if (pos i ==ℤ pos k) + times k is

count-append :
    (k : ℕ) (ws : List RemoteWorker) (w : RemoteWorker)
    → count k (ws ++ w ∷ []) ≡ one_if (w.proxy_index ==ℤ pos k) + count k ws
count-append k [] w = refl
count-append k (v ∷ ws) w = omega (arith, count-append k ws w)

count-free : (k : ℕ) (ws : List RemoteWorker) → is_taken k ws ≡ false → count k ws ≡ 0
unfolding is_taken
count-free k [] h = refl
count-free k (w ∷ ws) h = elim (Bool-cases (w.proxy_index ==ℤ pos k)) [
  | inl e ↦ ground arith
  | inr e ↦ let rest = count-free k ws (ground arith) in rw e (omega (arith, rest))
]

count-taken : (k : ℕ) (ws : List RemoteWorker) → is_taken k ws ≡ true → 1 ≤ count k ws
unfolding is_taken
count-taken k [] h = cc
count-taken k (w ∷ ws) h = elim (Bool-cases (w.proxy_index ==ℤ pos k)) [
  | inl e ↦ rw e (omega arith)
  | inr e ↦ let rest = count-taken k ws (ground arith) in rw e (omega (arith, rest))
]

pos_apart : (i k : ℕ) → i ≢ k → (pos i ==ℤ pos k) ≡ false
pos_apart i k apart = ground arith

times-below : (ws : List RemoteWorker) (n i k : ℕ) → k < i → times k (missing ws n i) ≡ 0
unfolding missing
times-below ws zero i k lt = refl
times-below ws (suc n) i k lt =
    let rest = times-below ws n (suc i) k (omega arith) in
    let other = pos_apart i k (λ e. omega arith) in
    elim (Bool-cases (is_taken i ws)) [
      | inl taken ↦ rw taken rest
      | inr free ↦ rw (free, other) (omega (arith, rest))
    ]

plus_zero : {a b : ℕ} → a ≡ b → 0 + a ≡ b
plus_zero e = omega (arith, e)

-- Each proxy that no worker stands for is among the missing once, and no other is.
times-missing :
    (ws : List RemoteWorker) (n i k : ℕ)
    → i ≤ k
    → k < i + n
    → times k (missing ws n i) ≡ (if is_taken k ws then 0 else 1)
unfolding missing
times-missing ws zero i k le lt = absurd (omega arith)
times-missing ws (suc n) i k le lt = elim (Bool-cases (k == i)) [
  | inl here ↦
      let same : k ≡ i = ground arith in
      let rest = times-below ws n (suc i) k (omega arith) in
      let own : (pos i ==ℤ pos k) ≡ true =
        subst (λ j. (pos i ==ℤ pos j) ≡ true) (sym same) (==ℤ_refl (pos i)) in
      elim (Bool-cases (is_taken i ws)) [
        | inl taken ↦
            let also : is_taken k ws ≡ true = subst (λ j. is_taken j ws ≡ true) (sym same) taken in
            rw (taken, also) rest
        | inr free ↦
            let also : is_taken k ws ≡ false = subst (λ j. is_taken j ws ≡ false) (sym same) free in
            rw (free, also, own) (omega (arith, rest))
      ]
  | inr further ↦
      let beyond : suc i ≤ k = ground arith in
      let rest = times-missing ws n (suc i) k beyond (omega arith) in
      let other = pos_apart i k (λ e. omega arith) in
      elim (Bool-cases (is_taken i ws)) [
        | inl taken ↦ rw taken rest
        | inr free ↦ rw (free, other) (plus_zero rest)
      ]
]

-- What holds of one of the missing holds of a proxy that no worker stands for.
Any-missing :
    (P : ℕ → Type 0) (ws : List RemoteWorker) (n i : ℕ)
    → Any P (missing ws n i)
    → (j : ℕ) × (j < i + n) × (count j ws ≡ 0) × P j
unfolding missing
Any-missing P ws zero i h = elim h [ ]
Any-missing P ws (suc n) i h = elim (Bool-cases (is_taken i ws)) [
  | inl taken ↦
      let (j, lt, none_there, p) = Any-missing P ws n (suc i) (rw taken at h) in
      (j, omega arith, none_there, p)
  | inr free ↦ elim (rw free at h) [
    | inl here ↦ (i, omega arith, count-free i ws free, here)
    | inr later ↦
        let (j, lt, none_there, p) = Any-missing P ws n (suc i) later in
        (j, omega arith, none_there, p)
  ]
]

module _ (system : System) (parameters : Parameters) where
  open system use {Disk}

  -- A connection that is started waits for the welcome, for the same proxy.
  start-new :
      (i : ℕ) (d : Disk)
      → (w : RemoteWorker) × (start system parameters (set_proxy_index (pos i) new) d
          ≡ continues w d)
        × (w.proxy_index ≡ pos i)
  unfolding start new
  start-new i d =
      let fuel : ℕ = length parameters.in_copies + length parameters.out_copies + 3 in
      let rounds : enough system parameters ≡ suc fuel = omega arith in
      let w =
        send_request system parameters (request_of welcome) receive_welcome_response
          (set_proxy_index (pos i) new) in
      (
        w,
        subst
            (λ n. dispatch_from system parameters n (set_proxy_index (pos i) new) d ≡ continues w d)
            (sym rounds) refl,
        refl,
      )

  -- Where the connections have come through there are as many workers more as the list has of that
  -- proxy; where they have not, one of them failed.
  abbrev Grown : ℕ → (ℕ → Bool) → ℕ → List ℕ → Step (Controller Disk) → Type 0
  Grown k connects before is (running s) = count k s.workers ≡ before + times k is
  Grown k connects before is (stopped e) = Any (λ i. connects i ≡ false) is

  Grown-cons :
      (k i : ℕ) (connects : ℕ → Bool) (before : ℕ) (is : List ℕ) (m : Step (Controller Disk))
      → Grown k connects (one_if (pos i ==ℤ pos k) + before) is m
      → Grown k connects before (i ∷ is) m
  Grown-cons k i connects before is (running s) h = omega (arith, h)
  Grown-cons k i connects before is (stopped e) h = inr h

  connect_proxies-Grown :
      (k : ℕ) (is : List ℕ) (connects : ℕ → Bool) (s : Controller Disk)
      → Grown k connects (count k s.workers) is (connect_proxies system parameters is connects s)
  unfolding connect_proxies
  connect_proxies-Grown k [] connects s = omega arith
  connect_proxies-Grown k (i ∷ is) connects s = elim (Bool-cases (connects i)) [
    | inr refused ↦ rw refused (inl refused)
    | inl connected ↦
        let (w, started, own) = start-new i s.disk in
        let s1 = record s { workers = s.workers ++ w ∷ [] } in
        let one_more : count k s1.workers ≡ one_if (pos i ==ℤ pos k) + count k s.workers =
          count-append k s.workers w ∙ ap (λ z. one_if (z ==ℤ pos k) + count k s.workers) own in
        rw connected (
          rw (started, connect_proxy)
            (Grown-cons k i connects (count k s.workers) is
              (connect_proxies system parameters is connects s1)
              (subst (λ c. Grown k connects c is (connect_proxies system parameters is connects s1))
                one_more (connect_proxies-Grown k is connects s1))))
  ]

  -- For the workers before, and what has come of the connections.
  abbrev pub Covers : ℕ → (ℕ → Bool) → List RemoteWorker → Step (Controller Disk) → Type 0
  Covers k connects ws (running s) = count k s.workers ≡ (if count k ws == 0 then 1 else count k ws)
  Covers k connects ws (stopped e) =
      (i : ℕ) × (i < length parameters.proxy_endpoints) × (count i ws ≡ 0) × (connects i ≡ false)

  Grown-Covers :
      (k : ℕ) (connects : ℕ → Bool) (ws : List RemoteWorker) (m : Step (Controller Disk))
      → k < length parameters.proxy_endpoints
      → Grown k connects (count k ws) (missing ws (length parameters.proxy_endpoints) 0) m
      → Covers k connects ws m
  Grown-Covers k connects ws (stopped e) h grown =
      let (i, lt, none_there, refused) =
        Any-missing (λ i. connects i ≡ false) ws (length parameters.proxy_endpoints) 0 grown in
      (i, omega arith, none_there, refused)
  Grown-Covers k connects ws (running s) h grown =
      let once =
        times-missing ws (length parameters.proxy_endpoints) 0 k (omega arith) (omega arith) in
      elim (Bool-cases (is_taken k ws)) [
        | inl taken ↦
            let some_there = count-taken k ws taken in
            let none_new = rw taken at once in ground (arith, grown, none_new, some_there)
        | inr free ↦
            let none_there = count-free k ws free in
            let one_new = rw free at once in ground (arith, grown, one_new, none_there)
      ]

  -- Before each poll the connections that are missing are made, and no other: of a proxy that no worker
  -- stood for there is exactly one worker behind them, and of a proxy that had workers there are as many
  -- as before. The only other outcome is that the connection to a proxy that no worker stood for has
  -- failed.
  pub connect_proxies-Covers :
      (k : ℕ) (connects : ℕ → Bool) (s : Controller Disk)
      → k < length parameters.proxy_endpoints
      → Covers k connects s.workers (
          connect_proxies system parameters
            (missing s.workers (length parameters.proxy_endpoints) 0)
            connects
            s)
  connect_proxies-Covers k connects s h =
      let left = missing s.workers (length parameters.proxy_endpoints) 0 in
      Grown-Covers k connects s.workers (connect_proxies system parameters left connects s) h
        (connect_proxies-Grown k left connects s)
