-- ===== src/Controller/Handout.antt =====
-- Handing out frames: to idle workers, each at once at work on its own, until one or the other is
-- used up.
use distray.Base.{
  All, In, ℕ, suc, ◌≡◌, ◌⊎◌, inl, inr, refl, ◌∙◌, true, List, [], ◌∷◌, none, some, arith, get_elem?,
  update_at, Bool-cases, Option-cases, Any-update_at, Any-update_at_here,
}
use distray.Base.Int.{ℤ}
use distray.Parameters.{Parameters}
use distray.RemoteWorker.{RemoteWorker, System, State, Outcome, is_idle, run_frame}
use distray.RemoteWorker.Phases.{is_framing, is_rendering, OnFrame, Yields}
use distray.RemoteWorker.Phases.Frame.{run_frame-OnFrame}
use distray.Controller.Keeping.{Holds, Pending, Kept}
use distray.Controller.{
  Controller, Step, running, stopped, ◌>>=◌, get_idle_worker, put_worker, hand_out,
}

-- The first idle worker is one.
get_idle_worker_lem :
    (ws : List RemoteWorker) (i : ℕ)
    → get_idle_worker ws ≡ some i
    → (w : RemoteWorker) × (get_elem? ws i ≡ some w) × (is_idle w.state ≡ true)
unfolding get_idle_worker
get_idle_worker_lem [] i e = cc
get_idle_worker_lem (w ∷ ws) i e = elim (Bool-cases (is_idle w.state)) [
  | inl free ↦ let first : i ≡ 0 = ground arith in (w, rw first refl, free)
  | inr busy ↦ elim (Option-cases (get_idle_worker ws)) [
    | inl n ↦ cc (rw busy at (rw n at e))
    | inr (k, n) ↦
        let (w', at, free) = get_idle_worker_lem ws k n in
        let later : i ≡ suc k = ground arith in (w', rw later at, free)
  ]
]

-- Neither frames nor idle workers are left together.
abbrev pub Exhausted : {D : Type 0} → Step (Controller D) → Type 0
Exhausted (running s) = (s.frames ≡ []) ⊎ (get_idle_worker s.workers ≡ none)
Exhausted (stopped e) = Unit

Exhausted-bind :
    {D : Type 0} (m : Step (Controller D)) (g : Controller D → Step (Controller D))
    → ((s : Controller D) → Exhausted (g s))
    → Exhausted (m >>= g)
Exhausted-bind (running s) g h = h s
Exhausted-bind (stopped e) g h = tt

module _ (system : System) (parameters : Parameters) where
  open system use {Disk}

  idle_not_framing : (t : State) → is_idle t ≡ true → is_framing t ≡ true → ⊥
  idle_not_framing t i r = ground arith

  rendering_framing : (t : State) → is_rendering t ≡ true → is_framing t ≡ true
  rendering_framing t r = ground arith

  -- The queue is the one in hand.
  abbrev queued : List ℤ → Controller Disk → Controller Disk
  queued fs s = record s { frames = fs }

  -- A frame in hand, or under way, is still so when an idle worker has got the first one.
  given-Kept :
      (f first : ℤ) (fs : List ℤ) (i : ℕ) (w : RemoteWorker) (s : Controller Disk)
      → (o : Outcome Disk) → get_elem? s.workers i ≡ some w
      → is_idle w.state ≡ true
      → Yields (OnFrame is_rendering first) o
      → Pending f (queued (first ∷ fs) s)
      → ((s' : Controller Disk)
          → Pending f (queued fs s')
          → Kept f [] (hand_out system parameters fs s'))
      → Kept f [] (put_worker i s o >>= hand_out system parameters fs)
  given-Kept f first fs i w s Outcome.exited at free on h next = tt
  given-Kept f first fs i w s Outcome.unfinished at free on h next = tt
  given-Kept f first fs i w s (Outcome.continues w' d) at free (works, same) h next =
      next (record s { workers = update_at i (λ _. w') s.workers; disk = d })
        (elim h [
          | inl (inl now) ↦ inr (
              Any-update_at_here (Holds f) s.workers i w' at
                (rendering_framing w'.state works, same ∙ now))
          | inl (inr later) ↦ inl later
          | inr held ↦ elim (Any-update_at (Holds f) s.workers i w' at held) [
            | inl elsewhere ↦ inr elsewhere
            | inr (here, _) ↦ absurd (idle_not_framing w.state free here)
          ]
        ])

  pub hand_out-Kept :
      (f : ℤ) (fs : List ℤ) (s : Controller Disk)
      → Pending f (queued fs s)
      → Kept f [] (hand_out system parameters fs s)
  unfolding hand_out
  hand_out-Kept f [] s h = inr h
  hand_out-Kept f (first ∷ fs) s h = elim (Option-cases (get_idle_worker s.workers)) [
    | inl n ↦ rw (n, hand_out) (inr h)
    | inr (i, n) ↦
        let (w, at, free) = get_idle_worker_lem s.workers i n in
        rw (n, hand_out, at)
          (given-Kept f first fs i w s (run_frame system parameters first w s.disk) at free
            (run_frame-OnFrame system parameters first w s.disk) h
            (λ s' k. hand_out-Kept f fs s' k))
  ]

  exhausts : (fs : List ℤ) (s : Controller Disk) → Exhausted (hand_out system parameters fs s)
  unfolding hand_out
  exhausts [] s = inl refl
  exhausts (f ∷ fs) s = elim (Option-cases (get_idle_worker s.workers)) [
    | inl n ↦ rw (n, hand_out) (inr n)
    | inr (i, n) ↦
        let (w, at, free) = get_idle_worker_lem s.workers i n in
        rw (n, hand_out, at)
          (Exhausted-bind (put_worker i s (run_frame system parameters f w s.disk))
            (hand_out system parameters fs) (λ s'. exhausts fs s'))
  ]

  -- What holds of all that is in a list.
  All-In : (P : ℤ → Type 0) (fs : List ℤ) → ((f : ℤ) → In f fs → P f) → All P fs
  All-In P [] h = tt
  All-In P (f ∷ fs) h = (h f (inl refl), All-In P fs (λ g k. h g (inr k)))

  -- The loop that hands out the frames of the queue goes on until no frames are left, or no idle worker,
  -- and loses none: as long as the program goes on, each of the frames is still queued, or under way at a
  -- worker.
  pub hand_out-Exhausted :
      (fs : List ℤ) (s : Controller Disk)
      → Exhausted (hand_out system parameters fs s)
        × All (λ f. Kept f [] (hand_out system parameters fs s)) fs
  hand_out-Exhausted fs s = (
    exhausts fs s,
    All-In (λ f. Kept f [] (hand_out system parameters fs s)) fs
        (λ f h. hand_out-Kept f fs s (inl h)),
  )
