-- ===== src/Controller/Keeping.antt =====
-- What the single steps of the controller make of a frame that is waiting or under way.
use distray.Base.{
  ℕ, ◌≡◌, ◌≢◌, ◌⊎◌, inl, inr, sym, ◌∙◌, Bool, true, false, List, [], ◌∷◌, some, get_elem?,
  update_at, Bool-cases, Option-cases, Any, In, Any-append_left, Any-erase_at, Any-update_at,
  Any-update_at_here,
}
use distray.Base.Int.{ℤ, negsuc, ◌==ℤ◌, ==ℤ_eq}
use distray.Wire.Outgoing.{Sent}
use distray.RemoteWorker.{RemoteWorker, Outcome}
use distray.RemoteWorker.Phases.{is_framing}
use distray.RemoteWorker.Transfer.{send}
use distray.Controller.{
  Controller, Step, running, stopped, ◌>>=◌, requeue, kill_worker, push_worker, after_send,
  write_worker,
}

-- Under way on a worker.
abbrev pub Holds : ℤ → RemoteWorker → Type 0
Holds f w = (is_framing w.state ≡ true) × (w.frame ≡ f)

abbrev pub Pending : {D : Type 0} → ℤ → Controller D → Type 0
Pending f s = In f s.frames ⊎ Any (Holds f) s.workers

-- What a step makes of a frame, where these frames were done on the way.
abbrev pub Kept : {D : Type 0} → ℤ → List ℤ → Step (Controller D) → Type 0
Kept f done (running s) = In f done ⊎ Pending f s
Kept f done (stopped e) = Unit

pub Kept-weaken :
    {D : Type 0} (f : ℤ) (a b : List ℤ) (m : Step (Controller D))
    → (In f a → In f b)
    → Kept f a m
    → Kept f b m
Kept-weaken f a b (running s) h (inl k) = inl (h k)
Kept-weaken f a b (running s) h (inr k) = inr k
Kept-weaken f a b (stopped e) h k = tt

-- A frame that is done is done behind every further step.
pub Kept-done : {D : Type 0} (f : ℤ) (a : List ℤ) (m : Step (Controller D)) → In f a → Kept f a m
Kept-done f a (running s) h = inl h
Kept-done f a (stopped e) h = tt

pub Kept-bind :
    {D : Type 0} (f : ℤ) (a : List ℤ)
    → (m : Step (Controller D)) (g : Controller D → Step (Controller D)) → Kept f a m
    → ((s : Controller D) → Pending f s → Kept f a (g s))
    → Kept f a (m >>= g)
Kept-bind f a (running s) g (inl k) h = Kept-done f a (g s) k
Kept-bind f a (running s) g (inr k) h = h s k
Kept-bind f a (stopped e) g k h = tt

requeue-In : (f frame : ℤ) (fs : List ℤ) → In f fs → In f (requeue frame fs)
requeue-In f frame fs h = elim (Bool-cases (frame ==ℤ negsuc 0)) [
  | inl e ↦ rw e h
  | inr e ↦ rw e (inr h)
]

requeue-here : (f frame : ℤ) (fs : List ℤ) → f ≢ negsuc 0 → frame ≡ f → In f (requeue frame fs)
requeue-here f frame fs n same = elim (Bool-cases (frame ==ℤ negsuc 0)) [
  | inl e ↦ absurd (n (sym same ∙ ==ℤ_eq frame (negsuc 0) e))
  | inr e ↦ rw e (inl same)
]

module _ {D : Type 0} (f : ℤ) (real : f ≢ negsuc 0) where
  -- The frame of a worker that is killed goes back to the queue.
  pub kill_worker-Kept :
      (done : List ℤ) (i : ℕ) (s : Controller D) → Pending f s → Kept f done (kill_worker i s)
  unfolding kill_worker
  kill_worker-Kept done i s h = elim (Option-cases (get_elem? s.workers i)) [
    | inl e ↦ rw (e, kill_worker) tt
    | inr (w, e) ↦
        rw (e, kill_worker)
          (inr (elim h [
            | inl queued ↦ inl (requeue-In f w.frame s.frames queued)
            | inr held ↦ elim (Any-erase_at (Holds f) s.workers i e held) [
              | inl elsewhere ↦ inr elsewhere
              | inr here ↦ inl (requeue-here f w.frame s.frames real here.1)
            ]
          ]))
  ]

-- Putting a worker in the place of another, which may be done with its frame.
pub update-Pending :
    {D : Type 0} (f : ℤ) (done : List ℤ) (i : ℕ) (w w' : RemoteWorker) (d : D) (s : Controller D)
    → get_elem? s.workers i ≡ some w
    → (Holds f w → In f done ⊎ Holds f w')
    → Pending f s
    → In f done ⊎ Pending f (record s { workers = update_at i (λ _. w') s.workers; disk = d })
update-Pending f done i w w' d s e moves (inl queued) = inr (inl queued)
update-Pending f done i w w' d s e moves (inr held) =
    elim (Any-update_at (Holds f) s.workers i w' e held) [
      | inl elsewhere ↦ inr (inr elsewhere)
      | inr here ↦ elim (moves here) [
        | inl finished_here ↦ inl finished_here
        | inr goes_on ↦ inr (inr (Any-update_at_here (Holds f) s.workers i w' e goes_on))
      ]
    ]

pub write_worker-Kept :
    {D : Type 0} (f : ℤ) (done : List ℤ) (i : ℕ) (answer : Sent) (s : Controller D)
    → Pending f s
    → Kept f done (write_worker i answer s)
unfolding write_worker
write_worker-Kept f done i answer s h = elim (Option-cases (get_elem? s.workers i)) [
  | inl e ↦ rw (e, write_worker) tt
  | inr (w, e) ↦ rw (e, write_worker) (go (send answer w).1 w e (send answer w).0 (λ k. inr k))
]
  where
    go :
        (success : Bool) (w : RemoteWorker)
        → get_elem? s.workers i ≡ some w
        → (w' : RemoteWorker) → (Holds f w → In f done ⊎ Holds f w')
        → Kept f done (after_send i s w' success)
    go true w e w' moves = update-Pending f done i w w' s.disk s e moves h
    go false w e w' moves = tt

pub push_worker-Kept :
    {D : Type 0} (f : ℤ) (s : Controller D) (o : Outcome D)
    → Pending f s
    → Kept f [] (push_worker s o)
push_worker-Kept f s (Outcome.continues w d) (inl queued) = inr (inl queued)
push_worker-Kept f s (Outcome.continues w d) (inr held) =
    inr (inr (Any-append_left (Holds f) s.workers (w ∷ []) held))
push_worker-Kept f s Outcome.exited h = tt
push_worker-Kept f s Outcome.unfinished h = tt
