-- ===== src/Controller/Lossless.antt =====
-- No frame is lost by the loop of start_controller, whatever becomes of the workers.
use distray.Base.{
  ◌≡◌, ◌≢◌, ◌⊎◌, inl, inr, refl, sym, subst, Bool, true, false, List, [], ◌∷◌, ◌++◌, arith,
  if◌then◌else◌, length, take, Any, In, Any-append_left, Any-append_right,
}
use distray.Base.Int.{ℤ, negsuc}
use distray.Parameters.{Parameters}
use distray.RemoteWorker.{RemoteWorker, System, State, is_idle, start, new}
use distray.RemoteWorker.Phases.{is_framing}
use distray.Controller.Keeping.{Holds, Pending, Kept, Kept-weaken, Kept-bind, push_worker-Kept}
use distray.Controller.Coverage.{
  behind, done_workers, done_round, done_run, serve_workers-Kept, connect_proxies-Kept,
}
use distray.Controller.Handout.{hand_out-Kept}
use distray.Controller.{
  Controller, Step, running, stopped, ◌>>=◌, Round, Standing, waiting, finished, halted,
  any_worker_working, missing, serve_workers, accept_worker, connect_proxies, hand_out, round,
  is_working, run,
}

-- A frame under way keeps the loop going.
not_idle : (t : State) → is_framing t ≡ true → is_idle t ≡ false
not_idle t h = ground arith

any_worker_working-Holds :
    (f : ℤ) (ws : List RemoteWorker) → Any (Holds f) ws → any_worker_working ws ≡ true
unfolding any_worker_working
any_worker_working-Holds f [] h = elim h [ ]
any_worker_working-Holds f (w ∷ ws) (inl (on, same)) =
    let busy = not_idle w.state on in rw busy refl
any_worker_working-Holds f (w ∷ ws) (inr h) =
    let e = any_worker_working-Holds f ws h in ground arith

is_working-Pending :
    {D : Type 0} (f : ℤ) (s : Controller D)
    → Pending f s
    → (frames : List ℤ) → frames ≡ s.frames
    → (elim frames [ [] ↦ any_worker_working s.workers | x ∷ xs ↦ true ]) ≡ true
is_working-Pending f s (inl queued) [] e = absurd (subst (In f) (sym e) queued)
is_working-Pending f s (inr held) [] e = any_worker_working-Holds f s.workers held
is_working-Pending f s h (x ∷ xs) e = refl

-- What has become of a frame, where these frames were done.
abbrev pub Covered : {D : Type 0} → ℤ → List ℤ → Standing D → Type 0
Covered f done (waiting s) = In f done ⊎ Pending f s
Covered f done (finished s) = In f done
Covered f done (halted e) = Unit

Covered-weaken :
    {D : Type 0} (f : ℤ) (a b : List ℤ) (r : Standing D)
    → (In f a → In f b)
    → Covered f a r
    → Covered f b r
Covered-weaken f a b (waiting s) h (inl k) = inl (h k)
Covered-weaken f a b (waiting s) h (inr k) = inr k
Covered-weaken f a b (finished s) h k = h k
Covered-weaken f a b (halted e) h k = tt

Covered-done : {D : Type 0} (f : ℤ) (a : List ℤ) (r : Standing D) → In f a → Covered f a r
Covered-done f a (waiting s) h = inl h
Covered-done f a (finished s) h = h
Covered-done f a (halted e) h = tt

module _ (system : System) (parameters : Parameters) (f : ℤ) (real : f ≢ negsuc 0) where
  open system use {Disk}

  newcomer-Kept :
      (done : List ℤ) (newcomer : Bool) (s : Controller Disk)
      → Pending f s
      → Kept f done (if newcomer then accept_worker system parameters s else running s)
  unfolding accept_worker
  newcomer-Kept done true s h =
      Kept-weaken f [] done (accept_worker system parameters s) (λ k. elim k [ ])
        (push_worker-Kept f s (start system parameters new s.disk) h)
  newcomer-Kept done false s h = inr h

  round-Kept :
      (r : Round) (s : Controller Disk)
      → Pending f s
      → Kept f (done_round system parameters r s) (round system parameters r s)
  unfolding round done_round
  round-Kept r s h =
      go
        (connect_proxies system parameters (missing s.workers (length parameters.proxy_endpoints) 0)
          r.connects s)
        (connect_proxies-Kept system parameters f real
          (missing s.workers (length parameters.proxy_endpoints) 0) r.connects s h)
    where
      go :
          (m : Step (Controller Disk))
          → Kept f [] m
          → Kept f
              (behind m
                (λ s1. done_workers system parameters 0 (take (length s1.workers) r.others) s1))
              (m >>= λ s1.
                serve_workers system parameters 0 (take (length s1.workers) r.others) s1 >>= λ s2.
                (if r.newcomer then accept_worker system parameters s2 else running s2) >>= λ s3.
                hand_out system parameters s3.frames s3)
      go (stopped e) k = tt
      go (running s1) (inl k) = elim k [ ]
      go (running s1) (inr h1) =
          let events = take (length s1.workers) r.others in
          let done = done_workers system parameters 0 events s1 in
          Kept-bind f done (serve_workers system parameters 0 events s1) _
            (serve_workers-Kept system parameters f real 0 events s1 h1)
            λ s2 h2.
              Kept-bind f done
                (if r.newcomer then accept_worker system parameters s2 else running s2) _
                (newcomer-Kept done r.newcomer s2 h2)
                λ s3 h3.
                  Kept-weaken f [] done (hand_out system parameters s3.frames s3) (λ k. elim k [ ])
                    (hand_out-Kept system parameters f s3.frames s3 h3)

  -- A frame other than -1 that waits in the queue, or is under way on a worker, is done when
  -- start_controller returns 0, and as long as the loop goes on it is done, in the queue or under way,
  -- whichever workers come, die, or are killed in between, in any number of rounds. It is done where a
  -- worker that was on it is idle behind a message from it. Nothing is said where the loop has stopped
  -- with -1, by an exit of the program, or by the use of a worker that is not there.
  pub run-Covered :
      (rs : List Round) (s : Controller Disk)
      → Pending f s
      → Covered f (done_run system parameters rs s) (run system parameters rs s)
  unfolding run done_run
  run-Covered [] s h =
      let works : is_working system parameters s ≡ true = is_working-Pending f s h s.frames refl in
      rw works (inr h)
  run-Covered (r ∷ rs) s h =
      let works : is_working system parameters s ≡ true = is_working-Pending f s h s.frames refl in
      rw (works, run)
        (go (round system parameters r s) (round-Kept r s h) (λ s' k. run-Covered rs s' k))
    where
      go :
          (m : Step (Controller Disk))
          → Kept f (done_round system parameters r s) m
          → ((s' : Controller Disk)
              → Pending f s'
              → Covered f (done_run system parameters rs s') (run system parameters rs s'))
          → Covered f
              (done_round system parameters r s ++ behind m (done_run system parameters rs))
              (elim m [ stopped e ↦ halted e | running s' ↦ run system parameters rs s' ])
      go (stopped e) k ih = tt
      go (running s') (inl k) ih =
          Covered-done f _ (run system parameters rs s')
            (Any-append_left _ (done_round system parameters r s) _ k)
      go (running s') (inr k) ih =
          Covered-weaken f _ _ (run system parameters rs s')
            (Any-append_right _ (done_round system parameters r s)
              (done_run system parameters rs s'))
            (ih s' k)
