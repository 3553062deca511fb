-- ===== src/Controller/Coverage.antt =====
-- What the passes over the workers make of a frame, and which frames are done in them.
use distray.Base.{
  ℕ, suc, ◌≡◌, ◌≢◌, inl, inr, Bool, true, false, ◌&&◌, List, [], ◌∷◌, ◌++◌, none, some, arith,
  if◌then◌else◌, get_elem?, length, take, Bool-cases, Option-cases, Any-append_left,
  Any-append_right,
}
use distray.Base.Int.{ℤ, pos, negsuc}
use distray.Parameters.{Parameters}
use distray.Wire.Incoming
use distray.Wire.Incoming.{
  IncomingBuffer, Answer, Received, received_ok, connreset, other, need_receive,
}
use distray.RemoteWorker.{RemoteWorker, System, State, Outcome, is_idle, start, new}
use distray.RemoteWorker.Phases.{is_framing, is_resting, OnFrame, Yields}
use distray.RemoteWorker.Phases.Frame.{dispatch-OnFrame}
use distray.RemoteWorker.Transfer.{Reception, lost, went_on, received, receive, set_proxy_index}
use distray.Controller.Keeping.{
  Holds, Pending, Kept, Kept-weaken, Kept-done, Kept-bind, kill_worker-Kept, update-Pending,
  write_worker-Kept, push_worker-Kept,
}
use distray.Controller.{
  Controller, Step, running, stopped, ◌>>=◌, Ready, Round, missing, after_receive, read_worker,
  read_if_ready, write_if_ready, kill_if_dead, serve_worker, serve_workers, connect_proxy,
  connect_proxies, round,
}

-- The frames that a reception finishes: that of a worker which was on it, and is idle behind it.
abbrev pub done_by : {D : Type 0} → RemoteWorker → Reception D → List ℤ
done_by w (went_on (Outcome.continues w' d)) =
    if is_framing w.state && is_idle w'.state then w.frame ∷ [] else []
done_by w _ = []

abbrev pub behind : {A : Type 0} → Step A → (A → List ℤ) → List ℤ
behind (running a) f = f a
behind (stopped e) f = []

module _ (system : System) (parameters : Parameters) where
  open system use {Disk}

  -- The frames that are done in a step, by what is read.
  unfoldable pub done_read : ℕ → Ready → Controller Disk → List ℤ
  unfolding receive
  done_read i e s =
      if e.pollin
      then (elim (get_elem? s.workers i) [
        | none ↦ []
        | some w ↦ done_by w (receive system parameters e.received w s.disk)
      ])
      else []

  unfoldable pub done_workers : ℕ → List Ready → Controller Disk → List ℤ
  unfolding done_read serve_workers
  done_workers i [] s = []
  done_workers i (e ∷ es) s =
      done_workers (suc i) es s
      ++ behind (serve_workers system parameters (suc i) es s) (done_read i e)

  unfoldable pub done_round : Round → Controller Disk → List ℤ
  unfolding done_workers connect_proxies missing
  done_round r s =
      behind
        (connect_proxies system parameters (missing s.workers (length parameters.proxy_endpoints) 0)
          r.connects s)
        (λ s1. done_workers 0 (take (length s1.workers) r.others) s1)

  unfoldable pub done_run : List Round → Controller Disk → List ℤ
  unfolding done_round round
  done_run [] s = []
  done_run (r ∷ rs) s = done_round r s ++ behind (round system parameters r s) (done_run rs)

  -- What a reception does to a worker on a frame.
  abbrev ReceivedOn : ℤ → Reception Disk → Type 0
  ReceivedOn f (lost e) = Unit
  ReceivedOn f (went_on o) = Yields (OnFrame is_resting f) o

  resting : (s : State) → is_framing s ≡ true → is_resting s ≡ true
  resting s h = ground arith

  receive-OnFrame :
      (f : ℤ) (answer : Answer) (w : RemoteWorker) (d : Disk)
      → Holds f w
      → ReceivedOn f (receive system parameters answer w d)
  unfolding receive
  receive-OnFrame f answer w d (on, same) = go (Incoming.receive w.incoming_buffer answer)
    where
      go : (r : Received) → ReceivedOn f (received system parameters w d r)
      go (Incoming.failed e) = tt
      go Incoming.exited = tt
      go (received_ok b) = elim (Bool-cases (need_receive b)) [
        | inl more ↦ rw more (resting w.state on, same)
        | inr whole ↦ rw whole (
            dispatch-OnFrame system parameters f (record w { incoming_buffer = b }) d
              (resting w.state on, same))
      ]

  module _ (f : ℤ) (real : f ≢ negsuc 0) where
    after_receive-Kept :
        (i : ℕ) (w : RemoteWorker) (s : Controller Disk) (o : Reception Disk)
        → get_elem? s.workers i ≡ some w
        → (Holds f w → ReceivedOn f o)
        → Pending f s
        → Kept f (done_by w o) (after_receive i s o)
    after_receive-Kept i w s (lost connreset) e on h = kill_worker-Kept f real [] i s h
    after_receive-Kept i w s (lost other) e on h = tt
    after_receive-Kept i w s (went_on Outcome.exited) e on h = tt
    after_receive-Kept i w s (went_on Outcome.unfinished) e on h = tt
    after_receive-Kept i w s (went_on (Outcome.continues w' d)) e on h =
        update-Pending f (done_by w (went_on (Outcome.continues w' d))) i w w' d s e
          (λ (here, same). elim (Bool-cases (is_idle w'.state)) [
            | inl rests ↦ inl (rw (here, rests) (inl same))
            | inr works ↦ inr (busy w'.state (on (here, same)).0 works, (on (here, same)).1)
          ])
          h
      where
        busy : (t : State) → is_resting t ≡ true → is_idle t ≡ false → is_framing t ≡ true
        busy t r n = ground arith

    read_if_ready-Kept :
        (i : ℕ) (e : Ready) (s : Controller Disk)
        → Pending f s
        → Kept f (done_read i e s) (read_if_ready system parameters i e s)
    unfolding read_if_ready done_read
    read_if_ready-Kept i e s h = elim (Bool-cases e.pollin) [
      | inr quiet ↦ simp quiet (inr h)
      | inl ready ↦ elim (Option-cases (get_elem? s.workers i)) [
        | inl n ↦ simp ready (rw (n, read_worker) tt)
        | inr (w, n) ↦ simp ready (
            rw (n, read_worker)
              (after_receive-Kept i w s (receive system parameters e.received w s.disk) n
                (receive-OnFrame f e.received w s.disk) h))
      ]
    ]

    serve_worker-Kept :
        (i : ℕ) (e : Ready) (s : Controller Disk)
        → Pending f s
        → Kept f (done_read i e s) (serve_worker system parameters i e s)
    unfolding serve_worker
    serve_worker-Kept i e s h =
        Kept-bind f done (read_if_ready system parameters i e s) _ (read_if_ready-Kept i e s h)
          λ s1 h1.
            Kept-bind f done (write_if_ready system parameters i e s1) _ (writes s1 h1)
              λ s2 h2. kills s2 h2
      where
        done : List ℤ
        done = done_read i e s

        writes :
            (s1 : Controller Disk)
            → Pending f s1
            → Kept f (done_read i e s) (write_if_ready system parameters i e s1)
        writes s1 h1 = elim (Bool-cases e.pollout) [
          | inr quiet ↦ simp quiet (inr h1)
          | inl ready ↦ simp ready (write_worker-Kept f (done_read i e s) i e.sent s1 h1)
        ]

        kills :
            (s2 : Controller Disk)
            → Pending f s2
            → Kept f (done_read i e s) (kill_if_dead system parameters i e s2)
        kills s2 h2 = elim (Bool-cases e.dead) [
          | inr alive ↦ simp alive (inr h2)
          | inl dead ↦ simp dead (kill_worker-Kept f real (done_read i e s) i s2 h2)
        ]

    pub serve_workers-Kept :
        (i : ℕ) (es : List Ready) (s : Controller Disk)
        → Pending f s
        → Kept f (done_workers i es s) (serve_workers system parameters i es s)
    unfolding serve_workers done_workers
    serve_workers-Kept i [] s h = inr h
    serve_workers-Kept i (e ∷ es) s h =
        go (serve_workers system parameters (suc i) es s) (serve_workers-Kept (suc i) es s h)
      where
        go :
            (m : Step (Controller Disk))
            → Kept f (done_workers (suc i) es s) m
            → Kept f
                (done_workers (suc i) es s ++ behind m (done_read i e))
                (m >>= serve_worker system parameters i e)
        go (running s1) (inl k) =
            Kept-done f _ (serve_worker system parameters i e s1)
              (Any-append_left _ (done_workers (suc i) es s) _ k)
        go (running s1) (inr k) =
            Kept-weaken f _ _ (serve_worker system parameters i e s1)
              (Any-append_right _ (done_workers (suc i) es s) (done_read i e s1))
              (serve_worker-Kept i e s1 k)
        go (stopped x) k = tt

    pub connect_proxies-Kept :
        (is : List ℕ) (connects : ℕ → Bool) (s : Controller Disk)
        → Pending f s
        → Kept f [] (connect_proxies system parameters is connects s)
    unfolding connect_proxies
    connect_proxies-Kept [] connects s h = inr h
    connect_proxies-Kept (i ∷ is) connects s h = elim (Bool-cases (connects i)) [
      | inr no_connection ↦ rw no_connection tt
      | inl connection ↦ rw connection (
          Kept-bind f [] (connect_proxy system parameters i s)
            (connect_proxies system parameters is connects)
            (push_worker-Kept f s (start system parameters (set_proxy_index (pos i) new) s.disk) h)
            (λ s1 h1. connect_proxies-Kept is connects s1 h1))
    ]
