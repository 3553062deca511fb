-- ===== src/Controller/Progress/Rounds.antt =====
-- The passes over the workers and the whole loop of the controller are not stuck.
use distray.Base.{
  ℕ, suc, inl, inr, Bool, List, [], ◌∷◌, if◌then◌else◌, get_elem?, length, take, Bool-cases,
  Option-cases,
}
use distray.Base.Int.{ℤ, pos}
use distray.Parameters.{Parameters}
use distray.RemoteWorker.{
  RemoteWorker, System, send_copy_in_frame_file, is_idle, start, new, run_frame,
}
use distray.RemoteWorker.Ending.{Ends, dispatch-Ends}
use distray.RemoteWorker.Transfer.{set_proxy_index}
use distray.Controller.{
  Controller, Step, running, stopped, error, exit, stuck, undefined, Ready, Round, halted,
  get_idle_worker, missing, put_worker, serve_worker, serve_workers, accept_worker, connect_proxy,
  connect_proxies, hand_out, round, is_working, run,
}
use distray.Controller.Progress.{
  AllLeave, Progresses, Proceeds, Progresses-bind, put_worker-Progresses, push_worker-Progresses,
  serve_worker-Progresses, when,
}

module _ (system : System) (parameters : Parameters) where
  open system use {Disk}

  serve_workers-Progresses :
      (i : ℕ) (es : List Ready) (s : Controller Disk)
      → AllLeave s
      → Progresses (serve_workers system parameters i es s)
  unfolding serve_workers
  serve_workers-Progresses i [] s h = h
  serve_workers-Progresses i (e ∷ es) s h =
      Progresses-bind (serve_workers system parameters (suc i) es s)
        (serve_worker system parameters i e) (serve_workers-Progresses (suc i) es s h)
        (λ s' h'. serve_worker-Progresses system parameters i e s' h')

  connect_proxies-Progresses :
      (is : List ℕ) (connects : ℕ → Bool) (s : Controller Disk)
      → AllLeave s
      → Progresses (connect_proxies system parameters is connects s)
  unfolding connect_proxies new start
  connect_proxies-Progresses [] connects s h = h
  connect_proxies-Progresses (i ∷ is) connects s h = elim (Bool-cases (connects i)) [
    | inr no_connection ↦ rw no_connection tt
    | inl connection ↦ rw connection (
        Progresses-bind (connect_proxy system parameters i s)
          (connect_proxies system parameters is connects)
          (push_worker-Progresses s (start system parameters (set_proxy_index (pos i) new) s.disk) h
            (dispatch-Ends system parameters (set_proxy_index (pos i) new) s.disk (λ e. cc)))
          (λ s' h'. connect_proxies-Progresses is connects s' h'))
  ]

  accept_worker-Progresses :
      (s : Controller Disk) → AllLeave s → Progresses (accept_worker system parameters s)
  unfolding accept_worker new start
  accept_worker-Progresses s h =
      push_worker-Progresses s (start system parameters new s.disk) h
        (dispatch-Ends system parameters new s.disk (λ e. cc))

  run_frame-Ends : (f : ℤ) (w : RemoteWorker) (d : Disk) → Ends (run_frame system parameters f w d)
  unfolding run_frame
  run_frame-Ends f w d = elim (Bool-cases (is_idle w.state)) [
    | inr busy ↦ rw busy tt
    | inl free ↦ rw free (
        dispatch-Ends system parameters
          (record w { frame = f; state = send_copy_in_frame_file; state_index = 0 }) d (λ e. cc))
  ]

  hand_out-Progresses :
      (fs : List ℤ) (s : Controller Disk)
      → AllLeave s
      → Progresses (hand_out system parameters fs s)
  unfolding hand_out
  hand_out-Progresses [] s h = h
  hand_out-Progresses (f ∷ fs) s h = elim (Option-cases (get_idle_worker s.workers)) [
    | inl n ↦ rw (n, hand_out) h
    | inr (i, n) ↦ elim (Option-cases (get_elem? s.workers i)) [
      | inl e ↦ rw (n, hand_out, e) tt
      | inr (w, e) ↦
          rw (n, hand_out, e)
            (Progresses-bind (put_worker i s (run_frame system parameters f w s.disk))
              (hand_out system parameters fs)
              (put_worker-Progresses i s _ h (run_frame-Ends f w s.disk))
              (λ s' h'. hand_out-Progresses fs s' h'))
    ]
  ]

  round-Progresses :
      (r : Round) (s : Controller Disk) → AllLeave s → Progresses (round system parameters r s)
  unfolding round
  round-Progresses r s h =
      let left = missing s.workers (length parameters.proxy_endpoints) 0 in
      Progresses-bind (connect_proxies system parameters left r.connects s) _
        (connect_proxies-Progresses left r.connects s h)
        λ s1 h1.
          Progresses-bind (serve_workers system parameters 0 (take (length s1.workers) r.others) s1)
            _ (serve_workers-Progresses 0 (take (length s1.workers) r.others) s1 h1)
            λ s2 h2.
              Progresses-bind
                (if r.newcomer then accept_worker system parameters s2 else running s2) _
                (when system parameters r.newcomer _ s2 h2 (accept_worker-Progresses s2 h2))
                λ s3 h3. hand_out-Progresses s3.frames s3 h3

  -- Where no worker is in the state SEND_COPY_OUT_NON_FRAME_FILE (which dispatch would never leave), as
  -- none is at the start: in no round of the loop, whatever the workers answer and whatever comes of the
  -- calls, is a worker's dispatch stuck. start_controller goes on, with no worker in that state behind
  -- the rounds, returns 0 or -1, or the program exits, or a worker is used that is no longer there.
  pub run-Proceeds :
      (rs : List Round) (s : Controller Disk) → AllLeave s → Proceeds (run system parameters rs s)
  unfolding run
  run-Proceeds [] s h = elim (Bool-cases (is_working system parameters s)) [
    | inl works ↦ rw works h
    | inr rests ↦ rw rests tt
  ]
  run-Proceeds (r ∷ rs) s h = elim (Bool-cases (is_working system parameters s)) [
    | inr rests ↦ rw (rests, run) tt
    | inl works ↦
        rw (works, run)
          (go (round system parameters r s) (round-Progresses r s h) (λ s' k. run-Proceeds rs s' k))
  ]
    where
      go :
          (m : Step (Controller Disk))
          → Progresses m
          → ((s' : Controller Disk) → AllLeave s' → Proceeds (run system parameters rs s'))
          → Proceeds (elim m [ stopped e ↦ halted e | running s' ↦ run system parameters rs s' ])
      go (running s') k ih = ih s' k
      go (stopped error) k ih = tt
      go (stopped exit) k ih = tt
      go (stopped undefined) k ih = tt
      go (stopped stuck) k ih = k
