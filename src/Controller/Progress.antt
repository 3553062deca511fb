-- ===== src/Controller/Progress.antt =====
-- No call of a worker's dispatch by the controller is stuck: the steps on one worker.
pub mod Rounds
use distray.Base.{
  ℕ, zero, suc, ◌≡◌, ◌≢◌, ◌⊎◌, inl, inr, refl, sym, ap, ◌∙◌, subst, Bool, true, false, List, [],
  ◌∷◌, ◌++◌, Option, none, some, arith, if◌then◌else◌, get_elem?, length, take, Bool-cases,
  Option-cases, All, All-append, All-get_elem?, All-erase_at, All-update_at,
}
use distray.Base.Int.{ℤ, pos}
use distray.Parameters.{Parameters}
use distray.Wire.Incoming
use distray.Wire.Incoming.{Answer, Received, received_ok, connreset, other, need_receive}
use distray.Wire.Outgoing.{Sent}
use distray.RemoteWorker.{
  RemoteWorker, System, State, Outcome, send_copy_out_non_frame_file, send_copy_in_frame_file,
  is_idle, start, new, run_frame,
}
use distray.RemoteWorker.Ending.{Ends, dispatch-Ends}
use distray.RemoteWorker.Transfer.{
  Reception, lost, went_on, received, receive, send, set_proxy_index,
}
use distray.Controller.{
  Controller, Stop, Step, running, stopped, error, exit, stuck, undefined, ◌>>=◌, Ready, Round,
  Standing, waiting, finished, halted, get_idle_worker, missing, kill_worker, put_worker,
  push_worker, after_receive, after_send, write_worker, read_worker, read_if_ready, write_if_ready,
  kill_if_dead, serve_worker, serve_workers, accept_worker, connect_proxy, connect_proxies,
  hand_out, round, is_working, run,
}

-- A worker is not in the state whose case of the switch does nothing, where the loop of dispatch would
-- go on forever.
abbrev pub Leaves : RemoteWorker → Type 0
Leaves w = w.state ≢ send_copy_out_non_frame_file

abbrev pub AllLeave : {D : Type 0} → Controller D → Type 0
AllLeave s = All Leaves s.workers

-- A step that is not stuck, and leaves workers like these.
abbrev pub Progresses : {D : Type 0} → Step (Controller D) → Type 0
Progresses (running s) = AllLeave s
Progresses (stopped error) = Unit
Progresses (stopped exit) = Unit
Progresses (stopped stuck) = ⊥
Progresses (stopped undefined) = Unit

abbrev pub Proceeds : {D : Type 0} → Standing D → Type 0
Proceeds (waiting s) = AllLeave s
Proceeds (finished s) = Unit
Proceeds (halted error) = Unit
Proceeds (halted exit) = Unit
Proceeds (halted stuck) = ⊥
Proceeds (halted undefined) = Unit

pub Progresses-bind :
    {D : Type 0} (m : Step (Controller D)) (next : Controller D → Step (Controller D))
    → Progresses m
    → ((s : Controller D) → AllLeave s → Progresses (next s))
    → Progresses (m >>= next)
Progresses-bind (running s) next h k = k s h
Progresses-bind (stopped error) next h k = tt
Progresses-bind (stopped exit) next h k = tt
Progresses-bind (stopped undefined) next h k = tt
Progresses-bind (stopped stuck) next h k = h

module _ {D : Type 0} where
  pub kill_worker-Progresses :
      (i : ℕ) (s : Controller D) → AllLeave s → Progresses (kill_worker i s)
  unfolding kill_worker
  kill_worker-Progresses i s h = elim (Option-cases (get_elem? s.workers i)) [
    | inl e ↦ rw (e, kill_worker) tt
    | inr (w, e) ↦ rw (e, kill_worker) (All-erase_at Leaves s.workers i h)
  ]

  pub put_worker-Progresses :
      (i : ℕ) (s : Controller D) (o : Outcome D)
      → AllLeave s
      → Ends o
      → Progresses (put_worker i s o)
  put_worker-Progresses i s (Outcome.continues w d) h e = All-update_at Leaves s.workers i w e h
  put_worker-Progresses i s Outcome.exited h e = tt
  put_worker-Progresses i s Outcome.unfinished h e = e

  pub push_worker-Progresses :
      (s : Controller D) (o : Outcome D) → AllLeave s → Ends o → Progresses (push_worker s o)
  push_worker-Progresses s (Outcome.continues w d) h e =
      All-append Leaves s.workers (w ∷ []) h (e, tt)
  push_worker-Progresses s Outcome.exited h e = tt
  push_worker-Progresses s Outcome.unfinished h e = e

  write_worker-Progresses :
      (i : ℕ) (answer : Sent) (s : Controller D) → AllLeave s → Progresses (write_worker i answer s)
  unfolding write_worker
  write_worker-Progresses i answer s h = elim (Option-cases (get_elem? s.workers i)) [
    | inl e ↦ rw (e, write_worker) tt
    | inr (w, e) ↦
        rw (e, write_worker)
          (sends (send answer w).1 (send answer w).0 (All-get_elem? Leaves s.workers i e h))
  ]
    where
      sends :
          (success : Bool) (w' : RemoteWorker) → Leaves w' → Progresses (after_send i s w' success)
      sends true w' l = All-update_at Leaves s.workers i w' l h
      sends false w' l = tt

module _ (system : System) (parameters : Parameters) where
  open system use {Disk}

  -- A reception that is an error, or comes to an end.
  abbrev ComesOut : Reception Disk → Type 0
  ComesOut (lost e) = Unit
  ComesOut (went_on o) = Ends o

  receive-ComesOut :
      (answer : Answer) (w : RemoteWorker) (d : Disk)
      → Leaves w
      → ComesOut (receive system parameters answer w d)
  unfolding receive
  receive-ComesOut answer w d h = go (Incoming.receive w.incoming_buffer answer)
    where
      go : (r : Received) → ComesOut (received system parameters w d r)
      go (Incoming.failed e) = tt
      go Incoming.exited = tt
      go (received_ok b) = elim (Bool-cases (need_receive b)) [
        | inl more ↦ rw more h
        | inr whole ↦
            rw whole (dispatch-Ends system parameters (record w { incoming_buffer = b }) d h)
      ]

  after_receive-Progresses :
      (i : ℕ) (s : Controller Disk) (r : Reception Disk)
      → AllLeave s
      → ComesOut r
      → Progresses (after_receive i s r)
  after_receive-Progresses i s (lost connreset) h e = kill_worker-Progresses i s h
  after_receive-Progresses i s (lost other) h e = tt
  after_receive-Progresses i s (went_on o) h e = put_worker-Progresses i s o h e

  read_worker-Progresses :
      (i : ℕ) (answer : Answer) (s : Controller Disk)
      → AllLeave s
      → Progresses (read_worker system parameters i answer s)
  unfolding read_worker
  read_worker-Progresses i answer s h = elim (Option-cases (get_elem? s.workers i)) [
    | inl e ↦ rw (e, read_worker) tt
    | inr (w, e) ↦
        rw (e, read_worker)
          (after_receive-Progresses i s (receive system parameters answer w s.disk) h
            (receive-ComesOut answer w s.disk (All-get_elem? Leaves s.workers i e h)))
  ]

  -- A step that is made under a test.
  pub when :
      (b : Bool) (m : Step (Controller Disk)) (s : Controller Disk)
      → AllLeave s
      → Progresses m
      → Progresses (if b then m else running s)
  when true m s h k = k
  when false m s h k = h

  pub serve_worker-Progresses :
      (i : ℕ) (e : Ready) (s : Controller Disk)
      → AllLeave s
      → Progresses (serve_worker system parameters i e s)
  unfolding serve_worker
  serve_worker-Progresses i e s h =
      Progresses-bind (read_if_ready system parameters i e s) _
        (when e.pollin _ s h (read_worker-Progresses i e.received s h))
        λ s1 h1.
          Progresses-bind (write_if_ready system parameters i e s1) _
            (when e.pollout _ s1 h1 (write_worker-Progresses i e.sent s1 h1))
            λ s2 h2. when e.dead _ s2 h2 (kill_worker-Progresses i s2 h2)
