-- ===== src/Job/Rounds.antt =====
-- The loop of src/controller.cpp with one worker at the end of its only socket: the passes that carry a
-- request to the worker's loop, and its response back.
use distray.Base.{
  min, ◌++◌, if◌then◌else◌, ℕ, zero, suc, ◌+◌, ◌^◌, ◌≡◌, Bool, true, false, ◌&&◌, List, [], ◌∷◌,
  none, some, Bytes, length, take, drop, ltb,
}
use distray.Base.Int.{ℤ}
use distray.Parameters.{Parameters}
use distray.Drp.{Request, Response}
use distray.Wire.Outgoing
use distray.Wire.Outgoing.{OutgoingBuffer, sent_here, need_send, offered}
use distray.Wire.RoundTrip.{deliver}
use distray.Wire.Incoming
use distray.Wire.Incoming.{
  IncomingBuffer, Received, received_ok, failed, need_receive, bytes_left, recv_failed, recv_here,
  other,
}
use distray.Worker.{Machine, handle, serve}
use distray.Worker.Stream.{round_of}
use distray.RemoteWorker.{
  RemoteWorker, System, Outcome, continues, exited, unfinished, is_idle, dispatch, run_frame,
}
use distray.RemoteWorker.Session.{pending}
use distray.Controller.{Controller, Round, Ready, Standing, waiting, finished, halted, exit, run}
use distray.Controller.Start.{initial}
use distray.Job.{Result, completed, aborted}
use distray.Job.Drive.{drive, arrived}
use distray.Job.Delivery.{Pieces, inbox, receivable}

-- Passes in which poll reports nothing but a worker that connects, that the socket can be written, and
-- takes so many bytes, or that these bytes can be read.
abbrev pub joins : Round
joins = record { connects = λ i. true; newcomer = true; others = [] }

abbrev pub writable : ℕ → Ready
writable k = record {
  pollin = false;
  pollout = true;
  dead = false;
  received = recv_failed other;
  sent = sent_here k;
}

abbrev pub readable : Bytes → Ready
readable bytes = record {
  pollin = true;
  pollout = false;
  dead = false;
  received = recv_here bytes;
  sent = sent_here 0;
}

abbrev pub only : Ready → Round
only e = record { connects = λ i. true; newcomer = false; others = e ∷ [] }

-- The passes in which the socket takes one piece after the other, and delivers one after the other, until
-- the message is there.
unfoldable pub write_rounds : List ℕ → OutgoingBuffer → List Round
unfolding Outgoing.send need_send offered
write_rounds [] b = []
write_rounds (k ∷ ks) b =
    let n = min k (length (offered b)) in
    let (b', success, out) = Outgoing.send b (sent_here n) in
    let rest = write_rounds ks b' in if need_send b then only (writable n) ∷ rest else []

abbrev pub on_received : Received → (IncomingBuffer → List Round) → List Round
on_received (received_ok b) f = f b
on_received (failed e) f = []
on_received Received.exited f = []

unfoldable pub read_rounds : List ℕ → IncomingBuffer → Bytes → List Round
unfolding Incoming.receive need_receive bytes_left
read_rounds [] b stream = []
read_rounds (k ∷ ks) b stream =
    let n = min k (bytes_left b) in
    let rest =
      on_received (Incoming.receive b (recv_here (take n stream)))
        (λ b'. read_rounds ks b' (drop n stream)) in
    if need_receive b then only (readable (take n stream)) ∷ rest else []

module _ (system : System) (parameters : Parameters) (machine : Machine) (pieces : Pieces) where
  open system use {requests, responses}

  -- The socket takes the request in pieces, the worker's loop makes one round, and what it sends comes in
  -- in pieces.
  abbrev pub exchange : RemoteWorker → machine.Disk → List Round × machine.Disk
  exchange w wd =
      let ks = pieces.sends w.outgoing_buffer.buffer in
      let (o, bytes) = deliver ks w.outgoing_buffer in
      let served = serve machine requests responses (round_of requests bytes ∷ []) wd in
      (
        write_rounds ks w.outgoing_buffer
            ++ read_rounds (pieces.receives served.sent) w.incoming_buffer served.sent,
        served.disk,
      )

  abbrev pub next_rounds : Controller system.Disk → machine.Disk → List Round × machine.Disk
  next_rounds s wd = elim s.workers [ [] ↦ ([], wd) | w ∷ ws ↦ exchange w wd ]

  -- At most this many exchanges, as long as the controller's loop goes on.
  unfoldable pub turns :
      ℕ → Standing system.Disk × machine.Disk → Standing system.Disk × machine.Disk
  unfolding run serve deliver write_rounds read_rounds
  turns zero p = p
  turns (suc n) (waiting s, wd) =
      let (rounds, wd') = next_rounds s wd in turns n (run system parameters rounds s, wd')
  turns (suc n) (finished s, wd) = (finished s, wd)
  turns (suc n) (halted why, wd) = (halted why, wd)

  -- The controller with these frames left and no worker yet, until one connects, and on.
  unfoldable pub whole :
      ℕ → List ℤ → system.Disk → machine.Disk → Standing system.Disk × machine.Disk
  unfolding turns run
  whole n frames d wd = turns n (run system parameters (joins ∷ []) (initial frames d), wd)

  -- The loop has returned, with no frame left and the disks of the script, or has exited where the script
  -- gave up.
  abbrev pub Ends : Result system.Disk machine.Disk → Standing system.Disk × machine.Disk → Type 0
  Ends (completed d wd) (st, wd') =
      (w : RemoteWorker) × (st ≡ finished (record { workers = w ∷ []; frames = []; disk = d }))
      × (wd' ≡ wd)
  Ends (aborted wd) (st, wd') = (st ≡ halted exit) × (wd' ≡ wd)

  -- The request is not empty, and neither it nor the response is too long.
  abbrev pub fits : Request → Response → Bool
  fits r m =
      ltb 0 (length (requests.serialize r))
      && (ltb (length (requests.serialize r) + 4) (2 ^ 32) && receivable system pieces m)

  -- So it is in all of the exchanges.
  unfoldable pub passes : ℕ → Outcome system.Disk → machine.Disk → Bool
  unfolding dispatch handle pending
  passes zero o wd = true
  passes (suc n) exited wd = true
  passes (suc n) unfinished wd = true
  passes (suc n) (continues w d) wd = elim (is_idle w.state) [
    | true ↦ true
    | false ↦ elim (pending system w) [
      | none ↦ true
      | some r ↦
          let (m, wd') = handle machine r wd in
          fits r m
          && passes n (dispatch system parameters (arrived system (inbox system pieces) m w) d) wd'
    ]
  ]

  unfoldable pub passes_all : ℕ → List ℤ → Outcome system.Disk → machine.Disk → Bool
  unfolding passes drive run_frame
  passes_all n [] o wd = passes n o wd
  passes_all n (frame ∷ frames) o wd =
      let (o', wd') = drive system parameters machine (inbox system pieces) n o wd in
      passes n o wd && elim o' [
        | exited ↦ true
        | unfinished ↦ true
        | continues w d ↦ passes_all n frames (run_frame system parameters frame w d) wd'
      ]
