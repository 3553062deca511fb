-- ===== src/Job/Turn.antt =====
-- A pass of the loop of src/controller.cpp in which the only worker is written or read.
use distray.Base.{ℕ, ◌≡◌, refl, ◌∙◌, ap, true, false, List, [], ◌∷◌, Bytes}
use distray.Base.Int.{ℤ}
use distray.Parameters.{Parameters}
use distray.Wire.Outgoing
use distray.Wire.Outgoing.{OutgoingBuffer, sent_here, set_message, need_send, offered}
use distray.Wire.Incoming
use distray.Wire.Incoming.{IncomingBuffer, Answer, recv_here, received_ok, need_receive, reset}
use distray.RemoteWorker.{
  RemoteWorker, System, Outcome, continues, exited, unfinished, is_idle, dispatch,
}
use distray.RemoteWorker.Transfer
use distray.RemoteWorker.Transfer.{receive, received, went_on}
use distray.Controller.{
  Controller, Round, Ready, Step, ◌>>=◌, running, stopped, halted, put_worker, after_receive,
  serve_worker, read_worker, write_worker, hand_out, round, is_working, run,
}
use distray.Job.Rounds.{writable, readable, only}
use distray.Job.Passes.{one, behind, after, is_idle-is_working, is_idle-hand_out, round-only}

module _ (system : System) (parameters : Parameters) where
  open system use {requests, responses}

  goes_on :
      (r : Round) (rs : List Round) (s s' : Controller system.Disk)
      → is_working system parameters s ≡ true
      → round system parameters r s ≡ running s'
      → run system parameters (r ∷ rs) s ≡ run system parameters rs s'
  unfolding run
  goes_on r rs s s' working passed = rw (working, run, passed) refl

  -- The pass behind poll while the worker is not idle.
  pub run-only :
      (e : Ready) (w w' : RemoteWorker) (frames : List ℤ) (d : system.Disk) (rs : List Round)
      → parameters.proxy_endpoints ≡ []
      → is_idle w.state ≡ false
      → is_idle w'.state ≡ false
      → serve_worker system parameters 0 e (one w frames d) ≡ running (one w' frames d)
      → run system parameters (only e ∷ rs) (one w frames d)
        ≡ run system parameters rs (one w' frames d)
  unfolding run
  run-only e w w' frames d rs none_left b b' served =
      let passed : round system parameters (only e) (one w frames d) ≡ running (one w' frames d) =
        round-only system parameters e w frames d none_left
        ∙ ap (λ x. x >>= λ s. hand_out system parameters s.frames s) served
        ∙ is_idle-hand_out system parameters w' frames d b' in
      goes_on (only e) rs (one w frames d) (one w' frames d)
        (is_idle-is_working system parameters w frames d b) passed

  pub run_one :
      (r : Round) (s : Controller system.Disk)
      → is_working system parameters s ≡ true
      → run system parameters (r ∷ []) s ≡ behind system parameters (round system parameters r s)
  unfolding run
  run_one r s working = rw (working, run) (standing (round system parameters r s))
    where
      standing :
          (x : Step (Controller system.Disk))
          → (elim x [ stopped why ↦ halted why | running s ↦ run system parameters [] s ])
            ≡ behind system parameters x
      standing (stopped why) = refl
      standing (running s) = refl

  -- The pass in which dispatch is called.
  pub run-last :
      (e : Ready) (w : RemoteWorker) (frames : List ℤ) (d : system.Disk) (o : Outcome system.Disk)
      → parameters.proxy_endpoints ≡ []
      → is_idle w.state ≡ false
      → serve_worker system parameters 0 e (one w frames d) ≡ put_worker 0 (one w frames d) o
      → run system parameters (only e ∷ []) (one w frames d) ≡ after system parameters frames o
  unfolding after
  run-last e w frames d o none_left b served =
      run_one (only e) (one w frames d) (is_idle-is_working system parameters w frames d b)
      ∙ ap (behind system parameters) (
          round-only system parameters e w frames d none_left
          ∙ ap (λ x. x >>= λ s. hand_out system parameters s.frames s) served)
      ∙ given o
    where
      given :
          (o : Outcome system.Disk)
          → behind system parameters
              (put_worker 0 (one w frames d) o >>= λ s. hand_out system parameters s.frames s)
            ≡ after system parameters frames o
      given exited = refl
      given unfinished = refl
      given (continues w' d') = refl

  pub serve_worker-writable :
      (k : ℕ) (w : RemoteWorker) (frames : List ℤ) (d : system.Disk) (o : OutgoingBuffer)
      (bytes : Bytes)
      → Outgoing.send w.outgoing_buffer (sent_here k) ≡ (o, true, bytes)
      → serve_worker system parameters 0 (writable k) (one w frames d)
        ≡ running (one (record w { outgoing_buffer = o }) frames d)
  unfolding serve_worker write_worker Transfer.send
  serve_worker-writable k w frames d o bytes e = rw e refl

  pub serve_worker-readable :
      (bytes : Bytes) (w : RemoteWorker) (frames : List ℤ) (d : system.Disk)
      (o : Outcome system.Disk)
      → receive system parameters (recv_here bytes) w d ≡ went_on o
      → serve_worker system parameters 0 (readable bytes) (one w frames d)
        ≡ put_worker 0 (one w frames d) o
  unfolding serve_worker read_worker
  serve_worker-readable bytes w frames d o e =
      ap (λ x. after_receive 0 (one w frames d) x >>= running) e
      ∙ unit (put_worker 0 (one w frames d) o)
    where
      unit : (x : Step (Controller system.Disk)) → (x >>= running) ≡ x
      unit (stopped why) = refl
      unit (running s) = refl

  pub receive_partly :
      (bytes : Bytes) (w : RemoteWorker) (d : system.Disk) (b : IncomingBuffer)
      → Incoming.receive w.incoming_buffer (recv_here bytes) ≡ received_ok b
      → need_receive b ≡ true
      → receive system parameters (recv_here bytes) w d
        ≡ went_on (continues (record w { incoming_buffer = b }) d)
  unfolding receive
  receive_partly bytes w d b e need = ap (received system parameters w d) e ∙ rw need refl

  pub receive_whole :
      (bytes : Bytes) (w : RemoteWorker) (d : system.Disk) (b : IncomingBuffer)
      → Incoming.receive w.incoming_buffer (recv_here bytes) ≡ received_ok b
      → need_receive b ≡ false
      → receive system parameters (recv_here bytes) w d
        ≡ went_on (dispatch system parameters (record w { incoming_buffer = b }) d)
  unfolding receive
  receive_whole bytes w d b e full = ap (received system parameters w d) e ∙ rw full refl
