-- ===== src/Job/Drive.antt =====
-- A remote worker of the controller, with the worker at the other end: each request that waits is handled
-- and its response dispatched, until the remote worker is idle.
use distray.Base.{ℕ, zero, suc, ◌≡◌, refl, ◌∙◌, ap, true, false, none, some}
use distray.Base.Int.{ℤ}
use distray.Parameters.{Parameters}
use distray.Drp.{Request, Response}
use distray.Wire.Outgoing.{OutgoingBuffer}
use distray.Wire.Incoming.{IncomingBuffer, get_message}
use distray.Worker.{Machine, handle}
use distray.RemoteWorker.{
  RemoteWorker, System, Outcome, continues, exited, unfinished, idle, is_idle, dispatch,
  dispatch_from,
}
use distray.RemoteWorker.Session.{pending}
use distray.RemoteWorker.Session.Steps.{rest_fuel, dispatch-fuel}
use distray.Job.{Result, completed, aborted}

-- `inbox` stands for what becomes of an incoming buffer as a response arrives in it: see Exchange, and
-- Job.Delivery. `outbox` stands for what becomes of the outgoing buffer as the request is sent.
pub record Inbox (system : System) : Type 0 where
  pub inbox : Response → IncomingBuffer → IncomingBuffer
  pub arrives :
      (r : Response) (b : IncomingBuffer) → get_message system.responses (inbox r b) ≡ some r
  pub outbox : OutgoingBuffer → OutgoingBuffer

abbrev pub arrived : (system : System) → Inbox system → Response → RemoteWorker → RemoteWorker
arrived system inbox m w = record w {
  incoming_buffer = inbox.inbox m w.incoming_buffer;
  outgoing_buffer = inbox.outbox w.outgoing_buffer;
}

module _ (system : System) (parameters : Parameters) (machine : Machine)
    (inbox : Inbox system) where
  -- At most this many exchanges. The result has what became of the remote worker, and the worker's disk.
  unfoldable pub drive : ℕ → Outcome system.Disk → machine.Disk → Outcome system.Disk × machine.Disk
  unfolding dispatch handle pending
  drive zero o wd = (o, wd)
  drive (suc n) exited wd = (exited, wd)
  drive (suc n) unfinished wd = (unfinished, wd)
  drive (suc n) (continues w d) wd = elim (is_idle w.state) [
    | true ↦ (continues w d, wd)
    | false ↦ elim (pending system w) [
      | none ↦ (continues w d, wd)
      | some r ↦
          let (m, wd') = handle machine r wd in
          drive n (dispatch system parameters (arrived system inbox m w) d) wd'
    ]
  ]

  -- The remote worker is idle, on this frame, where the script went through, and the program has exited
  -- where it did not; either way with the disks of the script.
  abbrev pub Agrees :
      ℤ → Result system.Disk machine.Disk → Outcome system.Disk × machine.Disk → Type 0
  Agrees f (completed d wd) (o, wd') =
      (w : RemoteWorker) × (o ≡ continues w d) × (wd' ≡ wd) × (w.state ≡ idle) × (w.frame ≡ f)
  Agrees f (aborted wd) (o, wd') = (o ≡ exited) × (wd' ≡ wd)

  pub drive-exited : (n : ℕ) (wd : machine.Disk) → drive n exited wd ≡ (exited, wd)
  unfolding drive
  drive-exited zero wd = refl
  drive-exited (suc n) wd = refl

  pub drive-idle :
      (n : ℕ) (w : RemoteWorker) (d : system.Disk) (wd : machine.Disk)
      → is_idle w.state ≡ true
      → drive n (continues w d) wd ≡ (continues w d, wd)
  unfolding drive
  drive-idle zero w d wd e = refl
  drive-idle (suc n) w d wd e = rw (e, drive)

  -- A call that sends a request, and the call of dispatch behind its response.
  pub drive-exchange :
      (n fuel : ℕ) (w w' : RemoteWorker) (d : system.Disk) (wd : machine.Disk) (r : Request)
      → dispatch_from system parameters fuel w d ≡ continues w' d
      → is_idle w'.state ≡ false
      → pending system w' ≡ some r
      → drive (suc n) (dispatch_from system parameters fuel w d) wd
        ≡ drive n
            (dispatch_from system parameters
              (suc (rest_fuel system parameters))
              (arrived system inbox (handle machine r wd).0 w')
              d)
            (handle machine r wd).1
  unfolding drive
  drive-exchange n fuel w w' d wd r call busy waits =
      ap (λ o. drive (suc n) o wd) call
      ∙ rw (busy, waits, drive)
          (ap (λ o. drive n o (handle machine r wd).1)
            (dispatch-fuel system parameters (arrived system inbox (handle machine r wd).0 w') d))
