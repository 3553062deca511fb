-- ===== src/RemoteWorker/Transfer.antt =====
-- src/RemoteWorker.hpp: the descriptor of a remote worker, as the controller's loop polls, reads and
-- writes it.
use distray.Base.{Bool, if◌then◌else◌, Bytes}
use distray.Base.Int.{ℤ}
use distray.Parameters.{Parameters}
use distray.Wire.Outgoing
use distray.Wire.Outgoing.{OutgoingBuffer, Sent}
use distray.Wire.Incoming
use distray.Wire.Incoming.{
  IncomingBuffer, Answer, Errno, Received, received_ok, failed, exited, need_receive,
}
use distray.RemoteWorker
use distray.RemoteWorker.{RemoteWorker, System, Outcome, dispatch}

abbrev pub set_proxy_index : ℤ → RemoteWorker → RemoteWorker
set_proxy_index proxy_index w = record w { proxy_index = proxy_index }

-- The events that poll is asked for.
pub record Polled : Type 0 where
  pub pollout : Bool
  pub pollin : Bool

abbrev pub fill_pollfd : RemoteWorker → Polled
fill_pollfd w = record {
  pollout = Outgoing.need_send w.outgoing_buffer;
  pollin = need_receive w.incoming_buffer;
}

-- The worker, whether it was successful, and the bytes that the socket took.
unfoldable pub send : Sent → RemoteWorker → RemoteWorker × Bool × Bytes
unfolding Outgoing.send
send answer w =
    let (buffer, success, bytes) = Outgoing.send w.outgoing_buffer answer in
    (record w { outgoing_buffer = buffer }, success, bytes)

-- What receive comes to: false with errno, or what follows from a call that does not fail.
pub data Reception (D : Type 0) : Type 0 where
  lost : Errno → Reception D
  went_on : Outcome D → Reception D

module _ (system : System) (parameters : Parameters) where
  abbrev pub received : RemoteWorker → system.Disk → Received → Reception system.Disk
  received w d (failed e) = lost e
  received w d exited = went_on RemoteWorker.exited
  received w d (received_ok buffer) =
      let dispatched = dispatch system parameters (record w { incoming_buffer = buffer }) d in
      if need_receive buffer
      then went_on (RemoteWorker.continues (record w { incoming_buffer = buffer }) d)
      else went_on dispatched

  unfoldable pub receive : Answer → RemoteWorker → system.Disk → Reception system.Disk
  unfolding dispatch Incoming.receive
  receive answer w d = received w d (Incoming.receive w.incoming_buffer answer)
