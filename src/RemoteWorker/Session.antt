-- ===== src/RemoteWorker/Session.antt =====
-- What passes between the controller and a worker that answers every request with success.
pub mod Steps
pub mod Outward
pub mod Frame
pub mod Start
use distray.Base.{
  ℕ, suc, ◌≡◌, refl, ◌∙◌, ap, Bool, true, false, List, [], ◌∷◌, ◌++◌, Option, none, some,
  if◌then◌else◌, Bytes, drop, length,
}
use distray.Base.Int.{ℤ, pos}
use distray.Util.Parameter.{substitute_parameter}
use distray.Parameters.{Parameters, FileCopy}
use distray.Drp.{RequestType, Request, Response}
use distray.Wire.Codec.{Codec, be32}
use distray.Wire.Outgoing.{OutgoingBuffer, set_message}
use distray.Wire.Incoming.{IncomingBuffer, get_message}
use distray.RemoteWorker.{
  RemoteWorker, State, System, Outcome, continues, is_for, copy_in_of, execute_of, copy_out_of,
  dispatch,
}

-- A worker that does what it is asked to and says so. `inbox` stands for an incoming buffer that its
-- answer has arrived in, which takes an answer within the 10 MB of that buffer: see Wire.RoundTrip.
pub record Peer (system : System) : Type 1 where
  pub answer : Request → Response
  pub inbox : Response → IncomingBuffer
  pub arrives : (r : Request) → get_message system.responses (inbox (answer r)) ≡ some (answer r)
  pub same_type : (r : Request) → (answer r).request_type ≡ r.request_type
  pub copies_in : (r : Request) → (answer r).copy_in_response.success ≡ true
  pub executes : (r : Request) → (answer r).execute_response.status ≡ pos 0
  pub copies_out : (r : Request) → (answer r).copy_out_response.success ≡ true

module _ (system : System) where
  -- The request that waits in the outgoing buffer.
  unfoldable pub pending : RemoteWorker → Option Request
  pending w = system.requests.parse (drop 4 w.outgoing_buffer.buffer)

  abbrev pub content_of : system.Disk → Bytes → Bytes
  content_of d pathname = elim (system.read_file d pathname) [ none ↦ [] | some c ↦ c ]

  -- The copies that are made for a frame, or for none, as requests, in order.
  abbrev pub in_requests : system.Disk → ℤ → List FileCopy → List Request
  in_requests d frame [] = []
  in_requests d frame (c ∷ cs) =
      if is_for frame c
      then copy_in_of c frame (content_of d (substitute_parameter c.source frame))
        ∷ in_requests d frame cs
      else in_requests d frame cs

abbrev pub out_requests : ℤ → List FileCopy → List Request
out_requests frame [] = []
out_requests frame (c ∷ cs) =
    if is_for frame c then copy_out_of c frame ∷ out_requests frame cs else out_requests frame cs

module _ (system : System) (parameters : Parameters) (peer : Peer system) where
  abbrev pub arrived : Request → RemoteWorker → RemoteWorker
  arrived r w = record w { incoming_buffer = peer.inbox (peer.answer r) }

  -- The requests that go out from a state on, each answered by the peer and dispatched.
  pub data Session
      : RemoteWorker → system.Disk → List Request → RemoteWorker → system.Disk → Type 0 where
    finished : {w : RemoteWorker} {d : system.Disk} → Session w d [] w d
    exchange :
        {w w1 w2 : RemoteWorker} {d d1 d2 : system.Disk} {r : Request} {rs : List Request}
        → pending system w ≡ some r
        → dispatch system parameters (arrived r w) d ≡ continues w1 d1
        → Session w1 d1 rs w2 d2
        → Session w d (r ∷ rs) w2 d2
