-- ===== src/Exchange.antt =====
-- The controller's buffers (src/OutgoingBuffer.hpp, src/IncomingBuffer.hpp) and the worker's loop
-- (src/worker.cpp) on one connection: a request goes out in pieces, the worker answers it, and the
-- response comes in in other pieces.
mod Tests
use distray.Base.{
  ℕ, ◌+◌, ◌^◌, ◌≤◌, ◌<◌, ◌≡◌, ◌≢◌, refl, sym, ap, ◌∙◌, subst, true, false, List, [], ◌∷◌, ◌++◌,
  Option, none, some, arith, Bytes, length, append-nil, take-length,
}
use distray.Drp.{Request, Response}
use distray.Wire.Codec.{Codec}
use distray.Wire.Outgoing.{OutgoingBuffer, set_message}
use distray.Wire.Incoming.{IncomingBuffer, max_incoming_file_size, reset, get_message}
use distray.Wire.Incoming.Safety.{IsValid, reset-IsValid}
use distray.Wire.Incoming.Pump.{Positive, pump}
use distray.Wire.Incoming.PumpSafety.{LeavesValid, pump-IsValid}
use distray.Wire.Blocking.{returned, send_message, receive_message, receive_message-send_message}
use distray.Wire.RoundTrip.{deliver, deliver-set_message, get_message-send_message}
use distray.Worker.{Machine, handle, serve, waiting}
use distray.Worker.Stream.{round_of}

-- A request, with the pieces in which it is sent and those in which its response is received.
pub record Turn : Type 0 where
  pub request : Request
  pub sends : List ℕ
  pub receives : List ℕ

module _ (machine : Machine) (requests : Codec Request) (responses : Codec Response) where
  open machine use {Disk}

  abbrev with_buffer : IncomingBuffer → Option Response → Option (IncomingBuffer × Response)
  with_buffer b none = none
  with_buffer b (some response) = some (b, response)

  -- Behind the last call of the controller's receive.
  abbrev take_response : Option (IncomingBuffer × Bytes) → Option (IncomingBuffer × Response)
  take_response none = none
  take_response (some (b, rest)) = with_buffer b (get_message responses b)

  abbrev before : Response → Option (List Response × Disk) → Option (List Response × Disk)
  before response none = none
  before response (some (others, d)) = some (response ∷ others, d)

  abbrev and_then :
      Option (IncomingBuffer × Response)
      → (IncomingBuffer → Option (List Response × Disk))
      → Option (List Response × Disk)
  and_then none next = none
  and_then (some (b, response)) next = before response (next b)

  -- The turns on one connection, one after the other: set_message and send of the controller, a round
  -- of start_worker's loop on what has come, then reset, receive and get_message of the controller.
  -- The result has the responses as the controller reads them and the worker's disk.
  unfoldable pub converse :
      List Turn → OutgoingBuffer → IncomingBuffer → Disk → Option (List Response × Disk)
  unfolding set_message reset get_message serve deliver pump
  converse [] o b d = some ([], d)
  converse (t ∷ ts) o b d =
      let (o', out) = deliver t.sends (set_message requests o t.request) in
      let served = serve machine requests responses (round_of requests out ∷ []) d in
      and_then (take_response (pump t.receives (reset b) served.sent))
        (λ b'. converse ts o' b' served.disk)

  -- The same without a wire: procedure calls on the disk.
  abbrev pub calls : List Turn → Disk → List Response × Disk
  calls [] d = ([], d)
  calls (t ∷ ts) d =
      let (response, d') = handle machine t.request d in
      let (others, last) = calls ts d' in (response ∷ others, last)

  -- Requests with a byte at least, whose size fits in 32 bits with that of the size itself; responses
  -- within the limit; and pieces that are not empty, as many as there are bytes.
  abbrev pub Passable : List Turn → Disk → Type 0
  Passable [] d = Unit
  Passable (t ∷ ts) d =
      let (response, d') = handle machine t.request d in
      let up = length (requests.serialize t.request) + 4 in
      let down = length (responses.serialize response) in
      (requests.serialize t.request ≢ [])
      × (up < 2 ^ 32)
      × (down ≤ max_incoming_file_size)
      × Positive t.sends
      × (up ≤ length t.sends)
      × Positive t.receives
      × (down + 4 ≤ length t.receives)
      × Passable ts d'

  -- What the loop of the worker makes of one whole request.
  pub serve-one :
      (r : Request) (d : Disk)
      → requests.serialize r ≢ []
      → length (requests.serialize r) + 4 < 2 ^ 32
      → serve machine requests responses (round_of requests (send_message requests r) ∷ []) d
        ≡ record {
          ending = waiting;
          disk = (handle machine r d).1;
          sent = send_message responses (handle machine r d).0;
        }
  unfolding serve
  serve-one r d some_bytes small =
      let whole : send_message requests r ++ [] ≡ send_message requests r =
        append-nil (send_message requests r) in
      let arrives =
        subst
          (λ s.
            receive_message requests (round_of requests s).size (round_of requests s).content
            ≡ returned r)
          whole (receive_message-send_message requests r [] some_bytes small) in
      let bytes = send_message responses (handle machine r d).0 in
      rw (arrives, serve, take-length bytes, append-nil bytes) refl

  -- What the controller reads of a response, and that it can read another behind it.
  reads-back :
      (m : Response) (b : IncomingBuffer) (ls : List ℕ)
      → IsValid b
      → length (responses.serialize m) ≤ max_incoming_file_size
      → Positive ls
      → length (responses.serialize m) + 4 ≤ length ls
      → (b' : IncomingBuffer) × (take_response (pump ls (reset b) (send_message responses m))
          ≡ some (b', m))
        × IsValid b'
  reads-back m b ls v limit p rounds =
      let (b', received, whole, read) =
        get_message-send_message responses b m ls [] v limit p rounds in
      let exact : pump ls (reset b) (send_message responses m) ≡ some (b', []) =
        ap (pump ls (reset b)) (sym (append-nil (send_message responses m))) ∙ received in
      (
        b',
        ap take_response exact ∙ ap (with_buffer b') read,
        subst LeavesValid exact
            (pump-IsValid ls (reset b) (send_message responses m) (reset-IsValid v)),
      )

  -- From an incoming buffer within its bounds, where no request is empty, each request fits in 32 bits
  -- with the four bytes of its size, each response is within the 10 MB of the incoming buffer, the
  -- pieces are of a byte at least and as many as there are bytes, and the worker's ::send takes
  -- all that it is offered: in whatever such pieces the controller sends its requests and receives the
  -- responses, the turns come to the responses and the disk that the worker's handlers give when they
  -- are called one after the other with the requests.
  pub converse-calls :
      (ts : List Turn) (o : OutgoingBuffer) (b : IncomingBuffer) (d : Disk)
      → IsValid b
      → Passable ts d
      → converse ts o b d ≡ some (calls ts d)
  unfolding converse
  converse-calls [] o b d v h = refl
  converse-calls (t ∷ ts) o b d v (some_bytes, fits, limit, ps, up, pr, down, h) =
      let (response, d') = handle machine t.request d in
      let (o', sent, idle) = deliver-set_message requests o t.request t.sends fits ps up in
      let served = serve-one t.request d some_bytes fits in
      let (b', read, v') = reads-back response b t.receives v limit pr down in
      let rest = converse-calls ts o' b' d' v' h in rw (sent, served, read, rest) refl
