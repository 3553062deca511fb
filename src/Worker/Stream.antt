-- ===== src/Worker/Stream.antt =====
-- A worker at the end of a stream of requests, which closes behind the last one.
use distray.Base.{
  ◌^◌, ◌<◌, ◌≡◌, ◌≢◌, refl, List, [], ◌∷◌, ◌++◌, Bytes, length, drop, ◌+◌, take-length,
}
use distray.Drp.{Request, Response}
use distray.Wire.Codec.{Codec, be32}
use distray.Wire.Outgoing.{sent_here}
use distray.Wire.Blocking.{send_message, wait_all, send_message_lem, receive_message-send_message}
use distray.Worker.{Machine, handle, Round, closed, serve}

module _ (requests : Codec Request) where
  -- What a controller sends, request by request.
  abbrev pub stream : List Request → Bytes
  stream [] = []
  stream (r ∷ rs) = send_message requests r ++ stream rs

  -- What the calls of one round answer at the front of a stream; ::send takes all that it is offered.
  abbrev pub round_of : Bytes → Round
  round_of bytes = record {
    size = wait_all requests bytes 4;
    content = wait_all requests (drop 4 bytes);
    sent = λ n. sent_here n;
  }

  -- A round for each request, and one that finds the end of the stream.
  abbrev pub rounds_of : List Request → List Round
  rounds_of [] = round_of [] ∷ []
  rounds_of (r ∷ rs) = round_of (stream (r ∷ rs)) ∷ rounds_of rs

module _ (machine : Machine) (requests : Codec Request) (responses : Codec Response) where
  -- The requests handled one after the other, with the responses behind the four bytes of their sizes.
  abbrev pub in_turn : List Request → machine.Disk → machine.Disk × Bytes
  in_turn [] d = (d, [])
  in_turn (r ∷ rs) d =
      let (response, d') = handle machine r d in
      let bytes = responses.serialize response in
      let (last, others) = in_turn rs d' in (last, (be32 (length bytes) ++ bytes) ++ others)

  -- Requests of a byte at least, and the responses to them; with the four bytes of the size, each
  -- fits in 32 bits.
  abbrev pub Fit : List Request → machine.Disk → Type 0
  Fit [] d = Unit
  Fit (r ∷ rs) d =
      let (response, d') = handle machine r d in
      (requests.serialize r ≢ [])
      × (length (requests.serialize r) + 4 < 2 ^ 32)
      × (length (responses.serialize response) + 4 < 2 ^ 32)
      × Fit rs d'

  -- On a stream of requests that closes behind the last, where no request is empty, each request and
  -- each response fits in 32 bits with the four bytes of its size, and every ::send takes all that it
  -- is offered: the worker handles each request once and in order, sends exactly the responses, each
  -- behind its size, and ends with a graceful shutdown.
  pub serve-stream :
      (rs : List Request) (d : machine.Disk)
      → Fit rs d
      → let (last, bytes) = in_turn rs d in
        serve machine requests responses (rounds_of requests rs) d
        ≡ record { ending = closed; disk = last; sent = bytes }
  unfolding serve
  serve-stream [] d h = refl
  serve-stream (r ∷ rs) d (some_bytes, small, short, h) =
      let (response, d') = handle machine r d in
      let arrives = receive_message-send_message requests r (stream requests rs) some_bytes small in
      let rest = serve-stream rs d' h in
      let whole = take-length (send_message responses response) in
      rw (arrives, serve, rest, whole, send_message_lem responses response short) refl
