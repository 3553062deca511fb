-- ===== src/Job/Carried.antt =====
-- What one exchange comes to: the worker has handled the request, and dispatch has its response.
use distray.Base.{
  ◌+◌, ◌^◌, ◌<◌, ◌≤◌, ◌≡◌, ◌≢◌, refl, ◌∙◌, ap, true, false, List, [], ◌∷◌, ◌++◌, arith, Bytes,
  length, ltb, ltb→lt, length-append,
}
use distray.Base.Int.{ℤ}
use distray.Parameters.{Parameters}
use distray.Drp.{Request, Response}
use distray.Wire.Codec.{be32, length-be32}
use distray.Wire.Outgoing.{OutgoingBuffer, set_message}
use distray.Wire.Incoming.{IncomingBuffer, need_receive, reset}
use distray.Wire.Incoming.Safety.{IsValid, reset-IsValid}
use distray.Wire.Blocking.{send_message}
use distray.Wire.RoundTrip.{deliver, deliver-set_message}
use distray.Worker.{Machine, handle, serve, Served}
use distray.Worker.Stream.{round_of}
use distray.RemoteWorker.{RemoteWorker, System, is_idle, dispatch}
use distray.Controller.{Round, run}
use distray.Exchange.{serve-one}
use distray.Job.Drive.{arrived}
use distray.Job.Delivery.{Pieces, inbox, receivable, delivered, pump-delivered, both_true}
use distray.Job.Rounds.{write_rounds, read_rounds, exchange, fits}
use distray.Job.Passes.{one, after}
use distray.Job.Stream.{run-write_rounds, run-read_rounds}

module _ (system : System) (parameters : Parameters) (machine : Machine) (pieces : Pieces) where
  open system use {requests, responses}

  abbrev pub Small : Request → Type 0
  Small r = length (requests.serialize r) + 4 < 2 ^ 32

  pub fits-limits :
      (r : Request) (m : Response)
      → fits system parameters machine pieces r m ≡ true
      → (requests.serialize r ≢ []) × Small r × (receivable system pieces m ≡ true)
  fits-limits r m e =
      let (some_bytes, e') = both_true (ltb 0 (length (requests.serialize r))) _ e in
      let (short, ok) = both_true (ltb (length (requests.serialize r) + 4) (2 ^ 32)) _ e' in
      let filled_in = ltb→lt 0 (length (requests.serialize r)) some_bytes in
      (
        λ empty.
            let none_there : length (requests.serialize r) ≡ 0 = ap length empty in omega arith,
        ltb→lt (length (requests.serialize r) + 4) (2 ^ 32) short,
        ok,
      )

  module _ (w : RemoteWorker) (frames : List ℤ) (d : system.Disk) (wd : machine.Disk) (r : Request)
      (o : OutgoingBuffer) (b : IncomingBuffer) where
    abbrev pub asking : RemoteWorker
    asking = record w { outgoing_buffer = set_message requests o r; incoming_buffer = reset b }

    abbrev pub reply : Response
    reply = (handle machine r wd).0

    -- The passes of this exchange.
    abbrev pub its_rounds : List Round
    its_rounds =
        write_rounds (pieces.sends (set_message requests o r).buffer) (set_message requests o r)
        ++ read_rounds (pieces.receives (send_message responses reply)) (reset b)
            (send_message responses reply)

    sends_enough :
        length (requests.serialize r) + 4 ≤ length (pieces.sends (set_message requests o r).buffer)
    unfolding set_message
    sends_enough =
        let n = length (requests.serialize r) in
        omega (
          arith,
          pieces.sends_enough (set_message requests o r).buffer,
          length-append (be32 n) (requests.serialize r),
          length-be32 n,
        )

    pub exchange-rounds :
        fits system parameters machine pieces r reply ≡ true
        → exchange system parameters machine pieces asking wd
          ≡ (its_rounds, (handle machine r wd).1)
    exchange-rounds e =
        let (some_bytes, short, ok) = fits-limits r reply e in
        let (o', sent, idles) =
          deliver-set_message requests o r (pieces.sends (set_message requests o r).buffer) short
            (pieces.sends_positive (set_message requests o r).buffer) sends_enough in
        ap
          (λ (x : OutgoingBuffer × Bytes).
            passes_of (serve machine requests responses (round_of requests x.1 ∷ []) wd))
          sent
        ∙ ap passes_of (serve-one machine requests responses r wd some_bytes short)
      where
        passes_of : Served machine → List Round × machine.Disk
        passes_of served = (
          write_rounds (pieces.sends (set_message requests o r).buffer) (set_message requests o r)
              ++ read_rounds (pieces.receives served.sent) (reset b) served.sent,
          served.disk,
        )

    pub run-dispatch :
        parameters.proxy_endpoints ≡ []
        → is_idle w.state ≡ false
        → IsValid b
        → fits system parameters machine pieces r reply ≡ true
        → run system parameters its_rounds (one asking frames d)
          ≡ after system parameters frames
              (dispatch system parameters (arrived system (inbox system pieces) reply asking) d)
    unfolding reset need_receive
    run-dispatch none_left busy v e =
        let (some_bytes, short, ok) = fits-limits r reply e in
        let ks = pieces.sends (set_message requests o r).buffer in
        let bytes = send_message responses reply in
        let calling : RemoteWorker = record asking {
          outgoing_buffer = (deliver ks (set_message requests o r)).0;
        } in
        let (pumped, whole, valid) =
          pump-delivered system pieces reply (reset b) (reset-IsValid v) ok in
        run-write_rounds system parameters ks asking frames d
          (read_rounds (pieces.receives bytes) (reset b) bytes) none_left busy
        ∙ run-read_rounds system parameters (pieces.receives bytes) calling frames d bytes
            (delivered system pieces reply (reset b)) [] none_left busy refl whole pumped
