-- ===== src/Job/Stream.antt =====
-- The passes of the loop of src/controller.cpp that send a whole request and receive a whole response.
use distray.Base.{
  ℕ, ◌+◌, ◌%◌, ◌^◌, ◌≡◌, ◌⊎◌, inl, inr, refl, sym, ◌∙◌, ap, true, false, List, [], ◌∷◌, ◌++◌,
  Option, none, some, min, Bytes, length, take, drop, Bool-cases,
}
use distray.Base.Int.{ℤ}
use distray.Parameters.{Parameters}
use distray.Wire.Outgoing
use distray.Wire.Outgoing.{OutgoingBuffer, sent_here, need_send, offered}
use distray.Wire.Incoming
use distray.Wire.Incoming.{
  IncomingBuffer, Received, received_ok, failed, exited, recv_here, need_receive, bytes_left,
}
use distray.Wire.Incoming.Pump.{pump, on_ok}
use distray.Wire.RoundTrip.{deliver, deliver-idle}
use distray.RemoteWorker.{RemoteWorker, System, continues, is_idle, dispatch}
use distray.Controller.{Round, run}
use distray.Job.Rounds.{writable, readable, only, write_rounds, read_rounds, on_received}
use distray.Job.Passes.{one, after}
use distray.Job.Turn.{
  run-only, run-last, serve_worker-writable, serve_worker-readable, receive_partly, receive_whole,
}

Received-cases :
    (x : Received)
    → ((b : IncomingBuffer) × (x ≡ received_ok b))
      ⊎ ((f : IncomingBuffer → Option (IncomingBuffer × Bytes)) → on_ok x f ≡ none)
Received-cases (received_ok b) = inl (b, refl)
Received-cases (failed e) = inr (λ f. refl)
Received-cases exited = inr (λ f. refl)

pump-idle :
    (ks : List ℕ) (b : IncomingBuffer) (stream : Bytes)
    → need_receive b ≡ false
    → pump ks b stream ≡ some (b, stream)
unfolding pump
pump-idle [] b stream e = refl
pump-idle (k ∷ ks) b stream e = rw e refl

read_rounds-idle :
    (ks : List ℕ) (b : IncomingBuffer) (stream : Bytes)
    → need_receive b ≡ false
    → read_rounds ks b stream ≡ []
unfolding read_rounds
read_rounds-idle [] b stream e = refl
read_rounds-idle (k ∷ ks) b stream e = rw e refl

some-inj :
    {b : IncomingBuffer} {stream rest : Bytes} (b' : IncomingBuffer)
    → ◌≡◌ {A = Option (IncomingBuffer × Bytes)} (some (b, stream)) (some (b', rest))
    → b ≡ b'
some-inj b' e =
    ap (λ (o : Option (IncomingBuffer × Bytes)). elim o [ none ↦ b' | some (b, stream) ↦ b ]) e

pump_step :
    (k : ℕ) (ks : List ℕ) (b : IncomingBuffer) (stream : Bytes)
    → need_receive b ≡ true
    → pump (k ∷ ks) b stream
      ≡ on_ok
          (Incoming.receive b (recv_here (take (min k (bytes_left b)) stream)))
          (λ b'. pump ks b' (drop (min k (bytes_left b)) stream))
unfolding pump
pump_step k ks b stream needs = rw needs refl

rounds_step :
    (k : ℕ) (ks : List ℕ) (b b1 : IncomingBuffer) (stream : Bytes)
    → need_receive b ≡ true
    → Incoming.receive b (recv_here (take (min k (bytes_left b)) stream)) ≡ received_ok b1
    → read_rounds (k ∷ ks) b stream
      ≡ only (readable (take (min k (bytes_left b)) stream))
        ∷ read_rounds ks b1 (drop (min k (bytes_left b)) stream)
unfolding read_rounds
rounds_step k ks b b1 stream needs received =
    let n = min k (bytes_left b) in
    let step = ap (λ x. on_received x (λ b'. read_rounds ks b' (drop n stream))) received in
    rw needs (ap (λ rs. only (readable (take n stream)) ∷ rs) step)

module _ (system : System) (parameters : Parameters) where
  pub run-write_rounds :
      (ks : List ℕ) (w : RemoteWorker) (frames : List ℤ) (d : system.Disk) (rs : List Round)
      → parameters.proxy_endpoints ≡ []
      → is_idle w.state ≡ false
      → run system parameters (write_rounds ks w.outgoing_buffer ++ rs) (one w frames d)
        ≡ run system parameters rs
            (one (record w { outgoing_buffer = (deliver ks w.outgoing_buffer).0 }) frames d)
  unfolding write_rounds deliver
  run-write_rounds [] w frames d rs none_left busy = refl
  run-write_rounds (k ∷ ks) w frames d rs none_left busy =
      elim (Bool-cases (need_send w.outgoing_buffer)) [
        | inr idles ↦ rw (idles, deliver, deliver-idle ks w.outgoing_buffer idles) refl
        | inl needs ↦
            let b = w.outgoing_buffer in
            let n = min k (length (offered b)) in
            let b' : OutgoingBuffer = record b { sent = (b.sent + n) % 2 ^ 32 } in
            let w' : RemoteWorker = record w { outgoing_buffer = b' } in
            let sent : Outgoing.send b (sent_here n) ≡ (b', true, take n (offered b)) =
              rw needs refl in
            rw (needs, deliver)
              (run-only system parameters (writable n) w w' frames d (write_rounds ks b' ++ rs)
                  none_left busy busy
                  (serve_worker-writable system parameters n w frames d b' (take n (offered b))
                    sent)
                ∙ run-write_rounds ks w' frames d rs none_left busy)
      ]

  -- The pass in which these bytes come in, and those behind it.
  pub run-read_rounds :
      (ks : List ℕ) (w : RemoteWorker) (frames : List ℤ) (d : system.Disk) (stream : Bytes)
      → (b' : IncomingBuffer) (rest : Bytes) → parameters.proxy_endpoints ≡ []
      → is_idle w.state ≡ false
      → need_receive w.incoming_buffer ≡ true
      → need_receive b' ≡ false
      → pump ks w.incoming_buffer stream ≡ some (b', rest)
      → run system parameters (read_rounds ks w.incoming_buffer stream) (one w frames d)
        ≡ after system parameters frames
            (dispatch system parameters (record w { incoming_buffer = b' }) d)
  unfolding read_rounds pump
  run-read_rounds [] w frames d stream b' rest none_left busy needs whole pumped =
      let same : w.incoming_buffer ≡ b' = some-inj b' pumped in cc
  run-read_rounds (k ∷ ks) w frames d stream b' rest none_left busy needs whole pumped =
      let n = min k (bytes_left w.incoming_buffer) in
      let bytes = take n stream in
      elim (Received-cases (Incoming.receive w.incoming_buffer (recv_here bytes))) [
        | inr lost ↦
            let nothing : ◌≡◌ {A = Option (IncomingBuffer × Bytes)} none (some (b', rest)) =
              sym (lost (λ b. pump ks b (drop n stream)))
              ∙ sym (pump_step k ks w.incoming_buffer stream needs)
              ∙ pumped in
            cc
        | inl (b1, received) ↦ elim (Bool-cases (need_receive b1)) [
          | inl more ↦
              let half : RemoteWorker = record w { incoming_buffer = b1 } in
              ap (λ rs. run system parameters rs (one w frames d))
                (rounds_step k ks w.incoming_buffer b1 stream needs received)
              ∙ run-only system parameters (readable bytes) w half frames d _ none_left busy busy (
                  serve_worker-readable system parameters bytes w frames d (continues half d)
                    (receive_partly system parameters bytes w d b1 received more))
              ∙ run-read_rounds ks half frames d (drop n stream) b' rest none_left busy more whole
                  (sym (next b1 received) ∙ pumped)
          | inr last ↦
              let same : b1 ≡ b' =
                some-inj b'
                  (sym (pump-idle ks b1 (drop n stream) last) ∙ sym (next b1 received) ∙ pumped) in
              ap (λ rs. run system parameters rs (one w frames d))
                (rounds_step k ks w.incoming_buffer b1 stream needs received
                  ∙ ap (λ rs. only (readable bytes) ∷ rs)
                      (read_rounds-idle ks b1 (drop n stream) last))
              ∙ run-last system parameters (readable bytes) w frames d _ none_left busy (
                  serve_worker-readable system parameters bytes w frames d _
                    (receive_whole system parameters bytes w d b1 received last))
              ∙ ap
                  (λ x.
                    after system parameters frames
                      (dispatch system parameters (record w { incoming_buffer = x }) d))
                  same
        ]
      ]
    where
      next :
          (b1 : IncomingBuffer)
          → Incoming.receive w.incoming_buffer
              (recv_here (take (min k (bytes_left w.incoming_buffer)) stream))
            ≡ received_ok b1
          → pump (k ∷ ks) w.incoming_buffer stream
            ≡ pump ks b1 (drop (min k (bytes_left w.incoming_buffer)) stream)
      next b1 received =
          pump_step k ks w.incoming_buffer stream needs
          ∙ ap (λ x. on_ok x (λ b. pump ks b (drop (min k (bytes_left w.incoming_buffer)) stream)))
              received
