-- ===== src/Job/Asking.antt =====
-- What src/RemoteWorker.cpp leaves behind each call of dispatch: a worker that is idle, or whose request
-- waits, with an incoming buffer that is ready for the response.
use distray.Base.{
  ◌≡◌, ◌⊎◌, inl, inr, refl, ap, Bool, true, false, get_elem?, Bool-cases, Option-cases,
}
use distray.Base.Int.{ℤ}
use distray.Util.Parameter.{substitute_parameter}
use distray.Parameters.{Parameters}
use distray.Drp.{Request, welcome, request_of}
use distray.Wire.Outgoing.{OutgoingBuffer, set_message}
use distray.Wire.Incoming.{IncomingBuffer, reset}
use distray.Wire.Incoming.Safety.{IsValid, reset-IsValid}
use distray.RemoteWorker.{
  RemoteWorker, State, System, is_for, is_immediate, no_frame, execute_of, copy_in_of, copy_out_of,
  switch, send_request, copy_file_in, copy_file_out, send_welcome_request, receive_welcome_response,
  send_copy_in_non_frame_file, receive_copy_in_non_frame_file, idle, send_copy_in_frame_file,
  receive_copy_in_frame_file, send_execute_request, receive_execute_response,
  send_copy_out_frame_file, receive_copy_out_frame_file, send_copy_out_non_frame_file,
  receive_copy_out_non_frame_file, done,
}
use distray.RemoteWorker.Phases.{Yields}

-- States that are passed at once, and the idle state.
abbrev pub is_quiet : State → Bool
is_quiet send_welcome_request = true
is_quiet send_copy_in_non_frame_file = true
is_quiet send_copy_in_frame_file = true
is_quiet send_execute_request = true
is_quiet send_copy_out_frame_file = true
is_quiet idle = true
is_quiet _ = false

-- States in which a response is expected.
abbrev pub is_waiting : State → Bool
is_waiting receive_welcome_response = true
is_waiting receive_copy_in_non_frame_file = true
is_waiting receive_copy_in_frame_file = true
is_waiting receive_execute_response = true
is_waiting receive_copy_out_frame_file = true
is_waiting _ = false

module _ (system : System) (parameters : Parameters) where
  -- A request waits, and the incoming buffer is reset.
  pub record Asks (w : RemoteWorker) : Type 0 where
    pub request : Request
    pub before : OutgoingBuffer
    pub outgoing : w.outgoing_buffer ≡ set_message system.requests before request
    pub used : IncomingBuffer
    pub incoming : w.incoming_buffer ≡ reset used
    pub valid : IsValid used
    pub waits : is_waiting w.state ≡ true

  abbrev pub Keeps : RemoteWorker → Type 0
  Keeps w = IsValid w.incoming_buffer × ((is_quiet w.state ≡ true) ⊎ Asks w)

  send_request-Keeps :
      (r : Request) (s : State) (w : RemoteWorker)
      → IsValid w.incoming_buffer
      → is_waiting s ≡ true
      → Keeps (send_request system parameters r s w)
  unfolding send_request
  send_request-Keeps r s w v h = (
    reset-IsValid v,
    inr (record {
      request = r;
      before = w.outgoing_buffer;
      outgoing = refl;
      used = w.incoming_buffer;
      incoming = refl;
      valid = v;
      waits = h;
    }),
  )

  copy_file_in-Keeps :
      (frame : ℤ) (r n : State) (w : RemoteWorker) (d : system.Disk)
      → IsValid w.incoming_buffer
      → is_quiet w.state ≡ true
      → is_waiting r ≡ true
      → is_quiet n ≡ true
      → Yields Keeps (copy_file_in system parameters frame r n w d)
  unfolding copy_file_in
  copy_file_in-Keeps frame r n w d v q hr hn =
      elim (Option-cases (get_elem? parameters.in_copies w.state_index)) [
        | inl e ↦ rw (e, copy_file_in) (v, inl hn)
        | inr (c, e) ↦ elim (Bool-cases (is_for frame c)) [
          | inr other ↦ rw (e, copy_file_in, other) (v, inl q)
          | inl match ↦
              elim (Option-cases (system.read_file d (substitute_parameter c.source frame))) [
                | inl g ↦ rw (e, copy_file_in, match, g) tt
                | inr (content, g) ↦
                    rw (e, copy_file_in, match, g)
                      (send_request-Keeps (copy_in_of c frame content) r w v hr)
              ]
        ]
      ]

  copy_file_out-Keeps :
      (frame : ℤ) (r n : State) (w : RemoteWorker) (d : system.Disk)
      → IsValid w.incoming_buffer
      → is_quiet w.state ≡ true
      → is_waiting r ≡ true
      → is_quiet n ≡ true
      → Yields Keeps (copy_file_out system parameters frame r n w d)
  unfolding copy_file_out
  copy_file_out-Keeps frame r n w d v q hr hn =
      elim (Option-cases (get_elem? parameters.out_copies w.state_index)) [
        | inl e ↦ rw (e, copy_file_out) (v, inl hn)
        | inr (c, e) ↦ elim (Bool-cases (is_for frame c)) [
          | inr other ↦ rw (e, copy_file_out, other) (v, inl q)
          | inl match ↦
              rw (e, copy_file_out, match) (send_request-Keeps (copy_out_of c frame) r w v hr)
        ]
      ]

  -- A state that is passed at once.
  pub passed :
      (s : State) (w : RemoteWorker) (d : system.Disk)
      → w.state ≡ s
      → is_immediate s ≡ true
      → Keeps w
      → Yields Keeps (switch system parameters s w d)
  unfolding switch
  passed send_welcome_request w d e i (v, k) =
      send_request-Keeps (request_of welcome) receive_welcome_response w v refl
  passed send_copy_in_non_frame_file w d e i (v, k) =
      copy_file_in-Keeps no_frame receive_copy_in_non_frame_file idle w d v (ap is_quiet e) refl
        refl
  passed send_copy_in_frame_file w d e i (v, k) =
      copy_file_in-Keeps w.frame receive_copy_in_frame_file send_execute_request w d v
        (ap is_quiet e) refl refl
  passed send_execute_request w d e i (v, k) =
      send_request-Keeps (execute_of parameters w.frame) receive_execute_response w v refl
  passed send_copy_out_frame_file w d e i (v, k) =
      copy_file_out-Keeps w.frame receive_copy_out_frame_file idle w d v (ap is_quiet e) refl refl
  passed send_copy_out_non_frame_file w d e i k = k
  passed receive_welcome_response w d e i k = cc
  passed receive_copy_in_non_frame_file w d e i k = cc
  passed idle w d e i k = cc
  passed receive_copy_in_frame_file w d e i k = cc
  passed receive_execute_response w d e i k = cc
  passed receive_copy_out_frame_file w d e i k = cc
  passed receive_copy_out_non_frame_file w d e i k = cc
  passed done w d e i k = cc
