-- ===== src/Job/Answering.antt =====
-- What dispatch makes of a response, and of a start: the states of src/RemoteWorker.cpp from one return to
-- the next.
use distray.Base.{
  ◌≡◌, inl, inr, refl, sym, subst, true, some, arith, get_elem?, Bool-cases, Option-cases,
}
use distray.Base.Int.{ℤ, pos, ◌==ℤ◌}
use distray.Parameters.{Parameters}
use distray.Drp.{RequestType, Response, welcome, copy_in, execute, copy_out}
use distray.Wire.Incoming.{reset}
use distray.Wire.Incoming.Safety.{IsValid, reset-IsValid, empty-IsValid}
use distray.RemoteWorker.{
  RemoteWorker, State, System, is_immediate, is_idle, with_response, switch, dispatch, run_frame,
  start, new, receive_response, handle_copy_file_out_response, send_welcome_request,
  receive_welcome_response, send_copy_in_non_frame_file, receive_copy_in_non_frame_file, idle,
  send_copy_in_frame_file, receive_copy_in_frame_file, send_execute_request,
  receive_execute_response, send_copy_out_frame_file, receive_copy_out_frame_file,
  send_copy_out_non_frame_file, receive_copy_out_non_frame_file, done,
}
use distray.RemoteWorker.Phases.{Yields, dispatch-Yields}
use distray.Job.Asking.{Keeps, passed, is_waiting}

module _ (system : System) (parameters : Parameters) where
  receive_response-IsValid :
      (t : RequestType) (w : RemoteWorker) {r : Response} {w' : RemoteWorker}
      → receive_response system parameters t w ≡ some (r, w')
      → IsValid w.incoming_buffer
      → IsValid w'.incoming_buffer
  unfolding receive_response
  receive_response-IsValid t w {r} {w'} e v =
      let same : w'.incoming_buffer ≡ reset w.incoming_buffer = ground arith in
      subst IsValid (sym same) (reset-IsValid v)

  -- A response in a state that expects one.
  replied :
      (s : State) (w : RemoteWorker) (d : system.Disk)
      → is_waiting s ≡ true
      → IsValid w.incoming_buffer
      → Yields (Keeps system parameters) (switch system parameters s w d)
  unfolding switch
  replied receive_welcome_response w d h v =
      elim (Option-cases (receive_response system parameters welcome w)) [
        | inl e ↦ rw (e, switch) tt
        | inr ((r, w'), e) ↦ rw (e, switch) (receive_response-IsValid welcome w e v, inl refl)
      ]
  replied receive_copy_in_non_frame_file w d h v =
      elim (Option-cases (receive_response system parameters copy_in w)) [
        | inl e ↦ rw (e, switch) tt
        | inr ((r, w'), e) ↦ elim (Bool-cases (r.copy_in_response.success)) [
          | inl y ↦ rw (e, switch, y) (receive_response-IsValid copy_in w e v, inl refl)
          | inr y ↦ rw (e, switch, y) tt
        ]
      ]
  replied receive_copy_in_frame_file w d h v =
      elim (Option-cases (receive_response system parameters copy_in w)) [
        | inl e ↦ rw (e, switch) tt
        | inr ((r, w'), e) ↦ elim (Bool-cases (r.copy_in_response.success)) [
          | inl y ↦ rw (e, switch, y) (receive_response-IsValid copy_in w e v, inl refl)
          | inr y ↦ rw (e, switch, y) tt
        ]
      ]
  replied receive_execute_response w d h v =
      elim (Option-cases (receive_response system parameters execute w)) [
        | inl e ↦ rw (e, switch) tt
        | inr ((r, w'), e) ↦ elim (Bool-cases (r.execute_response.status ==ℤ pos 0)) [
          | inl y ↦ rw (e, switch, y) (receive_response-IsValid execute w e v, inl refl)
          | inr y ↦ rw (e, switch, y) tt
        ]
      ]
  replied receive_copy_out_frame_file w d h v =
      elim (Option-cases (receive_response system parameters copy_out w)) [
        | inl e ↦ rw (e, switch) tt
        | inr ((r, w'), e) ↦ elim (Option-cases (get_elem? parameters.out_copies w'.state_index)) [
          | inl g ↦ rw (e, with_response, g) tt
          | inr (c, g) ↦
              elim (Option-cases (handle_copy_file_out_response system parameters r w'.frame c d)) [
                | inl k ↦ rw (e, with_response, g, k) tt
                | inr (d', k) ↦
                    rw (e, with_response, g, k) (receive_response-IsValid copy_out w e v, inl refl)
              ]
        ]
      ]
  replied send_welcome_request w d h v = cc
  replied send_copy_in_non_frame_file w d h v = cc
  replied idle w d h v = cc
  replied send_copy_in_frame_file w d h v = cc
  replied send_execute_request w d h v = cc
  replied send_copy_out_frame_file w d h v = cc
  replied send_copy_out_non_frame_file w d h v = cc
  replied receive_copy_out_non_frame_file w d h v = cc
  replied done w d h v = cc

  pub dispatch-Keeps :
      (w : RemoteWorker) (d : system.Disk)
      → is_waiting w.state ≡ true
      → IsValid w.incoming_buffer
      → Yields (Keeps system parameters) (dispatch system parameters w d)
  dispatch-Keeps w d h v =
      dispatch-Yields system parameters (Keeps system parameters)
        (λ w d i k. passed system parameters w.state w d refl i k) w d (replied w.state w d h v)

  is_immediate-Keeps :
      (w : RemoteWorker) (d : system.Disk)
      → is_immediate w.state ≡ true
      → Keeps system parameters w
      → Yields (Keeps system parameters) (dispatch system parameters w d)
  is_immediate-Keeps w d i k =
      dispatch-Yields system parameters (Keeps system parameters)
        (λ w d i k. passed system parameters w.state w d refl i k) w d
        (passed system parameters w.state w d refl i k)

  pub start-Keeps :
      (d : system.Disk) → Yields (Keeps system parameters) (start system parameters new d)
  unfolding start new
  start-Keeps d = is_immediate-Keeps new d refl (empty-IsValid, inl refl)

  pub run_frame-Keeps :
      (frame : ℤ) (w : RemoteWorker) (d : system.Disk)
      → IsValid w.incoming_buffer
      → Yields (Keeps system parameters) (run_frame system parameters frame w d)
  unfolding run_frame
  run_frame-Keeps frame w d v = elim (Bool-cases (is_idle w.state)) [
    | inr e ↦ rw e tt
    | inl e ↦ rw e (
        is_immediate-Keeps
          (record w { frame = frame; state = send_copy_in_frame_file; state_index = 0 }) d refl
          (v, inl refl))
  ]
