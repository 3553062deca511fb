-- ===== src/RemoteWorker/Phases/Frame.antt =====
-- A worker stays on its frame through dispatch, and starts on the one that it is given.
use distray.Base.{◌≡◌, inl, inr, refl, ◌∙◌, true, get_elem?, Bool-cases, Option-cases}
use distray.Base.Int.{ℤ, pos, ◌==ℤ◌}
use distray.Parameters.{Parameters}
use distray.Drp.{copy_in, execute, copy_out}
use distray.RemoteWorker.{
  RemoteWorker, State, System, is_immediate, is_idle, switch, dispatch, run_frame, receive_response,
  with_response, handle_copy_file_out_response, send_welcome_request, receive_welcome_response,
  send_copy_in_non_frame_file, receive_copy_in_non_frame_file, idle, send_copy_in_frame_file,
  receive_copy_in_frame_file, send_execute_request, receive_execute_response,
  send_copy_out_frame_file, receive_copy_out_frame_file, send_copy_out_non_frame_file,
  receive_copy_out_non_frame_file, done,
}
use distray.RemoteWorker.Phases.{
  is_rendering, is_resting, OnFrame, Yields, dispatch-Yields, copy_file_in-OnFrame,
  copy_file_out-OnFrame, receive_response-frame,
}

module _ (system : System) (parameters : Parameters) where
  -- The rounds that a worker on a frame goes through, one state at a time.
  switch-OnFrame :
      (f : ℤ) (s : State) (w : RemoteWorker) (d : system.Disk)
      → is_resting s ≡ true
      → OnFrame is_resting f w
      → Yields (OnFrame is_resting f) (switch system parameters s w d)
  unfolding switch
  switch-OnFrame f send_copy_in_frame_file w d h o =
      copy_file_in-OnFrame system parameters is_resting f w.frame receive_copy_in_frame_file
        send_execute_request w d o refl refl
  switch-OnFrame f receive_copy_in_frame_file w d h o =
      elim (Option-cases (receive_response system parameters copy_in w)) [
        | inl e ↦ rw (e, switch) tt
        | inr ((r, w'), e) ↦ elim (Bool-cases r.copy_in_response.success) [
          | inl y ↦
              rw (e, switch, y) (refl, receive_response-frame system parameters copy_in w e ∙ o.1)
          | inr y ↦ rw (e, switch, y) tt
        ]
      ]
  switch-OnFrame f send_execute_request w d h o = (refl, o.1)
  switch-OnFrame f receive_execute_response w d h o =
      elim (Option-cases (receive_response system parameters execute w)) [
        | inl e ↦ rw (e, switch) tt
        | inr ((r, w'), e) ↦ elim (Bool-cases (r.execute_response.status ==ℤ pos 0)) [
          | inl y ↦
              rw (e, switch, y) (refl, receive_response-frame system parameters execute w e ∙ o.1)
          | inr y ↦ rw (e, switch, y) tt
        ]
      ]
  switch-OnFrame f send_copy_out_frame_file w d h o =
      copy_file_out-OnFrame system parameters is_resting f w.frame receive_copy_out_frame_file idle
        w d o refl refl
  switch-OnFrame f receive_copy_out_frame_file w d h o =
      elim (Option-cases (receive_response system parameters copy_out w)) [
        | inl e ↦ rw (e, switch) tt
        | inr ((r, w'), e) ↦ elim (Option-cases (get_elem? parameters.out_copies w'.state_index)) [
          | inl g ↦ rw (e, with_response, g) tt
          | inr (c, g) ↦
              elim (Option-cases (handle_copy_file_out_response system parameters r w'.frame c d)) [
                | inl k ↦ rw (e, with_response, g, k) tt
                | inr (d', k) ↦
                    rw (e, with_response, g, k)
                      (refl, receive_response-frame system parameters copy_out w e ∙ o.1)
              ]
        ]
      ]
  switch-OnFrame f idle w d h o = tt
  switch-OnFrame f send_welcome_request w d h o = cc
  switch-OnFrame f receive_welcome_response w d h o = cc
  switch-OnFrame f send_copy_in_non_frame_file w d h o = cc
  switch-OnFrame f receive_copy_in_non_frame_file w d h o = cc
  switch-OnFrame f send_copy_out_non_frame_file w d h o = cc
  switch-OnFrame f receive_copy_out_non_frame_file w d h o = cc
  switch-OnFrame f done w d h o = cc

  -- A worker on a frame stays on it through dispatch, or is idle behind it.
  pub dispatch-OnFrame :
      (f : ℤ) (w : RemoteWorker) (d : system.Disk)
      → OnFrame is_resting f w
      → Yields (OnFrame is_resting f) (dispatch system parameters w d)
  dispatch-OnFrame f w d o =
      dispatch-Yields system parameters (OnFrame is_resting f)
        (λ w' d' _ o'. switch-OnFrame f w'.state w' d' o'.0 o') w d
        (switch-OnFrame f w.state w d o.0 o)

  switch-rendering :
      (f : ℤ) (s : State) (w : RemoteWorker) (d : system.Disk)
      → is_immediate s ≡ true
      → is_rendering s ≡ true
      → OnFrame is_rendering f w
      → Yields (OnFrame is_rendering f) (switch system parameters s w d)
  unfolding switch
  switch-rendering f send_copy_in_frame_file w d i h o =
      copy_file_in-OnFrame system parameters is_rendering f w.frame receive_copy_in_frame_file
        send_execute_request w d o refl refl
  switch-rendering f send_execute_request w d i h o = (refl, o.1)
  switch-rendering f receive_copy_in_frame_file w d i h o = cc
  switch-rendering f receive_execute_response w d i h o = cc
  switch-rendering f send_copy_out_frame_file w d i h o = cc
  switch-rendering f receive_copy_out_frame_file w d i h o = cc
  switch-rendering f idle w d i h o = cc
  switch-rendering f send_welcome_request w d i h o = cc
  switch-rendering f receive_welcome_response w d i h o = cc
  switch-rendering f send_copy_in_non_frame_file w d i h o = cc
  switch-rendering f receive_copy_in_non_frame_file w d i h o = cc
  switch-rendering f send_copy_out_non_frame_file w d i h o = cc
  switch-rendering f receive_copy_out_non_frame_file w d i h o = cc
  switch-rendering f done w d i h o = cc

  -- A worker that is given a frame is at work on it, and not done before its program has run.
  pub run_frame-OnFrame :
      (f : ℤ) (w : RemoteWorker) (d : system.Disk)
      → Yields (OnFrame is_rendering f) (run_frame system parameters f w d)
  unfolding run_frame
  run_frame-OnFrame f w d = elim (Bool-cases (is_idle w.state)) [
    | inr busy ↦ rw busy tt
    | inl free ↦
        let given = record w { frame = f; state = send_copy_in_frame_file; state_index = 0 } in
        rw free (
          dispatch-Yields system parameters (OnFrame is_rendering f)
            (λ w' d' i o. switch-rendering f w'.state w' d' i o.0 o) given d
            (switch-rendering f send_copy_in_frame_file given d refl refl (refl, refl)))
  ]
