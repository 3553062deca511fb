-- ===== src/RemoteWorker/Phases.antt =====
-- Which states dispatch takes a worker through that is at work on a frame.
pub mod Frame
use distray.Base.{
  ℕ, zero, suc, ◌+◌, length, ◌≡◌, ◌⊎◌, inl, inr, refl, sym, ◌∙◌, subst, Bool, true, false, ◌||◌,
  some, arith, get_elem?, Bool-cases, Option-cases,
}
use distray.Base.Int.{ℤ, pos, ◌==ℤ◌}
use distray.Util.Parameter.{substitute_parameter}
use distray.Parameters.{Parameters}
use distray.Drp.{RequestType, Response, copy_in, execute, copy_out}
use distray.RemoteWorker.{
  RemoteWorker, State, System, Outcome, continues, exited, unfinished, is_for, is_immediate,
  is_idle, switch, dispatch_from, dispatch, run_frame, receive_response, with_response,
  copy_file_in, copy_file_out, enough, handle_copy_file_out_response, send_welcome_request,
  receive_welcome_response, send_copy_in_non_frame_file, receive_copy_in_non_frame_file, idle,
  send_copy_in_frame_file, receive_copy_in_frame_file, send_execute_request,
  receive_execute_response, send_copy_out_frame_file, receive_copy_out_frame_file,
  send_copy_out_non_frame_file, receive_copy_out_non_frame_file, done,
}

-- At work on a frame, up to the response to the program, and beyond it.
abbrev pub is_rendering : State → Bool
is_rendering send_copy_in_frame_file = true
is_rendering receive_copy_in_frame_file = true
is_rendering send_execute_request = true
is_rendering receive_execute_response = true
is_rendering _ = false

abbrev pub is_collecting : State → Bool
is_collecting send_copy_out_frame_file = true
is_collecting receive_copy_out_frame_file = true
is_collecting _ = false

abbrev pub is_framing : State → Bool
is_framing s = is_rendering s || is_collecting s

abbrev pub is_resting : State → Bool
is_resting s = is_framing s || is_idle s

-- In one of these states, with this frame.
abbrev pub OnFrame : (State → Bool) → ℤ → RemoteWorker → Type 0
OnFrame states f w = (states w.state ≡ true) × (w.frame ≡ f)

abbrev pub Yields : {D : Type 0} → (RemoteWorker → Type 0) → Outcome D → Type 0
Yields P (continues w d) = P w
Yields P exited = Unit
Yields P unfinished = Unit

pub Outcome-cases :
    {D : Type 0} (o : Outcome D)
    → ((o ≡ exited) ⊎ (o ≡ unfinished)) ⊎ ((w : RemoteWorker) × (d : D) × (o ≡ continues w d))
Outcome-cases exited = inl (inl refl)
Outcome-cases unfinished = inl (inr refl)
Outcome-cases (continues w d) = inr (w, d, refl)

module _ (system : System) (parameters : Parameters) (P : RemoteWorker → Type 0) where
  -- What each immediate state keeps, the loop keeps.
  loop-Yields :
      ((w : RemoteWorker) (d : system.Disk)
        → is_immediate w.state ≡ true
        → P w
        → Yields P (switch system parameters w.state w d))
      → (fuel : ℕ) (w : RemoteWorker) (d : system.Disk)
      → Yields P (switch system parameters w.state w d)
      → Yields P (dispatch_from system parameters (suc fuel) w d)
  unfolding dispatch_from
  loop-Yields keeps zero w d h = elim (Outcome-cases (switch system parameters w.state w d)) [
    | inl (inl e) ↦ rw (e, dispatch_from) tt
    | inl (inr e) ↦ rw (e, dispatch_from) tt
    | inr (w', d', e) ↦ elim (Bool-cases (is_immediate w'.state)) [
      | inl more ↦ rw (e, dispatch_from, more) tt
      | inr last ↦ rw (e, dispatch_from, last) (subst (Yields P) e h)
    ]
  ]
  loop-Yields keeps (suc fuel) w d h = elim (Outcome-cases (switch system parameters w.state w d)) [
    | inl (inl e) ↦ rw (e, dispatch_from) tt
    | inl (inr e) ↦ rw (e, dispatch_from) tt
    | inr (w', d', e) ↦ elim (Bool-cases (is_immediate w'.state)) [
      | inl more ↦
          rw (e, dispatch_from, more)
            (loop-Yields keeps fuel w' d' (keeps w' d' more (subst (Yields P) e h)))
      | inr last ↦ rw (e, dispatch_from, last) (subst (Yields P) e h)
    ]
  ]

module _ (system : System) (parameters : Parameters) where
  pub dispatch-Yields :
      (P : RemoteWorker → Type 0)
      → ((w : RemoteWorker) (d : system.Disk)
          → is_immediate w.state ≡ true
          → P w
          → Yields P (switch system parameters w.state w d))
      → (w : RemoteWorker) (d : system.Disk) → Yields P (switch system parameters w.state w d)
      → Yields P (dispatch system parameters w d)
  unfolding dispatch
  dispatch-Yields P keeps w d h =
      let fuel : ℕ = length parameters.in_copies + length parameters.out_copies + 3 in
      let rounds : enough system parameters ≡ suc fuel = omega arith in
      subst (λ f. Yields P (dispatch_from system parameters f w d)) (sym rounds)
        (loop-Yields system parameters P keeps fuel w d h)

  -- Copying a file in: the states are up to the caller.
  pub copy_file_in-OnFrame :
      (states : State → Bool) (f frame : ℤ) (receive_state next_state : State)
      → (w : RemoteWorker) (d : system.Disk) → OnFrame states f w
      → states receive_state ≡ true
      → states next_state ≡ true
      → Yields
          (OnFrame states f)
          (copy_file_in system parameters frame receive_state next_state w d)
  unfolding copy_file_in
  copy_file_in-OnFrame states f frame r n w d (on, same) hr hn =
      elim (Option-cases (get_elem? parameters.in_copies w.state_index)) [
        | inl e ↦ rw (e, copy_file_in) (hn, same)
        | inr (c, e) ↦ elim (Bool-cases (is_for frame c)) [
          | inr other ↦ rw (e, copy_file_in, other) (on, same)
          | inl match ↦
              elim (Option-cases (system.read_file d (substitute_parameter c.source frame))) [
                | inl g ↦ rw (e, copy_file_in, match, g) tt
                | inr (content, g) ↦ rw (e, copy_file_in, match, g) (hr, same)
              ]
        ]
      ]

  pub copy_file_out-OnFrame :
      (states : State → Bool) (f frame : ℤ) (receive_state next_state : State)
      → (w : RemoteWorker) (d : system.Disk) → OnFrame states f w
      → states receive_state ≡ true
      → states next_state ≡ true
      → Yields
          (OnFrame states f)
          (copy_file_out system parameters frame receive_state next_state w d)
  unfolding copy_file_out
  copy_file_out-OnFrame states f frame r n w d (on, same) hr hn =
      elim (Option-cases (get_elem? parameters.out_copies w.state_index)) [
        | inl e ↦ rw (e, copy_file_out) (hn, same)
        | inr (c, e) ↦ elim (Bool-cases (is_for frame c)) [
          | inr other ↦ rw (e, copy_file_out, other) (on, same)
          | inl match ↦ rw (e, copy_file_out, match) (hr, same)
        ]
      ]

  -- A response leaves the frame as it is.
  pub receive_response-frame :
      (t : RequestType) (w : RemoteWorker) {r : Response} {w' : RemoteWorker}
      → receive_response system parameters t w ≡ some (r, w')
      → w'.frame ≡ w.frame
  unfolding receive_response
  receive_response-frame t w e = ground arith
