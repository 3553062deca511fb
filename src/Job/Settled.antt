-- ===== src/Job/Settled.antt =====
-- What is true of a remote worker whenever dispatch returns.
use distray.Base.{ℕ, zero, suc, ◌≡◌, inl, inr, refl, true, false, Bool-cases}
use distray.Base.Int.{ℤ}
use distray.Parameters.{Parameters}
use distray.Wire.Incoming.Safety.{IsValid}
use distray.RemoteWorker.{
  RemoteWorker, State, System, Outcome, continues, exited, unfinished, is_idle, is_immediate,
  dispatch, dispatch_from, enough, send_welcome_request, send_copy_in_non_frame_file,
  send_copy_in_frame_file, send_execute_request, send_copy_out_frame_file,
  send_copy_out_non_frame_file, receive_welcome_response, receive_copy_in_non_frame_file, idle,
  receive_copy_in_frame_file, receive_execute_response, receive_copy_out_frame_file,
  receive_copy_out_non_frame_file, done, run_frame, start, new, switch,
}
use distray.RemoteWorker.Phases.{Yields, Outcome-cases}
use distray.Job.Asking.{Asks, Keeps, is_quiet, is_waiting}
use distray.Job.Answering.{dispatch-Keeps, start-Keeps, run_frame-Keeps}

module _ (system : System) (parameters : Parameters) where
  -- Behind dispatch.
  abbrev pub Settled : Outcome system.Disk → Type 0
  Settled o = Yields (λ w. Keeps system parameters w × (is_immediate w.state ≡ false)) o

  dispatch_from-is_immediate :
      (fuel : ℕ) (w : RemoteWorker) (d : system.Disk)
      → Yields (λ w. is_immediate w.state ≡ false) (dispatch_from system parameters fuel w d)
  unfolding dispatch_from
  dispatch_from-is_immediate zero w d = tt
  dispatch_from-is_immediate (suc fuel) w d =
      elim (Outcome-cases (switch system parameters w.state w d)) [
        | inl (inl e) ↦ rw (e, dispatch_from) tt
        | inl (inr e) ↦ rw (e, dispatch_from) tt
        | inr (w', d', e) ↦ elim (Bool-cases (is_immediate w'.state)) [
          | inl more ↦ rw (e, dispatch_from, more) (dispatch_from-is_immediate fuel w' d')
          | inr last ↦ rw (e, dispatch_from, last) last
        ]
      ]

  both :
      (o : Outcome system.Disk)
      → Yields (Keeps system parameters) o
      → Yields (λ w. is_immediate w.state ≡ false) o
      → Settled o
  both exited h k = tt
  both unfinished h k = tt
  both (continues w d) h k = (h, k)

  pub dispatch-Settled :
      (w : RemoteWorker) (d : system.Disk)
      → is_waiting w.state ≡ true
      → IsValid w.incoming_buffer
      → Settled (dispatch system parameters w d)
  unfolding dispatch
  dispatch-Settled w d h v =
      both (dispatch system parameters w d) (dispatch-Keeps system parameters w d h v)
        (dispatch_from-is_immediate (enough system parameters) w d)

  pub start-Settled : (d : system.Disk) → Settled (start system parameters new d)
  unfolding start
  start-Settled d =
      both (start system parameters new d) (start-Keeps system parameters d)
        (dispatch_from-is_immediate (enough system parameters) new d)

  pub run_frame-Settled :
      (f : ℤ) (w : RemoteWorker) (d : system.Disk)
      → IsValid w.incoming_buffer
      → Settled (run_frame system parameters f w d)
  unfolding run_frame
  run_frame-Settled f w d v =
      both (run_frame system parameters f w d) (run_frame-Keeps system parameters f w d v)
        (elim (Bool-cases (is_idle w.state)) [
          | inl e ↦ rw e (
              dispatch_from-is_immediate (enough system parameters)
                (record w { frame = f; state = send_copy_in_frame_file; state_index = 0 }) d)
          | inr e ↦ rw e tt
        ])

  -- A worker that is not idle behind dispatch has asked for something.
  is_quiet-is_idle : (s : State) → is_quiet s ≡ true → is_immediate s ≡ false → is_idle s ≡ true
  is_quiet-is_idle send_welcome_request q i = cc
  is_quiet-is_idle send_copy_in_non_frame_file q i = cc
  is_quiet-is_idle send_copy_in_frame_file q i = cc
  is_quiet-is_idle send_execute_request q i = cc
  is_quiet-is_idle send_copy_out_frame_file q i = cc
  is_quiet-is_idle send_copy_out_non_frame_file q i = cc
  is_quiet-is_idle receive_welcome_response q i = cc
  is_quiet-is_idle receive_copy_in_non_frame_file q i = cc
  is_quiet-is_idle idle q i = refl
  is_quiet-is_idle receive_copy_in_frame_file q i = cc
  is_quiet-is_idle receive_execute_response q i = cc
  is_quiet-is_idle receive_copy_out_frame_file q i = cc
  is_quiet-is_idle receive_copy_out_non_frame_file q i = cc
  is_quiet-is_idle done q i = cc

  pub is_idle-Asks :
      (w : RemoteWorker)
      → Keeps system parameters w
      → is_immediate w.state ≡ false
      → is_idle w.state ≡ false
      → Asks system parameters w
  is_idle-Asks w (v, inr asks) i b = asks
  is_idle-Asks w (v, inl q) i b = let rests = is_quiet-is_idle w.state q i in cc
