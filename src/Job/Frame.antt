-- ===== src/Job/Frame.antt =====
-- One frame, from run_frame to the idle state or to the controller's exit.
use distray.Base.{
  ℕ, zero, suc, ◌+◌, ◌≤◌, ◌<◌, ◌≡◌, refl, sym, ◌∙◌, ap, subst, true, false, none, arith, length,
  get_elem?, some, Bool-cases, inl, inr,
}
use distray.Base.Int.{ℤ, pos, ◌==ℤ◌}
use distray.Util.Parameter.{substitute_parameter}
use distray.Parameters.{Parameters, FileCopy}
use distray.Worker.{Machine, handle}
use distray.RemoteWorker.{
  RemoteWorker, System, continues, exited, is_for, copy_in_of, execute_of, dispatch_from, run_frame,
  send_request, idle, send_copy_in_frame_file, receive_copy_in_frame_file, send_execute_request,
  receive_execute_response,
}
use distray.RemoteWorker.Session.Steps.{
  at, pending-send_request, skip_in, send_in, end_in, rest_fuel, dispatch-fuel,
}
use distray.RemoteWorker.Session.Frame.{run_frame-idle}
use distray.Job.{◌>>=◌, program, copies_out, render}
use distray.Job.Drive.{Inbox, drive, Agrees, drive-exited, drive-exchange}
use distray.Job.Replies.{settled, copied_in_frame, refused_in_frame, executed, failed_program}
use distray.Job.CopiesIn.{Copies, Agrees-exited, copies_in-Agrees}
use distray.Job.CopiesOut.{copies_out-Agrees}

module _ (system : System) (parameters : Parameters) where
  -- A file that cannot be read ends the program.
  unread_in :
      (fuel i : ℕ) (c : FileCopy) (w : RemoteWorker) (d : system.Disk)
      → get_elem? parameters.in_copies i ≡ some c
      → is_for w.frame c ≡ true
      → system.read_file d (substitute_parameter c.source w.frame) ≡ none
      → dispatch_from system parameters (suc fuel) (at send_copy_in_frame_file i w) d ≡ exited
  unfolding dispatch_from
  unread_in fuel i c w d e h r = rw (e, dispatch_from, h, r)

  frame-Copies :
      (inbox : Inbox system) (frame : ℤ)
      → Copies system parameters inbox frame send_copy_in_frame_file receive_copy_in_frame_file
  frame-Copies inbox frame = record {
    busy = refl;
    skip = λ fuel i c w d same here other.
        skip_in system parameters fuel i c w d here
          (subst (λ f. is_for f c ≡ false) (sym same) other);
    sends = λ fuel i c w d content same here match read.
        send_in system parameters fuel i c w d content here
          (subst (λ f. is_for f c ≡ true) (sym same) match)
          (subst (λ f. system.read_file d (substitute_parameter c.source f) ≡ some content)
            (sym same) read)
        ∙ ap
            (λ f.
              continues
                (send_request system parameters (copy_in_of c f content) receive_copy_in_frame_file
                  (at send_copy_in_frame_file i w))
                d)
            same;
    unreadable = λ fuel i c w d same here match lost.
        unread_in fuel i c w d here (subst (λ f. is_for f c ≡ true) (sym same) match) (
          subst (λ f. system.read_file d (substitute_parameter c.source f) ≡ none) (sym same) lost);
    copied = λ fuel i m w d. copied_in_frame system parameters inbox fuel i m w d;
    refused = λ fuel i m w d. refused_in_frame system parameters inbox fuel i m w d;
  }

module _ (system : System) (parameters : Parameters) (machine : Machine)
    (inbox : Inbox system) where
  -- Behind the copies in: the program, and the copies out.
  program-Agrees :
      (fuel i n : ℕ) (w : RemoteWorker) (d : system.Disk) (wd : machine.Disk)
      → get_elem? parameters.in_copies i ≡ none
      → 1 < fuel
      → suc (length parameters.out_copies) ≤ n
      → Agrees system parameters machine inbox w.frame
          (program system parameters machine w.frame d wd
            >>= copies_out system parameters machine w.frame parameters.out_copies)
          (drive system parameters machine inbox n
            (dispatch_from system parameters fuel (at send_copy_in_frame_file i w) d)
            wd)
  unfolding send_request handle
  program-Agrees zero i n w d wd e h enough = absurd (omega arith)
  program-Agrees (suc zero) i n w d wd e h enough = absurd (omega arith)
  program-Agrees (suc (suc fuel)) i zero w d wd e h enough = absurd (omega arith)
  program-Agrees (suc (suc fuel)) i (suc n) w d wd e h enough =
      let r = execute_of parameters w.frame in
      let asked =
        send_request system parameters r receive_execute_response (at send_execute_request i w) in
      let (m, wd') = handle machine r wd in
      let rest = rest_fuel system parameters in
      let answered =
        drive-exchange system parameters machine inbox n (suc (suc fuel))
          (at send_copy_in_frame_file i w) asked d wd r (end_in system parameters fuel i w d e) refl
          (pending-send_request system parameters r receive_execute_response
            (at send_execute_request i w)) in
      elim (Bool-cases (m.execute_response.status ==ℤ pos 0)) [
        | inr failed ↦ rw failed (
            Agrees-exited system parameters machine inbox w.frame wd' _ (
              answered
              ∙ ap (λ o. drive system parameters machine inbox n o wd')
                  (failed_program system parameters inbox rest i m asked d refl failed)
              ∙ drive-exited system parameters machine inbox n wd'))
        | inl success ↦ rw success (
            subst
              (Agrees system parameters machine inbox w.frame
                (copies_out system parameters machine w.frame parameters.out_copies d wd'))
              (sym (
                answered
                ∙ ap (λ o. drive system parameters machine inbox n o wd')
                    (executed system parameters inbox rest i m asked d refl success)))
              (copies_out-Agrees system parameters machine inbox parameters.out_copies rest 0 n
                (settled system inbox m asked) d wd' refl (omega arith) (omega arith)
                (omega arith)))
      ]

  -- Where every response arrives, an idle remote worker that is given a frame does what the script
  -- of the code does for it, on both disks: where a file cannot be read or written, or the worker
  -- refuses it, or the program fails, the controller exits with the worker's disk as the script
  -- leaves it; else the remote worker is idle again, behind no more exchanges than there are copies
  -- and one.
  pub run_frame-render :
      (frame : ℤ) (n : ℕ) (w : RemoteWorker) (d : system.Disk) (wd : machine.Disk)
      → w.state ≡ idle
      → length parameters.in_copies + length parameters.out_copies + 1 ≤ n
      → Agrees system parameters machine inbox frame
          (render system parameters machine frame d wd)
          (drive system parameters machine inbox n (run_frame system parameters frame w d) wd)
  run_frame-render frame n w d wd rests enough =
      let given = record w { frame = frame; state = send_copy_in_frame_file; state_index = 0 } in
      subst
        (λ o.
          Agrees system parameters machine inbox frame (render system parameters machine frame d wd)
            (drive system parameters machine inbox n o wd))
        (sym (
          run_frame-idle system parameters frame w d rests
          ∙ dispatch-fuel system parameters given d))
        (copies_in-Agrees system parameters machine inbox frame send_copy_in_frame_file
          receive_copy_in_frame_file (frame-Copies system parameters inbox frame) d
          (λ d1 wd1.
            program system parameters machine frame d1 wd1
            >>= copies_out system parameters machine frame parameters.out_copies)
          (suc (length parameters.out_copies))
          (λ fuel i k w' wd' same last rounds left.
            subst
              (λ f.
                Agrees system parameters machine inbox f
                  (program system parameters machine f d wd'
                    >>= copies_out system parameters machine f parameters.out_copies)
                  (drive system parameters machine inbox k
                    (dispatch_from system parameters fuel (at send_copy_in_frame_file i w') d) wd'))
              same (program-Agrees fuel i k w' d wd' last rounds left))
          parameters.in_copies (suc (rest_fuel system parameters)) 0 n given wd refl refl
          (omega arith) (omega arith) (omega arith))
