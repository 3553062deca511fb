-- ===== src/Job/CopiesOut.antt =====
-- The copies out of a frame: the states of dispatch come to what the script does.
use distray.Base.{
  ℕ, zero, suc, ◌≤◌, ◌<◌, ◌≡◌, refl, sym, ◌∙◌, ap, subst, List, [], ◌∷◌, arith, drop, length,
  Bool-cases, Option-cases, inl, inr, get_elem?-drop, get_elem?-drop_nil,
}
use distray.Util.Parameter.{substitute_parameter}
use distray.Parameters.{Parameters, FileCopy}
use distray.Worker.{Machine, handle}
use distray.RemoteWorker.{
  RemoteWorker, System, exited, is_for, copy_out_of, dispatch_from, send_request, idle,
  send_copy_out_frame_file, receive_copy_out_frame_file,
}
use distray.RemoteWorker.Session.Steps.{
  at, pending-send_request, skip_out, send_out, end_out, rest_fuel,
}
use distray.Job.{completed, copies_out}
use distray.Job.Drive.{Inbox, drive, Agrees, arrived, drive-exited, drive-idle, drive-exchange}
use distray.Job.Replies.{settled, copied_out_frame, unwritten_out_frame, refused_out_frame}
use distray.Job.CopiesIn.{Agrees-exited}

module _ (system : System) (parameters : Parameters) (machine : Machine)
    (inbox : Inbox system) where
  -- For the frame that the remote worker is on.
  pub copies_out-Agrees :
      (cs : List FileCopy) (fuel i n : ℕ) (w : RemoteWorker) (d : system.Disk) (wd : machine.Disk)
      → drop i parameters.out_copies ≡ cs
      → length cs ≤ length parameters.out_copies
      → length cs < fuel
      → length cs ≤ n
      → Agrees system parameters machine inbox w.frame
          (copies_out system parameters machine w.frame cs d wd)
          (drive system parameters machine inbox n
            (dispatch_from system parameters fuel (at send_copy_out_frame_file i w) d)
            wd)
  unfolding send_request handle
  copies_out-Agrees cs zero i n w d wd e le h enough = absurd (omega arith)
  copies_out-Agrees [] (suc fuel) i n w d wd e le h enough =
      let last =
        end_out system parameters fuel i w d (get_elem?-drop_nil i parameters.out_copies e) in
      subst (Agrees system parameters machine inbox w.frame (completed d wd))
        (sym (
          ap (λ o. drive system parameters machine inbox n o wd) last
          ∙ drive-idle system parameters machine inbox n (at idle i w) d wd refl))
        (at idle i w, refl, refl, refl, refl)
  copies_out-Agrees (c ∷ cs) (suc fuel) i zero w d wd e le h enough = absurd (omega arith)
  copies_out-Agrees (c ∷ cs) (suc fuel) i (suc n) w d wd e le h enough =
      let (here, behind_here) = get_elem?-drop i parameters.out_copies e in
      elim (Bool-cases (is_for w.frame c)) [
        | inr other ↦ rw other (
            subst
              (λ o.
                Agrees system parameters machine inbox w.frame
                  (copies_out system parameters machine w.frame cs d wd)
                  (drive system parameters machine inbox (suc n) o wd))
              (sym (skip_out system parameters fuel i c w d here other))
              (copies_out-Agrees cs fuel (suc i) (suc n) w d wd behind_here (omega arith)
                (omega arith) (omega arith)))
        | inl match ↦
            let r = copy_out_of c w.frame in
            let asked =
              send_request system parameters r receive_copy_out_frame_file
                (at send_copy_out_frame_file i w) in
            let (m, wd') = handle machine r wd in
            let rest = rest_fuel system parameters in
            let answered =
              drive-exchange system parameters machine inbox n (suc fuel)
                (at send_copy_out_frame_file i w) asked d wd r
                (send_out system parameters fuel i c w d here match) refl
                (pending-send_request system parameters r receive_copy_out_frame_file
                  (at send_copy_out_frame_file i w)) in
            let gives_up =
              λ (stop : dispatch_from system parameters (suc rest) (arrived system inbox m asked) d
                  ≡ exited).
                Agrees-exited system parameters machine inbox w.frame wd' _ (
                  answered
                  ∙ ap (λ o. drive system parameters machine inbox n o wd') stop
                  ∙ drive-exited system parameters machine inbox n wd') in
            elim (Bool-cases m.copy_out_response.success) [
              | inr refusal ↦
                  rw (match, refusal)
                    (gives_up (
                      refused_out_frame system parameters inbox rest i m asked d c refl here
                        refusal))
              | inl success ↦
                  elim (Option-cases (
                    system.write_file d (substitute_parameter c.destination w.frame)
                      m.copy_out_response.content)) [
                        | inl full ↦
                            rw (match, success, full)
                              (gives_up (
                                unwritten_out_frame system parameters inbox rest i m asked d c refl
                                  here success full))
                        | inr (d', write) ↦
                            rw (match, success, write)
                              (subst
                                (Agrees system parameters machine inbox w.frame
                                  (copies_out system parameters machine w.frame cs d' wd'))
                                (sym (
                                  answered
                                  ∙ ap (λ o. drive system parameters machine inbox n o wd')
                                      (copied_out_frame system parameters inbox rest i m asked d c
                                        d' refl here success write)))
                                (copies_out-Agrees cs rest (suc i) n (settled system inbox m asked)
                                  d' wd' behind_here (omega arith) (omega arith) (omega arith)))
                      ]
            ]
      ]
