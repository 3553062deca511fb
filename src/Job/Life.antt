-- ===== src/Job/Life.antt =====
-- A connection from its start to the idle state.
use distray.Base.{
  ℕ, zero, suc, ◌≤◌, ◌<◌, ◌≡◌, refl, sym, ◌∙◌, ap, subst, true, none, some, arith, length,
  get_elem?,
}
use distray.Base.Int.{negsuc}
use distray.Util.Parameter.{substitute_parameter}
use distray.Parameters.{Parameters, FileCopy}
use distray.Drp.{welcome, request_of}
use distray.Worker.{Machine, handle}
use distray.RemoteWorker.{
  RemoteWorker, System, exited, no_frame, is_for, dispatch_from, start, new, send_request, idle,
  receive_welcome_response, send_copy_in_non_frame_file, receive_copy_in_non_frame_file,
}
use distray.RemoteWorker.Session.Steps.{at, pending-send_request, rest_fuel, dispatch-fuel}
use distray.RemoteWorker.Session.Start.{skip_file, send_file, end_files, welcome_sent}
use distray.Job.{Result, completed, aborted, ◌>>=◌, copies_in}
use distray.Job.Drive.{Inbox, drive, Agrees, drive-idle, drive-exchange}
use distray.Job.Replies.{settled, copied_in_none, refused_in_none, welcomed}
use distray.Job.CopiesIn.{Copies, copies_in-Agrees}

module _ (system : System) (parameters : Parameters) where
  unread_file :
      (fuel i : ℕ) (c : FileCopy) (w : RemoteWorker) (d : system.Disk)
      → get_elem? parameters.in_copies i ≡ some c
      → is_for no_frame c ≡ true
      → system.read_file d (substitute_parameter c.source no_frame) ≡ none
      → dispatch_from system parameters (suc fuel) (at send_copy_in_non_frame_file i w) d ≡ exited
  unfolding dispatch_from
  unread_file fuel i c w d e h r = rw (e, dispatch_from, h, r)

  none-Copies :
      (inbox : Inbox system)
      → Copies system parameters inbox no_frame send_copy_in_non_frame_file
          receive_copy_in_non_frame_file
  none-Copies inbox = record {
    busy = refl;
    skip = λ fuel i c w d same. skip_file system parameters fuel i c w d;
    sends = λ fuel i c w d content same. send_file system parameters fuel i c w d content;
    unreadable = λ fuel i c w d same. unread_file fuel i c w d;
    copied = λ fuel i m w d. copied_in_none system parameters inbox fuel i m w d;
    refused = λ fuel i m w d. refused_in_none system parameters inbox fuel i m w d;
  }

module _ (system : System) (parameters : Parameters) (machine : Machine)
    (inbox : Inbox system) where
  -- The copies in that belong to no frame, behind the welcome.
  files-Agrees :
      (n : ℕ) (w : RemoteWorker) (d : system.Disk) (wd : machine.Disk)
      → w.frame ≡ no_frame
      → length parameters.in_copies ≤ n
      → Agrees system parameters machine inbox no_frame
          (copies_in system parameters machine no_frame parameters.in_copies d wd >>= completed)
          (drive system parameters machine inbox n
            (dispatch_from system parameters
              (rest_fuel system parameters)
              (at send_copy_in_non_frame_file 0 w)
              d)
            wd)
  files-Agrees n w d wd same enough =
      copies_in-Agrees system parameters machine inbox no_frame send_copy_in_non_frame_file
        receive_copy_in_non_frame_file (none-Copies system parameters inbox) d completed 0
        (λ fuel i k w' wd' same' last rounds left. rests fuel i k w' wd' same' last rounds)
        parameters.in_copies (rest_fuel system parameters) 0 n w wd same refl (omega arith)
        (omega arith) (omega arith)
    where
      rests :
          (fuel i k : ℕ) (w' : RemoteWorker) (wd' : machine.Disk)
          → w'.frame ≡ no_frame
          → get_elem? parameters.in_copies i ≡ none
          → 1 < fuel
          → Agrees system parameters machine inbox no_frame (completed d wd') (
              drive system parameters machine inbox k
                (dispatch_from system parameters fuel (at send_copy_in_non_frame_file i w') d)
                wd')
      rests zero i k w' wd' same' last rounds = absurd (omega arith)
      rests (suc fuel) i k w' wd' same' last rounds =
          subst (Agrees system parameters machine inbox no_frame (completed d wd'))
            (sym (
              ap (λ o. drive system parameters machine inbox k o wd')
                (end_files system parameters fuel i w' d last)
              ∙ drive-idle system parameters machine inbox k (at idle i w') d wd' refl))
            (at idle i w', refl, refl, refl, same')

  >>=-completed : (r : Result system.Disk machine.Disk) → (r >>= completed) ≡ r
  >>=-completed (completed d wd) = refl
  >>=-completed (aborted wd) = refl

  pub start-Agrees :
      (n : ℕ) (d : system.Disk) (wd : machine.Disk)
      → length parameters.in_copies < n
      → Agrees system parameters machine inbox no_frame
          (copies_in system parameters machine no_frame parameters.in_copies d wd)
          (drive system parameters machine inbox n (start system parameters new d) wd)
  unfolding start new send_request handle
  start-Agrees zero d wd enough = absurd (omega arith)
  start-Agrees (suc n) d wd enough =
      let r = request_of welcome in
      let asked = send_request system parameters r receive_welcome_response new in
      let (m, wd') = handle machine r wd in
      let rest = rest_fuel system parameters in
      subst
        (λ p.
          Agrees system parameters machine inbox no_frame
            (copies_in system parameters machine no_frame parameters.in_copies d wd) p)
        (sym (
          ap (λ o. drive system parameters machine inbox (suc n) o wd)
            (dispatch-fuel system parameters new d)
          ∙ drive-exchange system parameters machine inbox n (suc rest) new asked d wd r
              (welcome_sent system parameters rest 0 new d) refl
              (pending-send_request system parameters r receive_welcome_response new)
          ∙ ap (λ o. drive system parameters machine inbox n o wd)
              (welcomed system parameters inbox rest 0 m asked d refl)))
        (subst
          (λ s. Agrees system parameters machine inbox no_frame s (
            drive system parameters machine inbox n
              (dispatch_from system parameters rest
                (at send_copy_in_non_frame_file 0 (record (settled system inbox m asked) {
                  hostname = m.welcome_response.hostname;
                  proxy_index = negsuc 0;
                }))
                d)
              wd))
          (>>=-completed (copies_in system parameters machine no_frame parameters.in_copies d wd))
          (files-Agrees n
            (record (settled system inbox m asked) {
              hostname = m.welcome_response.hostname;
              proxy_index = negsuc 0;
            })
            d wd refl (omega arith)))
