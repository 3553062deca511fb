-- ===== src/Job/CopiesIn.antt =====
-- The copies in, for a frame or for none: the states of dispatch come to what the script does.
use distray.Base.{
  ℕ, zero, suc, ◌+◌, ◌≤◌, ◌<◌, ◌≡◌, refl, sym, ◌∙◌, ap, subst, true, false, List, [], ◌∷◌, none,
  some, arith, Bytes, drop, length, get_elem?, Bool-cases, Option-cases, inl, inr, get_elem?-drop,
  get_elem?-drop_nil,
}
use distray.Base.Int.{ℤ}
use distray.Util.Parameter.{substitute_parameter}
use distray.Parameters.{Parameters, FileCopy}
use distray.Drp.{Response, copy_in}
use distray.Worker.{Machine, handle}
use distray.RemoteWorker.{
  RemoteWorker, State, System, Outcome, continues, exited, is_for, is_idle, copy_in_of,
  dispatch_from, send_request,
}
use distray.RemoteWorker.Session.Steps.{at, pending-send_request, rest_fuel}
use distray.Job.{Result, aborted, ◌>>=◌, copies_in}
use distray.Job.Drive.{Inbox, drive, Agrees, arrived, drive-exited, drive-exchange}
use distray.Job.Replies.{settled}

-- What dispatch does in the two states of a copy in.
pub record Copies (system : System) (parameters : Parameters) (inbox : Inbox system) (frame : ℤ)
    (sending receiving : State) : Type 0 where
  pub busy : is_idle receiving ≡ false
  pub skip :
      (fuel i : ℕ) (c : FileCopy) (w : RemoteWorker) (d : system.Disk)
      → w.frame ≡ frame
      → get_elem? parameters.in_copies i ≡ some c
      → is_for frame c ≡ false
      → dispatch_from system parameters (suc fuel) (at sending i w) d
        ≡ dispatch_from system parameters fuel (at sending (suc i) w) d
  pub sends :
      (fuel i : ℕ) (c : FileCopy) (w : RemoteWorker) (d : system.Disk) (content : Bytes)
      → w.frame ≡ frame
      → get_elem? parameters.in_copies i ≡ some c
      → is_for frame c ≡ true
      → system.read_file d (substitute_parameter c.source frame) ≡ some content
      → dispatch_from system parameters (suc fuel) (at sending i w) d
        ≡ continues
            (send_request system parameters (copy_in_of c frame content) receiving (at sending i w))
            d
  pub unreadable :
      (fuel i : ℕ) (c : FileCopy) (w : RemoteWorker) (d : system.Disk)
      → w.frame ≡ frame
      → get_elem? parameters.in_copies i ≡ some c
      → is_for frame c ≡ true
      → system.read_file d (substitute_parameter c.source frame) ≡ none
      → dispatch_from system parameters (suc fuel) (at sending i w) d ≡ exited
  pub copied :
      (fuel i : ℕ) (m : Response) (w : RemoteWorker) (d : system.Disk)
      → m.request_type ≡ copy_in
      → m.copy_in_response.success ≡ true
      → dispatch_from system parameters (suc fuel) (arrived system inbox m (at receiving i w)) d
        ≡ dispatch_from system parameters fuel (at sending (suc i) (settled system inbox m w)) d
  pub refused :
      (fuel i : ℕ) (m : Response) (w : RemoteWorker) (d : system.Disk)
      → m.request_type ≡ copy_in
      → m.copy_in_response.success ≡ false
      → dispatch_from system parameters (suc fuel) (arrived system inbox m (at receiving i w)) d
        ≡ exited

module _ (system : System) (parameters : Parameters) (machine : Machine)
    (inbox : Inbox system) where
  pub Agrees-exited :
      (f : ℤ) (wd : machine.Disk) (p : Outcome system.Disk × machine.Disk)
      → p ≡ (exited, wd)
      → Agrees system parameters machine inbox f (aborted wd) p
  Agrees-exited f wd p e = (ap (λ q. q.0) e, ap (λ q. q.1) e)

  module _ (frame : ℤ) (sending receiving : State)
      (steps : Copies system parameters inbox frame sending receiving) (d : system.Disk)
      (after : system.Disk → machine.Disk → Result system.Disk machine.Disk) (k : ℕ)
      (goes_on : (fuel i n : ℕ) (w : RemoteWorker) (wd : machine.Disk)
        → w.frame ≡ frame
        → get_elem? parameters.in_copies i ≡ none
        → 1 < fuel
        → k ≤ n
        → Agrees system parameters machine inbox frame (after d wd) (
            drive system parameters machine inbox n
              (dispatch_from system parameters fuel (at sending i w) d)
              wd)) where
    -- From the state that sends on, with rounds and exchanges for the files that are left, if it is so
    -- behind the last one.
    pub copies_in-Agrees :
        (cs : List FileCopy) (fuel i n : ℕ) (w : RemoteWorker) (wd : machine.Disk)
        → w.frame ≡ frame
        → drop i parameters.in_copies ≡ cs
        → length cs ≤ length parameters.in_copies
        → suc (length cs) < fuel
        → length cs + k ≤ n
        → Agrees system parameters machine inbox frame
            (copies_in system parameters machine frame cs d wd >>= after)
            (drive system parameters machine inbox n
              (dispatch_from system parameters fuel (at sending i w) d)
              wd)
    unfolding send_request handle
    copies_in-Agrees cs zero i n w wd same e le h enough = absurd (omega arith)
    copies_in-Agrees [] (suc fuel) i n w wd same e le h enough =
        goes_on (suc fuel) i n w wd same (get_elem?-drop_nil i parameters.in_copies e) h
          (omega arith)
    copies_in-Agrees (c ∷ cs) (suc fuel) i zero w wd same e le h enough = absurd (omega arith)
    copies_in-Agrees (c ∷ cs) (suc fuel) i (suc n) w wd same e le h enough =
        let (here, behind_here) = get_elem?-drop i parameters.in_copies e in
        elim (Bool-cases (is_for frame c)) [
          | inr other ↦ rw other (
              subst
                (λ o.
                  Agrees system parameters machine inbox frame
                    (copies_in system parameters machine frame cs d wd >>= after)
                    (drive system parameters machine inbox (suc n) o wd))
                (sym (steps.skip fuel i c w d same here other))
                (copies_in-Agrees cs fuel (suc i) (suc n) w wd same behind_here (omega arith)
                  (omega arith) (omega arith)))
          | inl match ↦
              elim (Option-cases (system.read_file d (substitute_parameter c.source frame))) [
                | inl lost ↦
                    rw (match, lost)
                      (Agrees-exited frame wd _ (
                        ap (λ o. drive system parameters machine inbox (suc n) o wd)
                          (steps.unreadable fuel i c w d same here match lost)
                        ∙ drive-exited system parameters machine inbox (suc n) wd))
                | inr (content, read) ↦
                    let r = copy_in_of c frame content in
                    let asked = send_request system parameters r receiving (at sending i w) in
                    let (m, wd') = handle machine r wd in
                    let rest = rest_fuel system parameters in
                    let answered =
                      drive-exchange system parameters machine inbox n (suc fuel) (at sending i w)
                        asked d wd r (steps.sends fuel i c w d content same here match read)
                        steps.busy
                        (pending-send_request system parameters r receiving (at sending i w)) in
                    elim (Bool-cases m.copy_in_response.success) [
                      | inr refusal ↦
                          rw (match, read, refusal)
                            (Agrees-exited frame wd' _ (
                              answered
                              ∙ ap (λ o. drive system parameters machine inbox n o wd')
                                  (steps.refused rest i m asked d refl refusal)
                              ∙ drive-exited system parameters machine inbox n wd'))
                      | inl success ↦
                          rw (match, read, success)
                            (subst
                              (Agrees system parameters machine inbox frame
                                (copies_in system parameters machine frame cs d wd' >>= after))
                              (sym (
                                answered
                                ∙ ap (λ o. drive system parameters machine inbox n o wd')
                                    (steps.copied rest i m asked d refl success)))
                              (copies_in-Agrees cs rest (suc i) n (settled system inbox m asked) wd'
                                same behind_here (omega arith) (omega arith) (omega arith)))
                    ]
              ]
        ]
