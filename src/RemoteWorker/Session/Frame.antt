-- ===== src/RemoteWorker/Session/Frame.antt =====
-- A frame, from run_frame to the idle state: which requests go out, and in which order.
use distray.Base.{
  ℕ, zero, suc, ◌≤◌, ◌<◌, ◌≡◌, refl, sym, ◌∙◌, subst, true, false, List, [], ◌∷◌, ◌++◌, some, arith,
  Bytes, All, ap, if◌then◌else◌, drop, length, Bool-cases, inl, inr, get_elem?-drop,
  get_elem?-drop_nil,
}
use distray.Base.Int.{ℤ, pos}
use distray.Util.Parameter.{substitute_parameter}
use distray.Parameters.{Parameters, FileCopy, has_parameter}
use distray.Drp.{Request}
use distray.RemoteWorker.Session.{Peer, Session, in_requests, out_requests, content_of}
use distray.RemoteWorker.Session.Steps.{
  rest_fuel, dispatch-fuel, at, pending-send_request, skip_in, send_in, end_in, recv_in,
  recv_execute, settled,
}
use distray.RemoteWorker.{
  RemoteWorker, System, continues, is_for, copy_in_of, copy_out_of, execute_of, dispatch, run_frame,
  send_request, idle, send_copy_in_frame_file, receive_copy_in_frame_file, send_execute_request,
  receive_execute_response, send_copy_out_frame_file,
}
use distray.RemoteWorker.Session.Outward.{
  Writable, Readable, Goes, Goes-exchange, Goes-skip, out_phase,
}

module _ (system : System) (parameters : Parameters) (peer : Peer system) where
  content_of-some :
      (d : system.Disk) (pathname content : Bytes)
      → system.read_file d pathname ≡ some content
      → content_of system d pathname ≡ content
  content_of-some d pathname content e = ground (arith, e)

  module _ (d : system.Disk) (w : RemoteWorker) (c : FileCopy) (cs : List FileCopy) where
    in_requests-skip :
        is_for w.frame c ≡ false
        → in_requests system d w.frame (c ∷ cs) ≡ in_requests system d w.frame cs
    in_requests-skip h = rw h

    in_requests-match :
        (content : Bytes)
        → is_for w.frame c ≡ true
        → system.read_file d (substitute_parameter c.source w.frame) ≡ some content
        → in_requests system d w.frame (c ∷ cs)
          ≡ copy_in_of c w.frame content ∷ in_requests system d w.frame cs
    in_requests-match content h read =
        let same : content_of system d (substitute_parameter c.source w.frame) ≡ content =
          content_of-some d (substitute_parameter c.source w.frame) content read in
        rw (h, same)

  -- What goes out behind the files.
  abbrev pub tail_requests : ℤ → List Request
  tail_requests frame = execute_of parameters frame ∷ out_requests frame parameters.out_copies

  in_phase :
      (cs : List FileCopy) (fuel i : ℕ) (w : RemoteWorker) (d : system.Disk)
      → Writable system
      → Readable system d w.frame cs
      → drop i parameters.in_copies ≡ cs
      → length cs ≤ length parameters.in_copies
      → suc (length cs) < fuel
      → Goes system parameters peer fuel
          (at send_copy_in_frame_file i w)
          d
          (in_requests system d w.frame cs ++ tail_requests w.frame)
  unfolding send_request
  in_phase cs zero i w d writes reads e le h = absurd (omega arith)
  in_phase cs (suc zero) i w d writes reads e le h = absurd (omega arith)
  in_phase [] (suc (suc fuel)) i w d writes reads e le h =
      let r = execute_of parameters w.frame in
      let asked =
        send_request system parameters r receive_execute_response (at send_execute_request i w) in
      let next = at send_copy_out_frame_file 0 (settled system peer r asked) in
      Goes-exchange system parameters peer (suc (suc fuel)) (at send_copy_in_frame_file i w) asked
        next d d r (out_requests w.frame parameters.out_copies)
        (end_in system parameters fuel i w d (get_elem?-drop_nil i parameters.in_copies e))
        (pending-send_request system parameters r receive_execute_response
          (at send_execute_request i w))
        (recv_execute system parameters peer (rest_fuel system parameters) i r asked d
          (peer.same_type r))
        refl
        (out_phase system parameters peer parameters.out_copies (rest_fuel system parameters) 0 next
          d writes refl (omega arith) (omega arith))
  in_phase (c ∷ cs) (suc (suc fuel)) i w d writes (readable, reads) e le h =
      let (here, behind_here) = get_elem?-drop i parameters.in_copies e in
      elim (Bool-cases (is_for w.frame c)) [
        | inr no_match ↦
            let rest =
              in_phase cs (suc fuel) (suc i) w d writes reads behind_here (omega arith)
                (omega arith) in
            subst
              (λ rs.
                Goes system parameters peer (suc (suc fuel)) (at send_copy_in_frame_file i w) d
                  (rs ++ tail_requests w.frame))
              (sym (in_requests-skip d w c cs no_match))
              (Goes-skip system parameters peer (suc (suc fuel)) (suc fuel)
                (at send_copy_in_frame_file i w) (at send_copy_in_frame_file (suc i) w) d
                (in_requests system d w.frame cs ++ tail_requests w.frame)
                (skip_in system parameters (suc fuel) i c w d here no_match) refl rest)
        | inl match ↦
            let (content, read) = readable match in
            let r = copy_in_of c w.frame content in
            let asked =
              send_request system parameters r receive_copy_in_frame_file
                (at send_copy_in_frame_file i w) in
            let next = at send_copy_in_frame_file (suc i) (settled system peer r asked) in
            let rest =
              in_phase cs (rest_fuel system parameters) (suc i) next d writes reads behind_here
                (omega arith) (omega arith) in
            subst
              (λ rs.
                Goes system parameters peer (suc (suc fuel)) (at send_copy_in_frame_file i w) d
                  (rs ++ tail_requests w.frame))
              (sym (in_requests-match d w c cs content match read))
              (Goes-exchange system parameters peer (suc (suc fuel))
                (at send_copy_in_frame_file i w) asked next d d r
                (in_requests system d w.frame cs ++ tail_requests w.frame)
                (send_in system parameters (suc fuel) i c w d content here match read)
                (pending-send_request system parameters r receive_copy_in_frame_file
                  (at send_copy_in_frame_file i w))
                (recv_in system parameters peer (rest_fuel system parameters) i r asked d
                  (peer.same_type r))
                refl rest)
      ]

pub run_frame-idle :
    (system : System) (parameters : Parameters) (frame : ℤ) (w : RemoteWorker) (d : system.Disk)
    → w.state ≡ idle
    → run_frame system parameters frame w d
      ≡ dispatch system parameters
          (record w { frame = frame; state = send_copy_in_frame_file; state_index = 0 })
          d
unfolding run_frame
run_frame-idle system parameters frame w d e = simp e

-- The requests of a frame as README.md has them: of the copies, those with a frame number in one of their
-- pathnames, in order, the number put in.
module _ (system : System) (d : system.Disk) (n : ℕ) where
  abbrev pub numbered_in : List FileCopy → List Request
  numbered_in [] = []
  numbered_in (c ∷ cs) =
      if has_parameter c
      then copy_in_of c (pos n) (content_of system d (substitute_parameter c.source (pos n)))
        ∷ numbered_in cs
      else numbered_in cs

  -- The local files of those can be read.
  abbrev pub Numbered : List FileCopy → Type 0
  Numbered = All (λ (c : FileCopy).
      has_parameter c ≡ true
      → (content : Bytes) × (system.read_file d (substitute_parameter c.source (pos n))
          ≡ some content))

  numbered_in_lem : (cs : List FileCopy) → in_requests system d (pos n) cs ≡ numbered_in cs
  numbered_in_lem [] = refl
  numbered_in_lem (c ∷ cs) =
      ap
        (λ rs.
          if has_parameter c
          then copy_in_of c (pos n) (content_of system d (substitute_parameter c.source (pos n)))
            ∷ rs
          else rs)
        (numbered_in_lem cs)

  Numbered-Readable : (cs : List FileCopy) → Numbered cs → Readable system d (pos n) cs
  Numbered-Readable [] h = tt
  Numbered-Readable (c ∷ cs) (here, h) = (here, Numbered-Readable cs h)

abbrev pub numbered_out : ℕ → List FileCopy → List Request
numbered_out n [] = []
numbered_out n (c ∷ cs) =
    if has_parameter c then copy_out_of c (pos n) ∷ numbered_out n cs else numbered_out n cs

numbered_out_lem : (n : ℕ) (cs : List FileCopy) → out_requests (pos n) cs ≡ numbered_out n cs
numbered_out_lem n [] = refl
numbered_out_lem n (c ∷ cs) =
    ap (λ rs. if has_parameter c then copy_out_of c (pos n) ∷ rs else rs) (numbered_out_lem n cs)

-- Given an idle worker to a frame that is not negative, where the files of its copies in can be read and
-- files can be written, and the worker answers every request with success, in a response that arrives
-- whole (so within the 10 MB of the incoming buffer): run_frame sends the copies in that have a frame
-- number, in the order of the parameters and with the files' contents, then the program to execute,
-- then the copies out that have a frame number, and nothing else; behind the last response the worker
-- is idle.
pub run_frame-Session :
    (system : System) (parameters : Parameters) (peer : Peer system)
    → (n : ℕ) (w : RemoteWorker) (d : system.Disk) → w.state ≡ idle
    → Writable system
    → Numbered system d n parameters.in_copies
    → (w1 : RemoteWorker) × (w2 : RemoteWorker) × (d2 : system.Disk) × (run_frame system parameters
          (pos n)
          w
          d
        ≡ continues w1 d)
      × Session system parameters peer w1 d
          (numbered_in system d n parameters.in_copies
            ++ (execute_of parameters (pos n) ∷ numbered_out n parameters.out_copies))
          w2
          d2
      × (w2.state ≡ idle)
      × (w2.frame ≡ pos n)
run_frame-Session system parameters peer n w d is_idle_now writes reads =
    let given = record w { frame = pos n; state = send_copy_in_frame_file; state_index = 0 } in
    let (w1, w2, d2, e, session, last, same) =
      in_phase system parameters peer parameters.in_copies (suc (rest_fuel system parameters)) 0
        (record w { frame = pos n }) d writes
        (Numbered-Readable system d n parameters.in_copies reads) refl (omega arith)
        (omega arith) in
    let spelled =
      ap (λ rs. rs ++ tail_requests system parameters peer (pos n))
        (numbered_in_lem system d n parameters.in_copies)
      ∙ ap
          (λ rs.
            numbered_in system d n parameters.in_copies ++ (execute_of parameters (pos n) ∷ rs))
          (numbered_out_lem n parameters.out_copies) in
    (
      w1,
      w2,
      d2,
      run_frame-idle system parameters (pos n) w d is_idle_now
          ∙ dispatch-fuel system parameters given d
          ∙ e,
      subst (λ rs. Session system parameters peer w1 d rs w2 d2) spelled session,
      last,
      same,
    )
