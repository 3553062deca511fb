-- ===== src/RemoteWorker/Session/Start.antt =====
-- A worker that has connected, from start to the idle state: the welcome, and the copies in that belong
-- to no frame.
use distray.Base.{
  ℕ, zero, suc, ◌≤◌, ◌<◌, ◌≡◌, refl, sym, ◌∙◌, ap, subst, true, false, List, [], ◌∷◌, none, some,
  arith, Bytes, drop, length, Bool-cases, inl, inr, get_elem?, get_elem?-drop, get_elem?-drop_nil,
}
use distray.Base.Int.{negsuc}
use distray.Util.Parameter.{substitute_parameter}
use distray.Parameters.{Parameters, FileCopy}
use distray.Drp.{Request, welcome, copy_in, request_of}
use distray.RemoteWorker.Session.{Peer, Session, finished, arrived, in_requests, content_of}
use distray.RemoteWorker.Session.Steps.{rest_fuel, dispatch-fuel, at, pending-send_request, settled}
use distray.RemoteWorker.Session.Outward.{Readable, Goes, Goes-exchange, Goes-skip}
use distray.RemoteWorker.{
  RemoteWorker, System, continues, no_frame, is_for, copy_in_of, dispatch_from, start, send_request,
  idle, send_welcome_request, receive_welcome_response, send_copy_in_non_frame_file,
  receive_copy_in_non_frame_file,
}

module _ (system : System) (parameters : Parameters) where
  module _ (fuel i : ℕ) (c : FileCopy) (w : RemoteWorker) (d : system.Disk) where
    pub skip_file :
        get_elem? parameters.in_copies i ≡ some c
        → is_for no_frame c ≡ false
        → dispatch_from system parameters (suc fuel) (at send_copy_in_non_frame_file i w) d
          ≡ dispatch_from system parameters fuel (at send_copy_in_non_frame_file (suc i) w) d
    unfolding dispatch_from
    skip_file e h = rw (e, dispatch_from, h)

    pub send_file :
        (content : Bytes)
        → get_elem? parameters.in_copies i ≡ some c
        → is_for no_frame c ≡ true
        → system.read_file d (substitute_parameter c.source no_frame) ≡ some content
        → dispatch_from system parameters (suc fuel) (at send_copy_in_non_frame_file i w) d
          ≡ continues
              (send_request system parameters
                (copy_in_of c no_frame content)
                receive_copy_in_non_frame_file
                (at send_copy_in_non_frame_file i w))
              d
    unfolding dispatch_from
    send_file content e h r = rw (e, dispatch_from, h, r)

    in_requests-none_skip :
        (cs : List FileCopy)
        → is_for no_frame c ≡ false
        → in_requests system d no_frame (c ∷ cs) ≡ in_requests system d no_frame cs
    in_requests-none_skip cs h = rw h

    in_requests-none_match :
        (cs : List FileCopy) (content : Bytes)
        → is_for no_frame c ≡ true
        → system.read_file d (substitute_parameter c.source no_frame) ≡ some content
        → in_requests system d no_frame (c ∷ cs)
          ≡ copy_in_of c no_frame content ∷ in_requests system d no_frame cs
    in_requests-none_match cs content h read =
        let same : content_of system d (substitute_parameter c.source no_frame) ≡ content =
          ground (arith, read) in
        rw (h, same)

  pub end_files :
      (fuel i : ℕ) (w : RemoteWorker) (d : system.Disk)
      → get_elem? parameters.in_copies i ≡ none
      → dispatch_from system parameters (suc fuel) (at send_copy_in_non_frame_file i w) d
        ≡ continues (at idle i w) d
  unfolding dispatch_from
  end_files fuel i w d e = rw (e, dispatch_from)

  pub welcome_sent :
      (fuel i : ℕ) (w : RemoteWorker) (d : system.Disk)
      → dispatch_from system parameters (suc fuel) (at send_welcome_request i w) d
        ≡ continues
            (send_request system parameters
              (request_of welcome)
              receive_welcome_response
              (at send_welcome_request i w))
            d
  unfolding dispatch_from
  welcome_sent fuel i w d = refl

module _ (system : System) (parameters : Parameters) (peer : Peer system) where
  module _ (fuel i : ℕ) (r : Request) (w : RemoteWorker) (d : system.Disk) where
    recv_file :
        (peer.answer r).request_type ≡ copy_in
        → dispatch_from system parameters
            (suc fuel)
            (arrived system parameters peer r (at receive_copy_in_non_frame_file i w))
            d
          ≡ dispatch_from system parameters fuel
              (at send_copy_in_non_frame_file (suc i) (settled system peer r w))
              d
    unfolding dispatch_from
    recv_file t = rw (peer.arrives r, dispatch_from, t, peer.copies_in r)

    -- What the welcome leaves: the hostname, and no proxy.
    abbrev welcomed : RemoteWorker
    welcomed = record (settled system peer r w) {
      hostname = (peer.answer r).welcome_response.hostname;
      proxy_index = negsuc 0;
    }

    recv_welcome :
        (peer.answer r).request_type ≡ welcome
        → dispatch_from system parameters
            (suc fuel)
            (arrived system parameters peer r (at receive_welcome_response i w))
            d
          ≡ dispatch_from system parameters fuel (at send_copy_in_non_frame_file 0 welcomed) d
    unfolding dispatch_from
    recv_welcome t = rw (peer.arrives r, dispatch_from, t) refl

  files_phase :
      (cs : List FileCopy) (fuel i : ℕ) (w : RemoteWorker) (d : system.Disk)
      → Readable system d no_frame cs
      → drop i parameters.in_copies ≡ cs
      → length cs ≤ length parameters.in_copies
      → length cs < fuel
      → Goes system parameters peer fuel
          (at send_copy_in_non_frame_file i w)
          d
          (in_requests system d no_frame cs)
  unfolding send_request
  files_phase cs zero i w d reads e le h = absurd (omega arith)
  files_phase [] (suc fuel) i w d reads e le h = (
    at idle i w,
    at idle i w,
    d,
    end_files system parameters fuel i w d (get_elem?-drop_nil i parameters.in_copies e),
    finished,
    refl,
    refl,
  )
  files_phase (c ∷ cs) (suc fuel) i w d (readable, reads) e le h =
      let (here, behind_here) = get_elem?-drop i parameters.in_copies e in
      elim (Bool-cases (is_for no_frame c)) [
        | inr no_match ↦
            let rest =
              files_phase cs fuel (suc i) w d reads behind_here (omega arith) (omega arith) in
            subst (Goes system parameters peer (suc fuel) (at send_copy_in_non_frame_file i w) d)
              (sym (in_requests-none_skip system parameters fuel i c w d cs no_match))
              (Goes-skip system parameters peer (suc fuel) fuel (at send_copy_in_non_frame_file i w)
                (at send_copy_in_non_frame_file (suc i) w) d (in_requests system d no_frame cs)
                (skip_file system parameters fuel i c w d here no_match) refl rest)
        | inl match ↦
            let (content, read) = readable match in
            let r = copy_in_of c no_frame content in
            let asked =
              send_request system parameters r receive_copy_in_non_frame_file
                (at send_copy_in_non_frame_file i w) in
            let next = at send_copy_in_non_frame_file (suc i) (settled system peer r asked) in
            let rest =
              files_phase cs (rest_fuel system parameters) (suc i) next d reads behind_here
                (omega arith) (omega arith) in
            subst (Goes system parameters peer (suc fuel) (at send_copy_in_non_frame_file i w) d)
              (sym (in_requests-none_match system parameters fuel i c w d cs content match read))
              (Goes-exchange system parameters peer (suc fuel) (at send_copy_in_non_frame_file i w)
                asked next d d r (in_requests system d no_frame cs)
                (send_file system parameters fuel i c w d content here match read)
                (pending-send_request system parameters r receive_copy_in_non_frame_file
                  (at send_copy_in_non_frame_file i w))
                (recv_file (rest_fuel system parameters) i r asked d (peer.same_type r)) refl rest)
      ]

  -- On a new connection, where the files can be read that are copied in for no frame, and the worker
  -- answers every request with success, start sends the welcome, and behind its response the copies in
  -- that are made for no frame, in the order of the parameters and with the files' contents, and
  -- nothing else; behind the last response the worker is idle and has no frame but the one before.
  pub start-Session :
      (w : RemoteWorker) (d : system.Disk)
      → w.state ≡ send_welcome_request
      → Readable system d no_frame parameters.in_copies
      → (w1 : RemoteWorker) × (w2 : RemoteWorker) × (d2 : system.Disk) × (start system parameters w
            d
          ≡ continues w1 d)
        × Session system parameters peer w1 d
            (request_of welcome ∷ in_requests system d no_frame parameters.in_copies)
            w2
            d2
        × (w2.state ≡ idle)
        × (w2.frame ≡ w.frame)
  unfolding start send_request
  start-Session w d e reads =
      let r = request_of welcome in
      let fuel = rest_fuel system parameters in
      let first = at send_welcome_request w.state_index w in
      let asked = send_request system parameters r receive_welcome_response first in
      let next = at send_copy_in_non_frame_file 0 (welcomed fuel 0 r asked d) in
      let (w1, w2, d2, call, session, last, same) =
        Goes-exchange system parameters peer (suc fuel) first asked next d d r
          (in_requests system d no_frame parameters.in_copies)
          (welcome_sent system parameters fuel w.state_index w d)
          (pending-send_request system parameters r receive_welcome_response first)
          (recv_welcome fuel w.state_index r asked d (peer.same_type r)) refl
          (files_phase parameters.in_copies fuel 0 next d reads refl (omega arith) (omega arith)) in
      let given : w ≡ first = ap (λ s. record w { state = s }) e in
      (
        w1,
        w2,
        d2,
        dispatch-fuel system parameters w d
            ∙ ap (λ x. dispatch_from system parameters (suc fuel) x d) given
            ∙ call,
        session,
        last,
        same,
      )
