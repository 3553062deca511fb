-- ===== src/RemoteWorker/Session/Outward.antt =====
-- From a call of dispatch to the idle state: one exchange, and the copies out.
use distray.Base.{
  ℕ, zero, suc, ◌≤◌, ◌<◌, ◌≡◌, refl, sym, ◌∙◌, subst, true, false, List, [], ◌∷◌, some, arith,
  Bytes, drop, length, All, Bool-cases, inl, inr, get_elem?-drop, get_elem?-drop_nil,
}
use distray.Base.Int.{ℤ}
use distray.Util.Parameter.{substitute_parameter}
use distray.Parameters.{Parameters, FileCopy}
use distray.Drp.{Request}
use distray.RemoteWorker.Session.{Peer, Session, exchange, finished, pending, arrived, out_requests}
use distray.RemoteWorker.Session.Steps.{
  at, pending-send_request, skip_out, send_out, end_out, recv_out, settled, rest_fuel,
  dispatch-fuel,
}
use distray.RemoteWorker.{
  RemoteWorker, System, continues, is_for, copy_out_of, dispatch_from, send_request, idle,
  send_copy_out_frame_file, receive_copy_out_frame_file,
}

-- Every write of a file succeeds.
abbrev pub Writable : System → Type 0
Writable system =
    (d : system.Disk) (pathname content : Bytes)
    → (d' : system.Disk) × (system.write_file d pathname content ≡ some d')

-- The local files that are copied in for a frame, or for none, can be read.
abbrev pub Readable : (system : System) → system.Disk → ℤ → List FileCopy → Type 0
Readable system d frame = All (λ (c : FileCopy).
    is_for frame c ≡ true
    → (content : Bytes) × (system.read_file d (substitute_parameter c.source frame) ≡ some content))

module _ (system : System) (parameters : Parameters) (peer : Peer system) where
  -- From a call of dispatch on, these requests go out and end in the idle state.
  abbrev pub Goes : ℕ → RemoteWorker → system.Disk → List Request → Type 0
  Goes fuel w d rs =
      (w1 : RemoteWorker) × (w2 : RemoteWorker) × (d2 : system.Disk) × (dispatch_from system
          parameters fuel w d
        ≡ continues w1 d)
      × Session system parameters peer w1 d rs w2 d2
      × (w2.state ≡ idle)
      × (w2.frame ≡ w.frame)

  -- A call that sends a request, and the round behind its response.
  pub Goes-exchange :
      (fuel : ℕ) (w w' ws : RemoteWorker) (d d' : system.Disk) (r : Request) (rs : List Request)
      → dispatch_from system parameters fuel w d ≡ continues w' d
      → pending system w' ≡ some r
      → dispatch_from system parameters
          (suc (rest_fuel system parameters))
          (arrived system parameters peer r w')
          d
        ≡ dispatch_from system parameters (rest_fuel system parameters) ws d'
      → ws.frame ≡ w.frame
      → Goes (rest_fuel system parameters) ws d' rs
      → Goes fuel w d (r ∷ rs)
  Goes-exchange fuel w w' ws d d' r rs call waits back same (w1, w2, d2, e, session, last, frame) =
      (
        w',
        w2,
        d2,
        call,
        exchange waits
            (dispatch-fuel system parameters (arrived system parameters peer r w') d ∙ back ∙ e)
            session,
        last,
        frame ∙ same,
      )

  pub Goes-skip :
      (fuel fuel' : ℕ) (w w' : RemoteWorker) (d : system.Disk) (rs : List Request)
      → dispatch_from system parameters fuel w d ≡ dispatch_from system parameters fuel' w' d
      → w'.frame ≡ w.frame
      → Goes fuel' w' d rs
      → Goes fuel w d rs
  Goes-skip fuel fuel' w w' d rs call same (w1, w2, d2, e, session, last, frame) =
      (w1, w2, d2, call ∙ e, session, last, frame ∙ same)

  module _ (w : RemoteWorker) (c : FileCopy) (cs : List FileCopy) where
    out_requests-skip :
        is_for w.frame c ≡ false → out_requests w.frame (c ∷ cs) ≡ out_requests w.frame cs
    out_requests-skip h = rw h

    out_requests-match :
        is_for w.frame c ≡ true
        → out_requests w.frame (c ∷ cs) ≡ copy_out_of c w.frame ∷ out_requests w.frame cs
    out_requests-match h = rw h

  pub out_phase :
      (cs : List FileCopy) (fuel i : ℕ) (w : RemoteWorker) (d : system.Disk)
      → Writable system
      → drop i parameters.out_copies ≡ cs
      → length cs ≤ length parameters.out_copies
      → length cs < fuel
      → Goes fuel (at send_copy_out_frame_file i w) d (out_requests w.frame cs)
  unfolding send_request
  out_phase cs zero i w d writes e le h = absurd (omega arith)
  out_phase [] (suc fuel) i w d writes e le h = (
    at idle i w,
    at idle i w,
    d,
    end_out system parameters fuel i w d (get_elem?-drop_nil i parameters.out_copies e),
    finished,
    refl,
    refl,
  )
  out_phase (c ∷ cs) (suc fuel) i w d writes e le h =
      let (here, behind_here) = get_elem?-drop i parameters.out_copies e in
      elim (Bool-cases (is_for w.frame c)) [
        | inr no_match ↦
            let rest =
              out_phase cs fuel (suc i) w d writes behind_here (omega arith) (omega arith) in
            subst (Goes (suc fuel) (at send_copy_out_frame_file i w) d)
              (sym (out_requests-skip w c cs no_match))
              (Goes-skip (suc fuel) fuel (at send_copy_out_frame_file i w)
                (at send_copy_out_frame_file (suc i) w) d (out_requests w.frame cs)
                (skip_out system parameters fuel i c w d here no_match) refl rest)
        | inl match ↦
            let r = copy_out_of c w.frame in
            let asked =
              send_request system parameters r receive_copy_out_frame_file
                (at send_copy_out_frame_file i w) in
            let (d', write) =
              writes d (substitute_parameter c.destination w.frame)
                (peer.answer r).copy_out_response.content in
            let next = at send_copy_out_frame_file (suc i) (settled system peer r asked) in
            let rest =
              out_phase cs (rest_fuel system parameters) (suc i) next d' writes behind_here
                (omega arith) (omega arith) in
            subst (Goes (suc fuel) (at send_copy_out_frame_file i w) d)
              (sym (out_requests-match w c cs match))
              (Goes-exchange (suc fuel) (at send_copy_out_frame_file i w) asked next d d' r
                (out_requests w.frame cs) (send_out system parameters fuel i c w d here match)
                (pending-send_request system parameters r receive_copy_out_frame_file
                  (at send_copy_out_frame_file i w))
                (recv_out system parameters peer (rest_fuel system parameters) i r asked d c d'
                  (peer.same_type r) here write)
                refl rest)
      ]
