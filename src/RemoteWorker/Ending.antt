-- ===== src/RemoteWorker/Ending.antt =====
-- The loop of dispatch ends, with the fuel that it is given.
use distray.Base.{
  ℕ, zero, suc, ◌+◌, ◌-◌, ◌<◌, ◌≡◌, ◌≢◌, refl, sym, subst, List, [], ◌∷◌, some, arith, get_elem?,
  length, Bool-cases, Option-cases, inl, inr,
}
use distray.Base.Int.{pos, ◌==ℤ◌}
use distray.Util.Parameter.{substitute_parameter}
use distray.Parameters.{Parameters}
use distray.Drp.{welcome, copy_in, execute, copy_out}
use distray.RemoteWorker.Session.Steps.{at, skip_in, send_in, end_in, skip_out, send_out, end_out}
use distray.RemoteWorker.{
  RemoteWorker, State, System, Outcome, continues, exited, unfinished, is_for, no_frame,
  dispatch_from, dispatch, enough, receive_response, handle_copy_file_out_response,
  send_welcome_request, receive_welcome_response, send_copy_in_non_frame_file,
  receive_copy_in_non_frame_file, idle, send_copy_in_frame_file, receive_copy_in_frame_file,
  send_execute_request, receive_execute_response, send_copy_out_frame_file,
  receive_copy_out_frame_file, send_copy_out_non_frame_file, receive_copy_out_non_frame_file, done,
}

-- With exit, or with a worker that is not in the one state that dispatch cannot leave.
abbrev pub Ends : {D : Type 0} → Outcome D → Type 0
Ends unfinished = ⊥
Ends exited = Unit
Ends (continues w d) = w.state ≢ send_copy_out_non_frame_file

get_elem?-lt {ℓ} :
    {A : Type ℓ} (i : ℕ) (xs : List A) {x : A} → get_elem? xs i ≡ some x → i < length xs
get_elem?-lt i [] e = cc
get_elem?-lt zero (x ∷ xs) e = omega arith
get_elem?-lt (suc i) (x ∷ xs) e = let h = get_elem?-lt i xs e in omega arith

module _ (system : System) (parameters : Parameters) where
  -- The frame's copies in end with a request, with the program's or with exit.
  in_frame-Ends :
      (fuel i : ℕ) (w : RemoteWorker) (d : system.Disk)
      → suc (length parameters.in_copies - i) < fuel
      → Ends (dispatch_from system parameters fuel (at send_copy_in_frame_file i w) d)
  unfolding dispatch_from
  in_frame-Ends zero i w d h = absurd (omega arith)
  in_frame-Ends (suc zero) i w d h = absurd (omega arith)
  in_frame-Ends (suc (suc fuel)) i w d h = elim (Option-cases (get_elem? parameters.in_copies i)) [
    | inl e ↦ subst Ends (sym (end_in system parameters fuel i w d e)) (λ z. cc)
    | inr (c, e) ↦ elim (Bool-cases (is_for w.frame c)) [
      | inl m ↦ elim (Option-cases (system.read_file d (substitute_parameter c.source w.frame))) [
        | inl r ↦ rw (e, dispatch_from, m, r) tt
        | inr (content, r) ↦
            subst Ends (sym (send_in system parameters (suc fuel) i c w d content e m r)) (λ z. cc)
      ]
      | inr m ↦
          let inside = get_elem?-lt i parameters.in_copies e in
          subst Ends (sym (skip_in system parameters (suc fuel) i c w d e m))
            (in_frame-Ends (suc fuel) (suc i) w d (omega arith))
    ]
  ]

  out_frame-Ends :
      (fuel i : ℕ) (w : RemoteWorker) (d : system.Disk)
      → length parameters.out_copies - i < fuel
      → Ends (dispatch_from system parameters fuel (at send_copy_out_frame_file i w) d)
  unfolding dispatch_from
  out_frame-Ends zero i w d h = absurd (omega arith)
  out_frame-Ends (suc fuel) i w d h = elim (Option-cases (get_elem? parameters.out_copies i)) [
    | inl e ↦ subst Ends (sym (end_out system parameters fuel i w d e)) (λ z. cc)
    | inr (c, e) ↦ elim (Bool-cases (is_for w.frame c)) [
      | inl m ↦ subst Ends (sym (send_out system parameters fuel i c w d e m)) (λ z. cc)
      | inr m ↦
          let inside = get_elem?-lt i parameters.out_copies e in
          subst Ends (sym (skip_out system parameters fuel i c w d e m))
            (out_frame-Ends fuel (suc i) w d (omega arith))
    ]
  ]

  in_non_frame-Ends :
      (fuel i : ℕ) (w : RemoteWorker) (d : system.Disk)
      → length parameters.in_copies - i < fuel
      → Ends (dispatch_from system parameters fuel (at send_copy_in_non_frame_file i w) d)
  unfolding dispatch_from
  in_non_frame-Ends zero i w d h = absurd (omega arith)
  in_non_frame-Ends (suc fuel) i w d h = elim (Option-cases (get_elem? parameters.in_copies i)) [
    | inl e ↦ rw (e, dispatch_from) (λ z. cc)
    | inr (c, e) ↦ elim (Bool-cases (is_for no_frame c)) [
      | inl m ↦ elim (Option-cases (system.read_file d (substitute_parameter c.source no_frame))) [
        | inl r ↦ rw (e, dispatch_from, m, r) tt
        | inr (content, r) ↦ rw (e, dispatch_from, m, r) (λ z. cc)
      ]
      | inr m ↦
          let inside = get_elem?-lt i parameters.in_copies e in
          rw (e, dispatch_from, m) (in_non_frame-Ends fuel (suc i) w d (omega arith))
    ]
  ]

  state-Ends :
      (s : State) (fuel i : ℕ) (w : RemoteWorker) (d : system.Disk)
      → s ≢ send_copy_out_non_frame_file
      → length parameters.in_copies + length parameters.out_copies + 2 < fuel
      → Ends (dispatch_from system parameters (suc fuel) (at s i w) d)
  unfolding dispatch_from
  state-Ends send_welcome_request fuel i w d n h = (λ z. cc)
  state-Ends receive_welcome_response fuel i w d n h =
      elim (Option-cases
        (receive_response system parameters welcome (at receive_welcome_response i w))) [
          | inl e ↦ rw (e, dispatch_from) tt
          | inr ((r, w'), e) ↦
              rw (e, dispatch_from)
                (in_non_frame-Ends fuel 0
                  (record w' { hostname = r.welcome_response.hostname; proxy_index = no_frame }) d
                  (omega arith))
        ]
  state-Ends send_copy_in_non_frame_file fuel i w d n h =
      in_non_frame-Ends (suc fuel) i w d (omega arith)
  state-Ends receive_copy_in_non_frame_file fuel i w d n h =
      elim (Option-cases
        (receive_response system parameters copy_in (at receive_copy_in_non_frame_file i w))) [
          | inl e ↦ rw (e, dispatch_from) tt
          | inr ((r, w'), e) ↦ elim (Bool-cases r.copy_in_response.success) [
            | inl y ↦
                rw (e, dispatch_from, y)
                  (in_non_frame-Ends fuel (suc w'.state_index) w' d (omega arith))
            | inr y ↦ rw (e, dispatch_from, y) tt
          ]
        ]
  state-Ends idle fuel i w d n h = tt
  state-Ends send_copy_in_frame_file fuel i w d n h = in_frame-Ends (suc fuel) i w d (omega arith)
  state-Ends receive_copy_in_frame_file fuel i w d n h =
      elim (Option-cases
        (receive_response system parameters copy_in (at receive_copy_in_frame_file i w))) [
          | inl e ↦ rw (e, dispatch_from) tt
          | inr ((r, w'), e) ↦ elim (Bool-cases r.copy_in_response.success) [
            | inl y ↦
                rw (e, dispatch_from, y)
                  (in_frame-Ends fuel (suc w'.state_index) w' d (omega arith))
            | inr y ↦ rw (e, dispatch_from, y) tt
          ]
        ]
  state-Ends send_execute_request fuel i w d n h = (λ z. cc)
  state-Ends receive_execute_response fuel i w d n h =
      elim (Option-cases
        (receive_response system parameters execute (at receive_execute_response i w))) [
          | inl e ↦ rw (e, dispatch_from) tt
          | inr ((r, w'), e) ↦ elim (Bool-cases (r.execute_response.status ==ℤ pos 0)) [
            | inl y ↦ rw (e, dispatch_from, y) (out_frame-Ends fuel 0 w' d (omega arith))
            | inr y ↦ rw (e, dispatch_from, y) tt
          ]
        ]
  state-Ends send_copy_out_frame_file fuel i w d n h = out_frame-Ends (suc fuel) i w d (omega arith)
  state-Ends receive_copy_out_frame_file fuel i w d n h =
      elim (Option-cases
        (receive_response system parameters copy_out (at receive_copy_out_frame_file i w))) [
          | inl e ↦ rw (e, dispatch_from) tt
          | inr ((r, w'), e) ↦
              elim (Option-cases (get_elem? parameters.out_copies w'.state_index)) [
                | inl f ↦ rw (e, dispatch_from, f) tt
                | inr (c, f) ↦
                    elim (Option-cases
                      (handle_copy_file_out_response system parameters r w'.frame c d)) [
                        | inl g ↦ rw (e, dispatch_from, f, g) tt
                        | inr (d', g) ↦
                            rw (e, dispatch_from, f, g)
                              (out_frame-Ends fuel (suc w'.state_index) w' d' (omega arith))
                      ]
              ]
        ]
  state-Ends send_copy_out_non_frame_file fuel i w d n h = absurd (n refl)
  state-Ends receive_copy_out_non_frame_file fuel i w d n h = (λ z. cc)
  state-Ends done fuel i w d n h = (λ z. cc)

  -- In every state but the one that would copy out files that belong to no frame, and whatever the
  -- responses and the disk, dispatch comes to an end within its rounds, with exit or with a worker,
  -- and that worker is again not in the state left out.
  pub dispatch-Ends :
      (w : RemoteWorker) (d : system.Disk)
      → w.state ≢ send_copy_out_non_frame_file
      → Ends (dispatch system parameters w d)
  unfolding dispatch
  dispatch-Ends w d n =
      let fuel : ℕ = length parameters.in_copies + length parameters.out_copies + 3 in
      let rounds : enough system parameters ≡ suc fuel = omega arith in
      subst (λ f. Ends (dispatch_from system parameters f w d)) (sym rounds)
        (state-Ends w.state fuel w.state_index w d n (omega arith))
