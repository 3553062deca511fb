-- ===== src/Job/Passes.antt =====
-- Single passes of the loop of src/controller.cpp over one worker.
use distray.Base.{
  ℕ, ◌≡◌, refl, ◌∙◌, ap, true, false, List, [], ◌∷◌, Option, none, some, length, if◌then◌else◌,
  get_elem?, Bool-cases, inl, inr,
}
use distray.Base.Int.{ℤ}
use distray.Parameters.{Parameters}
use distray.RemoteWorker.{
  RemoteWorker, System, Outcome, continues, exited, unfinished, is_idle, run_frame,
}
use distray.Controller.{
  Controller, Ready, Step, ◌>>=◌, running, stopped, Standing, waiting, finished, halted, exit,
  stuck, undefined, get_idle_worker, any_worker_working, put_worker, serve_worker, serve_workers,
  hand_out, missing, round, is_working,
}
use distray.Job.Rounds.{only}

-- One worker.
abbrev pub one : {D : Type 0} → RemoteWorker → List ℤ → D → Controller D
one w frames d = record { workers = w ∷ []; frames = frames; disk = d }

module _ (system : System) (parameters : Parameters) where
  -- How the loop stands behind its last pass.
  abbrev pub behind : Step (Controller system.Disk) → Standing system.Disk
  behind (stopped why) = halted why
  behind (running s) = if is_working system parameters s then waiting s else finished s

  pub is_idle-is_working :
      (w : RemoteWorker) (frames : List ℤ) (d : system.Disk)
      → is_idle w.state ≡ false
      → is_working system parameters (one w frames d) ≡ true
  unfolding is_working any_worker_working
  is_idle-is_working w [] d e = rw e refl
  is_idle-is_working w (f ∷ fs) d e = refl

  -- Frames are handed out to the worker behind one of its calls.
  unfoldable pub after : List ℤ → Outcome system.Disk → Standing system.Disk
  unfolding hand_out is_working
  after frames exited = halted exit
  after frames unfinished = halted stuck
  after frames (continues w d) = behind (hand_out system parameters frames (one w frames d))

  pub is_idle-hand_out :
      (w : RemoteWorker) (frames : List ℤ) (d : system.Disk)
      → is_idle w.state ≡ false
      → hand_out system parameters frames (one w frames d) ≡ running (one w frames d)
  unfolding hand_out get_idle_worker
  is_idle-hand_out w [] d e = refl
  is_idle-hand_out w (f ∷ fs) d e = rw (e, hand_out) refl

  pub is_idle-after :
      (w : RemoteWorker) (frames : List ℤ) (d : system.Disk)
      → is_idle w.state ≡ false
      → after frames (continues w d) ≡ waiting (one w frames d)
  unfolding after
  is_idle-after w frames d e =
      rw (is_idle-hand_out w frames d e, is_idle-is_working w frames d e) refl

  pub after_idle :
      (w : RemoteWorker) (d : system.Disk)
      → is_idle w.state ≡ true
      → after [] (continues w d) ≡ finished (one w [] d)
  unfolding after hand_out is_working any_worker_working
  after_idle w d e = rw e refl

  -- What the queue was does not matter to hand_out.
  queue-hand_out :
      (fs a b : List ℤ) (w : RemoteWorker) (d : system.Disk)
      → hand_out system parameters fs (one w a d) ≡ hand_out system parameters fs (one w b d)
  unfolding hand_out get_idle_worker
  queue-hand_out [] a b w d = refl
  queue-hand_out (f ∷ fs) a b w d = elim (Bool-cases (is_idle w.state)) [
    | inr e ↦ rw (e, hand_out) refl
    | inl e ↦
        rw (e, hand_out)
          (given (run_frame system parameters f w d) (λ w' d'. queue-hand_out fs a b w' d'))
  ]
    where
      given :
          (o : Outcome system.Disk)
          → ((w' : RemoteWorker) (d' : system.Disk)
              → hand_out system parameters fs (one w' a d')
                ≡ hand_out system parameters fs (one w' b d'))
          → (put_worker 0 (one w a d) o >>= hand_out system parameters fs)
            ≡ (put_worker 0 (one w b d) o >>= hand_out system parameters fs)
      given exited same = refl
      given unfinished same = refl
      given (continues w' d') same = same w' d'

  pub after-run_frame :
      (f : ℤ) (fs : List ℤ) (w : RemoteWorker) (d : system.Disk)
      → is_idle w.state ≡ true
      → after (f ∷ fs) (continues w d) ≡ after fs (run_frame system parameters f w d)
  unfolding after hand_out get_idle_worker
  after-run_frame f fs w d e = handed ∙ given (run_frame system parameters f w d)
    where
      handed_to : Option ℕ → Step (Controller system.Disk)
      handed_to none = running (one w (f ∷ fs) d)
      handed_to (some i) = elim (get_elem? (w ∷ []) i) [
        | none ↦ stopped undefined
        | some w' ↦
            put_worker i (one w (f ∷ fs) d) (run_frame system parameters f w' d)
            >>= hand_out system parameters fs
      ]

      get_idle-one : get_idle_worker (w ∷ []) ≡ some 0
      get_idle-one = rw e refl

      handed :
          after (f ∷ fs) (continues w d)
          ≡ behind (
              put_worker 0 (one w (f ∷ fs) d) (run_frame system parameters f w d)
              >>= hand_out system parameters fs)
      handed = ap (λ i. behind (handed_to i)) (get_idle-one)

      given :
          (o : Outcome system.Disk)
          → behind (put_worker 0 (one w (f ∷ fs) d) o >>= hand_out system parameters fs)
            ≡ after fs o
      given exited = refl
      given unfinished = refl
      given (continues w' d') = ap behind (queue-hand_out fs (f ∷ fs) fs w' d')

  -- Without proxies, a pass is what is served, and the frames behind it.
  pub round-only :
      (e : Ready) (w : RemoteWorker) (frames : List ℤ) (d : system.Disk)
      → parameters.proxy_endpoints ≡ []
      → round system parameters (only e) (one w frames d) ≡ (
          serve_worker system parameters 0 e (one w frames d) >>= λ s.
          hand_out system parameters s.frames s)
  unfolding round serve_workers missing
  round-only e w frames d none_left =
      let covered : missing (w ∷ []) (length parameters.proxy_endpoints) 0 ≡ [] =
        ap (λ p. missing (w ∷ []) (length p) 0) none_left in
      rw covered refl
