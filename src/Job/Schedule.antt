-- ===== src/Job/Schedule.antt =====
-- The exchanges of Rounds are one run of the loop of src/controller.cpp.
use distray.Base.{
  ℕ, zero, suc, ◌≡◌, refl, sym, ◌∙◌, ap, false, List, [], ◌∷◌, ◌++◌, inl, inr, Bool-cases,
}
use distray.Base.Int.{ℤ}
use distray.Parameters.{Parameters}
use distray.Worker.{Machine}
use distray.RemoteWorker.{System}
use distray.Controller.{
  Controller, Round, Step, running, stopped, Standing, waiting, finished, halted, is_working, round,
  run,
}
use distray.Controller.Start.{initial}
use distray.Job.Delivery.{Pieces}
use distray.Job.Rounds.{next_rounds, turns, whole, joins}

module _ (system : System) (parameters : Parameters) where
  abbrev onto : List Round → Standing system.Disk → Standing system.Disk
  onto rs (waiting s) = run system parameters rs s
  onto rs (finished s) = finished s
  onto rs (halted why) = halted why

  resting-run :
      (rs : List Round) (s : Controller system.Disk)
      → is_working system parameters s ≡ false
      → run system parameters rs s ≡ finished s
  unfolding run
  resting-run [] s e = rw e refl
  resting-run (r ∷ rs) s e = rw (e, run) refl

  run-append :
      (rs rs' : List Round) (s : Controller system.Disk)
      → run system parameters (rs ++ rs') s ≡ onto rs' (run system parameters rs s)
  unfolding run
  run-append [] rs' s = elim (Bool-cases (is_working system parameters s)) [
    | inl e ↦ rw e refl
    | inr e ↦ resting-run rs' s e ∙ rw e refl
  ]
  run-append (r ∷ rs) rs' s = elim (Bool-cases (is_working system parameters s)) [
    | inr e ↦ rw (e, run) refl
    | inl e ↦ rw (e, run) (passed (round system parameters r s) (λ s'. run-append rs rs' s'))
  ]
    where
      passed :
          (x : Step (Controller system.Disk))
          → ((s' : Controller system.Disk)
              → run system parameters (rs ++ rs') s' ≡ onto rs' (run system parameters rs s'))
          → (elim x [
            | stopped why ↦ halted why
            | running s' ↦ run system parameters (rs ++ rs') s'
          ])
            ≡ onto rs'
                (elim x [ stopped why ↦ halted why | running s' ↦ run system parameters rs s' ])
      passed (stopped why) on = refl
      passed (running s') on = on s'

module _ (system : System) (parameters : Parameters) (machine : Machine) (pieces : Pieces) where
  turns-run :
      (n : ℕ) (st : Standing system.Disk) (wd : machine.Disk)
      → (rs : List Round) (s : Controller system.Disk) → st ≡ run system parameters rs s
      → (rs' : List Round) × ((turns system parameters machine pieces n (st, wd)).0
          ≡ run system parameters rs' s)
  unfolding turns
  turns-run zero st wd rs s e = (rs, e)
  turns-run (suc n) (finished s') wd rs s e = (rs, e)
  turns-run (suc n) (halted why) wd rs s e = (rs, e)
  turns-run (suc n) (waiting s') wd rs s e =
      let (more, wd') = next_rounds system parameters machine pieces s' wd in
      turns-run n (run system parameters more s') wd' (rs ++ more) s
        (ap (onto system parameters more) e ∙ sym (run-append system parameters rs more s))

  -- Some passes of the controller's loop come to what the exchanges do.
  pub whole-run :
      (n : ℕ) (frames : List ℤ) (d : system.Disk) (wd : machine.Disk)
      → (rs : List Round) × ((whole system parameters machine pieces n frames d wd).0
          ≡ run system parameters rs (initial frames d))
  unfolding whole
  whole-run n frames d wd =
      turns-run n (run system parameters (joins ∷ []) (initial frames d)) wd (joins ∷ [])
        (initial frames d) refl
