-- ===== src/Job/Joins.antt =====
-- The first pass of the loop of src/controller.cpp: a worker connects.
use distray.Base.{◌≡◌, refl, ◌∙◌, ap, List, [], ◌∷◌, length}
use distray.Base.Int.{ℤ}
use distray.Parameters.{Parameters}
use distray.RemoteWorker.{System, Outcome, continues, exited, unfinished, start, new}
use distray.Controller.{
  Controller, run, ◌>>=◌, round, serve_workers, accept_worker, missing, is_working, hand_out,
  push_worker,
}
use distray.Controller.Start.{initial}
use distray.Job.Rounds.{joins}
use distray.Job.Passes.{behind, after}
use distray.Job.Turn.{run_one}

module _ (system : System) (parameters : Parameters) where
  -- The pass in which the worker connects.
  pub run-joins :
      (f : ℤ) (fs : List ℤ) (d : system.Disk)
      → parameters.proxy_endpoints ≡ []
      → run system parameters (joins ∷ []) (initial (f ∷ fs) d)
        ≡ after system parameters (f ∷ fs) (start system parameters new d)
  unfolding round serve_workers accept_worker missing is_working after
  run-joins f fs d none_left =
      let nobody : Controller system.Disk = initial (f ∷ fs) d in
      let covered : missing [] (length parameters.proxy_endpoints) 0 ≡ [] =
        ap (λ p. missing [] (length p) 0) none_left in
      let joined : round system parameters joins nobody ≡ (
          push_worker nobody (start system parameters new d) >>= λ s.
          hand_out system parameters s.frames s) =
        rw covered refl in
      run_one system parameters joins nobody refl
      ∙ ap (behind system parameters) joined
      ∙ given (start system parameters new d)
    where
      given :
          (o : Outcome system.Disk)
          → behind system parameters
              (push_worker (initial (f ∷ fs) d) o >>= λ s. hand_out system parameters s.frames s)
            ≡ after system parameters (f ∷ fs) o
      given exited = refl
      given unfinished = refl
      given (continues w d') = refl
