-- ===== src/Job/Whole.antt =====
-- The loop of src/controller.cpp and that of src/worker.cpp, from a worker's connection to the last frame.
use distray.Base.{
  ℕ, zero, suc, ◌+◌, ◌*◌, ◌≤◌, ◌≡◌, refl, sym, ◌∙◌, ap, subst, Bool, true, List, [], ◌∷◌, arith,
  length, map, All,
}
use distray.Base.Int.{ℤ, pos}
use distray.Parameters.{Parameters, has_parameter}
use distray.Job.Readme.{readme, readme-job}
use distray.Worker.{Machine}
use distray.RemoteWorker.{
  RemoteWorker, System, Outcome, continues, exited, unfinished, no_frame, is_idle, run_frame, start,
  new,
}
use distray.Controller.{Controller, Standing, Stop, finished, halted, exit, run, Round}
use distray.Job.{Result, completed, aborted, ◌>>=◌, render, render_all, copies_in, job}
use distray.Job.Drive.{drive, Agrees}
use distray.Job.Frame.{run_frame-render}
use distray.Job.Life.{start-Agrees}
use distray.Job.Delivery.{Pieces, inbox, both_true}
use distray.Job.Rounds.{turns, whole, Ends, passes, passes_all}
use distray.Job.Passes.{one, after, after_idle, after-run_frame}
use distray.Job.Turns.{AtRest, Follows, drive-turns}
use distray.Controller.Start.{initial}
use distray.Job.Schedule.{whole-run}
use distray.Job.Joins.{run-joins}
use distray.Job.Settled.{Settled, start-Settled, run_frame-Settled}

module _ (system : System) (parameters : Parameters) (machine : Machine) (pieces : Pieces) where
  halted-turns :
      (n : ℕ) (why : Stop) (wd : machine.Disk)
      → turns system parameters machine pieces n (halted why, wd) ≡ (halted why, wd)
  unfolding turns
  halted-turns zero why wd = refl
  halted-turns (suc n) why wd = refl

  finished-turns :
      (n : ℕ) (s : Controller system.Disk) (wd : machine.Disk)
      → turns system parameters machine pieces n (finished s, wd) ≡ (finished s, wd)
  unfolding turns
  finished-turns zero s wd = refl
  finished-turns (suc n) s wd = refl

  Agrees-AtRest :
      (f : ℤ) (r : Result system.Disk machine.Disk) (p : Outcome system.Disk × machine.Disk)
      → Agrees system parameters machine (inbox system pieces) f r p
      → AtRest system parameters machine pieces p.0
  Agrees-AtRest f (completed d wd) (o, wd') (w, goes, same, rests, on) =
      subst (AtRest system parameters machine pieces) (sym goes) (ap is_idle rests)
  Agrees-AtRest f (aborted wd) (o, wd') (stop, same) =
      subst (AtRest system parameters machine pieces) (sym stop) tt

  passes_all-passes :
      (n : ℕ) (frames : List ℤ) (o : Outcome system.Disk) (wd : machine.Disk)
      → passes_all system parameters machine pieces n frames o wd ≡ true
      → passes system parameters machine pieces n o wd ≡ true
  unfolding passes_all
  passes_all-passes n [] o wd e = e
  passes_all-passes n (f ∷ fs) o wd e =
      (both_true (passes system parameters machine pieces n o wd) _ e).0

  passes_all-drive :
      (n : ℕ) (f : ℤ) (fs : List ℤ) (o : Outcome system.Disk) (wd : machine.Disk)
      → (w : RemoteWorker) (d : system.Disk) (wd' : machine.Disk)
      → drive system parameters machine (inbox system pieces) n o wd ≡ (continues w d, wd')
      → passes_all system parameters machine pieces n (f ∷ fs) o wd ≡ true
      → passes_all system parameters machine pieces n fs (run_frame system parameters f w d) wd'
        ≡ true
  unfolding passes_all
  passes_all-drive n f fs o wd w d wd' is e =
      sym (ap onward is) ∙ (both_true (passes system parameters machine pieces n o wd) _ e).1
    where
      onward : Outcome system.Disk × machine.Disk → Bool
      onward p = elim p.0 [
        | exited ↦ true
        | unfinished ↦ true
        | continues w d ↦
            passes_all system parameters machine pieces n fs (run_frame system parameters f w d) p.1
      ]

  abbrev behind_part :
      ℕ → List ℤ → Outcome system.Disk × machine.Disk → Standing system.Disk × machine.Disk
  behind_part k frames p =
      turns system parameters machine pieces k (after system parameters frames p.0, p.1)

  -- Behind the turns of one part.
  passes-turns :
      (n m : ℕ) (frames : List ℤ) (f : ℤ) (r : Result system.Disk machine.Disk)
      → (o : Outcome system.Disk) (wd : machine.Disk) → parameters.proxy_endpoints ≡ []
      → n ≤ m
      → Settled system parameters o
      → passes_all system parameters machine pieces n frames o wd ≡ true
      → Agrees system parameters machine
          (inbox system pieces)
          f
          r
          (drive system parameters machine (inbox system pieces) n o wd)
      → Follows system parameters machine pieces n m frames o wd
          (drive system parameters machine (inbox system pieces) n o wd)
  passes-turns n m frames f r o wd none_left le ok e agrees =
      drive-turns system parameters machine pieces n m frames o wd none_left le ok
        (passes_all-passes n frames o wd e)
        (Agrees-AtRest f r (drive system parameters machine (inbox system pieces) n o wd) agrees)

  render_all-turns :
      (n m : ℕ) (frames : List ℤ) (f : ℤ) (r : Result system.Disk machine.Disk)
      → (o : Outcome system.Disk) (wd : machine.Disk) → parameters.proxy_endpoints ≡ []
      → length parameters.in_copies + length parameters.out_copies + 1 ≤ n
      → n * length frames + n ≤ m
      → Settled system parameters o
      → passes_all system parameters machine pieces n frames o wd ≡ true
      → Agrees system parameters machine
          (inbox system pieces)
          f
          r
          (drive system parameters machine (inbox system pieces) n o wd)
      → Ends system parameters machine pieces
          (r >>= render_all system parameters machine frames)
          (turns system parameters machine pieces m (after system parameters frames o, wd))
  unfolding after
  render_all-turns n m frames f (aborted wd1) o wd none_left enough le ok e (stop, at) =
      let (k, far, same, settled) =
        passes-turns n m frames f (aborted wd1) o wd none_left (omega arith) ok e (stop, at) in
      let all_turns =
        same ∙ ap (behind_part k frames) (λ i. (stop i, at i)) ∙ halted-turns k exit wd1 in
      (ap (λ x. x.0) all_turns, ap (λ x. x.1) all_turns)
  render_all-turns n m [] f (completed d wd1) o wd none_left enough le ok e
        (w, goes, at, rests, on) =
      let (k, far, same, settled) =
        passes-turns n m [] f (completed d wd1) o wd none_left (omega arith) ok e
          (w, goes, at, rests, on) in
      let all_turns =
        same
        ∙ ap (behind_part k []) (λ i. (goes i, at i))
        ∙ ap (λ s. turns system parameters machine pieces k (s, wd1))
            (after_idle system parameters w d (ap is_idle rests))
        ∙ finished-turns k (one w [] d) wd1 in
      (w, ap (λ x. x.0) all_turns, ap (λ x. x.1) all_turns)
  render_all-turns n m (next ∷ fs) f (completed d wd1) o wd none_left enough le ok e
        (w, goes, at, rests, on) =
      let (k, far, same, settled) =
        passes-turns n m (next ∷ fs) f (completed d wd1) o wd none_left (omega arith) ok e
          (w, goes, at, rests, on) in
      let all_turns =
        same
        ∙ ap (behind_part k (next ∷ fs)) (λ i. (goes i, at i))
        ∙ ap (λ s. turns system parameters machine pieces k (s, wd1))
            (after-run_frame system parameters next fs w d (ap is_idle rests)) in
      let (keeps, waits) = subst (Settled system parameters) goes settled in
      subst
        (Ends system parameters machine pieces
          (render system parameters machine next d wd1 >>= render_all system parameters machine fs))
        (sym all_turns)
        (render_all-turns n k fs next (render system parameters machine next d wd1)
          (run_frame system parameters next w d) wd1 none_left enough (omega arith)
          (run_frame-Settled system parameters next w d keeps.0)
          (passes_all-drive n next fs o wd w d wd1 (λ i. (goes i, at i)) e)
          (run_frame-render system parameters machine (inbox system pieces) next n w d wd1 rests
            enough))

  whole-script :
      (n m : ℕ) (f : ℤ) (fs : List ℤ) (d : system.Disk) (wd : machine.Disk)
      → parameters.proxy_endpoints ≡ []
      → length parameters.in_copies + length parameters.out_copies + 1 ≤ n
      → n * length (f ∷ fs) + n ≤ m
      → passes_all system parameters machine pieces n (f ∷ fs) (start system parameters new d) wd
        ≡ true
      → Ends system parameters machine pieces
          (job system parameters machine (f ∷ fs) d wd)
          (whole system parameters machine pieces m (f ∷ fs) d wd)
        × (rounds : List Round) × ((whole system parameters machine pieces m (f ∷ fs) d wd).0
            ≡ run system parameters rounds (initial (f ∷ fs) d))
  unfolding whole
  whole-script n m f fs d wd none_left enough le e =
      let (rounds, is) = whole-run system parameters machine pieces m (f ∷ fs) d wd in
      (
        subst
            (λ s.
              Ends system parameters machine pieces (job system parameters machine (f ∷ fs) d wd)
                (turns system parameters machine pieces m (s, wd)))
            (sym (run-joins system parameters f fs d none_left))
            (render_all-turns n m (f ∷ fs) no_frame
              (copies_in system parameters machine no_frame parameters.in_copies d wd)
              (start system parameters new d) wd none_left enough le
              (start-Settled system parameters d) e
              (start-Agrees system parameters machine (inbox system pieces) n d wd (omega arith))),
        rounds,
        is,
      )

  length-pos : (ns : List ℕ) → length (map pos ns) ≡ length ns
  length-pos [] = refl
  length-pos (n ∷ ns) = ap suc (length-pos ns)

  -- The controller and one worker without a proxy, as whole loops that stand at the two ends of a
  -- socket: from the worker's connection on, the controller's loop ends, and comes to what the
  -- order of execution in README.md says for the frames in their order, whatever becomes of files
  -- and programs, and in whatever pieces, of a byte at least, the socket takes the requests and
  -- delivers the responses. Where that script goes through, the loop returns with no frame left,
  -- and both disks are those of the script; where it gives up, the controller exits, with the
  -- worker's disk of the script. The conditions: there is a frame to be done, and no frame is
  -- negative; every copy out has a frame number, as FileCopy::has_parameter tells; no request is
  -- empty, each fits in 32 bits with its size, no response is above the 10 MB of the incoming
  -- buffer, and the worker's ::send takes all that it is offered. For each frame and for the start,
  -- as many exchanges are enough as there are copies and one. All of the exchanges are one run of
  -- the controller's loop, over some list of passes.
  pub whole-job :
      (n m k : ℕ) (ks : List ℕ) (d : system.Disk) (wd : machine.Disk)
      → parameters.proxy_endpoints ≡ []
      → All (λ c. has_parameter c ≡ true) parameters.out_copies
      → length parameters.in_copies + length parameters.out_copies + 1 ≤ n
      → n * length (k ∷ ks) + n ≤ m
      → passes_all system parameters machine pieces n
          (map pos (k ∷ ks))
          (start system parameters new d)
          wd
        ≡ true
      → Ends system parameters machine pieces
          (readme system parameters machine (k ∷ ks) d wd)
          (whole system parameters machine pieces m (map pos (k ∷ ks)) d wd)
        × (rounds : List Round) × ((whole system parameters machine pieces m
              (map pos (k ∷ ks))
              d
              wd).0
            ≡ run system parameters rounds (initial (map pos (k ∷ ks)) d))
  whole-job n m k ks d wd no_proxies numbered enough le e =
      let long : n * length (map pos (k ∷ ks)) + n ≤ m =
        subst (λ l. n * l + n ≤ m) (sym (length-pos (k ∷ ks))) le in
      let (ends, rounds, is) =
        whole-script n m (pos k) (map pos ks) d wd no_proxies enough long e in
      (
        subst
            (λ r.
              Ends system parameters machine pieces r
                (whole system parameters machine pieces m (map pos (k ∷ ks)) d wd))
            (sym (readme-job system parameters machine (k ∷ ks) d wd numbered)) ends,
        rounds,
        is,
      )
