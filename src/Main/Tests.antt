-- ===== src/Main/Tests.antt =====
-- A command line of the controller, with what each command is given in place of its run.
use distray.Base.{◌≡◌, refl, List, [], ◌∷◌, Bytes, codes}
use distray.Base.Int.{pos}
use distray.Frames.{Frames}
use distray.Parameters.{Parameters}
use distray.CommandLine.Locality.{AreLocal}
use distray.CommandLine.{parse_arguments}
use distray.Main.{Commands, main, RunsAs, main-Runs, returned}

-- The parameters that a command is started with.
abbrev given : Commands Parameters
given = record {
  start_worker = λ p. p;
  start_proxy = λ p. p;
  start_controller = λ p. p;
  start_unittests = λ p. p;
}

abbrev unset : Frames
unset = record { first = pos 0; last = pos 0; step = pos 0 }

abbrev argv : List Bytes
argv =
    codes "controller"
    ∷ codes "--in"
    ∷ codes "/scene"
    ∷ codes "scene"
    ∷ codes "1,5"
    ∷ codes "ray"
    ∷ []

main-Runs_example : RunsAs given AreLocal (main given unset (codes "distray" ∷ argv))
main-Runs_example =
    main-Runs given AreLocal unset (codes "distray") argv (λ p local e. local) (λ p local e. local)
      (λ p local near e. local) (λ p local e. local)

-- Without a command the usage is printed.
main_bare : main given unset (codes "distray" ∷ []) ≡ returned 2
unfolding main parse_arguments
main_bare = refl
