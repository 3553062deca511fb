-- ===== src/Main.antt =====
-- src/main.cpp: the command line is parsed, and one of the four commands is run.
mod Tests
use distray.Util.Pathname.{is_pathname_local}
use distray.Base.{ℕ, true, ◌≡◌, ◌⊎◌, refl, List, [], ◌∷◌, Bytes}
use distray.Frames.{Frames}
use distray.Parameters.{
  Parameters, Command, cmd_unspecified, cmd_worker, cmd_proxy, cmd_controller, cmd_unittest,
}
use distray.CommandLine.Outcome.{Verdict, accepted, refused, Settles}
use distray.CommandLine.Locality.{AreLocal, IsTaken, RunsLocal, parse_arguments-Settles}
use distray.CommandLine.{new, parse_arguments}

-- The commands, by what a run of each comes to.
pub record Commands (R : Type 0) : Type 0 where
  pub start_worker : Parameters → R
  pub start_proxy : Parameters → R
  pub start_controller : Parameters → R
  pub start_unittests : Parameters → R

-- An exit status of the command line, the run of a command, std::logic_error, or the end of the fuel.
pub data Ran (R : Type 0) : Type 0 where
  returned : ℕ → Ran R
  ran : R → Ran R
  threw : Ran R
  unfinished : Ran R

module _ {R : Type 0} (commands : Commands R) where
  abbrev pub run_command : Command → Parameters → Ran R
  run_command cmd_worker parameters = ran (commands.start_worker parameters)
  run_command cmd_proxy parameters = ran (commands.start_proxy parameters)
  run_command cmd_controller parameters = ran (commands.start_controller parameters)
  run_command cmd_unittest parameters = ran (commands.start_unittests parameters)
  run_command cmd_unspecified parameters = threw

  abbrev pub after_parsing : Verdict Parameters → Ran R
  after_parsing (accepted parameters) = run_command parameters.command parameters
  after_parsing (refused status) = returned status
  after_parsing Verdict.threw = threw
  after_parsing Verdict.unfinished = unfinished

  -- `frames` are the numbers that m_frames has before any is set.
  unfoldable pub main : Frames → List Bytes → Ran R
  unfolding parse_arguments
  main frames argv = after_parsing (parse_arguments (new frames) argv)

  -- Status 1 or 2, or a run with the property.
  abbrev pub RunsAs : (R → Type 0) → Ran R → Type 0
  RunsAs Q (returned status) = (status ≡ 1) ⊎ (status ≡ 2)
  RunsAs Q (ran r) = Q r
  RunsAs Q threw = ⊥
  RunsAs Q unfinished = ⊥

  -- On every command line with a program name main never throws: it returns the status 1 or 2, or it
  -- runs the one command that was named, with parameters whose names of files on a worker are local.
  -- So it has each property that every command has on such parameters.
  pub main-Runs :
      (Q : R → Type 0) (frames : Frames) (program : Bytes) (args : List Bytes)
      → ((p : Parameters) → AreLocal p → p.command ≡ cmd_worker → Q (commands.start_worker p))
      → ((p : Parameters) → AreLocal p → p.command ≡ cmd_proxy → Q (commands.start_proxy p))
      → ((p : Parameters)
          → AreLocal p
          → is_pathname_local p.executable ≡ true
          → p.command ≡ cmd_controller
          → Q (commands.start_controller p))
      → ((p : Parameters) → AreLocal p → p.command ≡ cmd_unittest → Q (commands.start_unittests p))
      → RunsAs Q (main frames (program ∷ args))
  unfolding main
  main-Runs Q frames program args workers proxies controllers tests =
      go (parse_arguments (new frames) (program ∷ args))
        (parse_arguments-Settles (new frames) program args (record { ins = tt; outs = tt }))
    where
      named :
          (c : Command) (p : Parameters)
          → p.command ≡ c
          → AreLocal p
          → RunsLocal c p
          → RunsAs Q (run_command c p)
      named cmd_worker p e local near = workers p local e
      named cmd_proxy p e local near = proxies p local e
      named cmd_controller p e local near = controllers p local near e
      named cmd_unittest p e local near = tests p local e
      named cmd_unspecified p e local near = elim near [ ]

      go : (v : Verdict Parameters) → Settles IsTaken v → RunsAs Q (after_parsing v)
      go (accepted p) (local, near) = named p.command p refl local near
      go (refused status) h = h
      go Verdict.threw h = h
      go Verdict.unfinished h = h
