-- ===== src/Job.antt =====
-- What the controller (src/RemoteWorker.cpp) and one worker (src/worker.cpp) do together, as a script on
-- their two disks: the worker's handlers are called where they stand, and there are no states, messages
-- or buffers.
pub mod Drive
pub mod Replies
pub mod CopiesIn
pub mod CopiesOut
pub mod Frame
pub mod Life
pub mod Delivery
pub mod Asking
pub mod Answering
pub mod Rounds
pub mod Passes
pub mod Turn
pub mod Stream
pub mod Carried
pub mod Settled
pub mod Turns
pub mod Joins
pub mod Schedule
pub mod Readme
pub mod Whole
mod Tests
use distray.Base.{
  ℕ, Bool, true, false, List, [], ◌∷◌, Option, none, some, if◌then◌else◌, Bytes, map,
}
use distray.Base.Int.{ℤ, pos, ◌==ℤ◌}
use distray.Util.Parameter.{substitute_parameter}
use distray.Parameters.{Parameters, FileCopy}
use distray.Drp.{CopyInResponse, ExecuteResponse, CopyOutResponse}
use distray.RemoteWorker.{System, is_for, no_frame}
use distray.Worker.{Machine, handle_copy_in, handle_execute, handle_copy_out}

-- The disks of the controller and of the worker behind a part that went through, or the worker's disk
-- where the controller has given up.
pub data Result (D W : Type 0) : Type 0 where
  completed : D → W → Result D W
  aborted : W → Result D W

infixl 5 ◌>>=◌
abbrev pub ◌>>=◌ : {D W : Type 0} (first : Result D W) (next : D → W → Result D W) → Result D W
completed disk worker_disk >>= next = next disk worker_disk
aborted worker_disk >>= next = aborted worker_disk

module _ (system : System) (parameters : Parameters) (machine : Machine) where
  open system use {read_file, write_file}

  abbrev pub copied_in :
      system.Disk → CopyInResponse × machine.Disk → Result system.Disk machine.Disk
  copied_in d (response, wd) = if response.success then completed d wd else aborted wd

  abbrev pub sent_in :
      Bytes → Option Bytes → system.Disk → machine.Disk → Result system.Disk machine.Disk
  sent_in pathname none d wd = aborted wd
  sent_in pathname (some content) d wd =
      copied_in d (handle_copy_in machine (record { pathname = pathname; content = content }) wd)

  -- One file from the controller's disk to the worker's.
  abbrev pub copy_in_file :
      ℤ → FileCopy → system.Disk → machine.Disk → Result system.Disk machine.Disk
  copy_in_file frame c d wd =
      sent_in (substitute_parameter c.destination frame)
        (read_file d (substitute_parameter c.source frame)) d wd

  -- Those of the files that are made for the frame, or for none, in order.
  abbrev pub copies_in :
      ℤ → List FileCopy → system.Disk → machine.Disk → Result system.Disk machine.Disk
  copies_in frame [] d wd = completed d wd
  copies_in frame (c ∷ cs) d wd =
      (if is_for frame c then copy_in_file frame c d wd else completed d wd) >>= copies_in frame cs

  abbrev pub run_program :
      system.Disk → ExecuteResponse × machine.Disk → Result system.Disk machine.Disk
  run_program d (response, wd) = if response.status ==ℤ pos 0 then completed d wd else aborted wd

  abbrev pub program : ℤ → system.Disk → machine.Disk → Result system.Disk machine.Disk
  program frame d wd = run_program d (
      handle_execute machine
        (record {
          executable = parameters.executable;
          argument = map (λ argument. substitute_parameter argument frame) parameters.arguments;
        })
        wd)

  abbrev pub stored : machine.Disk → Option system.Disk → Result system.Disk machine.Disk
  stored wd none = aborted wd
  stored wd (some d) = completed d wd

  abbrev pub copied_out :
      Bytes → CopyOutResponse → system.Disk → machine.Disk → Result system.Disk machine.Disk
  copied_out pathname response d wd =
      if response.success then stored wd (write_file d pathname response.content) else aborted wd

  -- One file from the worker's disk to the controller's.
  abbrev pub copy_out_file :
      ℤ → FileCopy → system.Disk → machine.Disk → Result system.Disk machine.Disk
  copy_out_file frame c d wd =
      copied_out (substitute_parameter c.destination frame)
        (handle_copy_out machine (record { pathname = substitute_parameter c.source frame }) wd) d
        wd

  abbrev pub copies_out :
      ℤ → List FileCopy → system.Disk → machine.Disk → Result system.Disk machine.Disk
  copies_out frame [] d wd = completed d wd
  copies_out frame (c ∷ cs) d wd =
      (if is_for frame c then copy_out_file frame c d wd else completed d wd)
      >>= copies_out frame cs

  abbrev pub render : ℤ → system.Disk → machine.Disk → Result system.Disk machine.Disk
  render frame d wd = copies_in frame parameters.in_copies d wd >>= λ d1 wd1.
      program frame d1 wd1 >>= copies_out frame parameters.out_copies

  abbrev pub render_all : List ℤ → system.Disk → machine.Disk → Result system.Disk machine.Disk
  render_all [] d wd = completed d wd
  render_all (frame ∷ frames) d wd = render frame d wd >>= render_all frames

  -- A whole job on one worker: the copies in that belong to no frame, then the frames.
  abbrev pub job : List ℤ → system.Disk → machine.Disk → Result system.Disk machine.Disk
  job frames d wd = copies_in no_frame parameters.in_copies d wd >>= render_all frames
