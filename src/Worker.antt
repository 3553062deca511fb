-- ===== src/Worker.antt =====
-- src/worker.cpp: the worker answers the requests of a controller, one at a time.
pub mod Guards
pub mod Stream
pub mod Start
pub mod Tests
use distray.Base.{
  ℕ, Bool, true, false, ◌||◌, not, List, [], ◌∷◌, ◌++◌, Option, none, some, if◌then◌else◌, Bytes,
  codes, ◌==◌, length, take,
}
use distray.Base.Int.{ℤ, negsuc}
use Prim.Native.Nat.{bit_and}
use distray.Util.Pathname.{is_pathname_local}
use distray.Drp.{
  RequestType, welcome, copy_in, execute, copy_out, CopyInRequest, ExecuteRequest, CopyOutRequest,
  Request, WelcomeResponse, CopyInResponse, ExecuteResponse, CopyOutResponse, Response, response_of,
}
use distray.Wire.Codec.{Codec}
use distray.Wire.Incoming.{Answer, Errno, connreset, other}
use distray.Wire.Outgoing.{Sent, send_failed, sent_here}
use distray.Wire.Blocking.{Outcome, returned, failed, exited, send_message, receive_message}

-- What stat tells of a pathname: ENOENT, another error, or the mode of a file.
pub data Stat : Type 0 where
  absent : Stat
  unreadable : Stat
  present : ℕ → Stat

-- The operating system of the worker. gethostname may fail; read_file throws where the file cannot be
-- opened; write_file tells whether it was successful, and may leave its mark where it was not; `spawn`
-- is fork, execv in the child and wait4 in the parent, and returns WEXITSTATUS of what wait4 stored.
pub record Machine : Type 1 where
  pub Disk : Type 0
  pub hostname : Option Bytes
  pub core_count : ℤ
  pub stat : Disk → Bytes → Stat
  pub read_file : Disk → Bytes → Option Bytes
  pub write_file : Disk → Bytes → Bytes → Bool × Disk
  pub spawn : Disk → Bytes → List Bytes → ℤ × Disk

-- S_IXUSR | S_IXGRP | S_IXOTH
abbrev executable_bits : ℕ
executable_bits = 73

abbrev pub is_executable : ℕ → Bool
is_executable mode = not (bit_and mode executable_bits == 0)

-- What the checks of stat in handle_copy_in let pass.
abbrev pub may_overwrite : Stat → Bool
may_overwrite absent = true
may_overwrite unreadable = false
may_overwrite (present mode) = not (is_executable mode)

-- What the calls of one round answer: recv for the size and for the message, and ::send, given the
-- number of bytes that it is offered. The loop looks for -1 only, so that a short count loses the rest.
pub record Round : Type 0 where
  pub size : Answer
  pub content : ℕ → Answer
  pub sent : ℕ → Sent

-- How the loop stands: it waits for the next message, or start_worker has returned 0 or -1, or the
-- program has exited.
pub data Ending : Type 0 where
  waiting closed error exit : Ending

module _ (machine : Machine) where
  open machine use {Disk, hostname, core_count, stat, read_file, write_file, spawn}

  abbrev pub handle_welcome : WelcomeResponse
  handle_welcome = record {
    hostname = elim hostname [ none ↦ codes "unknown" | some name ↦ name ];
    core_count = core_count;
  }

  abbrev written : Bool × Disk → CopyInResponse × Disk
  written (success, d) = (record { success = success }, d)

  unfoldable pub handle_copy_in : CopyInRequest → Disk → CopyInResponse × Disk
  unfolding is_pathname_local
  handle_copy_in request d =
      if not (is_pathname_local request.pathname)
      then (record { success = false }, d)
      else if not (may_overwrite (stat d request.pathname))
      then (record { success = false }, d)
      else written (write_file d request.pathname request.content)

  abbrev finished : ℤ × Disk → ExecuteResponse × Disk
  finished (status, d) = (record { status = status }, d)

  unfoldable pub handle_execute : ExecuteRequest → Disk → ExecuteResponse × Disk
  unfolding is_pathname_local
  handle_execute request d =
      if not (is_pathname_local request.executable)
      then (record { status = negsuc 0 }, d)
      else finished (spawn d request.executable request.argument)

  abbrev read : Option Bytes → CopyOutResponse
  read none = record { success = false; content = [] }
  read (some content) = record { success = true; content = content }

  unfoldable pub handle_copy_out : CopyOutRequest → Disk → CopyOutResponse
  unfolding is_pathname_local
  handle_copy_out request d =
      if not (is_pathname_local request.pathname)
      then record { success = false; content = [] }
      else read (read_file d request.pathname)

  -- The switch of start_worker. The generated accessor returns one of the four types, so that the
  -- default case is not met.
  answer : RequestType → Request → Disk → Response × Disk
  unfolding handle_copy_in handle_execute handle_copy_out
  answer welcome request d = (record (response_of welcome) { welcome_response = handle_welcome }, d)
  answer copy_in request d =
      let (response, d') = handle_copy_in request.copy_in_request d in
      (record (response_of copy_in) { copy_in_response = response }, d')
  answer execute request d =
      let (response, d') = handle_execute request.execute_request d in
      (record (response_of execute) { execute_response = response }, d')
  answer copy_out request d = (
    record (response_of copy_out) {
      copy_out_response = handle_copy_out request.copy_out_request d;
    },
    d,
  )

  -- A request, with the response to it.
  unfoldable pub handle : Request → Disk → Response × Disk
  unfolding answer
  handle request d = answer request.request_type request d

  -- What has come of the loop: its end, the disk, and the bytes sent.
  pub record Served : Type 0 where
    pub ending : Ending
    pub disk : Disk
    pub sent : Bytes

  abbrev behind : Bytes → Served → Served
  behind bytes s = record s { sent = bytes ++ s.sent }

  module _ (requests : Codec Request) (responses : Codec Response) where
    abbrev stop : Ending → Disk → Served
    stop ending d = record { ending = ending; disk = d; sent = [] }

    -- The loop of start_worker.
    unfoldable pub serve : List Round → Disk → Served
    unfolding handle receive_message send_message
    serve [] d = stop waiting d
    serve (r ∷ rs) d = elim (receive_message requests r.size r.content) [
      | failed connreset ↦ stop closed d
      | failed other ↦ stop error d
      | exited ↦ stop exit d
      | returned request ↦
          let (response, d') = handle request d in
          let rest = serve rs d' in
          let bytes = send_message responses response in
          elim (r.sent (length bytes)) [
            | send_failed ↦ stop error d'
            | sent_here k ↦ behind (take k bytes) rest
          ]
    ]
