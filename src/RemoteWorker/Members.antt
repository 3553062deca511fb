-- ===== src/RemoteWorker/Members.antt =====
-- src/RemoteWorker.hpp: what the controller keeps for one worker, and the requests that it makes.
use distray.Base.{ℕ, Bool, true, false, not, [], Option, Bytes, map}
use distray.Base.Int.{ℤ, pos, negsuc}
use distray.Util.Parameter.{substitute_parameter}
use distray.Parameters.{Parameters, FileCopy, has_parameter}
use distray.Drp.{copy_in, execute, copy_out, Request, Response, request_of}
use distray.Wire.Codec.{Codec}
use distray.Wire.Outgoing.{OutgoingBuffer, set_message}
use distray.Wire.Incoming.{IncomingBuffer, reset, get_message}

pub data State : Type 0 where
  send_welcome_request receive_welcome_response : State
  send_copy_in_non_frame_file receive_copy_in_non_frame_file : State
  idle : State
  send_copy_in_frame_file receive_copy_in_frame_file : State
  send_execute_request receive_execute_response : State
  send_copy_out_frame_file receive_copy_out_frame_file : State
  send_copy_out_non_frame_file receive_copy_out_non_frame_file : State
  done : State

-- The parameters are the controller's, and passed along.
pub record RemoteWorker : Type 0 where
  pub state : State
  pub state_index : ℕ
  pub frame : ℤ
  pub proxy_index : ℤ
  pub outgoing_buffer : OutgoingBuffer
  pub incoming_buffer : IncomingBuffer
  pub hostname : Bytes

-- The files of the controller's machine: read_file, which throws where the file cannot be opened, and
-- write_file, which tells whether it was successful.
pub record Files : Type 1 where
  pub Disk : Type 0
  pub read_file : Disk → Bytes → Option Bytes
  pub write_file : Disk → Bytes → Bytes → Option Disk

-- The protobuf classes and the files that the program stands on.
pub record System : Type 1 where
  pub requests : Codec Request
  pub responses : Codec Response
  pub files : Files
  pub open files use {Disk, read_file, write_file}

-- What a call comes to: the worker and the disk behind it, exit(), or the end of the fuel.
pub data Outcome (D : Type 0) : Type 0 where
  continues : RemoteWorker → D → Outcome D
  exited : Outcome D
  unfinished : Outcome D

abbrev pub no_frame : ℤ
no_frame = negsuc 0

-- RemoteWorker(fd, parameters)
unfoldable pub new : RemoteWorker
unfolding distray.Wire.Outgoing.empty distray.Wire.Incoming.empty
new = record {
  state = send_welcome_request;
  state_index = 0;
  frame = no_frame;
  proxy_index = negsuc 0;
  outgoing_buffer = distray.Wire.Outgoing.empty;
  incoming_buffer = distray.Wire.Incoming.empty;
  hostname = [];
}

-- (frame >= 0) == fileCopy.has_parameter()
abbrev pub is_for : ℤ → FileCopy → Bool
is_for (pos n) c = has_parameter c
is_for (negsuc n) c = not (has_parameter c)

-- The condition of the loop of dispatch: the states that need immediate action.
abbrev pub is_immediate : State → Bool
is_immediate send_welcome_request = true
is_immediate send_copy_in_non_frame_file = true
is_immediate send_copy_in_frame_file = true
is_immediate send_execute_request = true
is_immediate send_copy_out_frame_file = true
is_immediate send_copy_out_non_frame_file = true
is_immediate _ = false

abbrev pub is_idle : State → Bool
is_idle idle = true
is_idle _ = false

-- The requests that are sent.
abbrev pub copy_in_of : FileCopy → ℤ → Bytes → Request
copy_in_of c frame content = record (request_of copy_in) {
  copy_in_request = record {
    pathname = substitute_parameter c.destination frame;
    content = content;
  };
}

abbrev pub execute_of : Parameters → ℤ → Request
execute_of parameters frame = record (request_of execute) {
  execute_request = record {
    executable = parameters.executable;
    argument = map (λ argument. substitute_parameter argument frame) parameters.arguments;
  };
}

abbrev pub copy_out_of : FileCopy → ℤ → Request
copy_out_of c frame = record (request_of copy_out) {
  copy_out_request = record { pathname = substitute_parameter c.source frame };
}
