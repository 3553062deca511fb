-- ===== src/RemoteWorker.antt =====
-- src/RemoteWorker.hpp and src/RemoteWorker.cpp: the controller's state machine for one worker.
pub mod Members
pub mod Session
pub mod Ending
pub mod Phases
pub mod Transfer
pub mod Tests
use distray.Base.{
  ℕ, zero, suc, ◌+◌, Bool, true, false, not, ◌||◌, List, [], ◌∷◌, Option, none, some, if◌then◌else◌,
  Bytes, length, get_elem?, map,
}
use distray.Base.Int.{ℤ, pos, negsuc, ◌==ℤ◌}
use distray.Util.Parameter.{substitute_parameter}
use distray.Parameters.{Parameters, FileCopy, has_parameter}
use distray.Drp.{
  RequestType, welcome, copy_in, execute, copy_out, same_type, Request, Response, request_of,
}
use distray.Wire.Codec.{Codec}
use distray.Wire.Outgoing.{OutgoingBuffer, set_message}
use distray.Wire.Incoming.{IncomingBuffer, reset, get_message}
unfoldable pub use Members.*

module _ (system : System) (parameters : Parameters) where
  open system use {requests, responses, Disk, read_file, write_file}

  unfoldable pub send_request : Request → State → RemoteWorker → RemoteWorker
  send_request request next_state w = record w {
    incoming_buffer = reset w.incoming_buffer;
    outgoing_buffer = set_message requests w.outgoing_buffer request;
    state = next_state;
  }

  -- The response of the expected type, with the buffer reset; `none` is exit(1).
  unfoldable pub receive_response : RequestType → RemoteWorker → Option (Response × RemoteWorker)
  receive_response expected w = elim (get_message responses w.incoming_buffer) [
    | none ↦ none
    | some response ↦
        if same_type response.request_type expected
        then some (response, record w { incoming_buffer = reset w.incoming_buffer })
        else none
  ]

  -- Behind receive_response.
  abbrev pub with_response :
      Option (Response × RemoteWorker) → (Response → RemoteWorker → Outcome Disk) → Outcome Disk
  with_response none f = exited
  with_response (some (response, w)) f = f response w

  abbrev next_index : RemoteWorker → RemoteWorker
  next_index w = record w { state_index = suc w.state_index }

  unfoldable pub copy_file_in : ℤ → State → State → RemoteWorker → Disk → Outcome Disk
  unfolding send_request
  copy_file_in frame receive_state next_state w d =
      elim (get_elem? parameters.in_copies w.state_index) [
        | none ↦ continues (record w { state = next_state }) d
        | some c ↦
            if is_for frame c
            then (elim (read_file d (substitute_parameter c.source frame)) [
              | none ↦ exited
              | some content ↦
                  continues (send_request (copy_in_of c frame content) receive_state w) d
            ])
            else continues (next_index w) d
      ]

  unfoldable pub copy_file_out : ℤ → State → State → RemoteWorker → Disk → Outcome Disk
  unfolding send_request
  copy_file_out frame receive_state next_state w d =
      elim (get_elem? parameters.out_copies w.state_index) [
        | none ↦ continues (record w { state = next_state }) d
        | some c ↦
            if is_for frame c
            then continues (send_request (copy_out_of c frame) receive_state w) d
            else continues (next_index w) d
      ]

  -- `none` is exit(-1).
  unfoldable pub handle_copy_file_out_response : Response → ℤ → FileCopy → Disk → Option Disk
  handle_copy_file_out_response response frame c d =
      if response.copy_out_response.success
      then write_file d (substitute_parameter c.destination frame)
          response.copy_out_response.content
      else none

  -- Behind a copy out: the file is written, and the next one is asked for.
  abbrev pub written : RemoteWorker → Option Disk → Outcome Disk
  written w none = exited
  written w (some d) =
      continues (record w { state_index = suc w.state_index; state = send_copy_out_frame_file }) d

  -- The cases of the switch of dispatch. An index out of m_out_copies is undefined in C++, and cannot
  -- be met where a request for that file was sent.
  unfoldable pub switch : State → RemoteWorker → Disk → Outcome Disk
  unfolding send_request receive_response copy_file_in copy_file_out handle_copy_file_out_response
  switch send_welcome_request w d =
      continues (send_request (request_of welcome) receive_welcome_response w) d
  switch receive_welcome_response w d = with_response (receive_response welcome w) λ response w'.
      continues
        (record w' {
          hostname = response.welcome_response.hostname;
          proxy_index = negsuc 0;
          state_index = 0;
          state = send_copy_in_non_frame_file;
        })
        d
  switch send_copy_in_non_frame_file w d =
      copy_file_in no_frame receive_copy_in_non_frame_file idle w d
  switch receive_copy_in_non_frame_file w d =
      with_response (receive_response copy_in w) λ response w'.
        if response.copy_in_response.success
        then continues
            (record w' { state_index = suc w'.state_index; state = send_copy_in_non_frame_file }) d
        else exited
  switch idle w d = exited
  switch send_copy_in_frame_file w d =
      copy_file_in w.frame receive_copy_in_frame_file send_execute_request w d
  switch receive_copy_in_frame_file w d = with_response (receive_response copy_in w) λ response w'.
      if response.copy_in_response.success
      then continues
          (record w' { state_index = suc w'.state_index; state = send_copy_in_frame_file }) d
      else exited
  switch send_execute_request w d =
      continues (send_request (execute_of parameters w.frame) receive_execute_response w) d
  switch receive_execute_response w d = with_response (receive_response execute w) λ response w'.
      if response.execute_response.status ==ℤ pos 0
      then continues (record w' { state = send_copy_out_frame_file; state_index = 0 }) d
      else exited
  switch send_copy_out_frame_file w d = copy_file_out w.frame receive_copy_out_frame_file idle w d
  switch receive_copy_out_frame_file w d =
      with_response (receive_response copy_out w) λ response w'.
        elim (get_elem? parameters.out_copies w'.state_index) [
          | none ↦ exited
          | some c ↦ written w' (handle_copy_file_out_response response w'.frame c d)
        ]
  switch send_copy_out_non_frame_file w d = continues w d
  switch receive_copy_out_non_frame_file w d = continues w d
  switch done w d = continues w d

  -- The loop of dispatch, for as many rounds as the fuel has.
  unfoldable pub dispatch_from : ℕ → RemoteWorker → Disk → Outcome Disk
  unfolding switch
  dispatch_from zero w d = unfinished
  dispatch_from (suc fuel) w d = elim (switch w.state w d) [
    | exited ↦ exited
    | unfinished ↦ unfinished
    | continues w' d' ↦ elim (is_immediate w'.state) [
      | true ↦ dispatch_from fuel w' d'
      | false ↦ continues w' d'
    ]
  ]

  -- Each round passes over a copy or moves on, so this is more than any call needs.
  abbrev pub enough : ℕ
  enough = length parameters.in_copies + length parameters.out_copies + 4

  unfoldable pub dispatch : RemoteWorker → Disk → Outcome Disk
  unfolding dispatch_from
  dispatch = dispatch_from enough

  -- RemoteWorker::start
  unfoldable pub start : RemoteWorker → Disk → Outcome Disk
  unfolding dispatch
  start = dispatch

  unfoldable pub run_frame : ℤ → RemoteWorker → Disk → Outcome Disk
  unfolding dispatch
  run_frame frame w d =
      if is_idle w.state
      then dispatch (record w { frame = frame; state = send_copy_in_frame_file; state_index = 0 }) d
      else exited
