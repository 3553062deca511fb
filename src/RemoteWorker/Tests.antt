-- ===== src/RemoteWorker/Tests.antt =====
-- A controller and a worker at work on one frame, with a plain encoding of the messages.
use distray.Base.{
  ◌≢◌, ◌≢◌, ◌≡◌, refl, ap, ◌∙◌, true, List, [], ◌∷◌, ◌++◌, Option, none, some, if◌then◌else◌, Bytes,
  codes, eq_bytes, length, take, take-length, replicate,
}
use distray.Base.Int.{pos}
use distray.Util.Parameter.{substitute_parameter}
use distray.Parameters.{Parameters, cmd_controller, file_copy}
use distray.Drp.{Request, Response, response_of}
use distray.Wire.Incoming.{IncomingBuffer, get_message}
use distray.RemoteWorker.{RemoteWorker, System, Files, continues, idle, new, run_frame, execute_of}
use distray.RemoteWorker.Session.{Peer, Session, in_requests}
use distray.RemoteWorker.Session.Outward.{Readable}
use distray.RemoteWorker.Session.Frame.{run_frame-Session, Numbered, numbered_in, numbered_out}
use distray.RemoteWorker.Session.Start.{start-Session}
use distray.RemoteWorker.{start, no_frame}
use distray.Drp.{welcome, request_of}
use distray.RemoteWorker.Ending.{Ends, dispatch-Ends}
use distray.RemoteWorker.{dispatch, send_copy_out_non_frame_file}
use distray.RemoteWorker.Transfer.{receive, went_on}
use distray.Wire.Incoming.{recv_here}
use distray.Drp.Encoding.{codec_of, request, response}

-- A disk: what was written, latest first.
abbrev pub read : List (Bytes × Bytes) → Bytes → Option Bytes
read [] pathname = none
read ((name, content) ∷ d) pathname =
    if eq_bytes name pathname then some content else read d pathname

abbrev pub files : Files
files = record {
  Disk = List (Bytes × Bytes);
  read_file = read;
  write_file = λ d pathname content. some ((pathname, content) ∷ d);
}

abbrev pub system : System
system = record { requests = codec_of request; responses = codec_of response; files = files }

-- Every request is done, and the same bytes are in all files.
abbrev answer : Request → Response
answer r = record (response_of r.request_type) {
  copy_in_response = record { success = true };
  copy_out_response = record { success = true; content = codes "pixels" };
}

abbrev pub inbox : Response → IncomingBuffer
inbox r =
    let bytes = response.put r in
    record {
      buffer = bytes;
      header = replicate 4 0;
      size = length bytes;
      have_size = true;
      received = length bytes;
      capacity = length bytes;
    }

pub arrives : (r : Response) → get_message system.responses (inbox r) ≡ some r
unfolding get_message
arrives r =
    let bytes = response.put r in
    let whole : take (length bytes) bytes ≡ bytes = take-length bytes in
    ap (codec_of response).parse whole ∙ (codec_of response).parse-serialize r

abbrev peer : Peer system
peer = record {
  answer = answer;
  inbox = inbox;
  arrives = λ r. arrives (answer r);
  same_type = λ r. refl;
  copies_in = λ r. refl;
  executes = λ r. refl;
  copies_out = λ r. refl;
}

abbrev pub parameters : Parameters
parameters = record {
  command = cmd_controller;
  endpoint = [];
  worker_endpoint = [];
  controller_endpoint = [];
  proxy_endpoints = [];
  in_copies =
      file_copy (codes "model.obj") (codes "in.obj")
      ∷ file_copy (codes "in-%03d.cam") (codes "in.cam")
      ∷ [];
  out_copies = file_copy (codes "out.png") (codes "out-%03d.png") ∷ [];
  frames = record { first = pos 1; last = pos 9; step = pos 1 };
  executable = codes "render";
  arguments = codes "%d" ∷ [];
}

abbrev pub disk : List (Bytes × Bytes)
disk = (codes "in-007.cam", codes "cam") ∷ (codes "model.obj", codes "obj") ∷ []

abbrev waiting : RemoteWorker
waiting = record new { state = idle }

disk-Numbered : Numbered system disk 7 parameters.in_copies
unfolding substitute_parameter file_copy eq_bytes
disk-Numbered = ((λ h. cc), ((λ h. (codes "cam", refl)), tt))

-- The first dispatch of a worker.
new-first : new.state ≢ send_copy_out_non_frame_file
unfolding new
new-first = λ e. cc

run_frame-Session_example :
    (w1 : RemoteWorker) × (w2 : RemoteWorker) × (d2 : List (Bytes × Bytes)) × (run_frame system
        parameters
        (pos 7)
        waiting
        disk
      ≡ continues w1 disk)
    × Session system parameters peer w1 disk
        (numbered_in system disk 7 parameters.in_copies
          ++ (execute_of parameters (pos 7) ∷ numbered_out 7 parameters.out_copies))
        w2
        d2
    × (w2.state ≡ idle)
    × (w2.frame ≡ pos 7)
run_frame-Session_example =
    run_frame-Session system parameters peer 7 waiting disk refl
      (λ d pathname content. ((pathname, content) ∷ d, refl)) disk-Numbered

dispatch-Ends_example : Ends (dispatch system parameters new disk)
dispatch-Ends_example = dispatch-Ends system parameters new disk new-first

-- Two bytes of a size come in, and the worker waits for more.
receive_part :
    receive system parameters (recv_here (0 ∷ 0 ∷ [])) new disk
    ≡ went_on (
        continues
          (record new { incoming_buffer = record new.incoming_buffer { received = 2 } })
          disk)
unfolding receive new distray.Wire.Incoming.receive distray.Wire.Incoming.need_receive
receive_part = refl

disk-Readable_none : Readable system disk no_frame parameters.in_copies
unfolding substitute_parameter file_copy eq_bytes
disk-Readable_none = ((λ h. (codes "obj", refl)), ((λ h. cc), tt))

start-Session_example :
    (w1 : RemoteWorker) × (w2 : RemoteWorker) × (d2 : List (Bytes × Bytes)) × (start system
        parameters new disk
      ≡ continues w1 disk)
    × Session system parameters peer w1 disk
        (request_of welcome ∷ in_requests system disk no_frame parameters.in_copies)
        w2
        d2
    × (w2.state ≡ idle)
    × (w2.frame ≡ new.frame)
unfolding new
start-Session_example = start-Session system parameters peer new disk refl disk-Readable_none
