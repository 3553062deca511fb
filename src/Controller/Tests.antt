-- ===== src/Controller/Tests.antt =====
-- A controller with one frame, a proxy that takes connections, and workers that come and die.
use distray.Base.Int.{◌+ℤ◌, scale}
use distray.Base.{
  All, ℕ, some, ◌≡◌, ◌≢◌, inl, inr, refl, true, false, List, [], ◌∷◌, Bytes, codes, arith,
}
use distray.Base.Int.{pos, negsuc}
use distray.Parameters.{Parameters, cmd_controller, file_copy}
use distray.Wire.Outgoing.{send_failed}
use distray.Wire.Incoming.{recv_failed, connreset}
use distray.RemoteWorker.{RemoteWorker, idle, new, receive_execute_response}
use distray.RemoteWorker.Tests.{system, disk}
use distray.Controller.Coverage.{done_run}
use distray.Controller.Lossless.{Covered, run-Covered}
use distray.Controller.Handout.{Exhausted, hand_out-Exhausted}
use distray.Controller.Keeping.{Kept}
use distray.Controller.Proxies.{Covers, connect_proxies-Covers}
use distray.Controller.Progress.{Proceeds}
use distray.Controller.Progress.Rounds.{run-Proceeds}
use distray.Controller.Start.{Achieves, done_in, start_controller, start_controller-Achieves}
use distray.Util.Endpoint.Lookup.{Resolver, listed, ServerCalls}
use distray.Frames.{get_all}
use distray.Frames.Range.{IsWalkable, kth}
use distray.Controller.{
  Controller, running, stopped, undefined, Ready, Round, connect_proxies, hand_out, missing, run,
  serve_worker, kill_worker, read_worker, read_if_ready, write_if_ready, kill_if_dead,
}

abbrev parameters : Parameters
parameters = record {
  command = cmd_controller;
  endpoint = [];
  worker_endpoint = [];
  controller_endpoint = [];
  proxy_endpoints = codes "proxy" ∷ [];
  in_copies = file_copy (codes "model.obj") (codes "in.obj") ∷ [];
  out_copies = [];
  frames = record { first = pos 3; last = pos 3; step = pos 1 };
  executable = codes "render";
  arguments = codes "%d" ∷ [];
}

abbrev at_work : RemoteWorker
at_work = record new { state = receive_execute_response; frame = pos 4 }

abbrev resting : RemoteWorker
resting = record new { state = idle }

abbrev start : Controller (List (Bytes × Bytes))
start = record { workers = at_work ∷ resting ∷ []; frames = pos 3 ∷ []; disk = disk }

-- The connection of a worker is reset.
abbrev reset : Ready
reset = record {
  pollin = true;
  pollout = false;
  dead = false;
  received = recv_failed connreset;
  sent = send_failed;
}

abbrev rounds : List Round
rounds =
    record { connects = λ i. true; newcomer = true; others = reset ∷ [] }
    ∷ record { connects = λ i. true; newcomer = false; others = [] }
    ∷ []

real : pos 4 ≢ negsuc 0
real = λ e. cc

run-Covered_example :
    Covered (pos 4) (done_run system parameters rounds start) (run system parameters rounds start)
run-Covered_example =
    run-Covered system parameters (pos 4) real rounds start (inr (inl (refl, refl)))

connect_proxies-Covers_example :
    Covers system parameters 0
      (λ i. true)
      start.workers
      (connect_proxies system parameters (missing start.workers 1 0) (λ i. true) start)
connect_proxies-Covers_example =
    connect_proxies-Covers system parameters 0 (λ i. true) start (omega arith)

hand_out-Exhausted_example :
    Exhausted (hand_out system parameters (pos 3 ∷ []) start)
    × All (λ f. Kept f [] (hand_out system parameters (pos 3 ∷ []) start)) (pos 3 ∷ [])
hand_out-Exhausted_example = hand_out-Exhausted system parameters (pos 3 ∷ []) start

-- The worker's frame is back in the queue.
kill_worker_requeues :
    kill_worker 0 start
    ≡ running (record start { workers = resting ∷ []; frames = pos 4 ∷ pos 3 ∷ [] })
unfolding kill_worker
kill_worker_requeues = refl

-- When the last worker's connection is reset and poll also reports POLLHUP, its place is used once
-- more behind the end of the workers.
serve_worker_undefined :
    serve_worker system parameters 1 (record reset { dead = true }) start ≡ stopped undefined
unfolding serve_worker read_if_ready write_if_ready kill_if_dead kill_worker read_worker
    distray.RemoteWorker.Transfer.receive distray.Wire.Incoming.receive new
serve_worker_undefined = refl

abbrev resolver : Resolver
resolver = record {
  Address = ℕ;
  sockaddr_in_size = 16;
  getaddrinfo = λ host port is_server. listed 16 127;
}

abbrev calls : ServerCalls ℕ
calls = record {
  socket = some 3;
  reuse_address = true;
  reuse_port = true;
  bind = λ address. true;
  listen = true;
}

frames-IsWalkable : IsWalkable parameters.frames
unfolding ◌+ℤ◌
frames-IsWalkable = record { moves = λ e. cc; first_fits = refl; last_fits = refl; end_fits = refl }

start_controller-Achieves_example :
    Achieves system parameters
      (kth parameters.frames (pos 3) 0)
      (done_in system parameters rounds disk (get_all 5 parameters.frames))
      (start_controller system parameters resolver calls 5 rounds disk)
unfolding ◌+ℤ◌ scale
start_controller-Achieves_example =
    start_controller-Achieves system parameters resolver calls 5 0 rounds disk frames-IsWalkable
      (omega arith) refl (λ e. cc)

run-Proceeds_example : Proceeds (run system parameters rounds start)
run-Proceeds_example = run-Proceeds system parameters rounds start ((λ e. cc), ((λ e. cc), tt))
