-- ===== src/Proxy/Tests.antt =====
-- The theorems of the proxy at small runs.
use distray.Base.{
  ℕ, ◌≡◌, refl, true, false, List, [], ◌∷◌, ◌++◌, some, ◌⊎◌, arith, Bytes, codes, All, get_elem?,
  update_at, take,
}
use distray.Base.Int.{ℤ, pos}
use distray.Wire.Incoming.{recv_here}
use distray.Wire.Outgoing.{sent_here}
use distray.Proxy.Connections.{Connection, set_worker_fd, set_controller_fd}
use distray.Proxy.Accept.{
  HasWorker, HasController, lone_worker, lone_controller, accept_worker_lem, accept_controller_lem,
}
use distray.Proxy.Relay.{Traffic, Operation, reads, writes, apply_all, IsRelay, apply_all-IsRelay}
use distray.Proxy.Handlers.{Fine}
use distray.Proxy.Run.{IsPaired, run-IsPaired, initial-IsPaired}
use distray.Proxy.{
  Proxy, Event, Round, Step, running, run, initial, no_fd, accept_worker, accept_controller,
}

-- Nothing but a descriptor, which a listening socket may hand out.
abbrev quiet : ℤ → Event
quiet fd = record {
  pollin = false;
  pollout = false;
  dead = false;
  conn_fd = fd;
  received = recv_here [];
  sent = sent_here 0;
}

abbrev newcomer : ℤ → Event
newcomer fd = record (quiet fd) { pollin = true }

abbrev says : Bytes → Event
says bytes = record (quiet (pos 0)) { pollin = true; received = recv_here bytes }

-- A worker and a controller come in, the worker speaks, and closes while its bytes go out.
abbrev rounds : List Round
rounds =
    record { workers = newcomer (pos 5); controllers = newcomer (pos 6); others = [] }
    ∷ record {
      workers = quiet (pos 7);
      controllers = quiet (pos 7);
      others = says (codes "hi") ∷ quiet (pos 7) ∷ [];
    }
    ∷ record {
      workers = newcomer (pos 7);
      controllers = quiet (pos 8);
      others = says [] ∷ record (quiet (pos 8)) { pollout = true; sent = sent_here 2 } ∷ [];
    }
    ∷ []

rounds_end :
    run rounds initial
    ≡ running (record {
      connections = lone_worker (pos 7) ∷ [];
      deleted_fds = pos 6 ∷ pos 5 ∷ [];
      closed = pos 5 ∷ pos 6 ∷ [];
    })
unfolding run initial distray.Proxy.Buffers.receive
rounds_end = refl

run-IsPaired_example : Fine IsPaired (run rounds initial)
run-IsPaired_example = run-IsPaired rounds initial (ground arith) initial-IsPaired

abbrev fresh : Traffic
fresh = record {
  connection = record { worker_fd = pos 5; controller_fd = pos 6; w2c = []; c2w = [] };
  from_worker = [];
  to_worker = [];
  from_controller = [];
  to_controller = [];
}

-- The controller takes only a part of what the worker says.
abbrev operations : List Operation
operations =
    reads (pos 5) (recv_here (codes "hello"))
    ∷ reads (pos 6) (recv_here (codes "x"))
    ∷ writes (pos 6) (sent_here 3)
    ∷ []

abbrev relayed : Traffic
relayed = record {
  connection = record {
    worker_fd = pos 5;
    controller_fd = pos 6;
    w2c = codes "lo";
    c2w = codes "x";
  };
  from_worker = codes "hello";
  to_worker = [];
  from_controller = codes "x";
  to_controller = codes "hel";
}

operations_end : apply_all operations fresh ≡ some relayed
unfolding apply_all distray.Proxy.Buffers.receive distray.Proxy.Buffers.send
operations_end = refl

apply_all-IsRelay_example : IsRelay relayed
apply_all-IsRelay_example =
    apply_all-IsRelay operations fresh (record { worker_side = refl; controller_side = refl })
      operations_end

-- One pair, and a controller that waits.
abbrev waiting : List Connection
waiting =
    record { worker_fd = pos 3; controller_fd = pos 4; w2c = []; c2w = [] }
    ∷ record { worker_fd = no_fd; controller_fd = pos 6; w2c = []; c2w = codes "go" }
    ∷ []

accept_worker_example :
    (All HasWorker waiting × (accept_worker waiting (pos 5) ≡ waiting ++ lone_worker (pos 5) ∷ []))
    ⊎ ((k : ℕ) × (c : Connection) × (get_elem? waiting k ≡ some c)
        × (c.worker_fd ≡ no_fd)
        × All HasWorker (take k waiting)
        × (accept_worker waiting (pos 5) ≡ update_at k (set_worker_fd (pos 5)) waiting))
accept_worker_example = accept_worker_lem waiting (pos 5) (ground arith)

accept_controller_example :
    (All HasController waiting
      × (accept_controller waiting (pos 5) ≡ waiting ++ lone_controller (pos 5) ∷ []))
    ⊎ ((k : ℕ) × (c : Connection) × (get_elem? waiting k ≡ some c)
        × (c.controller_fd ≡ no_fd)
        × All HasController (take k waiting)
        × (accept_controller waiting (pos 5) ≡ update_at k (set_controller_fd (pos 5)) waiting))
accept_controller_example = accept_controller_lem waiting (pos 5) (ground arith)
