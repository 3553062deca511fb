-- ===== src/Proxy/Connections.antt =====
-- class Connection of src/proxy.cpp, and find. A `Connection *` is the place of the connection in the
-- list.
use distray.Base.{ℕ, suc, Bool, ◌||◌, List, [], ◌∷◌, ◌++◌, Option, none, some, if◌then◌else◌}
use distray.Base.Int.{ℤ, negsuc, ◌==ℤ◌}
use distray.Wire.Outgoing.{Sent}
use distray.Wire.Incoming.{Errno, Answer}
use distray.Proxy.Buffers
use distray.Proxy.Buffers.{Buffer, Moved, can_send}

pub record Connection : Type 0 where
  pub worker_fd : ℤ
  pub controller_fd : ℤ
  pub w2c : Buffer
  pub c2w : Buffer

-- Connection()
unfoldable pub new : Connection
new = record { worker_fd = negsuc 0; controller_fd = negsuc 0; w2c = []; c2w = [] }

abbrev pub set_worker_fd : ℤ → Connection → Connection
set_worker_fd fd c = record c { worker_fd = fd }

abbrev pub set_controller_fd : ℤ → Connection → Connection
set_controller_fd fd c = record c { controller_fd = fd }

-- An entry of poll: the descriptor and whether POLLOUT is asked for; POLLIN always is.
pub record Pollfd : Type 0 where
  pub fd : ℤ
  pub pollout : Bool

-- add_pollfd
abbrev pub pollfd_of : ℤ → Buffer → List Pollfd
pollfd_of fd buffer =
    if fd ==ℤ negsuc 0 then [] else record { fd = fd; pollout = can_send buffer } ∷ []

-- add_pollfds
abbrev pub pollfds_of : Connection → List Pollfd
pollfds_of c = pollfd_of c.worker_fd c.c2w ++ pollfd_of c.controller_fd c.w2c

-- What Connection::send and Connection::receive come to; `unknown_fd` is exit(-1).
pub data Transfer : Type 0 where
  moved : Connection → Transfer
  broken : Errno → Transfer
  unknown_fd : Transfer

abbrev pub put_c2w : Connection → Moved → Transfer
put_c2w c (Moved.moved b) = moved (record c { c2w = b })
put_c2w c (Moved.broken e) = broken e

abbrev pub put_w2c : Connection → Moved → Transfer
put_w2c c (Moved.moved b) = moved (record c { w2c = b })
put_w2c c (Moved.broken e) = broken e

unfoldable pub send : ℤ → Sent → Connection → Transfer
send fd answer c =
    if fd ==ℤ c.worker_fd
    then put_c2w c (Buffers.send c.c2w answer)
    else if fd ==ℤ c.controller_fd
    then put_w2c c (Buffers.send c.w2c answer)
    else unknown_fd

unfoldable pub receive : ℤ → Answer → Connection → Transfer
receive fd answer c =
    if fd ==ℤ c.worker_fd
    then put_w2c c (Buffers.receive c.w2c answer)
    else if fd ==ℤ c.controller_fd
    then put_c2w c (Buffers.receive c.c2w answer)
    else unknown_fd

-- The descriptors that die closes, in order.
abbrev pub die_fds : Connection → List ℤ
die_fds c =
    (if c.worker_fd ==ℤ negsuc 0 then [] else c.worker_fd ∷ [])
    ++ (if c.controller_fd ==ℤ negsuc 0 then [] else c.controller_fd ∷ [])

-- find: the first connection with this worker or this controller.
unfoldable pub find : List Connection → ℤ → ℤ → Option ℕ
find [] worker_fd controller_fd = none
find (c ∷ cs) worker_fd controller_fd =
    if (c.worker_fd ==ℤ worker_fd) || (c.controller_fd ==ℤ controller_fd)
    then some 0
    else (elim (find cs worker_fd controller_fd) [ none ↦ none | some k ↦ some (suc k) ])
