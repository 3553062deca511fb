-- ===== src/Proxy.antt =====
-- src/proxy.cpp: workers and controllers are paired as they come in, and their bytes relayed.
pub mod Buffers
pub mod Connections
pub mod Find
pub mod Accept
pub mod Handlers
pub mod Loop
pub mod Keep
pub mod Relay
pub mod Run
pub mod Start
mod Tests
use distray.Base.{
  ℕ, zero, suc, Bool, true, false, ◌||◌, ◌&&◌, not, List, [], ◌∷◌, ◌++◌, Option, none, some, leb,
  ◌==◌, if◌then◌else◌, Bytes, get_elem?, update_at, erase_at,
}
use distray.Base.Int.{ℤ, pos, negsuc, ◌==ℤ◌}
use distray.Wire.Outgoing.{Sent}
use distray.Wire.Incoming.{Errno, connreset, other, Answer}
use Connections.{
  Connection, Transfer, moved, broken, unknown_fd, find, send, receive, die_fds, pollfds_of, Pollfd,
}
use Connections

-- What the loop keeps: the connections, oldest first, the file descriptors closed in this pass, which
-- later events of the pass are ignored for, and those that close() was called on, latest first.
pub record Proxy : Type 0 where
  pub connections : List Connection
  pub deleted_fds : List ℤ
  pub closed : List ℤ

-- Why the program ends.
pub data Stop : Type 0 where
  programmer_error : Stop
  receive_error : Stop
  send_error : Stop

pub data Step {ℓ} (A : Type ℓ) : Type ℓ where
  running : A → Step A
  stopped : Stop → Step A

infixl 5 ◌>>=◌
abbrev pub ◌>>=◌ {ℓ κ} : {A : Type ℓ} {B : Type κ} → Step A → (A → Step B) → Step B
running a >>= f = f a
stopped e >>= f = stopped e

-- What poll reports for one descriptor, and what the system answers if it is accepted, read or
-- written; accept answers -1 where it fails.
pub record Event : Type 0 where
  pub pollin : Bool
  pub pollout : Bool
  pub dead : Bool  -- POLLERR, POLLHUP or POLLNVAL
  pub conn_fd : ℤ
  pub received : Answer
  pub sent : Sent

abbrev pub contains : List ℤ → ℤ → Bool
contains [] fd = false
contains (x ∷ xs) fd = (x ==ℤ fd) || contains xs fd

abbrev pub no_fd : ℤ
no_fd = negsuc 0

abbrev pub dont_care : ℤ
dont_care = negsuc 1

-- A worker is accepted: it joins the first connection without a worker, or a new one.
unfoldable pub accept_worker : List Connection → ℤ → List Connection
unfolding Connections.find Connections.new
accept_worker cs conn_fd = elim (find cs no_fd dont_care) [
  | none ↦ cs ++ Connections.set_worker_fd conn_fd Connections.new ∷ []
  | some k ↦ update_at k (Connections.set_worker_fd conn_fd) cs
]

-- A controller is accepted: it joins the first connection without a controller, or a new one.
unfoldable pub accept_controller : List Connection → ℤ → List Connection
unfolding Connections.find Connections.new
accept_controller cs conn_fd = elim (find cs dont_care no_fd) [
  | none ↦ cs ++ Connections.set_controller_fd conn_fd Connections.new ∷ []
  | some k ↦ update_at k (Connections.set_controller_fd conn_fd) cs
]

-- close_connection, on the connection at this place.
unfoldable pub close_at : ℕ → Connection → Proxy → Proxy
close_at k c p = record {
  connections = erase_at k p.connections;
  deleted_fds = c.controller_fd ∷ c.worker_fd ∷ p.deleted_fds;
  closed = die_fds c ++ p.closed;
}

-- The connection that find returns, with its place; without one the program ends.
unfoldable pub find_fd : ℤ → Proxy → Step (ℕ × Connection)
unfolding Connections.find
find_fd fd p = elim (find p.connections fd fd) [
  | none ↦ stopped programmer_error
  | some k ↦ elim (get_elem? p.connections k) [
    | none ↦ stopped programmer_error
    | some c ↦ running (k, c)
  ]
]

abbrev put_at : ℕ → Connection → Proxy → Proxy
put_at k c p = record p { connections = update_at k (λ _. c) p.connections }

-- Behind connection->receive(fd): the state, and skip_rest.
abbrev after_receive : ℕ → Connection → Proxy → Transfer → Step (Proxy × Bool)
after_receive k c p (Transfer.moved c') = running (put_at k c' p, false)
after_receive k c p (Transfer.broken connreset) = running (close_at k c p, true)
after_receive k c p (Transfer.broken other) = stopped receive_error
after_receive k c p unknown_fd = stopped programmer_error

abbrev after_send : ℕ → Proxy → Transfer → Step Proxy
after_send k p (Transfer.moved c') = running (put_at k c' p)
after_send k p (Transfer.broken e) = stopped send_error
after_send k p unknown_fd = stopped programmer_error

-- POLLIN on a descriptor of a connection.
unfoldable pub read_fd : ℤ → Event → Proxy → Step (Proxy × Bool)
unfolding find_fd close_at Connections.receive
read_fd fd e p = do (k, c) ← find_fd fd p; after_receive k c p (Connections.receive fd e.received c)

-- POLLOUT on a descriptor of a connection.
unfoldable pub write_fd : ℤ → Event → Proxy → Step Proxy
unfolding find_fd Connections.send
write_fd fd e p = do (k, c) ← find_fd fd p; after_send k p (Connections.send fd e.sent c)

-- A dead descriptor of a connection.
unfoldable pub kill_fd : ℤ → Proxy → Step Proxy
unfolding find_fd close_at
kill_fd fd p = do (k, c) ← find_fd fd p; running (close_at k c p)

-- An event on a listening socket: index 0 is for workers and 1 for controllers.
unfoldable pub listen : Bool → Event → Proxy → Proxy
unfolding accept_worker accept_controller
listen for_workers e p =
    if e.pollin
    then record p {
      connections =
          if for_workers
          then accept_worker p.connections e.conn_fd
          else accept_controller p.connections e.conn_fd;
    }
    else p

-- The three tests of the loop's body, on a descriptor of a connection.
unfoldable pub read_if_ready : ℤ → Event → Proxy → Step (Proxy × Bool)
unfolding read_fd
read_if_ready fd e p = if e.pollin then read_fd fd e p else running (p, false)

unfoldable pub write_if_ready : ℤ → Event → Bool → Proxy → Step Proxy
unfolding write_fd
write_if_ready fd e skip_rest p = if e.pollout && not skip_rest then write_fd fd e p else running p

unfoldable pub kill_if_dead : ℤ → Event → Bool → Proxy → Step Proxy
unfolding kill_fd
kill_if_dead fd e skip_rest p = if e.dead && not skip_rest then kill_fd fd p else running p

-- The loop's body, on a descriptor of a connection.
unfoldable pub serve : ℤ → Event → Proxy → Step Proxy
unfolding read_if_ready write_if_ready kill_if_dead
serve fd e p = do
  (q, skip_rest) ← read_if_ready fd e p
  r ← write_if_ready fd e skip_rest q
  kill_if_dead fd e skip_rest r

-- The entries behind the listening sockets; one that was closed in this pass is passed over.
unfoldable pub serve_all : List (Pollfd × Event) → Proxy → Step Proxy
unfolding serve
serve_all [] p = running p
serve_all ((entry, e) ∷ rest) p =
    let passed_over = serve_all rest p in
    if contains p.deleted_fds entry.fd then passed_over else serve entry.fd e p >>= serve_all rest

-- The descriptors that poll watches beside the listening sockets.
unfoldable pub pollfds : List Connection → List Pollfd
pollfds [] = []
pollfds (c ∷ cs) = pollfds_of c ++ pollfds cs

-- What poll reports, entry by entry, in the order of the descriptors.
abbrev pub report : List Pollfd → List Event → List (Pollfd × Event)
report [] events = []
report (entry ∷ entries) [] = []
report (entry ∷ entries) (e ∷ events) = (entry, e) ∷ report entries events

-- The events of one round: on the socket for workers, on the one for controllers, and on the others. A
-- round is one whose poll succeeds; where poll fails, start_proxy returns -1 before anything else is done.
pub record Round : Type 0 where
  pub workers : Event
  pub controllers : Event
  pub others : List Event

-- One round of the loop of start_proxy.
unfoldable pub round : Round → Proxy → Step Proxy
unfolding listen serve_all pollfds
round r p =
    serve_all (report (pollfds p.connections) r.others)
      (listen false r.controllers (listen true r.workers (record p { deleted_fds = [] })))

-- The loop, for as many rounds as there are.
unfoldable pub run : List Round → Proxy → Step Proxy
unfolding round
run [] p = running p
run (r ∷ rs) p = round r p >>= run rs

unfoldable pub initial : Proxy
initial = record { connections = []; deleted_fds = []; closed = [] }
