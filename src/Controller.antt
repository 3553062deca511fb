-- ===== src/Controller.antt =====
-- src/controller.cpp: the frames that are left, and the workers that they are handed to.
pub mod Keeping
pub mod Coverage
pub mod Handout
pub mod Lossless
pub mod Proxies
pub mod Start
pub mod Progress
mod Tests
use distray.Base.{
  ℕ, zero, suc, Bool, true, false, ◌||◌, ◌&&◌, not, List, [], ◌∷◌, ◌++◌, Option, none, some,
  if◌then◌else◌, get_elem?, update_at, erase_at, length, take,
}
use distray.Base.Int.{ℤ, pos, negsuc, ◌==ℤ◌}
use distray.Parameters.{Parameters}
use distray.Wire.Outgoing.{Sent}
use distray.Wire.Incoming.{Answer, Errno, connreset, other}
use distray.RemoteWorker.{RemoteWorker, System, Outcome, new, is_idle, start, run_frame}
use distray.RemoteWorker.Transfer.{Reception, lost, went_on, set_proxy_index, send, receive}

-- What start_controller keeps: the workers, oldest first, the frames to be done, and the disk of the
-- controller's machine behind them.
pub record Controller (D : Type 0) : Type 0 where
  pub workers : List RemoteWorker
  pub frames : List ℤ
  pub disk : D

-- Why a round does not end: -1 is returned, the program exits within a worker's code, a worker's
-- dispatch does not end, or remote_workers is used out of its range, which is undefined in C++.
pub data Stop : Type 0 where
  error exit stuck undefined : Stop

pub data Step {ℓ} (A : Type ℓ) : Type ℓ where
  running : A → Step A
  stopped : Stop → Step A

infixl 5 ◌>>=◌
abbrev pub ◌>>=◌ {ℓ κ} : {A : Type ℓ} {B : Type κ} (first : Step A) (next : A → Step B) → Step B
running state >>= next = next state
stopped why >>= next = stopped why

-- What poll reports for one worker, and what recv and ::send answer then.
pub record Ready : Type 0 where
  pub pollin : Bool
  pub pollout : Bool
  pub dead : Bool  -- POLLERR, POLLHUP or POLLNVAL
  pub received : Answer
  pub sent : Sent

-- The first worker that is idle, by its place.
unfoldable pub get_idle_worker : List RemoteWorker → Option ℕ
get_idle_worker [] = none
get_idle_worker (w ∷ ws) =
    let later = get_idle_worker ws in
    if is_idle w.state then some 0 else (elim later [ none ↦ none | some i ↦ some (suc i) ])

unfoldable pub any_worker_working : List RemoteWorker → Bool
any_worker_working [] = false
any_worker_working (w ∷ ws) = not (is_idle w.state) || any_worker_working ws

-- The frame of a worker that is removed comes back to the front of the queue, unless it is -1.
abbrev pub requeue : ℤ → List ℤ → List ℤ
requeue frame frames = if frame ==ℤ negsuc 0 then frames else frame ∷ frames

-- Whether a worker stands for the proxy at this index.
unfoldable pub is_taken : ℕ → List RemoteWorker → Bool
is_taken i [] = false
is_taken i (w ∷ ws) = (w.proxy_index ==ℤ pos i) || is_taken i ws

-- The indices from `i` on, `n` of them, that no worker stands for.
unfoldable pub missing : List RemoteWorker → ℕ → ℕ → List ℕ
unfolding is_taken
missing ws zero i = []
missing ws (suc n) i = let rest = missing ws n (suc i) in if is_taken i ws then rest else i ∷ rest

module _ {D : Type 0} where
  unfoldable pub kill_worker : ℕ → Controller D → Step (Controller D)
  kill_worker i s = elim (get_elem? s.workers i) [
    | none ↦ stopped undefined
    | some w ↦
        running (record s { workers = erase_at i s.workers; frames = requeue w.frame s.frames })
  ]

  -- Behind a call that changes the worker at this place, and the disk.
  abbrev pub put_worker : ℕ → Controller D → Outcome D → Step (Controller D)
  put_worker i s (Outcome.continues w d) =
      running (record s { workers = update_at i (λ _. w) s.workers; disk = d })
  put_worker i s Outcome.exited = stopped exit
  put_worker i s Outcome.unfinished = stopped stuck

  -- Behind the start of a worker that joins the others.
  abbrev pub push_worker : Controller D → Outcome D → Step (Controller D)
  push_worker s (Outcome.continues w d) =
      running (record s { workers = s.workers ++ w ∷ []; disk = d })
  push_worker s Outcome.exited = stopped exit
  push_worker s Outcome.unfinished = stopped stuck

  -- Behind receive of the worker at this place.
  abbrev pub after_receive : ℕ → Controller D → Reception D → Step (Controller D)
  after_receive i s (lost connreset) = kill_worker i s
  after_receive i s (lost other) = stopped error
  after_receive i s (went_on o) = put_worker i s o

  abbrev pub after_send : ℕ → Controller D → RemoteWorker → Bool → Step (Controller D)
  after_send i s w true = running (record s { workers = update_at i (λ _. w) s.workers })
  after_send i s w false = stopped error

  unfoldable pub write_worker : ℕ → Sent → Controller D → Step (Controller D)
  unfolding send
  write_worker i answer s = elim (get_elem? s.workers i) [
    | none ↦ stopped undefined
    | some w ↦ let (w', success, bytes) = send answer w in after_send i s w' success
  ]

-- What one round of the loop meets: the proxies, a newcomer, and the workers in order. A round is one whose
-- poll succeeds; where poll fails, start_controller returns -1 behind the connections to the proxies.
pub record Round : Type 0 where
  pub connects : ℕ → Bool
  pub newcomer : Bool
  pub others : List Ready

-- How the loop stands behind some rounds: it goes on, has returned 0, or has stopped.
pub data Standing (D : Type 0) : Type 0 where
  waiting : Controller D → Standing D
  finished : Controller D → Standing D
  halted : Stop → Standing D

module _ (system : System) (parameters : Parameters) where
  open system use {Disk}

  unfoldable pub read_worker : ℕ → Answer → Controller Disk → Step (Controller Disk)
  unfolding kill_worker receive
  read_worker i answer s = elim (get_elem? s.workers i) [
    | none ↦ stopped undefined
    | some w ↦ after_receive i s (receive system parameters answer w s.disk)
  ]

  -- The three tests of the loop's body, on the worker at this place.
  unfoldable pub read_if_ready : ℕ → Ready → Controller Disk → Step (Controller Disk)
  unfolding read_worker
  read_if_ready i e s = if e.pollin then read_worker i e.received s else running s

  unfoldable pub write_if_ready : ℕ → Ready → Controller Disk → Step (Controller Disk)
  unfolding write_worker
  write_if_ready i e s = if e.pollout then write_worker i e.sent s else running s

  unfoldable pub kill_if_dead : ℕ → Ready → Controller Disk → Step (Controller Disk)
  unfolding kill_worker
  kill_if_dead i e s = if e.dead then kill_worker i s else running s

  unfoldable pub serve_worker : ℕ → Ready → Controller Disk → Step (Controller Disk)
  unfolding read_if_ready write_if_ready kill_if_dead
  serve_worker i e s = do s1 ← read_if_ready i e s; s2 ← write_if_ready i e s1; kill_if_dead i e s2

  -- The loop over the descriptors goes backward.
  unfoldable pub serve_workers : ℕ → List Ready → Controller Disk → Step (Controller Disk)
  unfolding serve_worker
  serve_workers i [] s = running s
  serve_workers i (e ∷ es) s = serve_workers (suc i) es s >>= serve_worker i e

  -- A worker connects.
  unfoldable pub accept_worker : Controller Disk → Step (Controller Disk)
  unfolding new start
  accept_worker s = push_worker s (start system parameters new s.disk)

  -- A connection to the proxy at an index, which blocks until a worker is there.
  unfoldable pub connect_proxy : ℕ → Controller Disk → Step (Controller Disk)
  unfolding new start
  connect_proxy i s = push_worker s (start system parameters (set_proxy_index (pos i) new) s.disk)

  -- The proxies that are left over, in order; `connects` tells where create_client_socket is successful.
  unfoldable pub connect_proxies : List ℕ → (ℕ → Bool) → Controller Disk → Step (Controller Disk)
  unfolding connect_proxy
  connect_proxies [] connects s = running s
  connect_proxies (i ∷ is) connects s =
      if connects i then connect_proxy i s >>= connect_proxies is connects else stopped error

  -- Frames are handed out as long as there are frames and idle workers.
  unfoldable pub hand_out : List ℤ → Controller Disk → Step (Controller Disk)
  unfolding get_idle_worker run_frame
  hand_out [] s = running (record s { frames = [] })
  hand_out (f ∷ fs) s = elim (get_idle_worker s.workers) [
    | none ↦ running (record s { frames = f ∷ fs })
    | some i ↦ elim (get_elem? s.workers i) [
      | none ↦ stopped undefined
      | some w ↦ put_worker i s (run_frame system parameters f w s.disk) >>= hand_out fs
    ]
  ]

  unfoldable pub round : Round → Controller Disk → Step (Controller Disk)
  unfolding missing connect_proxies serve_workers accept_worker hand_out
  round r s = do
    s1 ← connect_proxies (missing s.workers (length parameters.proxy_endpoints) 0) r.connects s
    s2 ← serve_workers 0 (take (length s1.workers) r.others) s1
    s3 ← if r.newcomer then accept_worker s2 else running s2
    hand_out s3.frames s3

  -- The condition of the loop.
  unfoldable pub is_working : Controller Disk → Bool
  unfolding any_worker_working
  is_working s = elim s.frames [ [] ↦ any_worker_working s.workers | f ∷ fs ↦ true ]

  unfoldable pub run : List Round → Controller Disk → Standing Disk
  unfolding is_working round
  run [] s = if is_working s then waiting s else finished s
  run (r ∷ rs) s = elim (is_working s) [
    | false ↦ finished s
    | true ↦ elim (round r s) [ stopped e ↦ halted e | running s' ↦ run rs s' ]
  ]
