-- ===== src/Proxy/Keep.antt =====
-- What one event of the loop of start_proxy keeps of the connections, wherever the loop goes on.
use distray.Base.{
  ℕ, zero, suc, ◌≡◌, inl, inr, refl, subst, Bool, ◌&&◌, not, List, [], ◌∷◌, Option, none, some,
  arith, get_elem?, update_at, erase_at, Bool-cases, Option-cases, All,
}
use distray.Base.Int.{ℤ, ◌==ℤ◌}
use distray.Wire.Outgoing.{Sent}
use distray.Wire.Incoming.{Answer, connreset, other}
use distray.Proxy.Connections
use distray.Proxy.Connections.{
  Connection, Transfer, unknown_fd, Pollfd, pollfd_of, pollfds_of, put_c2w, put_w2c,
}
use distray.Proxy.Buffers
use distray.Proxy.Buffers.{Buffer, Moved}
use distray.Proxy.Handlers.{SameFds}
use distray.Proxy.{
  Proxy, programmer_error, Step, running, stopped, ◌>>=◌, Event, contains, close_at, find_fd,
  after_receive, after_send, read_if_ready, write_if_ready, kill_if_dead, serve, serve_all,
}

-- P holds where the loop goes on.
abbrev pub Whenever {ℓ} : {A : Type ℓ} → (A → Type 0) → Step A → Type 0
Whenever P (running a) = P a
Whenever P (stopped e) = Unit

pub Whenever-bind {ℓ κ} :
    {A : Type ℓ} {B : Type κ} (P : A → Type 0) (Q : B → Type 0) (m : Step A) (f : A → Step B)
    → Whenever P m
    → ((a : A) → P a → Whenever Q (f a))
    → Whenever Q (m >>= f)
Whenever-bind P Q (running a) f h k = k a h
Whenever-bind P Q (stopped e) f h k = tt

All-erase_at :
    (P : Connection → Type 0) (cs : List Connection) (k : ℕ) → All P cs → All P (erase_at k cs)
All-erase_at P [] k h = tt
All-erase_at P (x ∷ cs) zero h = h.1
All-erase_at P (x ∷ cs) (suc k) h = (h.0, All-erase_at P cs k h.1)

-- What find_fd returns stands at its place.
abbrev At : Proxy → ℕ × Connection → Type 0
At p (k, c) = get_elem? p.connections k ≡ some c

find_fd-At : (fd : ℤ) (p : Proxy) → Whenever (At p) (find_fd fd p)
unfolding find_fd
find_fd-At fd p = go (Connections.find p.connections fd fd) refl
  where
    go : (o : Option ℕ) → Connections.find p.connections fd fd ≡ o → Whenever (At p) (find_fd fd p)
    go none e = let f : find_fd fd p ≡ stopped programmer_error = ground arith in rw f tt
    go (some k) e = elim (Option-cases (get_elem? p.connections k)) [
      | inl h ↦ let f : find_fd fd p ≡ stopped programmer_error = ground arith in rw f tt
      | inr (c, h) ↦ let f : find_fd fd p ≡ running (k, c) = ground arith in rw f h
    ]

-- The connection behind an operation has the descriptors that it had.
abbrev Same : Connection → Transfer → Type 0
Same c (Transfer.moved d) = SameFds c d
Same c (Transfer.broken e) = Unit
Same c unknown_fd = Unit

put_c2w-Same : (c : Connection) (m : Moved) → Same c (put_c2w c m)
put_c2w-Same c (Moved.moved b) = (refl, refl)
put_c2w-Same c (Moved.broken e) = tt

put_w2c-Same : (c : Connection) (m : Moved) → Same c (put_w2c c m)
put_w2c-Same c (Moved.moved b) = (refl, refl)
put_w2c-Same c (Moved.broken e) = tt

receive-Same : (fd : ℤ) (a : Answer) (c : Connection) → Same c (Connections.receive fd a c)
unfolding Connections.receive
receive-Same fd a c = elim (Bool-cases (fd ==ℤ c.worker_fd)) [
  | inl e ↦ simp e (put_w2c-Same c (Buffers.receive c.w2c a))
  | inr e ↦ elim (Bool-cases (fd ==ℤ c.controller_fd)) [
    | inl f ↦ simp (e, f) (put_c2w-Same c (Buffers.receive c.c2w a))
    | inr f ↦ simp (e, f) tt
  ]
]

send-Same : (fd : ℤ) (a : Sent) (c : Connection) → Same c (Connections.send fd a c)
unfolding Connections.send
send-Same fd a c = elim (Bool-cases (fd ==ℤ c.worker_fd)) [
  | inl e ↦ simp e (put_c2w-Same c (Buffers.send c.c2w a))
  | inr e ↦ elim (Bool-cases (fd ==ℤ c.controller_fd)) [
    | inl f ↦ simp (e, f) (put_w2c-Same c (Buffers.send c.w2c a))
    | inr f ↦ simp (e, f) tt
  ]
]

-- What depends on the descriptors of each connection alone is kept by all events on connections.
module _ (P : Connection → Type 0) (stable : (c d : Connection) → SameFds c d → P c → P d) where
  abbrev Every : Proxy → Type 0
  Every p = All P p.connections

  abbrev EveryRead : Proxy × Bool → Type 0
  EveryRead (p, skip_rest) = Every p

  All-put :
      (cs : List Connection) (k : ℕ) (c d : Connection)
      → get_elem? cs k ≡ some c
      → SameFds c d
      → All P cs
      → All P (update_at k (λ _. d) cs)
  All-put [] k c d at same h = tt
  All-put (x ∷ cs) zero c d at same h =
      let e : x ≡ c = ground arith in (stable c d same (subst P e h.0), h.1)
  All-put (x ∷ cs) (suc k) c d at same h = (h.0, All-put cs k c d at same h.1)

  close_at-All : (p : Proxy) (k : ℕ) (c : Connection) → Every p → Every (close_at k c p)
  unfolding close_at
  close_at-All p k c h = All-erase_at P p.connections k h

  after_receive-All :
      (p : Proxy) (k : ℕ) (c : Connection) (t : Transfer)
      → At p (k, c)
      → Same c t
      → Every p
      → Whenever EveryRead (after_receive k c p t)
  after_receive-All p k c (Transfer.moved d) at same h = All-put p.connections k c d at same h
  after_receive-All p k c (Transfer.broken connreset) at same h = close_at-All p k c h
  after_receive-All p k c (Transfer.broken other) at same h = tt
  after_receive-All p k c unknown_fd at same h = tt

  after_send-All :
      (p : Proxy) (k : ℕ) (c : Connection) (t : Transfer)
      → At p (k, c)
      → Same c t
      → Every p
      → Whenever Every (after_send k p t)
  after_send-All p k c (Transfer.moved d) at same h = All-put p.connections k c d at same h
  after_send-All p k c (Transfer.broken e) at same h = tt
  after_send-All p k c unknown_fd at same h = tt

  read_if_ready-All :
      (fd : ℤ) (e : Event) (p : Proxy) → Every p → Whenever EveryRead (read_if_ready fd e p)
  unfolding read_if_ready
  read_if_ready-All fd e p h = elim (Bool-cases e.pollin) [
    | inr no_event ↦ simp no_event h
    | inl event ↦ simp event (
        Whenever-bind (At p) EveryRead (find_fd fd p) _ (find_fd-At fd p) λ (k, c) at.
          after_receive-All p k c (Connections.receive fd e.received c) at
            (receive-Same fd e.received c) h)
  ]

  write_if_ready-All :
      (fd : ℤ) (e : Event) (skip_rest : Bool) (p : Proxy)
      → Every p
      → Whenever Every (write_if_ready fd e skip_rest p)
  unfolding write_if_ready
  write_if_ready-All fd e skip_rest p h = elim (Bool-cases (e.pollout && not skip_rest)) [
    | inr no_event ↦ simp no_event h
    | inl event ↦ simp event (
        Whenever-bind (At p) Every (find_fd fd p) _ (find_fd-At fd p) λ (k, c) at.
          after_send-All p k c (Connections.send fd e.sent c) at (send-Same fd e.sent c) h)
  ]

  kill_if_dead-All :
      (fd : ℤ) (e : Event) (skip_rest : Bool) (p : Proxy)
      → Every p
      → Whenever Every (kill_if_dead fd e skip_rest p)
  unfolding kill_if_dead
  kill_if_dead-All fd e skip_rest p h = elim (Bool-cases (e.dead && not skip_rest)) [
    | inr no_event ↦ simp no_event h
    | inl event ↦ simp event (
        Whenever-bind (At p) Every (find_fd fd p) _ (find_fd-At fd p)
          λ (k, c) at. close_at-All p k c h)
  ]

  serve-All : (fd : ℤ) (e : Event) (p : Proxy) → Every p → Whenever Every (serve fd e p)
  unfolding serve
  serve-All fd e p h =
      Whenever-bind EveryRead Every (read_if_ready fd e p) _ (read_if_ready-All fd e p h)
        λ (q, skip_rest) hq.
          Whenever-bind Every Every (write_if_ready fd e skip_rest q) _
            (write_if_ready-All fd e skip_rest q hq) λ r hr. kill_if_dead-All fd e skip_rest r hr

  pub serve_all-All :
      (events : List (Pollfd × Event)) (p : Proxy) → Every p → Whenever Every (serve_all events p)
  unfolding serve_all
  serve_all-All [] p h = h
  serve_all-All ((entry, e) ∷ events) p h =
      go (serve_all-All events p h) (λ q hq. serve_all-All events q hq)
    where
      go :
          Whenever Every (serve_all events p)
          → ((q : Proxy) → Every q → Whenever Every (serve_all events q))
          → Whenever Every (serve_all ((entry, e) ∷ events) p)
      go over rest = elim (Bool-cases (contains p.deleted_fds entry.fd)) [
        | inl gone ↦ simp gone over
        | inr live ↦ simp live (
            Whenever-bind Every Every (serve entry.fd e p) (serve_all events)
              (serve-All entry.fd e p h) rest)
      ]
