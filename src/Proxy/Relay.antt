-- ===== src/Proxy/Relay.antt =====
-- A connection relays each side's bytes to the other side, in order and with none lost or added.
use distray.Base.{
  ℕ, zero, suc, subst, ◌≡◌, refl, sym, ap, ◌∙◌, List, [], ◌∷◌, ◌++◌, Option, none, some, arith,
  if◌then◌else◌, Bytes, take, take-append-drop, append_assoc, Bool-cases, inl, inr,
}
use distray.Base.Int.{ℤ, ◌==ℤ◌}
use distray.Wire.Incoming.{Answer, recv_failed, recv_here}
use distray.Wire.Outgoing.{Sent, send_failed, sent_here}
use distray.Proxy.Buffers
use distray.Proxy.Buffers.{Buffer, Moved}
use distray.Proxy.Connections
use distray.Proxy.Connections.{Connection, Transfer, unknown_fd, put_c2w, put_w2c}

-- The bytes that a recv delivers, and those that a ::send takes from a buffer.
abbrev pub got : Answer → Bytes
got (recv_failed e) = []
got (recv_here bytes) = bytes

abbrev pub took : Buffer → Sent → Bytes
took b send_failed = []
took b (sent_here k) = take k b

-- A connection, with all that has passed over its two descriptors so far.
pub record Traffic : Type 0 where
  pub connection : Connection
  pub from_worker : Bytes
  pub to_worker : Bytes
  pub from_controller : Bytes
  pub to_controller : Bytes

pub data Operation : Type 0 where
  reads : ℤ → Answer → Operation
  writes : ℤ → Sent → Operation

abbrev with_connection : Transfer → (Connection → Traffic) → Option Traffic
with_connection (Transfer.moved c) f = some (f c)
with_connection (Transfer.broken e) f = none
with_connection unknown_fd f = none

-- An operation, with the bytes noted under the side that the descriptor is of.
unfoldable pub apply : Operation → Traffic → Option Traffic
unfolding Connections.receive Connections.send
apply (reads fd a) t = with_connection (Connections.receive fd a t.connection) (λ c.
    if fd ==ℤ t.connection.worker_fd
    then record t { connection = c; from_worker = t.from_worker ++ got a }
    else record t { connection = c; from_controller = t.from_controller ++ got a })
apply (writes fd a) t = with_connection (Connections.send fd a t.connection) (λ c.
    if fd ==ℤ t.connection.worker_fd
    then record t { connection = c; to_worker = t.to_worker ++ took t.connection.c2w a }
    else record t { connection = c; to_controller = t.to_controller ++ took t.connection.w2c a })

unfoldable pub apply_all : List Operation → Traffic → Option Traffic
unfolding apply
apply_all [] t = some t
apply_all (o ∷ os) t = elim (apply o t) [ none ↦ none | some u ↦ apply_all os u ]

-- What came from one side is what went to the other and what still waits in the buffer.
pub record IsRelay (t : Traffic) : Type 0 where
  pub worker_side : t.to_controller ++ t.connection.w2c ≡ t.from_worker
  pub controller_side : t.to_worker ++ t.connection.c2w ≡ t.from_controller

abbrev BufferKeeps : Moved → (Buffer → Type 0) → Type 0
BufferKeeps (Moved.moved b) P = P b
BufferKeeps (Moved.broken e) P = Unit

receive-appends :
    (b : Buffer) (a : Answer) → BufferKeeps (Buffers.receive b a) (λ b'. b' ≡ b ++ got a)
unfolding Buffers.receive
receive-appends b (recv_failed e) = tt
receive-appends b (recv_here []) = tt
receive-appends b (recv_here (x ∷ bytes)) = refl

send-splits : (b : Buffer) (a : Sent) → BufferKeeps (Buffers.send b a) (λ b'. took b a ++ b' ≡ b)
unfolding Buffers.send
send-splits [] send_failed = refl
send-splits [] (sent_here k) = take-nil k
  where
    take-nil : (k : ℕ) → took [] (sent_here k) ++ [] ≡ []
    take-nil zero = refl
    take-nil (suc k) = refl
send-splits (x ∷ b) send_failed = tt
send-splits (x ∷ b) (sent_here k) = take-append-drop k (x ∷ b)

abbrev Keeps : Option Traffic → Type 0
Keeps none = Unit
Keeps (some t) = IsRelay t

read-w2c :
    (t : Traffic) (a : Answer) (m : Moved)
    → IsRelay t
    → BufferKeeps m (λ b. b ≡ t.connection.w2c ++ got a)
    → Keeps (
        with_connection
          (put_w2c t.connection m)
          (λ c. record t { connection = c; from_worker = t.from_worker ++ got a }))
read-w2c t a (Moved.moved b) i e = record {
  worker_side =
      ap (◌++◌ t.to_controller) e
      ∙ sym (append_assoc t.to_controller t.connection.w2c (got a))
      ∙ ap (λ s. s ++ got a) i.worker_side;
  controller_side = i.controller_side;
}
read-w2c t a (Moved.broken e) i h = tt

read-c2w :
    (t : Traffic) (a : Answer) (m : Moved)
    → IsRelay t
    → BufferKeeps m (λ b. b ≡ t.connection.c2w ++ got a)
    → Keeps (
        with_connection
          (put_c2w t.connection m)
          (λ c. record t { connection = c; from_controller = t.from_controller ++ got a }))
read-c2w t a (Moved.moved b) i e = record {
  worker_side = i.worker_side;
  controller_side =
      ap (◌++◌ t.to_worker) e
      ∙ sym (append_assoc t.to_worker t.connection.c2w (got a))
      ∙ ap (λ s. s ++ got a) i.controller_side;
}
read-c2w t a (Moved.broken e) i h = tt

write-w2c :
    (t : Traffic) (a : Sent) (m : Moved)
    → IsRelay t
    → BufferKeeps m (λ b. took t.connection.w2c a ++ b ≡ t.connection.w2c)
    → Keeps (
        with_connection (put_w2c t.connection m) (λ c. record t {
          connection = c;
          to_controller = t.to_controller ++ took t.connection.w2c a;
        }))
write-w2c t a (Moved.moved b) i e = record {
  worker_side =
      append_assoc t.to_controller (took t.connection.w2c a) b
      ∙ ap (◌++◌ t.to_controller) e
      ∙ i.worker_side;
  controller_side = i.controller_side;
}
write-w2c t a (Moved.broken e) i h = tt

write-c2w :
    (t : Traffic) (a : Sent) (m : Moved)
    → IsRelay t
    → BufferKeeps m (λ b. took t.connection.c2w a ++ b ≡ t.connection.c2w)
    → Keeps (
        with_connection
          (put_c2w t.connection m)
          (λ c. record t { connection = c; to_worker = t.to_worker ++ took t.connection.c2w a }))
write-c2w t a (Moved.moved b) i e = record {
  worker_side = i.worker_side;
  controller_side =
      append_assoc t.to_worker (took t.connection.c2w a) b
      ∙ ap (◌++◌ t.to_worker) e
      ∙ i.controller_side;
}
write-c2w t a (Moved.broken e) i h = tt

apply-Keeps : (o : Operation) (t : Traffic) → IsRelay t → Keeps (apply o t)
unfolding apply Connections.receive Connections.send
apply-Keeps (reads fd a) t i = elim (Bool-cases (fd ==ℤ t.connection.worker_fd)) [
  | inl e ↦ simp e (read-w2c t a _ i (receive-appends t.connection.w2c a))
  | inr e ↦ elim (Bool-cases (fd ==ℤ t.connection.controller_fd)) [
    | inl f ↦ simp (e, f) (read-c2w t a _ i (receive-appends t.connection.c2w a))
    | inr f ↦ simp (e, f) tt
  ]
]
apply-Keeps (writes fd a) t i = elim (Bool-cases (fd ==ℤ t.connection.worker_fd)) [
  | inl e ↦ simp e (write-c2w t a _ i (send-splits t.connection.c2w a))
  | inr e ↦ elim (Bool-cases (fd ==ℤ t.connection.controller_fd)) [
    | inl f ↦ simp (e, f) (write-w2c t a _ i (send-splits t.connection.w2c a))
    | inr f ↦ simp (e, f) tt
  ]
]

-- Over any sequence of reads and writes of a connection that succeed, what came from the worker is,
-- in order, what went to the controller followed by what waits for it, and the same the other way.
pub apply_all-IsRelay :
    (os : List Operation) (t : Traffic) {u : Traffic}
    → IsRelay t
    → apply_all os t ≡ some u
    → IsRelay u
unfolding apply_all
apply_all-IsRelay [] t {u} i e = let same : t ≡ u = ground arith in subst IsRelay same i
apply_all-IsRelay (o ∷ os) t {u} i e =
    go (apply o t) (apply-Keeps o t i) e (λ v k. apply_all-IsRelay os v k)
  where
    go :
        (r : Option Traffic)
        → Keeps r
        → (elim r [ none ↦ none | some v ↦ apply_all os v ]) ≡ some u
        → ((v : Traffic) → IsRelay v → apply_all os v ≡ some u → IsRelay u)
        → IsRelay u
    go none k e rest = cc
    go (some v) k e rest = rest v k e
