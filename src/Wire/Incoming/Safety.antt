-- ===== src/Wire/Incoming/Safety.antt =====
-- recv never stores outside the memory that it is given, and a size over the limit ends the program.
use distray.Base.{
  ℕ, ◌+◌, ◌%◌, ◌^◌, ◌≤◌, ◌<◌, ◌≡◌, refl, true, false, [], ◌∷◌, ◌++◌, arith, ltb, ◌==◌,
  if◌then◌else◌, Bytes, length, take, drop, length-append, length-take, length-drop,
  length-replicate, Bool-cases, inl, inr,
}
use distray.Wire.Codec.{ntohl}
use distray.Wire.Incoming.{
  IncomingBuffer, empty, max_incoming_file_size, Answer, recv_failed, recv_here, Received,
  received_ok, failed, exited, reset, bytes_left, store, grow, receive, receive_body, receive_size,
}

pub record IsValid (b : IncomingBuffer) : Type 0 where
  pub allocated : length b.buffer ≡ b.capacity
  pub header_length : length b.header ≡ 4
  pub header_open : b.have_size ≡ false → b.received < 4
  pub in_buffer : b.have_size ≡ true → b.size ≤ b.capacity
  pub in_message : b.have_size ≡ true → b.received ≤ b.size
  pub in_limit : b.have_size ≡ true → b.size ≤ max_incoming_file_size

-- recv stores no more bytes than it was asked for.
abbrev pub Obeys : IncomingBuffer → Answer → Type 0
Obeys b (recv_failed e) = Unit
Obeys b (recv_here bytes) = length bytes ≤ bytes_left b

abbrev pub Ensures : (IncomingBuffer → Type 0) → Received → Type 0
Ensures P (received_ok b) = P b
Ensures P (failed e) = Unit
Ensures P exited = Unit

pub length-store :
    (memory : Bytes) (offset : ℕ) (bytes : Bytes)
    → offset + length bytes ≤ length memory
    → length (store memory offset bytes) ≡ length memory
length-store memory offset bytes h = omega (
  arith,
  length-append (take offset memory) (bytes ++ drop (offset + length bytes) memory),
  length-append bytes (drop (offset + length bytes) memory),
  length-take offset memory,
  length-drop (offset + length bytes) memory,
)

pub empty-IsValid : IsValid empty
unfolding empty
empty-IsValid = ground arith

pub reset-IsValid : {b : IncomingBuffer} → IsValid b → IsValid (reset b)
unfolding reset
reset-IsValid v = ground arith

-- Where recv is about to store as many bytes as it may, they fit in the memory given to it.
stays_inside :
    (b : IncomingBuffer)
    → IsValid b
    → (b.have_size ≡ true → b.received + bytes_left b ≤ length b.buffer)
      × (b.have_size ≡ false → b.received + bytes_left b ≤ length b.header)
unfolding bytes_left
stays_inside b v = ground (arith, v.in_buffer, v.in_message, v.header_open)

grow-IsValid :
    (b : IncomingBuffer)
    → length b.buffer ≡ b.capacity
    → length b.header ≡ 4
    → b.have_size ≡ true
    → b.received ≡ 0
    → b.size ≤ max_incoming_file_size
    → IsValid (grow b)
grow-IsValid b a h s r l = ground (arith, length-replicate {A = ℕ} b.size 0)

receive_body-IsValid :
    (b : IncomingBuffer) (answer : Answer)
    → IsValid b
    → b.have_size ≡ true
    → Obeys b answer
    → Ensures IsValid (receive_body b answer)
unfolding receive_body bytes_left
receive_body-IsValid b (recv_failed e) v h o = tt
receive_body-IsValid b (recv_here []) v h o = tt
receive_body-IsValid b (recv_here (x ∷ bytes)) v h o = ground (
  arith,
  length-store b.buffer b.received (x ∷ bytes),
  v.in_buffer h,
  v.in_message h,
  v.in_limit h,
)

receive_size-IsValid :
    (b : IncomingBuffer) (answer : Answer)
    → IsValid b
    → b.have_size ≡ false
    → Obeys b answer
    → Ensures IsValid (receive_size b answer)
unfolding receive_size bytes_left
receive_size-IsValid b (recv_failed e) v h o = tt
receive_size-IsValid b (recv_here bytes) v h o =
    elim (Bool-cases ((b.received + length bytes) % 2 ^ 32 == 4)) [
      | inr e ↦ rw e (ground (arith, stored, v.header_open h))
      | inl e ↦ rw e (elim (Bool-cases (ltb max_incoming_file_size size)) [
        | inl big ↦ rw big tt
        | inr small ↦ rw small (grow-IsValid sized v.allocated stored refl refl (ground arith))
      ])
    ]
  where
    size : ℕ
    size = ntohl (store b.header b.received bytes)

    sized : IncomingBuffer
    sized = record b {
      header = store b.header b.received bytes;
      size = size;
      have_size = true;
      received = 0;
    }

    stored : length (store b.header b.received bytes) ≡ 4
    stored =
        let open_header = v.header_open h in ground (arith, length-store b.header b.received bytes)

-- receive keeps the buffer well formed, whatever recv answers within what it was asked for: the
-- buffer has the length that it was allocated with, a partial size has fewer than four bytes, the
-- bytes of a message stay within its size, its size within the buffer, and no size over the limit is
-- ever accepted. And what recv may store fits in the memory that it is given.
pub receive-IsValid :
    (b : IncomingBuffer) (answer : Answer)
    → IsValid b
    → Obeys b answer
    → Ensures IsValid (receive b answer)
      × (b.received + bytes_left b ≤ length (if b.have_size then b.buffer else b.header))
unfolding receive
receive-IsValid b answer v o = elim (Bool-cases b.have_size) [
  | inl e ↦ (simp e (receive_body-IsValid b answer v e o), simp e ((stays_inside b v).0 e))
  | inr e ↦ (simp e (receive_size-IsValid b answer v e o), simp e ((stays_inside b v).1 e))
]
