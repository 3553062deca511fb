-- ===== src/Wire/Incoming.antt =====
-- src/IncomingBuffer.hpp: bytes are collected until a whole message is there.
pub mod Safety
pub mod Closed
pub mod Collect
pub mod Pump
pub mod PumpSafety
use distray.Base.{
  ℕ, ◌+◌, ◌-◌, ◌*◌, ◌%◌, ◌^◌, Bool, true, false, not, ◌||◌, List, [], ◌∷◌, ◌++◌, Option, ltb, ◌==◌,
  if◌then◌else◌, Bytes, length, take, drop, replicate,
}
use distray.Wire.Codec.{Codec, ntohl, size_bytes}

abbrev pub max_incoming_file_size : ℕ
max_incoming_file_size = 10 * 1024 * 1024

-- `header` is the memory of m_size while the size is being received, and `size` the value of m_size
-- from then on. `capacity` is the length that `buffer` was allocated with.
pub record IncomingBuffer : Type 0 where
  pub buffer : Bytes
  pub header : Bytes
  pub size : ℕ
  pub have_size : Bool
  pub received : ℕ
  pub capacity : ℕ

unfoldable pub empty : IncomingBuffer
empty = record {
  buffer = [];
  header = replicate 4 0;
  size = 0;
  have_size = false;
  received = 0;
  capacity = 0;
}

pub data Errno : Type 0 where
  connreset other : Errno

-- What recv answers: -1 with errno, or the bytes that it stored (none where the peer has closed).
pub data Answer : Type 0 where
  recv_failed : Errno → Answer
  recv_here : Bytes → Answer

-- What receive comes to: true, false with errno, or exit(-1).
pub data Received : Type 0 where
  received_ok : IncomingBuffer → Received
  failed : Errno → Received
  exited : Received

unfoldable pub reset : IncomingBuffer → IncomingBuffer
reset b = record b { header = replicate 4 0; size = 0; have_size = false; received = 0 }

unfoldable pub need_receive : IncomingBuffer → Bool
need_receive b = not b.have_size || ltb b.received b.size

-- bytes_left: how many bytes recv is asked for.
unfoldable pub bytes_left : IncomingBuffer → ℕ
bytes_left b = if b.have_size then b.size - b.received else size_bytes - b.received

-- recv(fd, memory + offset, …) stores bytes in memory.
abbrev pub store : Bytes → ℕ → Bytes → Bytes
store memory offset bytes = take offset memory ++ (bytes ++ drop (offset + length bytes) memory)

-- `new uint8_t[m_size]`; its first contents, unspecified in C++, are never read.
abbrev pub grow : IncomingBuffer → IncomingBuffer
grow b =
    if ltb b.capacity b.size then record b { buffer = replicate b.size 0; capacity = b.size } else b

unfoldable pub receive_body : IncomingBuffer → Answer → Received
receive_body b (recv_failed e) = failed e
receive_body b (recv_here []) = failed connreset
receive_body b (recv_here (x ∷ bytes)) = received_ok (record b {
  buffer = store b.buffer b.received (x ∷ bytes);
  received = (b.received + length (x ∷ bytes)) % 2 ^ 32;
})

-- The branch of the size tests nothing for 0 bytes received.
unfoldable pub receive_size : IncomingBuffer → Answer → Received
receive_size b (recv_failed e) = failed e
receive_size b (recv_here bytes) =
    let header' = store b.header b.received bytes in
    let received' = (b.received + length bytes) % 2 ^ 32 in
    if received' == size_bytes
    then (if ltb max_incoming_file_size (ntohl header')
        then exited
        else received_ok (
            grow (record b {
              header = header';
              size = ntohl header';
              have_size = true;
              received = 0;
            })))
    else received_ok (record b { header = header'; received = received' })

unfoldable pub receive : IncomingBuffer → Answer → Received
unfolding receive_body receive_size
receive b answer = if b.have_size then receive_body b answer else receive_size b answer

module _ {ℓ} {Message : Type ℓ} (codec : Codec Message) where
  open codec use {parse}

  unfoldable pub get_message : IncomingBuffer → Option Message
  get_message b = parse (take b.size b.buffer)
