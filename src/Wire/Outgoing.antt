-- ===== src/Wire/Outgoing.antt =====
-- src/OutgoingBuffer.hpp: a message that is sent as the socket takes it.
use distray.Base.{
  ℕ, ◌+◌, ◌-◌, ◌%◌, ◌^◌, Bool, true, false, [], ◌++◌, ltb, if◌then◌else◌, Bytes, length, take, drop,
}
use distray.Wire.Codec.{Codec, be32, size_bytes}

-- `buffer` holds the size header too; the file descriptor is the caller's.
pub record OutgoingBuffer : Type 0 where
  pub buffer : Bytes
  pub size : ℕ
  pub sent : ℕ

unfoldable pub empty : OutgoingBuffer
empty = record { buffer = []; size = 0; sent = 0 }

-- What ::send answers: -1, or the number of bytes that it took.
pub data Sent : Type 0 where
  send_failed : Sent
  sent_here : ℕ → Sent

module _ {ℓ} {Message : Type ℓ} (codec : Codec Message) where
  open codec use {serialize}

  unfoldable pub set_message : OutgoingBuffer → Message → OutgoingBuffer
  set_message b message =
      let data_size = length (serialize message) in
      record {
        buffer = be32 data_size ++ serialize message;
        size = (data_size + size_bytes) % 2 ^ 32;
        sent = 0;
      }

unfoldable pub need_send : OutgoingBuffer → Bool
need_send b = ltb b.sent b.size

-- uint32_t bytes_left = m_size - m_sent: the bytes that ::send is offered.
unfoldable pub offered : OutgoingBuffer → Bytes
offered b = take (b.size - b.sent) (drop b.sent b.buffer)

-- The new state, whether it was successful, and the bytes that the socket took.
unfoldable pub send : OutgoingBuffer → Sent → OutgoingBuffer × Bool × Bytes
unfolding need_send offered
send b send_failed = if need_send b then (b, false, []) else (b, true, [])
send b (sent_here k) =
    if need_send b
    then (record b { sent = (b.sent + k) % 2 ^ 32 }, true, take k (offered b))
    else (b, true, [])
