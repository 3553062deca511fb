-- ===== src/Wire/Tests.antt =====
-- The theorems of the wire format at a codec of byte strings, and small runs.
use distray.Base.{
  if◌then◌else◌, ℕ, ◌+◌, ◌≤◌, ◌≡◌, refl, false, [], ◌∷◌, ◌++◌, some, arith, Bytes, codes, length,
  replicate, drop,
}
use distray.Wire.Codec.{Codec}
use distray.Wire.Outgoing.{OutgoingBuffer, set_message, need_send}
use distray.Wire.Outgoing
use distray.Wire.Blocking.{
  returned, send_message, receive_message, wait_all, receive_message-send_message,
}
use distray.Wire.Incoming.Safety.{IsValid, Ensures, receive-IsValid}
use distray.Wire.Incoming.Closed.{receive-closed}
use distray.Wire.Incoming.{
  IncomingBuffer, empty, recv_here, receive, reset, need_receive, bytes_left, get_message,
  received_ok,
}
use distray.Wire.Incoming.Pump.{pump}
use distray.Wire.RoundTrip.{deliver, get_message-set_message}

-- Messages that are their own bytes.
abbrev plain : Codec Bytes
plain = record { serialize = λ m. m; parse = λ s. some s; parse-serialize = λ m. refl }

abbrev rounds : ℕ → Bytes
rounds n = replicate n 2

empty-IsValid_here : IsValid empty
unfolding empty
empty-IsValid_here = ground arith

get_message-set_message_example :
    let (o', out) = deliver (rounds 6) (set_message plain Outgoing.empty (codes "hi")) in
    (need_send o' ≡ false)
    × (b' : IncomingBuffer) × (pump (rounds 6) (reset empty) (out ++ codes "rest")
        ≡ some (b', codes "rest"))
    × (need_receive b' ≡ false)
    × (get_message plain b' ≡ some (codes "hi"))
get_message-set_message_example =
    get_message-set_message plain Outgoing.empty empty (codes "hi") (rounds 6) (rounds 6)
      (codes "rest") empty-IsValid_here (omega arith) (omega arith) (omega arith) (omega arith)
      (omega arith)

receive-IsValid_example :
    Ensures IsValid (receive empty (recv_here (codes "ab")))
    × (empty.received + bytes_left empty
        ≤ length (if empty.have_size then empty.buffer else empty.header))
receive-IsValid_example =
    receive-IsValid empty (recv_here (codes "ab")) empty-IsValid_here
      (unfold empty bytes_left in omega arith)

receive_message-send_message_example :
    receive_message plain
      (wait_all plain (send_message plain (codes "hi") ++ codes "x") 4)
      (wait_all plain (drop 4 (send_message plain (codes "hi") ++ codes "x")))
    ≡ returned (codes "hi")
receive_message-send_message_example =
    receive_message-send_message plain (codes "hi") (codes "x") (λ e. cc) (omega arith)

-- The first two bytes of a size.
abbrev half : IncomingBuffer
half = record {
  buffer = replicate 8 0;
  header = 0 ∷ 0 ∷ 9 ∷ 9 ∷ [];
  size = 0;
  have_size = false;
  received = 2;
  capacity = 8;
}

receive-closed_example : receive half (recv_here []) ≡ received_ok half
receive-closed_example = receive-closed half (ground arith)
