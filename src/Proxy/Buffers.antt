-- ===== src/Proxy/Buffers.antt =====
-- class Buffer of src/proxy.cpp: the bytes on their way to one file descriptor.
use distray.Base.{Bool, true, false, [], ◌∷◌, ◌++◌, Bytes, drop}
use distray.Wire.Outgoing.{Sent, send_failed, sent_here}
use distray.Wire.Incoming.{Errno, connreset, other, Answer, recv_failed, recv_here}

abbrev pub Buffer : Type 0
Buffer = Bytes

abbrev pub can_send : Buffer → Bool
can_send [] = false
can_send (x ∷ b) = true

-- What an operation comes to: the buffer behind it, or false with errno.
pub data Moved : Type 0 where
  moved : Buffer → Moved
  broken : Errno → Moved

-- Buffer::send: what ::send took is erased from the front. Where it fails errno is what it left.
unfoldable pub send : Buffer → Sent → Moved
send [] answer = moved []
send (x ∷ b) send_failed = broken other
send (x ∷ b) (sent_here k) = moved (drop k (x ∷ b))

-- Buffer::receive, with add.
unfoldable pub receive : Buffer → Answer → Moved
receive b (recv_failed e) = broken e
receive b (recv_here []) = broken connreset
receive b (recv_here (x ∷ bytes)) = moved (b ++ x ∷ bytes)
