-- ===== src/Wire/Blocking.antt =====
-- src/util.cpp, send_message and receive_message: the worker's side, which waits for whole messages.
use distray.Base.{
  ℕ, ◌+◌, ◌*◌, ◌/◌, ◌%◌, ◌^◌, ◌<◌, ◌≡◌, ◌≢◌, refl, [], ◌∷◌, ◌++◌, none, some, arith, ◌==◌,
  if◌then◌else◌, Bytes, length, take, drop, take-append, take-length, length-append, ◌-◌,
}
use distray.Wire.Codec.{Codec, be32, length-be32, ntohl, size_bytes}
use distray.Wire.Incoming.{Errno, connreset, other, Answer, recv_failed, recv_here}

-- What receive_message comes to: a message, -1 with errno, or exit(-1).
pub data Outcome {ℓ} (A : Type ℓ) : Type ℓ where
  returned : A → Outcome A
  failed : Errno → Outcome A
  exited : Outcome A

module _ {ℓ} {Message : Type ℓ} (codec : Codec Message) where
  open codec use {serialize, parse, parse-serialize}

  -- The bytes that send_message hands to one call of ::send, whose result it returns: full_size of them,
  -- which wraps round where the size of the message is within four of 2 ^ 32.
  unfoldable pub send_message : Message → Bytes
  send_message request =
      let size = length (serialize request) % 2 ^ 32 in
      let full_size = (size + size_bytes) % 2 ^ 32 in
      take full_size (be32 size ++ serialize request)

  pub send_message_lem :
      (m : Message)
      → length (serialize m) + 4 < 2 ^ 32
      → send_message m ≡ be32 (length (serialize m)) ++ serialize m
  unfolding send_message
  send_message_lem m h =
      let n = length (serialize m) in
      let small : n % 2 ^ 32 ≡ n = omega arith in
      let full : (n + 4) % 2 ^ 32 ≡ length (be32 n ++ serialize m) =
        omega (arith, length-append (be32 n) (serialize m), length-be32 n) in
      rw (small, full) (take-length (be32 n ++ serialize m))

  -- Behind the decoded size: the second recv. Its result is put into an `int`, where 2 ^ 32 - 1 bytes
  -- are -1, with an errno that recv has not set.
  unfoldable pub receive_content : ℕ → Answer → Outcome Message
  receive_content size (recv_failed e) = failed e
  receive_content size (recv_here []) = failed connreset
  receive_content size (recv_here (x ∷ bytes)) =
      if length (x ∷ bytes) == 2 ^ 32 - 1
      then failed other
      else if length (x ∷ bytes) == size
      then (elim (parse (x ∷ bytes)) [ none ↦ exited | some message ↦ returned message ])
      else exited

  -- The two answers of recv with MSG_WAITALL; the second may depend on the size that is asked for.
  unfoldable pub receive_message : Answer → (ℕ → Answer) → Outcome Message
  unfolding receive_content ntohl
  receive_message (recv_failed e) content = failed e
  receive_message (recv_here []) content = failed connreset
  receive_message (recv_here (x ∷ bytes)) content =
      if length (x ∷ bytes) == size_bytes
      then receive_content (ntohl (x ∷ bytes)) (content (ntohl (x ∷ bytes)))
      else exited

  -- recv(fd, buf, n, MSG_WAITALL) on a stream whose sender may have closed behind it.
  abbrev pub wait_all : Bytes → ℕ → Answer
  wait_all stream n = recv_here (take n stream)

  content_read :
      (m : Message) (rest : Bytes)
      → serialize m ≢ []
      → length (serialize m) + 4 < 2 ^ 32
      → receive_content
          (length (serialize m))
          (wait_all (serialize m ++ rest) (length (serialize m)))
        ≡ returned m
  unfolding receive_content
  content_read m rest h fits = go (serialize m) h fits (parse-serialize m)
    where
      go :
          (s : Bytes)
          → s ≢ []
          → length s + 4 < 2 ^ 32
          → parse s ≡ some m
          → receive_content (length s) (wait_all (s ++ rest) (length s)) ≡ returned m
      go [] h fits e = absurd (h refl)
      go (x ∷ s) h fits e = simp (take-append s rest, e) (ground arith)

  -- receive_message reads back what send_message wrote, whatever follows it in the stream, if the
  -- message takes at least one byte and its size fits in 32 bits with the four bytes of the size itself.
  pub receive_message-send_message :
      (m : Message) (rest : Bytes)
      → serialize m ≢ []
      → length (serialize m) + 4 < 2 ^ 32
      → receive_message
          (wait_all (send_message m ++ rest) 4)
          (wait_all (drop 4 (send_message m ++ rest)))
        ≡ returned m
  unfolding receive_message be32
  receive_message-send_message m rest h fits =
      let n = length (serialize m) in
      let wide : n / 2 ^ 24 % 256 * 2 ^ 24
            + n / 2 ^ 16 % 256 * 2 ^ 16
            + n / 2 ^ 8 % 256 * 2 ^ 8
            + n % 256
          ≡ n =
        omega arith in
      rw (send_message_lem m fits, wide) (content_read m rest h fits)
