-- ===== src/Wire/RoundTrip.antt =====
-- From OutgoingBuffer through a socket to IncomingBuffer, however the bytes are cut into pieces.
use distray.Base.{
  ℕ, zero, suc, ◌+◌, ◌-◌, ◌%◌, ◌^◌, ◌≤◌, ◌<◌, min, ◌≡◌, refl, sym, ap, ◌∙◌, true, false, List, [],
  ◌∷◌, ◌++◌, some, arith, ltb, append_assoc, Bytes, length, take, drop, length-append, length-drop,
  take-append-drop, take-length, drop_all,
}
use distray.Wire.Codec.{Codec, be32, ntohl-be32, length-be32}
use distray.Wire.Outgoing.{OutgoingBuffer, sent_here, set_message, need_send, send, offered}
use distray.Wire.Blocking.{send_message, send_message_lem}
use distray.Wire.Incoming.Safety.{IsValid}
use distray.Wire.Incoming.Collect.{InHeader, InBody}
use distray.Wire.Incoming.Pump.{pump, pump-header, Positive}
use distray.Wire.Incoming.{IncomingBuffer, max_incoming_file_size, reset, need_receive, get_message}

-- The loop round `send`: each number of the schedule bounds what one call of ::send takes. The result
-- has the bytes that went out, in order.
unfoldable pub deliver : List ℕ → OutgoingBuffer → OutgoingBuffer × Bytes
deliver [] b = (b, [])
deliver (k ∷ ks) b =
    let (b', ok, out) = send b (sent_here (min k (length (offered b)))) in
    let (last, outs) = deliver ks b' in (last, out ++ outs)

-- `todo` of the buffer is still to be sent.
record Sending (b : OutgoingBuffer) (todo : Bytes) : Type 0 where
  left : drop b.sent b.buffer ≡ todo
  whole : b.size ≡ length b.buffer
  fits : b.size < 2 ^ 32
  inside : b.sent ≤ b.size

drop-drop : (m n : ℕ) (xs : Bytes) → drop m (drop n xs) ≡ drop (n + m) xs
drop-drop m zero xs = let e : m ≡ 0 + m = omega arith in ap (λ k. drop k xs) e
drop-drop m (suc n) [] =
    drop_all {A = ℕ} m [] (omega arith) ∙ sym (drop_all {A = ℕ} (suc n + m) [] (omega arith))
drop-drop m (suc n) (x ∷ xs) =
    let e : suc (n + m) ≡ suc n + m = omega arith in drop-drop m n xs ∙ ap (λ k. drop k (x ∷ xs)) e

Sending-left : (b : OutgoingBuffer) (todo : Bytes) → Sending b todo → length todo ≡ b.size - b.sent
Sending-left b todo s = omega (arith, ap length s.left, length-drop b.sent b.buffer, s.whole)

offered_lem : (b : OutgoingBuffer) (todo : Bytes) → Sending b todo → offered b ≡ todo
unfolding offered
offered_lem b todo s =
    ap (take (b.size - b.sent)) s.left ∙ rw (← Sending-left b todo s) (take-length todo)

need_send-left :
    (b : OutgoingBuffer) (todo : Bytes) → Sending b todo → need_send b ≡ ltb 0 (length todo)
unfolding need_send
need_send-left b todo s = ground (arith, Sending-left b todo s, s.inside)

abbrev behind_send : OutgoingBuffer → ℕ → OutgoingBuffer
behind_send b k = record b { sent = (b.sent + k) % 2 ^ 32 }

send_step :
    (b : OutgoingBuffer) (todo : Bytes) (k : ℕ)
    → Sending b todo
    → 0 < length todo
    → k ≤ length todo
    → (send b (sent_here k) ≡ (behind_send b k, true, take k todo))
      × Sending (behind_send b k) (drop k todo)
unfolding send
send_step b todo k s some_left le =
    let need : need_send b ≡ true = need_send-left b todo s ∙ ground arith in
    let left = Sending-left b todo s in
    let same : (b.sent + k) % 2 ^ 32 ≡ b.sent + k = omega (arith, s.fits, s.inside) in
    (
      simp (need, offered_lem b todo s),
      record {
        left = rw same (sym (drop-drop k b.sent b.buffer) ∙ ap (drop k) s.left);
        whole = s.whole;
        fits = s.fits;
        inside = omega (arith, s.inside);
      },
    )

-- Nothing is left: further calls of send do nothing.
pub deliver-idle : (ks : List ℕ) (b : OutgoingBuffer) → need_send b ≡ false → deliver ks b ≡ (b, [])
unfolding deliver send
deliver-idle [] b h = refl
deliver-idle (k ∷ ks) b h = simp (h, deliver-idle ks b h)

deliver_all :
    (ks : List ℕ) (b : OutgoingBuffer) (todo : Bytes)
    → Positive ks
    → Sending b todo
    → length todo ≤ length ks
    → (b' : OutgoingBuffer) × (deliver ks b ≡ (b', todo)) × (need_send b' ≡ false)
unfolding deliver
deliver_all ks b [] p s h =
    let idle : need_send b ≡ false = need_send-left b [] s ∙ ground arith in
    (b, deliver-idle ks b idle, idle)
deliver_all [] b (x ∷ todo) p s h = absurd (omega arith)
deliver_all (k ∷ ks) b (x ∷ todo) (pk, p) s h =
    let all : Bytes = x ∷ todo in
    let n = min k (length (offered b)) in
    let offer : length (offered b) ≡ length all = ap length (offered_lem b all s) in
    let (step, s') = send_step b all n s (omega arith) (omega arith) in
    let (b', f, idle) =
      deliver_all ks (behind_send b n) (drop n all) p s' (omega (arith, length-drop n all)) in
    (b', simp (step, f) (ap (λ t. (b', t)) (take-append-drop n all)), idle)

module _ {ℓ} {Message : Type ℓ} (codec : Codec Message) where
  open codec use {serialize, parse, parse-serialize}

  set_message-Sending :
      (o : OutgoingBuffer) (m : Message)
      → length (serialize m) + 4 < 2 ^ 32
      → Sending (set_message codec o m) (send_message codec m)
  unfolding set_message
  set_message-Sending o m h =
      let n = length (serialize m) in
      record {
        left = sym (send_message_lem codec m h);
        whole = omega (arith, length-append (be32 n) (serialize m), length-be32 n);
        fits = omega arith;
        inside = omega arith;
      }

  pub length-send_message :
      (m : Message)
      → length (serialize m) + 4 < 2 ^ 32
      → length (send_message codec m) ≡ length (serialize m) + 4
  length-send_message m h =
      let n = length (serialize m) in
      ap length (send_message_lem codec m h)
      ∙ omega (arith, length-append (be32 n) (serialize m), length-be32 n)

  -- What the controller sends is what the worker's send_message would: the bytes of set_message, cut
  -- into pieces by any schedule with enough rounds, go out in order and completely.
  pub deliver-set_message :
      (o : OutgoingBuffer) (m : Message) (ks : List ℕ)
      → length (serialize m) + 4 < 2 ^ 32
      → Positive ks
      → length (serialize m) + 4 ≤ length ks
      → (o' : OutgoingBuffer) × (deliver ks (set_message codec o m) ≡ (o', send_message codec m))
        × (need_send o' ≡ false)
  deliver-set_message o m ks fits p rounds =
      deliver_all ks (set_message codec o m) (send_message codec m) p (set_message-Sending o m fits)
        (omega (arith, length-send_message m fits))

  reset-InHeader : (b : IncomingBuffer) → IsValid b → InHeader (reset b) []
  unfolding reset
  reset-InHeader b v = record {
    no_size = refl;
    memory = refl;
    allocated = v.allocated;
    so_far = refl;
    count = refl;
  }

  get_message-InBody :
      (b : IncomingBuffer) (m : Message)
      → InBody b (length (serialize m)) (serialize m)
      → get_message codec b ≡ some m
  unfolding get_message
  get_message-InBody b m i =
      let same : b.size ≡ b.received = i.size ∙ sym i.count in
      let body : take b.size b.buffer ≡ serialize m = ap (λ k. take k b.buffer) same ∙ i.so_far in
      ap parse body ∙ parse-serialize m

  need_receive-InBody :
      (b : IncomingBuffer) (s : Bytes) → InBody b (length s) s → need_receive b ≡ false
  unfolding need_receive
  need_receive-InBody b s i = ground (arith, i.sized, i.size, i.count)

  send_message-split :
      (m : Message) (rest : Bytes)
      → length (serialize m) + 4 < 2 ^ 32
      → send_message codec m ++ rest ≡ be32 (length (serialize m)) ++ (serialize m ++ rest)
  send_message-split m rest h =
      rw (send_message_lem codec m h)
        (append_assoc (be32 (length (serialize m))) (serialize m) rest)

  -- The bytes that send_message would hand to the socket, received in pieces.
  pub get_message-send_message :
      (b : IncomingBuffer) (m : Message) (ls : List ℕ) (rest : Bytes)
      → IsValid b
      → length (serialize m) ≤ max_incoming_file_size
      → Positive ls
      → length (serialize m) + 4 ≤ length ls
      → (b' : IncomingBuffer) × (pump ls (reset b) (send_message codec m ++ rest) ≡ some (b', rest))
        × (need_receive b' ≡ false)
        × (get_message codec b' ≡ some m)
  get_message-send_message b m ls rest v limit p rounds =
      let n = length (serialize m) in
      let (b', received, i) =
        pump-header ls (reset b) [] (be32 n) (serialize m) rest p (reset-InHeader b v)
          (omega (arith, length-be32 n)) (omega (arith, length-be32 n)) (ntohl-be32 n (omega arith))
          limit (omega (arith, length-be32 n)) in
      (
        b',
        ap (λ t. pump ls (reset b) t) (send_message-split m rest (omega arith)) ∙ received,
        need_receive-InBody b' (serialize m) i,
        get_message-InBody b' m i,
      )

  -- A message of at most the size limit survives the way through both buffers, the receiving one
  -- well formed before: sent in pieces of any sizes but 0 and received in pieces of any other such
  -- sizes, with a round for each byte and its size's four on either side, all of it goes out, the receiver takes its bytes and no more from the stream, stops asking for bytes, and
  -- get_message returns the message.
  pub get_message-set_message :
      (o : OutgoingBuffer) (b : IncomingBuffer) (m : Message) (ks ls : List ℕ) (rest : Bytes)
      → IsValid b
      → length (serialize m) ≤ max_incoming_file_size
      → Positive ks
      → Positive ls
      → length (serialize m) + 4 ≤ length ks
      → length (serialize m) + 4 ≤ length ls
      → let (o', out) = deliver ks (set_message codec o m) in
        (need_send o' ≡ false)
        × (b' : IncomingBuffer) × (pump ls (reset b) (out ++ rest) ≡ some (b', rest))
        × (need_receive b' ≡ false)
        × (get_message codec b' ≡ some m)
  get_message-set_message o b m ks ls rest v limit pk pl rk rl =
      let (o', sent, idle) = deliver-set_message o m ks (omega arith) pk rk in
      let (b', received, whole, read) = get_message-send_message b m ls rest v limit pl rl in
      rw sent (idle, b', received, whole, read)
