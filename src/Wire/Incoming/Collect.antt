-- ===== src/Wire/Incoming/Collect.antt =====
-- The bytes that a receiver has collected, as a function of what arrived. The four bytes of the size
-- come first, then the message; `pump` is the loop round `receive` of a socket that delivers bytes as
-- a schedule says.
use distray.Base.{
  ℕ, zero, suc, ◌+◌, ◌%◌, ◌^◌, ◌≤◌, ◌<◌, ◌≡◌, refl, sym, ap, ◌∙◌, subst, true, false, [], ◌∷◌, ◌++◌,
  arith, ltb, ◌==◌, append_assoc, Bytes, length, take, drop, length-append, length-take,
  length-replicate, take-append,
}
use distray.Wire.Codec.{ntohl}
use distray.Wire.Incoming.Safety.{length-store}
use distray.Wire.Incoming.{
  IncomingBuffer, max_incoming_file_size, recv_here, received_ok, store, grow, receive,
}

-- `done` of the four bytes of the size are there.
pub record InHeader (b : IncomingBuffer) (done : Bytes) : Type 0 where
  pub no_size : b.have_size ≡ false
  pub memory : length b.header ≡ 4
  pub allocated : length b.buffer ≡ b.capacity
  pub so_far : take b.received b.header ≡ done
  pub count : b.received ≡ length done

-- `done` of the `n` bytes of the message are there.
pub record InBody (b : IncomingBuffer) (n : ℕ) (done : Bytes) : Type 0 where
  pub sized : b.have_size ≡ true
  pub size : b.size ≡ n
  pub room : n ≤ length b.buffer
  pub limit : n ≤ max_incoming_file_size
  pub so_far : take b.received b.buffer ≡ done
  pub count : b.received ≡ length done

-- What is stored stands behind what was there.
take-store :
    (memory : Bytes) (offset : ℕ) (bytes : Bytes)
    → offset + length bytes ≤ length memory
    → take (offset + length bytes) (store memory offset bytes) ≡ take offset memory ++ bytes
take-store memory offset bytes h =
    let rest = drop (offset + length bytes) memory in
    let n : offset + length bytes ≡ length (take offset memory ++ bytes) =
      omega (arith, length-append (take offset memory) bytes, length-take offset memory) in
    let whole = take offset memory ++ bytes in
    ap (take (offset + length bytes)) (sym (append_assoc (take offset memory) bytes rest))
    ∙ subst (λ k. take k (whole ++ rest) ≡ whole) (sym n) (take-append whole rest)

pub take_all : (n : ℕ) (xs : Bytes) → length xs ≤ n → take n xs ≡ xs
take_all zero [] h = refl
take_all zero (x ∷ xs) h = absurd (omega arith)
take_all (suc n) [] h = refl
take_all (suc n) (x ∷ xs) h = ap (◌∷◌ x) (take_all n xs (omega arith))

-- The memory of the size behind one more delivery.
store-header :
    (b : IncomingBuffer) (done bytes : Bytes)
    → InHeader b done
    → length done + length bytes ≤ 4
    → (take (b.received + length bytes) (store b.header b.received bytes) ≡ done ++ bytes)
      × (length (store b.header b.received bytes) ≡ 4)
      × ((b.received + length bytes) % 2 ^ 32 ≡ length (done ++ bytes))
store-header b done bytes i h =
    let fits : b.received + length bytes ≤ length b.header = omega arith in
    (
      take-store b.header b.received bytes fits ∙ ap (λ t. t ++ bytes) i.so_far,
      omega (arith, length-store b.header b.received bytes fits),
      omega (arith, length-append done bytes),
    )

abbrev pub behind_header : IncomingBuffer → Bytes → IncomingBuffer
behind_header b bytes = record b {
  header = store b.header b.received bytes;
  received = (b.received + length bytes) % 2 ^ 32;
}

pub header_step :
    (b : IncomingBuffer) (done bytes : Bytes)
    → InHeader b done
    → length done + length bytes < 4
    → (receive b (recv_here bytes) ≡ received_ok (behind_header b bytes))
      × InHeader (behind_header b bytes) (done ++ bytes)
unfolding receive
header_step b done bytes i h =
    let (t, l, n) = store-header b done bytes i (omega arith) in
    let short : ((b.received + length bytes) % 2 ^ 32 == 4) ≡ false =
      ground (arith, length-append done bytes) in
    let same : (b.received + length bytes) % 2 ^ 32 ≡ b.received + length bytes = omega arith in
    (
      simp (i.no_size, short),
      record {
        no_size = i.no_size;
        memory = l;
        allocated = i.allocated;
        so_far = rw same t;
        count = n;
      },
    )

abbrev pub behind_size : IncomingBuffer → ℕ → Bytes → IncomingBuffer
behind_size b n bytes = grow (record b {
  header = store b.header b.received bytes;
  size = n;
  have_size = true;
  received = 0;
})

behind_size-InBody :
    (b : IncomingBuffer) (n : ℕ) (bytes : Bytes)
    → length b.buffer ≡ b.capacity
    → n ≤ max_incoming_file_size
    → InBody (behind_size b n bytes) n []
behind_size-InBody b n bytes a h = ground (arith, length-replicate {A = ℕ} n 0)

pub header_done :
    (b : IncomingBuffer) (done bytes : Bytes) (n : ℕ)
    → InHeader b done
    → length done + length bytes ≡ 4
    → ntohl (done ++ bytes) ≡ n
    → n ≤ max_incoming_file_size
    → (receive b (recv_here bytes) ≡ received_ok (behind_size b n bytes))
      × InBody (behind_size b n bytes) n []
unfolding receive
header_done b done bytes n i h e l =
    let (t, len, count) = store-header b done bytes i (omega arith) in
    let full : ((b.received + length bytes) % 2 ^ 32 == 4) ≡ true =
      ground (arith, length-append done bytes) in
    let whole : store b.header b.received bytes ≡ done ++ bytes =
      sym (take_all (b.received + length bytes) _ (omega arith)) ∙ t in
    let size : ntohl (store b.header b.received bytes) ≡ n = ap ntohl whole ∙ e in
    let small : ltb max_incoming_file_size n ≡ false = ground arith in
    (simp (i.no_size, full, size, small), behind_size-InBody b n bytes i.allocated l)

abbrev pub behind_body : IncomingBuffer → Bytes → IncomingBuffer
behind_body b bytes = record b {
  buffer = store b.buffer b.received bytes;
  received = (b.received + length bytes) % 2 ^ 32;
}

pub body_step :
    (b : IncomingBuffer) (n : ℕ) (done bytes : Bytes)
    → InBody b n done
    → 0 < length bytes
    → length done + length bytes ≤ n
    → (receive b (recv_here bytes) ≡ received_ok (behind_body b bytes))
      × InBody (behind_body b bytes) n (done ++ bytes)
unfolding receive
body_step b n done [] i z h = absurd (omega arith)
body_step b n done (x ∷ xs) i z h =
    let bytes : Bytes = x ∷ xs in
    let fits : b.received + length bytes ≤ length b.buffer = omega (arith, i.count, i.room) in
    let same : (b.received + length bytes) % 2 ^ 32 ≡ b.received + length bytes =
      omega (arith, i.count, i.limit) in
    (
      simp i.sized,
      record {
        sized = i.sized;
        size = i.size;
        room = omega (arith, length-store b.buffer b.received bytes fits, i.room);
        limit = i.limit;
        so_far =
            rw same (take-store b.buffer b.received bytes fits ∙ ap (λ t. t ++ bytes) i.so_far);
        count = omega (arith, length-append done bytes, i.count);
      },
    )
