-- ===== src/Wire/Incoming/Closed.antt =====
-- What receive makes of a peer that has closed: recv answers 0 bytes.
use distray.Base.{
  ℕ, ◌+◌, ◌%◌, ◌^◌, ◌≡◌, refl, ap, ◌∙◌, false, List, [], ◌++◌, arith, ◌==◌, if◌then◌else◌,
  Bool-cases, inl, inr, take, drop, take-append-drop,
}
use distray.Wire.Incoming.Safety.{IsValid}
use distray.Wire.Incoming.{
  IncomingBuffer, connreset, recv_here, received_ok, failed, store, receive,
}

store-nil : (memory : List ℕ) (offset : ℕ) → store memory offset [] ≡ memory
store-nil memory offset =
    let e : offset + 0 ≡ offset = omega arith in
    ap (λ k. take offset memory ++ drop k memory) e ∙ take-append-drop offset memory

-- A closed connection is reported as reset while a message is being received, but goes unnoticed
-- while its size is: receive then succeeds and leaves the buffer as it was, so the same poll event
-- comes again.
pub receive-closed :
    (b : IncomingBuffer)
    → IsValid b
    → receive b (recv_here []) ≡ (if b.have_size then failed connreset else received_ok b)
unfolding receive
receive-closed b v = elim (Bool-cases b.have_size) [
  | inl h ↦ simp h refl
  | inr h ↦
      let open_header = v.header_open h in
      let same : (b.received + 0) % 2 ^ 32 ≡ b.received = omega arith in
      let short : (b.received == 4) ≡ false = ground arith in
      ground (arith, same, short, store-nil b.header b.received)
]
