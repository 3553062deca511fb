-- ===== src/Wire/Incoming/Pump.antt =====
-- The loop round `receive`: a socket delivers the bytes of a stream in pieces, as a schedule says,
-- until the message is there.
use distray.Base.{
  ℕ, ◌+◌, ◌≤◌, ◌<◌, min, ◌≡◌, refl, ap, ◌∙◌, subst, true, false, List, [], ◌∷◌, ◌++◌, Option, none,
  some, arith, ltb, append_assoc, if◌then◌else◌, Bytes, length, take, drop, length-append,
  length-take, length-drop, take-append_le, drop-append_le, Bool-cases, inl, inr, All,
  take-append-drop, append-nil, take-length, drop_all,
}
use distray.Wire.Codec.{ntohl}
use distray.Wire.Incoming.Collect.{
  InHeader, InBody, header_step, header_done, body_step, behind_size,
}
use distray.Wire.Incoming.{
  IncomingBuffer, max_incoming_file_size, recv_here, Received, received_ok, failed, exited,
  need_receive, bytes_left, receive,
}

-- Behind one receive; a failure or an exit ends the loop with nothing.
abbrev pub on_ok {ℓ} : {A : Type ℓ} → Received → (IncomingBuffer → Option A) → Option A
on_ok (received_ok b) f = f b
on_ok (failed e) f = none
on_ok exited f = none

-- Each number of the schedule bounds what one recv delivers.
unfoldable pub pump : List ℕ → IncomingBuffer → Bytes → Option (IncomingBuffer × Bytes)
pump [] b stream = some (b, stream)
pump (k ∷ ks) b stream =
    let n = min k (bytes_left b) in
    let more = on_ok (receive b (recv_here (take n stream))) (λ b'. pump ks b' (drop n stream)) in
    if need_receive b then more else some (b, stream)

abbrev pub Positive : List ℕ → Type 0
Positive = All (λ k. 0 < k)

pub need_receive-body :
    (b : IncomingBuffer) (n : ℕ) (done : Bytes)
    → InBody b n done
    → need_receive b ≡ ltb (length done) n
unfolding need_receive
need_receive-body b n done i = ground (arith, i.sized, i.size, i.count)

-- One round of the loop.
pump_round :
    (k : ℕ) (ks : List ℕ) (b b' : IncomingBuffer) (todo rest : Bytes)
    → min k (bytes_left b) ≤ length todo
    → need_receive b ≡ true
    → receive b (recv_here (take (min k (bytes_left b)) todo)) ≡ received_ok b'
    → pump (k ∷ ks) b (todo ++ rest) ≡ pump ks b' (drop (min k (bytes_left b)) todo ++ rest)
unfolding pump
pump_round k ks b b' todo rest h more step =
    let n = min k (bytes_left b) in
    simp (more, take-append_le n todo rest h, drop-append_le n todo rest h, step)

-- The message: the bytes to come are `todo`, and what follows them stays in the stream.
pump-body :
    (ks : List ℕ) (b : IncomingBuffer) (n : ℕ) (done todo rest : Bytes)
    → Positive ks
    → InBody b n done
    → length done + length todo ≡ n
    → length todo ≤ length ks
    → (b' : IncomingBuffer) × (pump ks b (todo ++ rest) ≡ some (b', rest))
      × InBody b' n (done ++ todo)
unfolding pump
pump-body [] b n done [] rest p i e h = (b, refl, rw (append-nil done) i)
pump-body [] b n done (x ∷ todo) rest p i e h = absurd (omega arith)
pump-body (k ∷ ks) b n done [] rest p i e h =
    let stop : need_receive b ≡ false = need_receive-body b n done i ∙ ground arith in
    (b, rw stop, rw (append-nil done) i)
pump-body (k ∷ ks) b n done (x ∷ todo) rest (pk, p) i e h =
    let left : Bytes = x ∷ todo in
    let more : need_receive b ≡ true = need_receive-body b n done i ∙ ground arith in
    let j = min k (bytes_left b) in
    let asked : bytes_left b ≡ length left =
      unfold bytes_left in ground (arith, i.sized, i.size, i.count) in
    let le : j ≤ length left = omega arith in
    let piece : length (take j left) ≡ j = omega (arith, length-take j left) in
    let (step, i') = body_step b n done (take j left) i (omega arith) (omega arith) in
    let (b', f, last) =
      pump-body ks _ n (done ++ take j left) (drop j left) rest p i'
        (omega (arith, length-append done (take j left), length-drop j left))
        (omega (arith, length-drop j left)) in
    (
      b',
      pump_round k ks b _ left rest le more step ∙ f,
      subst (InBody b' n)
          (append_assoc done (take j left) (drop j left) ∙ ap (◌++◌ done) (take-append-drop j left))
          last,
    )

need_receive-header : (b : IncomingBuffer) (done : Bytes) → InHeader b done → need_receive b ≡ true
unfolding need_receive
need_receive-header b done i = ground (arith, i.no_size)

-- The size and then the message: `todo` is what is missing of the four bytes.
pub pump-header :
    (ks : List ℕ) (b : IncomingBuffer) (done todo body rest : Bytes)
    → Positive ks
    → InHeader b done
    → length done + length todo ≡ 4
    → 0 < length todo
    → ntohl (done ++ todo) ≡ length body
    → length body ≤ max_incoming_file_size
    → length todo + length body ≤ length ks
    → (b' : IncomingBuffer) × (pump ks b (todo ++ (body ++ rest)) ≡ some (b', rest))
      × InBody b' (length body) body
pump-header [] b done todo body rest p i four open_ size limit h = absurd (omega arith)
pump-header (k ∷ ks) b done todo body rest (pk, p) i four open_ size limit h =
    let j = min k (bytes_left b) in
    let asked : bytes_left b ≡ length todo =
      unfold bytes_left in ground (arith, i.no_size, i.count) in
    let le : j ≤ length todo = omega arith in
    let more = need_receive-header b done i in
    let join : (done ++ take j todo) ++ drop j todo ≡ done ++ todo =
      append_assoc done (take j todo) (drop j todo) ∙ ap (◌++◌ done) (take-append-drop j todo) in
    elim (Bool-cases (ltb j (length todo))) [
      | inl short ↦
          let j_lt : j < length todo = ground arith in
          let (step, i') = header_step b done (take j todo) i (omega (arith, length-take j todo)) in
          let (b', f, last) =
            pump-header ks _ (done ++ take j todo) (drop j todo) body rest p i'
              (omega
                (arith, length-append done (take j todo), length-take j todo, length-drop j todo))
              (omega (arith, length-drop j todo)) (ap ntohl join ∙ size) limit
              (omega (arith, length-drop j todo)) in
          (b', pump_round k ks b _ todo (body ++ rest) le more step ∙ f, last)
      | inr whole ↦
          let j_eq : j ≡ length todo = ground arith in
          let all : take j todo ≡ todo = rw j_eq (take-length todo) in
          let none_left : drop j todo ≡ [] = drop_all j todo (omega arith) in
          let (step, i') =
            header_done b done (take j todo) (length body) i (omega (arith, length-take j todo))
              (ap (λ t. ntohl (done ++ t)) all ∙ size) limit in
          let (b', f, last) =
            pump-body ks _ (length body) [] body rest p i' (omega arith) (omega arith) in
          (
            b',
            pump_round k ks b _ todo (body ++ rest) le more step
                ∙ ap
                    (λ t. pump ks (behind_size b (length body) (take j todo)) (t ++ (body ++ rest)))
                    none_left
                ∙ f,
            last,
          )
    ]
