-- ===== src/Job/Delivery.antt =====
-- A message that goes out and a response that comes in, in pieces: src/OutgoingBuffer.hpp and
-- src/IncomingBuffer.hpp.
use distray.Base.{
  ◌+◌, ◌≤◌, ◌<◌, ◌^◌, ℕ, ◌≤◌, ◌≡◌, refl, sym, ◌∙◌, ap, subst, Bool, true, false, ◌&&◌, List, [],
  Option, none, some, arith, Bytes, length, leb, ◌==◌, if◌then◌else◌, replicate, append-nil,
  Bool-cases, inl, inr, ==_iff, leb→le, ==_refl,
}
use distray.Drp.{Response}
use distray.Wire.Incoming.{IncomingBuffer, max_incoming_file_size, reset, need_receive, get_message}
use distray.Wire.Incoming.Safety.{IsValid, reset-IsValid}
use distray.Wire.Incoming.Collect.{take_all}
use distray.Wire.Incoming.Pump.{pump, Positive}
use distray.Wire.Incoming.PumpSafety.{LeavesValid, pump-IsValid}
use distray.Wire.Blocking.{send_message}
use distray.Wire.RoundTrip.{deliver, get_message-send_message, length-send_message}
use distray.RemoteWorker.{System}
use distray.Job.Drive.{Inbox}

-- How a socket cuts a stream: at most so many bytes at a time, never none, and as many times as there are
-- bytes at least.
pub record Pieces : Type 0 where
  pub sends : Bytes → List ℕ
  pub receives : Bytes → List ℕ
  pub sends_positive : (bytes : Bytes) → Positive (sends bytes)
  pub receives_positive : (bytes : Bytes) → Positive (receives bytes)
  pub sends_enough : (bytes : Bytes) → length bytes ≤ length (sends bytes)
  pub receives_enough : (bytes : Bytes) → length bytes ≤ length (receives bytes)

pub both_true : (a b : Bool) → (a && b) ≡ true → (a ≡ true) × (b ≡ true)
both_true true b e = (refl, e)
both_true false b e = cc

module _ (system : System) (pieces : Pieces) where
  open system use {responses}
  open responses use {serialize, parse, parse-serialize}

  -- A response within the limit.
  abbrev pub receivable : Response → Bool
  receivable m = leb (length (serialize m)) max_incoming_file_size

  -- A buffer whose memory has the length that it was allocated with.
  abbrev usable : IncomingBuffer → Bool
  usable b = length b.buffer == b.capacity

  -- A response that is never received.
  abbrev plain : Response → IncomingBuffer
  plain m = record {
    buffer = serialize m;
    header = replicate 4 0;
    size = length (serialize m);
    have_size = true;
    received = length (serialize m);
    capacity = length (serialize m);
  }

  abbrev kept : Response → Option (IncomingBuffer × Bytes) → IncomingBuffer
  kept m none = plain m
  kept m (some (b, rest)) = b

  abbrev pumped : Response → IncomingBuffer → Option (IncomingBuffer × Bytes)
  pumped m b =
      pump (pieces.receives (send_message responses m)) (reset b) (send_message responses m)

  abbrev pub delivered : Response → IncomingBuffer → IncomingBuffer
  delivered m b = if receivable m && usable b then kept m (pumped m b) else plain m

  fresh : (b : IncomingBuffer) → length b.buffer ≡ b.capacity → IsValid (reset b)
  unfolding reset
  fresh b a = ground arith

  taken :
      (m : Response) (b : IncomingBuffer)
      → length b.buffer ≡ b.capacity
      → receivable m ≡ true
      → (b' : IncomingBuffer) × (pumped m b ≡ some (b', []))
        × (need_receive b' ≡ false)
        × (get_message responses b' ≡ some m)
  unfolding reset
  taken m b a e =
      let bytes = send_message responses m in
      let ls = pieces.receives bytes in
      let small : length (serialize m) ≤ max_incoming_file_size =
        leb→le (length (serialize m)) max_incoming_file_size e in
      let short : length (serialize m) + 4 < 2 ^ 32 = omega (arith, small) in
      let (b', received, whole, read) =
        get_message-send_message responses (reset b) m ls [] (fresh b a) small
          (pieces.receives_positive bytes)
          (omega (arith, pieces.receives_enough bytes, length-send_message responses m short)) in
      (b', ap (pump ls (reset b)) (sym (append-nil bytes)) ∙ received, whole, read)

  plain-get_message : (m : Response) → get_message responses (plain m) ≡ some m
  unfolding get_message
  plain-get_message m =
      ap parse (take_all (length (serialize m)) (serialize m) (omega arith)) ∙ parse-serialize m

  pub delivered-get_message :
      (m : Response) (b : IncomingBuffer) → get_message responses (delivered m b) ≡ some m
  delivered-get_message m b = elim (Bool-cases (receivable m && usable b)) [
    | inr e ↦ rw e (plain-get_message m)
    | inl e ↦
        let (ok, allocated) = both_true (receivable m) (usable b) e in
        let (b', received, whole, read) =
          taken m b ((==_iff (length b.buffer) b.capacity).0 allocated) ok in
        rw (e, received) read
  ]

  -- What receive comes to in the end.
  pub pump-delivered :
      (m : Response) (b : IncomingBuffer)
      → IsValid b
      → receivable m ≡ true
      → (pump (pieces.receives (send_message responses m)) (reset b) (send_message responses m)
          ≡ some (delivered m b, []))
        × (need_receive (delivered m b) ≡ false)
        × IsValid (delivered m b)
  pump-delivered m b v e =
      let (b', received, whole, read) = taken m b v.allocated e in
      let valid : IsValid b' = subst LeavesValid received (
        pump-IsValid (pieces.receives (send_message responses m)) (reset b)
          (send_message responses m) (reset-IsValid v)) in
      let same : delivered m b ≡ b' = rw (e, v.allocated, ==_refl b.capacity, received) refl in
      (
        received ∙ ap (λ x. some (x, [])) (sym same),
        ap need_receive same ∙ whole,
        subst IsValid (sym same) valid,
      )

  abbrev pub inbox : Inbox system
  inbox = record {
    inbox = delivered;
    arrives = delivered-get_message;
    outbox = λ o. (deliver (pieces.sends o.buffer) o).0;
  }
