-- ===== src/Wire/Incoming/PumpSafety.antt =====
-- The loop round `receive` keeps the buffer well formed.
use distray.Base.{
  ℕ, min, ◌≤◌, List, [], ◌∷◌, Option, none, some, arith, Bytes, length, take, drop, length-take,
  Bool-cases, inl, inr,
}
use distray.Wire.Incoming.{
  IncomingBuffer, recv_here, Received, received_ok, failed, exited, need_receive, bytes_left,
  receive,
}
use distray.Wire.Incoming.Safety.{IsValid, Ensures, receive-IsValid}
use distray.Wire.Incoming.Pump.{pump, on_ok}

abbrev pub LeavesValid : Option (IncomingBuffer × Bytes) → Type 0
LeavesValid none = Unit
LeavesValid (some (b, rest)) = IsValid b

on_ok-LeavesValid :
    (r : Received) (next : IncomingBuffer → Option (IncomingBuffer × Bytes))
    → Ensures IsValid r
    → ((b : IncomingBuffer) → IsValid b → LeavesValid (next b))
    → LeavesValid (on_ok r next)
on_ok-LeavesValid (received_ok b) next v k = k b v
on_ok-LeavesValid (failed e) next v k = tt
on_ok-LeavesValid exited next v k = tt

pub pump-IsValid :
    (ks : List ℕ) (b : IncomingBuffer) (stream : Bytes) → IsValid b → LeavesValid (pump ks b stream)
unfolding pump
pump-IsValid [] b stream v = v
pump-IsValid (k ∷ ks) b stream v = elim (Bool-cases (need_receive b)) [
  | inr whole ↦ rw whole v
  | inl more ↦
      let n = min k (bytes_left b) in
      let asked : length (take n stream) ≤ bytes_left b = omega (arith, length-take n stream) in
      rw more (
        on_ok-LeavesValid (receive b (recv_here (take n stream))) (λ b'. pump ks b' (drop n stream))
          (receive-IsValid b (recv_here (take n stream)) v asked).0
          (λ b' v'. pump-IsValid ks b' (drop n stream) v'))
]
