-- ===== src/Job/Turns.antt =====
-- One exchange after the other, in the loop of src/controller.cpp as in Drive.
use distray.Base.{
  ℕ, zero, suc, ◌+◌, ◌≤◌, ◌≡◌, inl, inr, refl, sym, ◌∙◌, ap, subst, true, false, ◌&&◌, List, [],
  some, arith, drop, Bool-cases,
}
use distray.Base.Int.{ℤ}
use distray.Parameters.{Parameters}
use distray.Drp.{Response}
use distray.Wire.Codec.{be32}
use distray.Wire.Outgoing.{set_message}
use distray.Wire.Incoming.{reset}
use distray.Wire.Incoming.Safety.{IsValid, reset-IsValid}
use distray.Worker.{Machine, handle}
use distray.RemoteWorker.{
  RemoteWorker, System, Outcome, continues, exited, unfinished, is_idle, dispatch,
}
use distray.RemoteWorker.Session.{pending}
use distray.Controller.{Round, waiting, run}
use distray.Job.Drive.{drive, arrived}
use distray.Job.Delivery.{Pieces, inbox, delivered, both_true, pump-delivered}
use distray.Job.Asking.{Asks}
use distray.Job.Rounds.{turns, fits, passes}
use distray.Job.Passes.{one, after, is_idle-after}
use distray.Job.Carried.{asking, exchange-rounds, run-dispatch, fits-limits}
use distray.Job.Settled.{Settled, dispatch-Settled, is_idle-Asks}

module _ (system : System) (parameters : Parameters) (machine : Machine) (pieces : Pieces) where
  open system use {requests, responses}

  abbrev call : Response → RemoteWorker → RemoteWorker
  call m w = arrived system (inbox system pieces) m w

  turns-asking :
      (n : ℕ) (w : RemoteWorker) (frames : List ℤ) (d : system.Disk) (wd : machine.Disk)
      → (asks : Asks system parameters w) → parameters.proxy_endpoints ≡ []
      → is_idle w.state ≡ false
      → fits system parameters machine pieces asks.request (handle machine asks.request wd).0 ≡ true
      → turns system parameters machine pieces (suc n) (waiting (one w frames d), wd)
        ≡ turns system parameters machine pieces n (
          after system parameters frames
              (dispatch system parameters (call (handle machine asks.request wd).0 w) d),
          (handle machine asks.request wd).1,
        )
  unfolding turns
  turns-asking n w frames d wd asks none_left busy e =
      let same : w
          ≡ asking system parameters machine pieces w frames d wd asks.request asks.before
              asks.used =
        λ i. record w { outgoing_buffer = asks.outgoing i; incoming_buffer = asks.incoming i } in
      subst
        (λ v.
          turns system parameters machine pieces (suc n) (waiting (one v frames d), wd)
          ≡ turns system parameters machine pieces n (
            after system parameters frames
                (dispatch system parameters (call (handle machine asks.request wd).0 v) d),
            (handle machine asks.request wd).1,
          ))
        (sym same)
        (ap
            (λ (x : List Round × machine.Disk). turns system parameters machine pieces n (
              run system parameters x.0 (
                  one
                    (asking system parameters machine pieces w frames d wd asks.request asks.before
                      asks.used)
                    frames d),
              x.1,
            ))
            (exchange-rounds system parameters machine pieces w frames d wd asks.request asks.before
              asks.used e)
          ∙ ap
              (λ s.
                turns system parameters machine pieces n (s, (handle machine asks.request wd).1))
              (run-dispatch system parameters machine pieces w frames d wd asks.request asks.before
                asks.used none_left busy asks.valid e))

  abbrev pub AtRest : Outcome system.Disk → Type 0
  AtRest exited = Unit
  AtRest unfinished = Unit
  AtRest (continues w d) = is_idle w.state ≡ true

  abbrev outcome_of : ℕ → Outcome system.Disk → machine.Disk → Outcome system.Disk
  outcome_of n o wd = (drive system parameters machine (inbox system pieces) n o wd).0

  abbrev disk_of : ℕ → Outcome system.Disk → machine.Disk → machine.Disk
  disk_of n o wd = (drive system parameters machine (inbox system pieces) n o wd).1

  -- The loop does in turns what drive does in exchanges.
  abbrev pub Follows :
      ℕ
      → ℕ
      → List ℤ
      → Outcome system.Disk
      → machine.Disk
      → Outcome system.Disk × machine.Disk
      → Type 0
  Follows n m frames o wd p =
      (k : ℕ) × (m ≤ k + n)
      × (turns system parameters machine pieces m (after system parameters frames o, wd)
          ≡ turns system parameters machine pieces k (after system parameters frames p.0, p.1))
      × Settled system parameters p.0

  call-IsValid :
      (w : RemoteWorker) (wd : machine.Disk) (asks : Asks system parameters w)
      → fits system parameters machine pieces asks.request (handle machine asks.request wd).0 ≡ true
      → IsValid (call (handle machine asks.request wd).0 w).incoming_buffer
  call-IsValid w wd asks e =
      let m = (handle machine asks.request wd).0 in
      let ok = (fits-limits system parameters machine pieces asks.request m e).2 in
      let valid = reset-IsValid asks.valid in
      subst (λ b. IsValid (delivered system pieces m b)) (sym asks.incoming)
        (pump-delivered system pieces m (reset asks.used) valid ok).2

  Asks-pending :
      (w : RemoteWorker) (asks : Asks system parameters w) → pending system w ≡ some asks.request
  unfolding pending set_message be32
  Asks-pending w asks =
      ap (λ b. requests.parse (drop 4 b.buffer)) asks.outgoing
      ∙ requests.parse-serialize asks.request

  pub drive-turns :
      (n m : ℕ) (frames : List ℤ) (o : Outcome system.Disk) (wd : machine.Disk)
      → parameters.proxy_endpoints ≡ []
      → n ≤ m
      → Settled system parameters o
      → passes system parameters machine pieces n o wd ≡ true
      → AtRest (outcome_of n o wd)
      → Follows n m frames o wd (drive system parameters machine (inbox system pieces) n o wd)
  unfolding drive passes
  drive-turns zero m frames o wd none_left le ok e rest = (m, omega arith, refl, ok)
  drive-turns (suc n) m frames exited wd none_left le ok e rest = (m, omega arith, refl, tt)
  drive-turns (suc n) m frames unfinished wd none_left le ok e rest = (m, omega arith, refl, tt)
  drive-turns (suc n) zero frames (continues w d) wd none_left le ok e rest = absurd (omega arith)
  drive-turns (suc n) (suc m) frames (continues w d) wd none_left le (keeps, waits) e rest =
      elim (Bool-cases (is_idle w.state)) [
        | inl idles ↦ rw (idles, drive) (suc m, omega arith, refl, (keeps, waits))
        | inr busy ↦
            let asks = is_idle-Asks system parameters w keeps waits busy in
            let r = asks.request in
            let (m', wd') = handle machine r wd in
            let here = Asks-pending w asks in
            let o' = dispatch system parameters (call m' w) d in
            let step : drive system parameters machine (inbox system pieces) (suc n) (continues w d)
                  wd
                ≡ drive system parameters machine (inbox system pieces) n o' wd' =
              rw (busy, here, drive) refl in
            let passing : passes system parameters machine pieces (suc n) (continues w d) wd ≡ (
                fits system parameters machine pieces r m'
                && passes system parameters machine pieces n o' wd') =
              rw (busy, here, passes) refl in
            let (fit, others) =
              both_true (fits system parameters machine pieces r m')
                (passes system parameters machine pieces n o' wd') (sym passing ∙ e) in
            let (k, enough, same, ok) =
              drive-turns n m frames o' wd' none_left (omega arith)
                (dispatch-Settled system parameters (call m' w) d asks.waits
                  (call-IsValid w wd asks fit))
                others (subst (λ p. AtRest p.0) step rest) in
            subst (Follows (suc n) (suc m) frames (continues w d) wd) (sym step) (
              k,
              omega arith,
              ap (λ s. turns system parameters machine pieces (suc m) (s, wd))
                    (is_idle-after system parameters w frames d busy)
                  ∙ turns-asking m w frames d wd asks none_left busy fit
                  ∙ same,
              ok,
            )
      ]
