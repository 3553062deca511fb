-- ===== src/Proxy/Run.antt =====
-- Whole rounds of the loop of start_proxy: what holds of the connections in every round, and that no
-- round ends the program with a programmer error.
use distray.Base.{
  ◌≡◌, ◌≢◌, inl, inr, ap, ◌∙◌, Bool, true, false, List, [], ◌∷◌, arith, Bool-cases, All, All-append,
}
use distray.Base.Int.{ℤ, ◌==ℤ◌, ==ℤ_refl}
use distray.Proxy.Connections.{Connection, Pollfd, pollfd_of, pollfds_of}
use distray.Proxy.Buffers.{Buffer}
use distray.Proxy.Find.{any_owns}
use distray.Proxy.Accept.{
  IsLegal, Paired, HasWorker, HasController, accept_worker-IsLegal, accept_controller-IsLegal,
  accept_worker-Paired, accept_controller-Paired, accept_worker-owns, accept_controller-owns,
}
use distray.Proxy.Loop.{AllKnown, serve_all-Fine}
use distray.Proxy.Handlers.{Fine, Fine-bind, Fine-map, SameFds}
use distray.Proxy.{
  Proxy, programmer_error, receive_error, send_error, Step, running, stopped, Event, no_fd,
  dont_care, listen, serve_all, pollfds, report, Round, round, run, initial,
}
use distray.Proxy.Keep.{Whenever, serve_all-All}

Fine-both {ℓ} :
    {A : Type ℓ} (P Q : A → Type 0) (m : Step A) → Fine P m → Whenever Q m → Fine (λ a. P a × Q a) m
Fine-both P Q (running a) h k = (h, k)
Fine-both P Q (stopped programmer_error) h k = h
Fine-both P Q (stopped receive_error) h k = tt
Fine-both P Q (stopped send_error) h k = tt

Whenever-map {ℓ} :
    {A : Type ℓ} (P Q : A → Type 0) (m : Step A)
    → Whenever P m
    → ((a : A) → P a → Q a)
    → Whenever Q m
Whenever-map P Q (running a) h f = f a h
Whenever-map P Q (stopped e) h f = tt

IsLegal-stable : (c d : Connection) → SameFds c d → IsLegal c → IsLegal d
IsLegal-stable c d (w, k) (lw, lk) = (λ h. lw (w ∙ h), λ h. lk (k ∙ h))

HasWorker-stable : (c d : Connection) → SameFds c d → HasWorker c → HasWorker d
HasWorker-stable c d (w, k) h = λ e. h (w ∙ e)

HasController-stable : (c d : Connection) → SameFds c d → HasController c → HasController d
HasController-stable c d (w, k) h = λ e. h (k ∙ e)

-- What every round of the loop keeps.
pub record IsPaired (p : Proxy) : Type 0 where
  pub legal : All IsLegal p.connections
  pub paired : Paired p.connections

serve_all-IsPaired :
    (events : List (Pollfd × Event)) (p : Proxy)
    → IsPaired p
    → Whenever IsPaired (serve_all events p)
serve_all-IsPaired events p i =
    let legal = serve_all-All IsLegal IsLegal-stable events p i.legal in
    go (serve_all events p) legal (elim i.paired [
      | inl h ↦
          Whenever-map _ _ (serve_all events p)
            (serve_all-All HasWorker HasWorker-stable events p h) (λ q k. inl k)
      | inr h ↦
          Whenever-map _ _ (serve_all events p)
            (serve_all-All HasController HasController-stable events p h) (λ q k. inr k)
    ])
  where
    go :
        (m : Step Proxy)
        → Whenever (λ q. All IsLegal q.connections) m
        → Whenever (λ q. Paired q.connections) m
        → Whenever IsPaired m
    go (running q) l k = record { legal = l; paired = k }
    go (stopped e) l k = tt

-- accept answers a new descriptor: neither -1 nor a value below it.
abbrev pub Accepts : Event → Type 0
Accepts e = (e.conn_fd ≢ no_fd) × (e.conn_fd ≢ dont_care)

listen_workers-IsPaired :
    (e : Event) (p : Proxy) → Accepts e → IsPaired p → IsPaired (listen true e p)
unfolding listen
listen_workers-IsPaired e p (n, l) i = elim (Bool-cases e.pollin) [
  | inr h ↦ simp h i
  | inl h ↦ simp h (record {
    legal = accept_worker-IsLegal p.connections e.conn_fd l i.legal;
    paired = accept_worker-Paired p.connections e.conn_fd i.legal n i.paired;
  })
]

listen_controllers-IsPaired :
    (e : Event) (p : Proxy) → Accepts e → IsPaired p → IsPaired (listen false e p)
unfolding listen
listen_controllers-IsPaired e p (n, l) i = elim (Bool-cases e.pollin) [
  | inr h ↦ simp h i
  | inl h ↦ simp h (record {
    legal = accept_controller-IsLegal p.connections e.conn_fd l i.legal;
    paired = accept_controller-Paired p.connections e.conn_fd i.legal n i.paired;
  })
]

listen-owns :
    (for_workers : Bool) (e : Event) (p : Proxy) (fd : ℤ)
    → IsPaired p
    → fd ≢ no_fd
    → any_owns fd p.connections ≡ true
    → any_owns fd (listen for_workers e p).connections ≡ true
unfolding listen
listen-owns true e p fd i n o = elim (Bool-cases e.pollin) [
  | inr h ↦ simp h o
  | inl h ↦ simp h (accept_worker-owns p.connections e.conn_fd fd i.legal n o)
]
listen-owns false e p fd i n o = elim (Bool-cases e.pollin) [
  | inr h ↦ simp h o
  | inl h ↦ simp h (accept_controller-owns p.connections e.conn_fd fd i.legal n o)
]

own_worker : (c : Connection) (cs : List Connection) → any_owns c.worker_fd (c ∷ cs) ≡ true
own_worker c cs = ground (arith, ==ℤ_refl c.worker_fd)

own_controller : (c : Connection) (cs : List Connection) → any_owns c.controller_fd (c ∷ cs) ≡ true
own_controller c cs = ground (arith, ==ℤ_refl c.controller_fd)

-- What is watched belongs to the connections.
abbrev Watched : List Connection → Pollfd → Type 0
Watched cs entry = (entry.fd ≢ no_fd) × (any_owns entry.fd cs ≡ true)

pollfd_of-Watched :
    (fd : ℤ) (b : Buffer) (cs : List Connection)
    → any_owns fd cs ≡ true
    → All (Watched cs) (pollfd_of fd b)
pollfd_of-Watched fd b cs o = elim (Bool-cases (fd ==ℤ no_fd)) [
  | inl e ↦ simp e tt
  | inr e ↦ simp e (((λ h. ground (arith, ap (λ w. w ==ℤ no_fd) h)), o), tt)
]

pollfds_of-Watched :
    (c : Connection) (cs : List Connection)
    → any_owns c.worker_fd cs ≡ true
    → any_owns c.controller_fd cs ≡ true
    → All (Watched cs) (pollfds_of c)
pollfds_of-Watched c cs w k =
    All-append (Watched cs) (pollfd_of c.worker_fd c.c2w) (pollfd_of c.controller_fd c.w2c)
      (pollfd_of-Watched c.worker_fd c.c2w cs w) (pollfd_of-Watched c.controller_fd c.w2c cs k)

All-weaken :
    (P Q : Pollfd → Type 0) (xs : List Pollfd) → ((x : Pollfd) → P x → Q x) → All P xs → All Q xs
All-weaken P Q [] f h = tt
All-weaken P Q (x ∷ xs) f h = (f x h.0, All-weaken P Q xs f h.1)

pollfds-Watched : (cs : List Connection) → All (Watched cs) (pollfds cs)
unfolding pollfds
pollfds-Watched [] = tt
pollfds-Watched (c ∷ cs) =
    All-append (Watched (c ∷ cs)) (pollfds_of c) (pollfds cs)
      (pollfds_of-Watched c (c ∷ cs) (own_worker c cs) (own_controller c cs))
      (All-weaken (Watched cs) (Watched (c ∷ cs)) (pollfds cs) (λ x (n, o). (n, ground arith))
        (pollfds-Watched cs))

report-AllKnown :
    (p : Proxy) (entries : List Pollfd) (events : List Event)
    → All (λ (x : Pollfd). (x.fd ≢ no_fd) × (any_owns x.fd p.connections ≡ true)) entries
    → AllKnown p (report entries events)
report-AllKnown p [] events h = tt
report-AllKnown p (x ∷ entries) [] h = tt
report-AllKnown p (x ∷ entries) (e ∷ events) ((n, o), h) =
    ((n, inr o), report-AllKnown p entries events h)

abbrev pub RoundAccepts : Round → Type 0
RoundAccepts r = Accepts r.workers × Accepts r.controllers

-- A round of the loop never ends with a programmer error, and if it does not end at all the
-- connections stay paired.
round-IsPaired : (r : Round) (p : Proxy) → RoundAccepts r → IsPaired p → Fine IsPaired (round r p)
unfolding round
round-IsPaired r p (aw, ac) i =
    let fresh : Proxy = record p { deleted_fds = [] } in
    let start : IsPaired fresh = record { legal = i.legal; paired = i.paired } in
    let p1 = listen true r.workers fresh in
    let i1 = listen_workers-IsPaired r.workers fresh aw start in
    let p2 = listen false r.controllers p1 in
    let i2 = listen_controllers-IsPaired r.controllers p1 ac i1 in
    let events = report (pollfds p.connections) r.others in
    let known =
      All-weaken (Watched p.connections) (Watched p2.connections) (pollfds p.connections)
        (λ x (n, o). (
          n,
          listen-owns false r.controllers p1 x.fd i1 n
              (listen-owns true r.workers fresh x.fd start n o),
        ))
        (pollfds-Watched p.connections) in
    Fine-map (λ q. Unit {0} × IsPaired q) IsPaired (serve_all events p2)
      (Fine-both (λ _. Unit {0}) IsPaired (serve_all events p2)
        (serve_all-Fine events p2 (report-AllKnown p2 (pollfds p.connections) r.others known))
        (serve_all-IsPaired events p2 i2))
      (λ q h. h.1)

-- From paired connections on, whatever poll, accept, recv and ::send answer in any number of rounds, as long as
-- accept succeeds, the proxy never ends with one of its programmer errors (an event whose descriptor
-- no connection has), and while it runs no connection that waits for a worker stands beside one that
-- waits for a controller.
pub run-IsPaired :
    (rs : List Round) (p : Proxy) → All RoundAccepts rs → IsPaired p → Fine IsPaired (run rs p)
unfolding run
run-IsPaired [] p h i = i
run-IsPaired (r ∷ rs) p (h, hs) i =
    Fine-bind IsPaired IsPaired (round r p) (run rs) (round-IsPaired r p h i)
      (λ q k. run-IsPaired rs q hs k)

pub initial-IsPaired : IsPaired initial
unfolding initial
initial-IsPaired = record { legal = tt; paired = inl tt }
