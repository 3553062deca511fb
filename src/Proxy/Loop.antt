-- ===== src/Proxy/Loop.antt =====
-- The body of the inner loop of start_proxy, and the loop over all descriptors, end with no programmer
-- error.
use distray.Base.{
  ◌≡◌, ◌≢◌, ◌⊎◌, inl, inr, Bool, true, ◌&&◌, not, List, [], ◌∷◌, arith, Bool-cases, All,
}
use distray.Base.Int.{ℤ}
use distray.Proxy.Connections.{Pollfd}
use distray.Proxy.{
  Proxy, Event, contains, no_fd, write_fd, read_if_ready, write_if_ready, kill_if_dead, serve,
  serve_all,
}
use distray.Proxy.Handlers.{
  Fine, Fine-bind, Fine-map, Known, Owned, Keeps, AfterRead, read_fd-Fine, AfterWrite,
  write_fd-Fine, kill_fd-Fine,
}

Keeps-trans : (p q r : Proxy) → Keeps p q → Keeps q r → Keeps p r
Keeps-trans p q r f g fd h k = g fd h (f fd h k)

-- The rest of the body is skipped, or the descriptor still has its connection.
abbrev Goes : ℤ → Bool → Proxy → Type 0
Goes fd skip_rest q = (skip_rest ≡ true) ⊎ Owned fd q

read_if_ready-Fine :
    (fd : ℤ) (e : Event) (p : Proxy) → Owned fd p → Fine (AfterRead fd p) (read_if_ready fd e p)
unfolding read_if_ready
read_if_ready-Fine fd e p own = elim (Bool-cases e.pollin) [
  | inl h ↦ simp h (read_fd-Fine fd e p own)
  | inr h ↦ simp h (λ f _ k. k, inr own)
]

write_if_ready-Fine :
    (fd : ℤ) (e : Event) (skip_rest : Bool) (q : Proxy)
    → Goes fd skip_rest q
    → Fine (λ r. Keeps q r × Goes fd skip_rest r) (write_if_ready fd e skip_rest q)
unfolding write_if_ready
write_if_ready-Fine fd e skip_rest q goes = elim (Bool-cases (e.pollout && not skip_rest)) [
  | inr h ↦ simp h (λ f _ k. k, goes)
  | inl h ↦ simp h (
      Fine-map (AfterWrite fd q) _ (write_fd fd e q) (write_fd-Fine fd e q (ground arith))
        (λ r (keeps, there). (keeps, inr there)))
]

kill_if_dead-Fine :
    (fd : ℤ) (e : Event) (skip_rest : Bool) (q : Proxy)
    → Goes fd skip_rest q
    → Fine (Keeps q) (kill_if_dead fd e skip_rest q)
unfolding kill_if_dead
kill_if_dead-Fine fd e skip_rest q goes = elim (Bool-cases (e.dead && not skip_rest)) [
  | inr h ↦ simp h (λ f _ k. k)
  | inl h ↦ simp h (kill_fd-Fine fd q (ground arith))
]

serve-Fine : (fd : ℤ) (e : Event) (p : Proxy) → Owned fd p → Fine (Keeps p) (serve fd e p)
unfolding serve
serve-Fine fd e p own =
    Fine-bind (AfterRead fd p) (Keeps p) (read_if_ready fd e p) _ (read_if_ready-Fine fd e p own)
      λ (q, skip_rest) (keeps, goes).
        Fine-bind (λ r. Keeps q r × Goes fd skip_rest r) (Keeps p) (write_if_ready fd e skip_rest q)
          _ (write_if_ready-Fine fd e skip_rest q goes)
          λ r (keeps', goes').
            Fine-map (Keeps r) (Keeps p) (kill_if_dead fd e skip_rest r)
              (kill_if_dead-Fine fd e skip_rest r goes')
              (λ s keeps''. Keeps-trans p q s keeps (Keeps-trans q r s keeps' keeps''))

-- Every entry is known, and none is the -1 of a missing descriptor.
abbrev pub AllKnown : Proxy → List (Pollfd × Event) → Type 0
AllKnown p = All (λ (x : Pollfd × Event). (x.0.fd ≢ no_fd) × Known x.0.fd p)

AllKnown-Keeps :
    (p q : Proxy) (events : List (Pollfd × Event))
    → Keeps p q
    → AllKnown p events
    → AllKnown q events
AllKnown-Keeps p q [] f h = tt
AllKnown-Keeps p q (x ∷ events) f ((n, k), h) = ((n, f x.0.fd n k), AllKnown-Keeps p q events f h)

pub serve_all-Fine :
    (events : List (Pollfd × Event)) (p : Proxy)
    → AllKnown p events
    → Fine (λ _. Unit {0}) (serve_all events p)
unfolding serve_all
serve_all-Fine [] p h = tt
serve_all-Fine ((entry, e) ∷ events) p ((n, known), h) =
    go known (λ q f. serve_all-Fine events q (AllKnown-Keeps p q events f h))
  where
    go :
        Known entry.fd p
        → ((q : Proxy) → Keeps p q → Fine (λ _. Unit {0}) (serve_all events q))
        → Fine (λ _. Unit {0}) (serve_all ((entry, e) ∷ events) p)
    go known rest = elim (Bool-cases (contains p.deleted_fds entry.fd)) [
      | inl gone ↦ simp gone (rest p (λ f _ k. k))
      | inr live ↦
          let own : Owned entry.fd p = elim known [ inl k ↦ cc | inr o ↦ o ] in
          simp live (
            Fine-bind (Keeps p) (λ _. Unit {0}) (serve entry.fd e p) (serve_all events)
              (serve-Fine entry.fd e p own) rest)
    ]
