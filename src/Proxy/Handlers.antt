-- ===== src/Proxy/Handlers.antt =====
-- What each of the handlers of a ready descriptor keeps, and that none ends with a programmer error.
use distray.Base.{
  ℕ, zero, suc, ◌≡◌, ◌≢◌, ◌⊎◌, inl, inr, refl, sym, ◌∙◌, Bool, true, List, [], ◌∷◌, some, arith,
  get_elem?, update_at, Bool-cases, Option-cases,
}
use distray.Base.Int.{ℤ, ◌==ℤ◌}
use distray.Wire.Incoming.{Answer, connreset, other}
use distray.Wire.Outgoing.{Sent}
use distray.Proxy.Buffers
use distray.Proxy.Buffers.{Moved}
use distray.Proxy.Connections
use distray.Proxy.Connections.{Connection, Transfer, unknown_fd, find, Pollfd, put_c2w, put_w2c}
use distray.Proxy.Find.{owns, any_owns, find-none, find-some, any_owns-update, any_owns-erase}
use distray.Proxy.{
  Proxy, programmer_error, receive_error, send_error, Step, running, stopped, ◌>>=◌, Event,
  contains, no_fd, close_at, find_fd, put_at, after_receive, after_send, read_fd, write_fd, kill_fd,
}

-- A result that is no programmer error, and satisfies P where the loop goes on.
abbrev pub Fine {ℓ} : {A : Type ℓ} → (A → Type 0) → Step A → Type 0
Fine P (running a) = P a
Fine P (stopped programmer_error) = ⊥
Fine P (stopped receive_error) = Unit
Fine P (stopped send_error) = Unit

pub Fine-bind {ℓ κ} :
    {A : Type ℓ} {B : Type κ} (P : A → Type 0) (Q : B → Type 0) (m : Step A) (f : A → Step B)
    → Fine P m
    → ((a : A) → P a → Fine Q (f a))
    → Fine Q (m >>= f)
Fine-bind P Q (running a) f h k = k a h
Fine-bind P Q (stopped programmer_error) f h k = elim h [ ]
Fine-bind P Q (stopped receive_error) f h k = tt
Fine-bind P Q (stopped send_error) f h k = tt

pub Fine-map {ℓ} :
    {A : Type ℓ} (P Q : A → Type 0) (m : Step A) → Fine P m → ((a : A) → P a → Q a) → Fine Q m
Fine-map P Q (running a) h f = f a h
Fine-map P Q (stopped programmer_error) h f = h
Fine-map P Q (stopped receive_error) h f = tt
Fine-map P Q (stopped send_error) h f = tt

-- A descriptor that a connection has, or that was closed in this pass.
abbrev pub Known : ℤ → Proxy → Type 0
Known fd p = (contains p.deleted_fds fd ≡ true) ⊎ (any_owns fd p.connections ≡ true)

abbrev pub Owned : ℤ → Proxy → Type 0
Owned fd p = any_owns fd p.connections ≡ true

-- No known descriptor is forgotten.
abbrev pub Keeps : Proxy → Proxy → Type 0
Keeps p q = (fd : ℤ) → fd ≢ no_fd → Known fd p → Known fd q

-- The same descriptors.
abbrev pub SameFds : Connection → Connection → Type 0
SameFds c d = (c.worker_fd ≡ d.worker_fd) × (c.controller_fd ≡ d.controller_fd)

-- An operation on a connection that has the descriptor keeps its descriptors, and knows which it is.
abbrev Carried : Connection → Transfer → Type 0
Carried c (Transfer.moved d) = SameFds c d
Carried c (Transfer.broken e) = Unit
Carried c unknown_fd = ⊥

put_c2w-Carried : (c : Connection) (m : Moved) → Carried c (put_c2w c m)
put_c2w-Carried c (Moved.moved b) = (refl, refl)
put_c2w-Carried c (Moved.broken e) = tt

put_w2c-Carried : (c : Connection) (m : Moved) → Carried c (put_w2c c m)
put_w2c-Carried c (Moved.moved b) = (refl, refl)
put_w2c-Carried c (Moved.broken e) = tt

receive-Carried :
    (fd : ℤ) (answer : Answer) (c : Connection)
    → owns fd c ≡ true
    → Carried c (Connections.receive fd answer c)
unfolding Connections.receive
receive-Carried fd answer c own = elim (Bool-cases (fd ==ℤ c.worker_fd)) [
  | inl e ↦ simp e (put_w2c-Carried c (Buffers.receive c.w2c answer))
  | inr e ↦
      let controller : (fd ==ℤ c.controller_fd) ≡ true = ground arith in
      simp (e, controller) (put_c2w-Carried c (Buffers.receive c.c2w answer))
]

send-Carried :
    (fd : ℤ) (answer : Sent) (c : Connection)
    → owns fd c ≡ true
    → Carried c (Connections.send fd answer c)
unfolding Connections.send
send-Carried fd answer c own = elim (Bool-cases (fd ==ℤ c.worker_fd)) [
  | inl e ↦ simp e (put_c2w-Carried c (Buffers.send c.c2w answer))
  | inr e ↦
      let controller : (fd ==ℤ c.controller_fd) ≡ true = ground arith in
      simp (e, controller) (put_w2c-Carried c (Buffers.send c.w2c answer))
]

any_owns-at :
    (fd : ℤ) (cs : List Connection) (k : ℕ) (c : Connection)
    → get_elem? cs k ≡ some c
    → owns fd c ≡ true
    → any_owns fd cs ≡ true
any_owns-at fd [] k c at own = cc
any_owns-at fd (x ∷ cs) zero c at own = ground arith
any_owns-at fd (x ∷ cs) (suc k) c at own = ground (arith, any_owns-at fd cs k c at own)

-- A place in the list and the connection there.
abbrev At : Proxy → ℤ → ℕ × Connection → Type 0
At p fd (k, c) = (get_elem? p.connections k ≡ some c) × (owns fd c ≡ true)

find_fd-Fine : (fd : ℤ) (p : Proxy) → Owned fd p → Fine (At p fd) (find_fd fd p)
unfolding find_fd
find_fd-Fine fd p own = elim (Option-cases (find p.connections fd fd)) [
  | inl e ↦ let missing = find-none fd fd p.connections e in cc (sym own ∙ missing)
  | inr (k, e) ↦
      let (c, at, o) = find-some fd fd p.connections k e in
      let found : find_fd fd p ≡ running (k, c) = ground arith in rw found (at, o)
]

-- Replacing a connection by one with the same descriptors.
put_at-owns :
    (p : Proxy) (k : ℕ) (c d : Connection) (fd : ℤ)
    → get_elem? p.connections k ≡ some c
    → SameFds c d
    → any_owns fd p.connections ≡ true
    → any_owns fd (update_at k (λ _. d) p.connections) ≡ true
put_at-owns p k c d fd at (w, r) o =
    any_owns-update fd (λ _. d) p.connections k at (λ h. rw (← w, ← r) h) o

put_at-Keeps :
    (p : Proxy) (k : ℕ) (c d : Connection)
    → get_elem? p.connections k ≡ some c
    → SameFds c d
    → Keeps p (put_at k d p)
put_at-Keeps p k c d at same fd h (inl gone) = inl gone
put_at-Keeps p k c d at same fd h (inr o) = inr (put_at-owns p k c d fd at same o)

-- A closed connection leaves the list, and its descriptors are remembered.
close_at-Keeps :
    (p : Proxy) (k : ℕ) (c : Connection)
    → get_elem? p.connections k ≡ some c
    → Keeps p (close_at k c p)
unfolding close_at
close_at-Keeps p k c at fd h (inl gone) = inl (ground arith)
close_at-Keeps p k c at fd h (inr o) = elim (any_owns-erase fd p.connections k at o) [
  | inl own ↦ inl (ground arith)
  | inr rest ↦ inr rest
]

-- Behind a read: either the connection is still there, or the rest of the body is skipped.
abbrev pub AfterRead : ℤ → Proxy → Proxy × Bool → Type 0
AfterRead fd p (q, skip_rest) = Keeps p q × ((skip_rest ≡ true) ⊎ Owned fd q)

after_receive-Fine :
    (p : Proxy) (fd : ℤ) (k : ℕ) (c : Connection) (t : Transfer)
    → At p fd (k, c)
    → Carried c t
    → Fine (AfterRead fd p) (after_receive k c p t)
after_receive-Fine p fd k c (Transfer.moved d) (at, own) same =
    let there = any_owns-at fd p.connections k c at own in
    (put_at-Keeps p k c d at same, inr (put_at-owns p k c d fd at same there))
after_receive-Fine p fd k c (Transfer.broken connreset) (at, own) same =
    (close_at-Keeps p k c at, inl refl)
after_receive-Fine p fd k c (Transfer.broken other) (at, own) same = tt
after_receive-Fine p fd k c unknown_fd (at, own) same = same

pub read_fd-Fine :
    (fd : ℤ) (e : Event) (p : Proxy) → Owned fd p → Fine (AfterRead fd p) (read_fd fd e p)
unfolding read_fd
read_fd-Fine fd e p own =
    Fine-bind (At p fd) (AfterRead fd p) (find_fd fd p) _ (find_fd-Fine fd p own) λ (k, c) at.
      after_receive-Fine p fd k c (Connections.receive fd e.received c) at
        (receive-Carried fd e.received c at.1)

abbrev pub AfterWrite : ℤ → Proxy → Proxy → Type 0
AfterWrite fd p q = Keeps p q × Owned fd q

after_send-Fine :
    (p : Proxy) (fd : ℤ) (k : ℕ) (c : Connection) (t : Transfer)
    → At p fd (k, c)
    → Carried c t
    → Fine (AfterWrite fd p) (after_send k p t)
after_send-Fine p fd k c (Transfer.moved d) (at, own) same =
    let there = any_owns-at fd p.connections k c at own in
    (put_at-Keeps p k c d at same, put_at-owns p k c d fd at same there)
after_send-Fine p fd k c (Transfer.broken e) at same = tt
after_send-Fine p fd k c unknown_fd at same = same

pub write_fd-Fine :
    (fd : ℤ) (e : Event) (p : Proxy) → Owned fd p → Fine (AfterWrite fd p) (write_fd fd e p)
unfolding write_fd
write_fd-Fine fd e p own =
    Fine-bind (At p fd) (AfterWrite fd p) (find_fd fd p) _ (find_fd-Fine fd p own) λ (k, c) at.
      after_send-Fine p fd k c (Connections.send fd e.sent c) at (send-Carried fd e.sent c at.1)

pub kill_fd-Fine : (fd : ℤ) (p : Proxy) → Owned fd p → Fine (Keeps p) (kill_fd fd p)
unfolding kill_fd
kill_fd-Fine fd p own =
    Fine-bind (At p fd) (Keeps p) (find_fd fd p) _ (find_fd-Fine fd p own)
      λ (k, c) at. close_at-Keeps p k c at.0
