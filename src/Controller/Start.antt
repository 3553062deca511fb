-- ===== src/Controller/Start.antt =====
-- src/controller.cpp: start_controller as a whole, from its parameters to its result.
use distray.Base.{
  ℕ, zero, suc, ◌+◌, ◌<◌, ◌≡◌, ◌≢◌, inl, inr, refl, ◌∙◌, true, false, List, [], ◌∷◌, Option, none,
  some, get_elem?, Bytes, In,
}
use distray.Base.Int.{ℤ, pos, negsuc}
use distray.Frames.{Collected, collected, is_done, get_all}
use distray.Frames.Range.{IsWalkable, ahead, kth, get_all-Lists}
use distray.Util.Endpoint.Lookup.{
  Resolver, Lookup, found, not_found, resolve, ServerCalls, create_server_socket,
}
use distray.Parameters.{Parameters, default_worker_port, default_controller_port}
use distray.RemoteWorker.{System}
use distray.Controller.Coverage.{done_run}
use distray.Controller.Lossless.{Covered, run-Covered}
use distray.Controller.{Controller, Round, Standing, run}

-- -1 before the loop is entered, what get_all or a lookup comes to where they have no result, or how
-- the loop stands.
pub data Started (D : Type 0) : Type 0 where
  refused : Started D
  undefined : Started D
  overflow : Started D
  unfinished : Started D
  began : Standing D → Started D

abbrev pub after_lookup : {A D : Type 0} (lookup : Lookup A) (next : A → Started D) → Started D
after_lookup (found address) next = next address
after_lookup not_found next = refused
after_lookup Lookup.undefined next = undefined

abbrev pub after_socket : {D : Type 0} (sock_fd : Option ℕ) (next : Started D) → Started D
after_socket none next = refused
after_socket (some fd) next = next

-- No worker yet, and these frames.
abbrev pub initial : {D : Type 0} → List ℤ → D → Controller D
initial frames disk = record { workers = []; frames = frames; disk = disk }

module _ (system : System) (parameters : Parameters) where
  open system use {Disk}

  unfoldable pub begin : List Round → Disk → Collected → Started Disk
  unfolding run
  begin rounds disk (collected frames) = began (run system parameters rounds (initial frames disk))
  begin rounds disk Collected.overflow = overflow
  begin rounds disk Collected.unfinished = unfinished

  -- The frames that are done in all.
  unfoldable pub done_in : List Round → Disk → Collected → List ℤ
  unfolding done_run
  done_in rounds disk (collected frames) = done_run system parameters rounds (initial frames disk)
  done_in rounds disk _ = []

  module _ (resolver : Resolver) where
    -- The loop over m_proxy_endpoints.
    unfoldable pub resolve_proxies : {D : Type 0} → List Bytes → Started D → Started D
    unfolding distray.Util.Endpoint.Lookup.parse_and_lookup_endpoint
    resolve_proxies [] next = next
    resolve_proxies (endpoint ∷ endpoints) next =
        let rest = resolve_proxies endpoints next in
        after_lookup (resolve resolver endpoint false [] (pos default_controller_port)) (λ _. rest)

    unfoldable pub start_controller :
        ServerCalls resolver.Address → ℕ → List Round → Disk → Started Disk
    unfolding resolve_proxies begin get_all
    start_controller calls fuel rounds disk =
        after_lookup (resolve resolver parameters.endpoint true [] (pos default_worker_port))
          λ address. resolve_proxies parameters.proxy_endpoints (
            after_socket (create_server_socket calls address)
              (begin rounds disk (get_all fuel parameters.frames)))

  -- What becomes of a frame, where these frames were done: the loop does with it what it does with each,
  -- and get_all has come to its end.
  abbrev pub Achieves : ℤ → List ℤ → Started Disk → Type 0
  Achieves f done (began standing) = Covered f done standing
  Achieves f done refused = Unit
  Achieves f done undefined = Unit
  Achieves f done overflow = ⊥
  Achieves f done unfinished = ⊥

  after_lookup-Achieves :
      {A : Type 0} (f : ℤ) (done : List ℤ) (m : Lookup A) (next : A → Started Disk)
      → ((a : A) → Achieves f done (next a))
      → Achieves f done (after_lookup m next)
  after_lookup-Achieves f done (found a) next h = h a
  after_lookup-Achieves f done not_found next h = tt
  after_lookup-Achieves f done Lookup.undefined next h = tt

  after_socket-Achieves :
      (f : ℤ) (done : List ℤ) (sock_fd : Option ℕ) (next : Started Disk)
      → Achieves f done next
      → Achieves f done (after_socket sock_fd next)
  after_socket-Achieves f done none next h = tt
  after_socket-Achieves f done (some fd) next h = h

  get_elem?-In : (f : ℤ) (v : List ℤ) (k : ℕ) → get_elem? v k ≡ some f → In f v
  get_elem?-In f [] k e = cc
  get_elem?-In f (x ∷ v) zero e = inl (cc e)
  get_elem?-In f (x ∷ v) (suc k) e = inr (get_elem?-In f v k e)

  module _ (resolver : Resolver) where
    resolve_proxies-Achieves :
        (f : ℤ) (done : List ℤ) (endpoints : List Bytes) (next : Started Disk)
        → Achieves f done next
        → Achieves f done (resolve_proxies resolver endpoints next)
    unfolding resolve_proxies
    resolve_proxies-Achieves f done [] next h = h
    resolve_proxies-Achieves f done (endpoint ∷ endpoints) next h =
        after_lookup-Achieves f done
          (resolve resolver endpoint false [] (pos default_controller_port)) _
          (λ _. resolve_proxies-Achieves f done endpoints next h)

    begin-Achieves :
        (fuel k : ℕ) (rounds : List Round) (disk : Disk)
        → IsWalkable parameters.frames
        → ahead parameters.frames parameters.frames.first + 1 < fuel
        → is_done parameters.frames (kth parameters.frames parameters.frames.first k) ≡ false
        → kth parameters.frames parameters.frames.first k ≢ negsuc 0
        → let c = get_all fuel parameters.frames in
          Achieves
            (kth parameters.frames parameters.frames.first k)
            (done_in rounds disk c)
            (begin rounds disk c)
    unfolding begin done_in
    begin-Achieves fuel k rounds disk w enough within real =
        let f = kth parameters.frames parameters.frames.first k in
        let (v, all, lists) = get_all-Lists parameters.frames fuel w enough in
        let at : get_elem? v k ≡ some f = lists k ∙ rw within refl in
        rw all (
          run-Covered system parameters f real rounds (initial v disk)
            (inl (get_elem?-In f v k at)))

    -- With a range whose step is not 0 and that does not leave the ints, and with as much fuel for
    -- get_all as the distance of its ends and two, get_all ends, and a frame of the range other than
    -- -1 is done when start_controller returns 0. As long as its loop goes on the frame is done, in
    -- the queue or under way on a worker, whatever the workers do. Nothing is said of the frame where
    -- start_controller has not come to its loop, or has stopped in it in another way.
    pub start_controller-Achieves :
        (calls : ServerCalls resolver.Address) (fuel k : ℕ) (rounds : List Round) (disk : Disk)
        → IsWalkable parameters.frames
        → ahead parameters.frames parameters.frames.first + 1 < fuel
        → is_done parameters.frames (kth parameters.frames parameters.frames.first k) ≡ false
        → kth parameters.frames parameters.frames.first k ≢ negsuc 0
        → Achieves
            (kth parameters.frames parameters.frames.first k)
            (done_in rounds disk (get_all fuel parameters.frames))
            (start_controller resolver calls fuel rounds disk)
    unfolding start_controller
    start_controller-Achieves calls fuel k rounds disk w enough within real =
        let f = kth parameters.frames parameters.frames.first k in
        let done = done_in rounds disk (get_all fuel parameters.frames) in
        after_lookup-Achieves f done
          (resolve resolver parameters.endpoint true [] (pos default_worker_port)) _
          λ address. resolve_proxies-Achieves f done parameters.proxy_endpoints _ (
            after_socket-Achieves f done (create_server_socket calls address) _
              (begin-Achieves fuel k rounds disk w enough within real))
