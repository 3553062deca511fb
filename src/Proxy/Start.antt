-- ===== src/Proxy/Start.antt =====
-- src/proxy.cpp: start_proxy as a whole, from its parameters to the loop.
use distray.Base.{ℕ, true, Option, none, some, List, []}
use distray.Base.Int.{pos}
use distray.Util.Endpoint.Lookup.{
  Resolver, Lookup, found, not_found, resolve, ServerCalls, create_server_socket,
}
use distray.Parameters.{Parameters, default_worker_port, default_controller_port}
use distray.Proxy.{Proxy, Step, Round, run, initial}

-- -1 before the loop is entered, a lookup without a result, or how the loop stands.
pub data Started : Type 0 where
  refused : Started
  undefined : Started
  began : Step Proxy → Started

abbrev pub after_lookup : {A : Type 0} (lookup : Lookup A) (next : A → Started) → Started
after_lookup (found address) next = next address
after_lookup not_found next = refused
after_lookup Lookup.undefined next = undefined

abbrev pub after_socket : (server_fd : Option ℕ) (next : Started) → Started
after_socket none next = refused
after_socket (some fd) next = next

module _ (resolver : Resolver) (parameters : Parameters)
    (workers controllers : ServerCalls resolver.Address) where
  -- Both lookups come before the first socket.
  unfoldable pub start_proxy : List Round → Started
  unfolding distray.Util.Endpoint.Lookup.parse_and_lookup_endpoint run initial
  start_proxy rounds =
      after_lookup (resolve resolver parameters.worker_endpoint true [] (pos default_worker_port))
        λ worker_address.
          after_lookup
            (resolve resolver parameters.controller_endpoint true [] (pos default_controller_port))
            λ controller_address. after_socket (create_server_socket workers worker_address) (
              after_socket (create_server_socket controllers controller_address)
                (began (run rounds initial)))
