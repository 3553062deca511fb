-- ===== src/Worker/Start.antt =====
-- src/worker.cpp: start_worker as a whole.
use distray.Base.{Option, none, some, List, [], false, ℕ}
use distray.Base.Int.{pos}
use distray.Wire.Codec.{Codec}
use distray.Util.Endpoint.Lookup.{
  Resolver, Lookup, found, not_found, resolve, ClientCalls, create_client_socket,
}
use distray.Parameters.{Parameters, default_worker_port}
use distray.Drp.{Request, Response}
use distray.Worker.{Machine, Round, Served, serve}

-- -1 before the loop is entered, a lookup without a result, or what has come of the loop.
pub data Started (machine : Machine) : Type 0 where
  refused : Started machine
  undefined : Started machine
  began : Served machine → Started machine

module _ (machine : Machine) (requests : Codec Request) (responses : Codec Response) where
  open machine use {Disk}

  abbrev after_socket : Option ℕ → List Round → Disk → Started machine
  after_socket none rounds disk = refused
  after_socket (some sockfd) rounds disk = began (serve machine requests responses rounds disk)

  unfoldable pub start_worker :
      (resolver : Resolver)
      → ClientCalls resolver.Address
      → Parameters
      → List Round
      → Disk
      → Started machine
  unfolding distray.Util.Endpoint.Lookup.parse_and_lookup_endpoint serve
  start_worker resolver calls parameters rounds disk =
      elim (resolve resolver parameters.endpoint false [] (pos default_worker_port)) [
        | not_found ↦ refused
        | Lookup.undefined ↦ undefined
        | found address ↦ after_socket (create_client_socket calls address) rounds disk
      ]
