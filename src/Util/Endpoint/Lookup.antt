-- ===== src/Util/Endpoint/Lookup.antt =====
-- src/util.cpp: do_dns_lookup, parse_and_lookup_endpoint and Endpoint::resolve, over getaddrinfo, and
-- the sockets for an address.
use distray.Base.{ℕ, suc, Bool, [], ◌∷◌, Option, none, some, not, ◌==◌, if◌then◌else◌, Bytes}
use distray.Base.Int.{ℤ, pos, negsuc}
use distray.Util.CString.{c_str}
use distray.Util.Decimal.{decimal}
use distray.Util.Endpoint.{parse_endpoint}

-- What getaddrinfo returns: an error, success without a list, or the size and the address of the
-- first entry of the list.
pub data Listing (A : Type 0) : Type 0 where
  failed : Listing A
  empty : Listing A
  listed : ℕ → A → Listing A

-- getaddrinfo for a hostname, or a null pointer, for a port and AI_PASSIVE or not; the other hints are
-- always the same.
pub record Resolver : Type 1 where
  pub Address : Type 0
  pub sockaddr_in_size : ℕ
  pub getaddrinfo : Option Bytes → Bytes → Bool → Listing Address

-- An address and true, false, or the output of a null pointer, which is undefined in C++.
pub data Lookup (A : Type 0) : Type 0 where
  found : A → Lookup A
  not_found : Lookup A
  undefined : Lookup A

-- port_stream << port
abbrev pub port_str : ℤ → Bytes
port_str (pos n) = decimal n
port_str (negsuc n) = b'-' ∷ decimal (suc n)

-- hostname.empty() ? nullptr : hostname.c_str()
abbrev pub hostname_s : Bytes → Option Bytes
hostname_s [] = none
hostname_s (c ∷ s) = some (c_str (c ∷ s))

-- The messages about a failure write the hostname.
abbrev pub report : {A : Type 0} → Option Bytes → Lookup A
report none = undefined
report (some s) = not_found

abbrev pub first_option : {A : Type 0} → ℕ → Option Bytes → Listing A → Lookup A
first_option size hostname failed = report hostname
first_option size hostname empty = report hostname
first_option size hostname (listed n address) = if n == size then found address else not_found

module _ (resolver : Resolver) where
  open resolver use {Address, sockaddr_in_size, getaddrinfo}

  unfoldable pub do_dns_lookup : Bytes → ℤ → Bool → Lookup Address
  unfolding c_str decimal
  do_dns_lookup hostname port is_server =
      first_option sockaddr_in_size (hostname_s hostname)
        (getaddrinfo (hostname_s hostname) (port_str port) is_server)

  unfoldable pub parse_and_lookup_endpoint : Bytes → Bool → Bytes → ℤ → Lookup Address
  unfolding do_dns_lookup parse_endpoint
  parse_and_lookup_endpoint endpoint is_server default_hostname default_port =
      let p = parse_endpoint endpoint default_hostname default_port in
      if p.success then do_dns_lookup p.hostname p.port is_server else not_found

  -- Endpoint::resolve; m_sockaddr is the address that is found.
  abbrev pub resolve : Bytes → Bool → Bytes → ℤ → Lookup Address
  resolve endpoint is_server default_hostname default_port =
      parse_and_lookup_endpoint endpoint is_server default_hostname default_port

-- What the calls of create_server_socket answer, in order: a descriptor, and whether each of the others
-- was successful.
pub record ServerCalls (A : Type 0) : Type 0 where
  pub socket : Option ℕ
  pub reuse_address : Bool
  pub reuse_port : Bool
  pub bind : A → Bool
  pub listen : Bool

abbrev pub create_server_socket : {A : Type 0} → ServerCalls A → A → Option ℕ
create_server_socket calls address = elim calls.socket [
  | none ↦ none
  | some fd ↦
      if not calls.reuse_address
      then none
      else if not calls.reuse_port
      then none
      else if not (calls.bind address)
      then none
      else if not calls.listen
      then none
      else some fd
]

pub record ClientCalls (A : Type 0) : Type 0 where
  pub socket : Option ℕ
  pub connect : A → Bool

abbrev pub create_client_socket : {A : Type 0} → ClientCalls A → A → Option ℕ
create_client_socket calls address = elim calls.socket [
  | none ↦ none
  | some fd ↦ if not (calls.connect address) then none else some fd
]
