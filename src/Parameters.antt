-- ===== src/Parameters.antt =====
-- src/Parameters.hpp: what the command line asks for.
use distray.Base.{ℕ, Bool, ◌||◌, List, Bytes}
use distray.Frames.{Frames}
use distray.Util.Parameter.{string_has_parameter}

abbrev pub default_worker_port : ℕ
default_worker_port = 1120

abbrev pub default_controller_port : ℕ
default_controller_port = 1121

pub data Command : Type 0 where
  cmd_unspecified cmd_worker cmd_proxy cmd_controller cmd_unittest : Command

-- A file copy, with the two flags that its constructor computes.
pub record FileCopy : Type 0 where
  pub source : Bytes
  pub destination : Bytes
  pub source_has_parameter : Bool
  pub destination_has_parameter : Bool

unfoldable pub file_copy : Bytes → Bytes → FileCopy
unfolding string_has_parameter
file_copy source destination = record {
  source = source;
  destination = destination;
  source_has_parameter = string_has_parameter source;
  destination_has_parameter = string_has_parameter destination;
}

-- FileCopy::has_parameter
abbrev pub has_parameter : FileCopy → Bool
has_parameter c = c.source_has_parameter || c.destination_has_parameter

-- An endpoint is its text; the address is looked up later.
pub record Parameters : Type 0 where
  pub command : Command
  pub endpoint : Bytes
  pub worker_endpoint : Bytes
  pub controller_endpoint : Bytes
  pub proxy_endpoints : List Bytes
  pub in_copies : List FileCopy
  pub out_copies : List FileCopy
  pub frames : Frames
  pub executable : Bytes
  pub arguments : List Bytes
