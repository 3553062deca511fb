-- ===== src/Drp.antt =====
-- src/Drp.proto: the requests of the controller and the responses of a worker, by what the accessors
-- of the generated classes return (the default where a field is not set).
pub mod Encoding
use distray.Base.{Bool, true, false, List, [], Bytes}
use distray.Base.Int.{ℤ, pos}

pub data RequestType : Type 0 where
  welcome copy_in execute copy_out : RequestType

-- Equality of the enumeration, as `!=` in receive_response.
abbrev pub same_type : RequestType → RequestType → Bool
same_type welcome welcome = true
same_type copy_in copy_in = true
same_type execute execute = true
same_type copy_out copy_out = true
same_type _ _ = false

pub record CopyInRequest : Type 0 where
  pub pathname : Bytes
  pub content : Bytes

pub record ExecuteRequest : Type 0 where
  pub executable : Bytes
  pub argument : List Bytes

pub record CopyOutRequest : Type 0 where
  pub pathname : Bytes

pub record Request : Type 0 where
  pub request_type : RequestType
  pub copy_in_request : CopyInRequest
  pub execute_request : ExecuteRequest
  pub copy_out_request : CopyOutRequest

pub record WelcomeResponse : Type 0 where
  pub hostname : Bytes
  pub core_count : ℤ

pub record CopyInResponse : Type 0 where
  pub success : Bool

pub record ExecuteResponse : Type 0 where
  pub status : ℤ

pub record CopyOutResponse : Type 0 where
  pub success : Bool
  pub content : Bytes

pub record Response : Type 0 where
  pub request_type : RequestType
  pub welcome_response : WelcomeResponse
  pub copy_in_response : CopyInResponse
  pub execute_response : ExecuteResponse
  pub copy_out_response : CopyOutResponse

-- A fresh message, whose fields have their defaults, of the given type.
abbrev pub request_of : RequestType → Request
request_of t = record {
  request_type = t;
  copy_in_request = record { pathname = []; content = [] };
  execute_request = record { executable = []; argument = [] };
  copy_out_request = record { pathname = [] };
}

abbrev pub response_of : RequestType → Response
response_of t = record {
  request_type = t;
  welcome_response = record { hostname = []; core_count = pos 0 };
  copy_in_response = record { success = false };
  execute_response = record { status = pos 0 };
  copy_out_response = record { success = false; content = [] };
}
