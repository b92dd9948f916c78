-- ===== src/Ipc/Types.antt =====
-- The messages of proto/agentx_ipc.proto as src/generated_pb/agentx_ipc.pb.h declares them. A char
-- array holds the bytes before its terminator, and bytes_val those that its size counts.
use agentx_subagent.Prelude.{ℕ, Option, Bytes}
use agentx_subagent.Prelude.Int.{ℤ}

-- Status
pub data Status : Type 0 where
  unspecified ok not_found type_mismatch invalid read_only storage_error : Status

-- ValueType, as numbers: the field of a decoded message holds any int.
abbrev pub value_type_int32 : ℕ
value_type_int32 = 1

abbrev pub value_type_uint32 : ℕ
value_type_uint32 = 2

abbrev pub value_type_uint64 : ℕ
value_type_uint64 = 3

abbrev pub value_type_bytes : ℕ
value_type_bytes = 4

pub record Value : Type 0 where
  pub type : ℕ
  pub int32_val : ℤ
  pub uint32_val : ℕ
  pub uint64_val : ℕ
  pub bytes_val : Bytes

-- `none` is has_value == false.
pub record WriteConfigRequest : Type 0 where
  pub key : Bytes
  pub value : Option Value

pub record WriteConfigResponse : Type 0 where
  pub status : Status
  pub message : Bytes

pub record ReadConfigRequest : Type 0 where
  pub key : Bytes

pub record ReadConfigResponse : Type 0 where
  pub status : Status
  pub value : Option Value
  pub message : Bytes

pub record SendTrapRequest : Type 0 where
  pub trap_name : Bytes

pub record SendTrapResponse : Type 0 where
  pub status : Status
  pub message : Bytes

-- which_body with the member of the union that it selects; `unset` is which_body == 0.
pub data Body : Type 0 where
  unset : Body
  write_config_request : WriteConfigRequest → Body
  write_config_response : WriteConfigResponse → Body
  read_config_request : ReadConfigRequest → Body
  read_config_response : ReadConfigResponse → Body
  send_trap_request : SendTrapRequest → Body
  send_trap_response : SendTrapResponse → Body
  ping_request ping_response : ℕ → Body

pub record Envelope : Type 0 where
  pub request_id : ℕ
  pub body : Body
