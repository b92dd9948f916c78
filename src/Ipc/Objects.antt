-- ===== src/Ipc/Objects.antt =====
-- The allowlist of config objects of src/ipc_server.c, the status of a storage result, and the texts
-- of the answers.
use agentx_subagent.Prelude.{
  ℕ, ◌+◌, Bool, ◌||◌, Option, none, some, List, [], ◌∷◌, ◌++◌, Bytes, text, same, take,
  if◌then◌else◌,
}
use agentx_subagent.Prelude.Int.{ℤ, pos, negsuc, ltb_ℤ}
use agentx_subagent.Rows.Instance.{decimal}
use agentx_subagent.Storage.Types as S
use agentx_subagent.Storage.Types.{StorageRc}
use agentx_subagent.Storage.Envs.{EnvRef, config, cache}
use agentx_subagent.Storage.Access.Blobs.{Sized}
use agentx_subagent.Storage.Iter.{storage_strerror}
use agentx_subagent.Ipc.Types.{
  Status, ok, not_found, type_mismatch, invalid, storage_error, value_type_int32, value_type_uint32,
  value_type_bytes, Value,
}

-- config_object_t; the bounds are inclusive, and those of a byte string bound its length.
pub record ConfigObject : Type 0 where
  pub name : Bytes
  pub type : ℕ
  pub env : EnvRef
  pub min : ℤ
  pub max : ℤ

abbrev pub device_name : ConfigObject
device_name = record {
  name = text "deviceName";
  type = value_type_bytes;
  env = config;
  min = pos 0;
  max = pos 63;
}

abbrev pub temp_threshold : ConfigObject
temp_threshold = record {
  name = text "tempThresholdMilliC";
  type = value_type_int32;
  env = cache;
  min = negsuc 39999;
  max = pos 125000;
}

abbrev pub admin_status_ext : ConfigObject
admin_status_ext = record {
  name = text "adminStatusExt";
  type = value_type_int32;
  env = config;
  min = pos 1;
  max = pos 3;
}

abbrev pub sample_interval_sec : ConfigObject
sample_interval_sec = record {
  name = text "sampleIntervalSec";
  type = value_type_uint32;
  env = config;
  min = pos 1;
  max = pos 86400;
}

-- g_config_objects, with the environments that include/storage_mode.h selects
abbrev pub config_objects : List ConfigObject
config_objects = device_name ∷ temp_threshold ∷ admin_status_ext ∷ sample_interval_sec ∷ []

-- The loop of find_config_object.
abbrev pub find_object : List ConfigObject → Bytes → Option ConfigObject
find_object [] key = none
find_object (o ∷ os) key = if same o.name key then some o else find_object os key

unfoldable pub find_config_object : Bytes → Option ConfigObject
find_config_object key = find_object config_objects key

unfoldable pub storage_rc_to_status : StorageRc → Status
storage_rc_to_status S.ok = ok
storage_rc_to_status S.err_notfound = not_found
storage_rc_to_status S.err_type = type_mismatch
storage_rc_to_status S.err_inval = invalid
storage_rc_to_status S.err_toobig = invalid
storage_rc_to_status rc = storage_error

-- printf's %d, %u and %lld
abbrev pub signed : ℤ → Bytes
signed (pos n) = decimal n
signed (negsuc n) = text "-" ++ decimal (n + 1)

-- snprintf into a char[128]
abbrev pub snprintf : Bytes → Bytes
snprintf s = take 127 s

abbrev pub quoted : Bytes → Bytes
quoted s = text "'" ++ s ++ text "'"

abbrev pub unknown_key : Bytes → Bytes
unknown_key key = snprintf (text "unknown config key " ++ quoted key)

abbrev pub storage_failure : StorageRc → Bytes
storage_failure rc = snprintf (text "storage error: " ++ storage_strerror rc)

abbrev pub out_of_range : ConfigObject → ℤ → Bool
out_of_range obj v = ltb_ℤ v obj.min || ltb_ℤ obj.max v

abbrev pub range_message : ConfigObject → Bytes → ℤ → Bytes
range_message obj what v = snprintf (
    quoted obj.name
    ++ what
    ++ signed v
    ++ text " out of range ["
    ++ signed obj.min
    ++ text ", "
    ++ signed obj.max
    ++ text "]")

-- Value_init_zero with the object's type
abbrev pub zero_value : ConfigObject → Value
zero_value obj = record {
  type = obj.type;
  int32_val = pos 0;
  uint32_val = 0;
  uint64_val = 0;
  bytes_val = [];
}

-- The bytes of a char or byte array that a size word counts.
abbrev pub sized_bytes : Option Bytes → Option ℕ → Bytes
sized_bytes (some buf) (some len) = take len buf
sized_bytes buf len = []

abbrev pub int_value : ConfigObject → Option ℤ → Value
int_value obj (some v) = record (zero_value obj) { int32_val = v }
int_value obj none = zero_value obj

abbrev pub uint_value : ConfigObject → Option ℕ → Value
uint_value obj (some v) = record (zero_value obj) { uint32_val = v }
uint_value obj none = zero_value obj

abbrev pub bytes_value : ConfigObject → Sized ℕ → Value
bytes_value obj r = record (zero_value obj) { bytes_val = sized_bytes r.buf r.len }
