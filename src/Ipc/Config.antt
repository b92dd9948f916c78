-- ===== src/Ipc/Config.antt =====
-- The request handlers of src/ipc_server.c: the allowlist of config objects, reading and writing
-- them, and sending a trap.
pub mod Writes
pub mod ReadBack
use agentx_subagent.Prelude.{
  ℕ, zero, ◌+◌, ◌==◌, Bool, true, false, not, ◌&&◌, ◌||◌, Option, none, some, List, [], ◌∷◌, ◌++◌,
  Bytes, text, same, length, take, replicate, get_or, if◌then◌else◌,
}
use agentx_subagent.Prelude.Int.{ℤ, pos, negsuc, ltb_ℤ}
use agentx_subagent.Rows.Instance.{decimal}
use agentx_subagent.Storage.Types as S
use agentx_subagent.Storage.Types.{StorageRc}
use agentx_subagent.Storage.Lmdb.{Lmdb}
use agentx_subagent.Storage.Env.{StorageEnv}
use agentx_subagent.Storage.Envs.{Envs, EnvRef, config, cache, env_at, set_env}
use agentx_subagent.Storage.Access.Blobs.{Sized}
use agentx_subagent.Storage.Ops.{
  storage_get_int, storage_set_int, storage_get_uint, storage_set_uint, storage_get_bytes,
  storage_set_bytes,
}
use agentx_subagent.Storage.Iter.{storage_strerror}
use agentx_subagent.DemoTrap.{Agent, demo_send_temp_alarm}
use agentx_subagent.Ipc.Types.{
  Status, ok, not_found, type_mismatch, invalid, storage_error, value_type_int32, value_type_uint32,
  value_type_bytes, Value, WriteConfigRequest, WriteConfigResponse, ReadConfigRequest,
  ReadConfigResponse, SendTrapRequest, SendTrapResponse,
}
use agentx_subagent.Ipc.Objects.{
  ConfigObject, admin_status_ext, bytes_value, config_objects, device_name, find_config_object,
  find_object, int_value, out_of_range, quoted, range_message, sample_interval_sec, signed,
  sized_bytes, snprintf, storage_failure, storage_rc_to_status, temp_threshold, uint_value,
  unknown_key, zero_value,
}

module _ {E T C : Type 0} (m : Lmdb E T C) where
  -- The end of handle_write_config, after the storage call.
  abbrev pub finish_write :
      ConfigObject → Envs E → StorageRc × Option (StorageEnv E) → WriteConfigResponse × Envs E
  finish_write obj envs (S.ok, env) =
      (record { status = ok; message = [] }, set_env obj.env env envs)
  finish_write obj envs (rc, env) = (
    record { status = storage_rc_to_status rc; message = storage_failure rc },
    set_env obj.env env envs,
  )

  abbrev pub reject : Status → Bytes → Envs E → WriteConfigResponse × Envs E
  reject status message envs = (record { status = status; message = message }, envs)

  -- The switch on obj->type; `mem` says whether storage_set_bytes could allocate its buffer.
  unfoldable pub write_object :
      (mem : Bool) → ConfigObject → Value → Envs E → WriteConfigResponse × Envs E
  write_object mem obj value envs =
      let env = env_at obj.env envs in
      let key = some obj.name in
      if obj.type == value_type_int32
      then (if out_of_range obj value.int32_val
          then reject invalid (range_message obj (text " value ") value.int32_val) envs
          else finish_write obj envs (storage_set_int m env key value.int32_val))
      else if obj.type == value_type_uint32
      then (if out_of_range obj (pos value.uint32_val)
          then reject invalid (range_message obj (text " value ") (pos value.uint32_val)) envs
          else finish_write obj envs (storage_set_uint m env key value.uint32_val))
      else if obj.type == value_type_bytes
      then (let len = length value.bytes_val in
          if out_of_range obj (pos len)
          then reject invalid (range_message obj (text " length ") (pos len)) envs
          else finish_write obj envs (storage_set_bytes m env key mem (some value.bytes_val) len))
      else reject type_mismatch (snprintf (quoted obj.name ++ text " has no supported value type"))
          envs

  abbrev pub write_found :
      (mem : Bool)
      → Bytes
      → Option ConfigObject
      → Option Value
      → Envs E
      → WriteConfigResponse × Envs E
  write_found mem key none value envs = reject invalid (unknown_key key) envs
  write_found mem key (some obj) none envs = reject invalid (snprintf (text "missing value")) envs
  write_found mem key (some obj) (some value) envs =
      if value.type == obj.type
      then write_object mem obj value envs
      else reject type_mismatch
          (snprintf (
            quoted obj.name
            ++ text " expects value type "
            ++ decimal obj.type
            ++ text ", got "
            ++ decimal value.type))
          envs

  unfoldable pub handle_write_config :
      (mem : Bool) → WriteConfigRequest → Envs E → WriteConfigResponse × Envs E
  handle_write_config mem req envs =
      write_found mem req.key (find_config_object req.key) req.value envs

  -- The end of handle_read_config, after the storage call.
  abbrev pub finish_read :
      ConfigObject
      → Envs E
      → StorageRc
      → Value
      → Option (StorageEnv E)
      → ReadConfigResponse × Envs E
  finish_read obj envs S.ok value env =
      (record { status = ok; value = some value; message = [] }, set_env obj.env env envs)
  finish_read obj envs rc value env = (
    record { status = storage_rc_to_status rc; value = none; message = storage_failure rc },
    set_env obj.env env envs,
  )

  unfoldable pub read_object : ConfigObject → Envs E → ReadConfigResponse × Envs E
  read_object obj envs =
      let env = env_at obj.env envs in
      let key = some obj.name in
      if obj.type == value_type_int32
      then (let (r, env) = storage_get_int m env key (some (pos 0)) in
          finish_read obj envs r.0 (int_value obj r.1) env)
      else if obj.type == value_type_uint32
      then (let (r, env) = storage_get_uint m env key (some 0) in
          finish_read obj envs r.0 (uint_value obj r.1) env)
      else if obj.type == value_type_bytes
      then (let (r, env) = storage_get_bytes m env key (some (replicate 256 0)) (some 256) in
          finish_read obj envs r.rc (bytes_value obj r) env)
      else (record { status = type_mismatch; value = none; message = [] }, envs)

  abbrev pub read_named : Bytes → Option ConfigObject → Envs E → ReadConfigResponse × Envs E
  read_named key none envs =
      (record { status = invalid; value = none; message = unknown_key key }, envs)
  read_named key (some obj) envs = read_object obj envs

  unfoldable pub handle_read_config : ReadConfigRequest → Envs E → ReadConfigResponse × Envs E
  handle_read_config req envs = read_named req.key (find_config_object req.key) envs

  abbrev pub trap_outcome : ℤ × Agent E → SendTrapResponse × Agent E
  trap_outcome (pos zero, agent) = (record { status = ok; message = [] }, agent)
  trap_outcome (rc, agent) = (
    record { status = storage_error; message = snprintf (text "failed to emit demoTempAlarm") },
    agent,
  )

  unfoldable pub handle_send_trap :
      (mem : Bool) → SendTrapRequest → Agent E → SendTrapResponse × Agent E
  handle_send_trap mem req agent =
      if same req.trap_name (text "demoTempAlarm")
      then trap_outcome (demo_send_temp_alarm m mem agent)
      else (
        record {
          status = invalid;
          message = snprintf (text "unsupported trap name " ++ quoted req.trap_name);
        },
        agent,
      )
