-- ===== src/Tests/Ipc.antt =====
-- Runs of src/ipc_server.c and src/demo_trap.c on a database in memory and a toy message codec.
use agentx_subagent.Prelude.{◌≡◌, refl, true, false, some, [], ◌∷◌, text}
use agentx_subagent.Prelude.Int.{pos}
use agentx_subagent.Storage.Codec.{
  decode_header, encode_header, get_u32le, put_u32le, map_mdb_rc, validate_key,
}
use agentx_subagent.Storage.Access.{txn_get_raw, txn_put_raw, txn_get_int_impl, txn_set_int_impl}
use agentx_subagent.Storage.Env.{
  StorageEnv, begin_read_txn, begin_write_txn, commit_write_txn, in_write_txn, in_read_txn,
}
use agentx_subagent.Storage.Envs.{Envs}
use agentx_subagent.Storage.Ops.{storage_get_int, storage_set_int}
use agentx_subagent.Storage.MemDb.{Entries, mem_lmdb, find}
use agentx_subagent.Storage.MemDb.Laws.{mem_laws}
use agentx_subagent.DemoTrap.{
  TempState, clear, Agent, read_both, read_cpu_temp, read_temp_threshold, demo_check_temp_alarm,
}
use agentx_subagent.DemoTrap.Hysteresis.{Poll, check_lem}
use agentx_subagent.Ipc.Types.{Value, WriteConfigRequest, value_type_int32}
use agentx_subagent.Ipc.Config.{handle_write_config, handle_read_config, write_object}
use agentx_subagent.Ipc.Objects.{find_config_object}
use agentx_subagent.Ipc.Config.Writes.{WriteCase, handle_write_config_lem}
use agentx_subagent.Ipc.Config.ReadBack.{CanReadBoth, answered, selected, read_after_write}

abbrev handle : Entries → StorageEnv Entries
handle es = record { env = es; flags = 0; readonly = false }

-- 90 degrees against a threshold of 80
abbrev hot : Entries
hot =
    (text "cpuTempMilliC", 1 ∷ 0 ∷ 0 ∷ 0 ∷ 144 ∷ 95 ∷ 1 ∷ 0 ∷ [])
    ∷ (text "tempThresholdMilliC", 1 ∷ 0 ∷ 0 ∷ 0 ∷ 128 ∷ 56 ∷ 1 ∷ 0 ∷ [])
    ∷ []

abbrev hot_envs : Envs Entries
hot_envs = record { config_env = some (handle []); cache_env = some (handle hot) }

abbrev agent : TempState → Agent Entries
agent state = record { envs = hot_envs; temp_alarm_state = state; traps = [] }

check_lem_example :
    let (rc, after) = demo_check_temp_alarm mem_lmdb true (agent clear) in
    Poll true (pos 90000) (pos 80000) clear [] rc after.temp_alarm_state after.traps
unfolding mem_lmdb read_both read_cpu_temp read_temp_threshold storage_get_int in_read_txn
    begin_read_txn txn_get_int_impl txn_get_raw validate_key map_mdb_rc find decode_header get_u32le
check_lem_example = check_lem mem_lmdb true (agent clear) (pos 90000) (pos 80000) (refl, refl)

abbrev value : Value
value = record {
  type = value_type_int32;
  int32_val = pos 70000;
  uint32_val = 5;
  uint64_val = 0;
  bytes_val = [];
}

abbrev request : WriteConfigRequest
request = record { key = text "tempThresholdMilliC"; value = some value }

handle_write_config_lem_example :
    WriteCase mem_lmdb true
      (text "tempThresholdMilliC")
      (some value)
      hot_envs
      (handle_write_config mem_lmdb true request hot_envs)
handle_write_config_lem_example = handle_write_config_lem mem_lmdb true request hot_envs

always_readable : (envs : Envs Entries) → CanReadBoth mem_lmdb envs
unfolding mem_lmdb begin_read_txn map_mdb_rc
always_readable envs ref env h = refl

read_after_write_example :
    (v : Value) × (some value ≡ some v)
    × ((handle_read_config mem_lmdb
          (record { key = text "tempThresholdMilliC" })
          (handle_write_config mem_lmdb true request hot_envs).1).0
        ≡ answered (selected v))
unfolding mem_lmdb handle_write_config write_object find_config_object storage_set_int in_write_txn
    begin_write_txn commit_write_txn txn_set_int_impl txn_put_raw validate_key map_mdb_rc
    encode_header put_u32le
read_after_write_example =
    read_after_write mem_lmdb mem_laws true request hot_envs refl
      (always_readable (handle_write_config mem_lmdb true request hot_envs).1)
