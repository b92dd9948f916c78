-- ===== src/Tests/Mib.antt =====
-- Runs of the scalar handlers of src/generated/demo_config.c on a database in memory.
use agentx_subagent.Storage.Ops.Calls.{perform}
use agentx_subagent.Storage.Access.{txn_get_raw, txn_put_raw}
use agentx_subagent.Storage.Access.Blobs.{txn_get_bytes_impl, txn_set_bytes_impl}
use agentx_subagent.Storage.Ops.{storage_get_bytes, storage_set_bytes}
use agentx_subagent.Prelude.{◌≡◌, ◌⊎◌, refl, true, false, none, some, [], ◌∷◌, text, arith}
use agentx_subagent.Prelude.Int.{pos}
use agentx_subagent.Storage.Env.{
  StorageEnv, begin_read_txn, in_read_txn, in_write_txn, begin_write_txn, commit_write_txn,
}
use agentx_subagent.Storage.MemDb.{Entries, mem_lmdb, find}
use agentx_subagent.Storage.MemDb.Laws.{mem_laws, mem_view}
use agentx_subagent.Storage.Codec.{map_mdb_rc, encode_header, put_u32le, validate_key}
use agentx_subagent.DemoTrap.{Agent, clear}
use agentx_subagent.Ipc.Objects.{find_config_object}
use agentx_subagent.Mib.Values.{Cell, int, encoding, fetch, get_call, store}
use agentx_subagent.Mib.Values.Effects.{Unchanged, Sets, db}
use agentx_subagent.Mib.Snmp.{
  get, asn_octet_str, SnmpErr, set_reserve1, set_reserve2, set_action, set_undo, no_error,
  undo_failed, asn_integer,
}
use agentx_subagent.Mib.Scalars.{
  requested, handle_device_name, reserve1_octets, reserve2_scalar, action_scalar,
}
use agentx_subagent.Mib.Request.{Request, requests, request_laws, failed_errors}
use agentx_subagent.Mib.Scalars.Registry.{admin_status_ext, device_name, handle, ref_of, syntax_of}
use agentx_subagent.Mib.Scalars.Rollback.{handle_rollback, handle_undo_absent}
use agentx_subagent.Mib.Scalars.Accepts.{reserve1-allowlist, object_of, checked}
use agentx_subagent.Mib.Scalars.Shown.{shown}
use agentx_subagent.Mib.Scalars.Commits.{handle_get-set}

abbrev opened : Entries → StorageEnv Entries
opened es = record { env = es; flags = 0; readonly = false }

-- adminStatusExt is 2
abbrev down : Entries
down = (text "adminStatusExt", 1 ∷ 0 ∷ 0 ∷ 0 ∷ 2 ∷ 0 ∷ 0 ∷ 0 ∷ []) ∷ []

abbrev agent : Entries → Agent Entries
agent es = record {
  envs = record { config_env = some (opened es); cache_env = some (opened []) };
  temp_alarm_state = clear;
  traps = [];
}

-- a SET to 3
abbrev asks : Request Cell
asks = record {
  asn = asn_integer;
  integer = pos 3;
  string = [];
  errors = [];
  data_list = [];
  info = none;
  row = false;
}

abbrev reserved : Entries → SnmpErr × Request Cell × Agent Entries
reserved es = handle mem_lmdb requests admin_status_ext true set_reserve2 asks (agent es)

abbrev acted : Entries → SnmpErr × Request Cell × Agent Entries
acted es =
    (handle mem_lmdb requests admin_status_ext true set_action (reserved es).1 (reserved es).2)

abbrev undone : Entries → SnmpErr × Request Cell × Agent Entries
undone es = (handle mem_lmdb requests admin_status_ext true set_undo (acted es).1 (acted es).2)

handle_rollback_example :
    (requests.get_list_data (text "undo_adminStatusExt") (undone down).1 ≡ none)
    × (Unchanged mem_lmdb mem_laws (agent down).envs (undone down).2.envs
        ⊎ ((undone down).1
            ≡ requests.remove_list_data
                (text "undo_adminStatusExt")
                (requests.set_request_error undo_failed (acted down).1)))
unfolding begin_read_txn map_mdb_rc mem_lmdb find requests encode_header put_u32le
handle_rollback_example =
    handle_rollback mem_lmdb mem_laws requests request_laws admin_status_ext true true (int (pos 2))
      asks (agent down) (opened down) (omega arith, omega arith) (refl, refl, mem_view _ _) refl

handle_undo_absent_example :
    (db mem_lmdb mem_laws (undone []).2.envs (ref_of admin_status_ext) (text "adminStatusExt")
      ≡ some (encoding (int (pos 0))))
    ⊎ ((undone []).1
        ≡ requests.remove_list_data
            (text "undo_adminStatusExt")
            (requests.set_request_error undo_failed (acted []).1))
unfolding begin_read_txn map_mdb_rc mem_lmdb find requests
handle_undo_absent_example =
    handle_undo_absent mem_lmdb mem_laws requests request_laws admin_status_ext true true asks
      (agent []) (opened []) (refl, refl, mem_view _ _) refl

reserve1-allowlist_example :
    (handle mem_lmdb requests admin_status_ext true set_reserve1 asks (agent down)
      ≡ (no_error, checked requests admin_status_ext asks, agent down))
    × (find_config_object (text "adminStatusExt") ≡ some (object_of admin_status_ext))
    × ((object_of admin_status_ext).env ≡ ref_of admin_status_ext)
reserve1-allowlist_example =
    reserve1-allowlist mem_lmdb requests admin_status_ext true asks (agent down)

-- deviceName is set to "abc", then read with another request.
abbrev names : Request Cell
names = record asks { asn = asn_octet_str; string = text "abc" }

abbrev stored_name : Entries
stored_name = (text "deviceName", 4 ∷ 0 ∷ 0 ∷ 0 ∷ 97 ∷ 98 ∷ 99 ∷ []) ∷ []

abbrev named : Agent Entries
named = agent stored_name

handle_get-set_example :
    Sets mem_lmdb mem_laws
      (ref_of device_name)
      (text "deviceName")
      (some (encoding (requested requests (syntax_of device_name) names)))
      (agent []).envs
      named.envs
    × ((handle mem_lmdb requests device_name true get asks named).1
        ≡ shown requests device_name names asks)
unfolding begin_read_txn map_mdb_rc mem_lmdb find requests handle_device_name reserve1_octets
    reserve2_scalar fetch get_call storage_get_bytes in_read_txn txn_get_bytes_impl txn_get_raw
    validate_key action_scalar store perform storage_set_bytes in_write_txn begin_write_txn
    txn_set_bytes_impl txn_put_raw encode_header commit_write_txn
handle_get-set_example =
    handle_get-set mem_lmdb mem_laws requests request_laws device_name (λ mode. true) names asks
      (agent []) named (opened stored_name)
      (failed_errors _, (failed_errors _, (failed_errors _, tt))) refl refl refl
