-- ===== src/Tests/Storage.antt =====
-- Runs of the calls of src/storage_lmdb.c on a database in memory.
use agentx_subagent.Prelude.{
  ◌≢◌, ◌≡◌, refl, true, false, Option, some, List, [], ◌∷◌, Bytes, text, same, if◌then◌else◌, arith,
}
use agentx_subagent.Prelude.Int.{pos, negsuc}
use agentx_subagent.Storage.Types.{ok, err_notfound, err_type, err_readonly}
use agentx_subagent.Storage.Codec.{put_u32le, encode_header, map_mdb_rc, validate_key}
use agentx_subagent.Storage.Access.{txn_put_raw, txn_set_int_impl}
use agentx_subagent.Storage.Access.Blobs.{
  txn_set_bytes_impl, txn_set_oid_impl, txn_delete_impl, oid_payload,
}
use agentx_subagent.Storage.Env.{
  StorageEnv, begin_read_txn, begin_write_txn, commit_write_txn, in_write_txn,
}
use agentx_subagent.Storage.Ops.{
  storage_get_int, storage_set_int, storage_get_bytes, storage_set_bytes, storage_get_oid,
  storage_set_oid, storage_delete,
}
use agentx_subagent.Storage.Ops.Calls.{
  set_int, delete, perform, perform-readonly, perform_atomic, stored, perform_stores,
}
use agentx_subagent.Storage.Lmdb.{success, map_full}
use agentx_subagent.Storage.Open.{OpenCalls, storage_env_open, LeavesOpen, storage_env_open_lem}
use agentx_subagent.Storage.Txn.{
  StorageTxn, storage_txn_begin, storage_txn_commit, storage_txn_abort, storage_txn_set_int,
  storage_txn_delete,
}
use agentx_subagent.Storage.Txn.Session.{
  TxnCall, write_int, remove, after, run_all, run_call, storage_txn_lem,
}
use agentx_subagent.Storage.RoundTrip.Mismatch.{get_oid, get-set_mismatch}
use agentx_subagent.Storage.RoundTrip.{get-set_int}
use agentx_subagent.Storage.RoundTrip.Blobs.{get-set_bytes, get-set_oid}
use agentx_subagent.Storage.MemDb.{Entries, mem_lmdb, find, without}
use agentx_subagent.Storage.MemDb.Laws.{mem_laws}

abbrev handle : Entries → StorageEnv Entries
handle es = record { env = es; flags = 0; readonly = false }

abbrev key : Option Bytes
key = some (text "cpuTempMilliC")

abbrev int_stored : Entries
int_stored = (text "cpuTempMilliC", 1 ∷ 0 ∷ 0 ∷ 0 ∷ 56 ∷ 255 ∷ 255 ∷ 255 ∷ []) ∷ []

-- -200 goes out and comes back.
get-set_int_example :
    (storage_get_int mem_lmdb (some (handle int_stored)) key (some (pos 0))).0
    ≡ (ok, some (negsuc 199))
unfolding mem_lmdb storage_set_int in_write_txn begin_write_txn commit_write_txn txn_set_int_impl
    txn_put_raw validate_key map_mdb_rc encode_header put_u32le begin_read_txn
get-set_int_example =
    get-set_int mem_lmdb mem_laws key (negsuc 199) (pos 0) (handle []) (handle int_stored)
      (omega arith, omega arith) refl refl

-- An int32_t is not read as an OID.
get-set_mismatch_example :
    (storage_get_oid mem_lmdb (some (handle int_stored)) key (some (7 ∷ 7 ∷ [])) (some 2)).0
    ≡ record { rc = err_type; buf = some (7 ∷ 7 ∷ []); len = some 2 }
unfolding mem_lmdb perform storage_set_int in_write_txn begin_write_txn commit_write_txn
    txn_set_int_impl txn_put_raw validate_key map_mdb_rc encode_header put_u32le begin_read_txn
get-set_mismatch_example =
    get-set_mismatch mem_lmdb mem_laws (set_int (negsuc 199)) (get_oid (7 ∷ 7 ∷ []) 2) 1 key
      (handle []) (handle int_stored) refl (omega arith) refl refl

abbrev bytes_stored : Entries
bytes_stored = (text "deviceName", 4 ∷ 0 ∷ 0 ∷ 0 ∷ 97 ∷ 98 ∷ 99 ∷ []) ∷ []

abbrev name_key : Option Bytes
name_key = some (text "deviceName")

get-set_bytes_example :
    (storage_get_bytes mem_lmdb
      (some (handle bytes_stored))
      name_key
      (some (0 ∷ 0 ∷ 0 ∷ 5 ∷ []))
      (some 4)).0
    ≡ record { rc = ok; buf = some (97 ∷ 98 ∷ 99 ∷ 5 ∷ []); len = some 3 }
unfolding mem_lmdb storage_set_bytes in_write_txn begin_write_txn commit_write_txn
    txn_set_bytes_impl txn_put_raw validate_key map_mdb_rc encode_header begin_read_txn
get-set_bytes_example =
    get-set_bytes mem_lmdb mem_laws true name_key (text "abc") (0 ∷ 0 ∷ 0 ∷ 5 ∷ []) 4 (handle [])
      (handle bytes_stored) (omega arith) refl refl

abbrev oid_stored : Entries
oid_stored = (text "deviceName", 5 ∷ 0 ∷ 0 ∷ 0 ∷ 1 ∷ 0 ∷ 0 ∷ 0 ∷ 159 ∷ 134 ∷ 1 ∷ 0 ∷ []) ∷ []

get-set_oid_example :
    (storage_get_oid mem_lmdb
      (some (handle oid_stored))
      name_key
      (some (0 ∷ 0 ∷ 8 ∷ []))
      (some 3)).0
    ≡ record { rc = ok; buf = some (1 ∷ 99999 ∷ 8 ∷ []); len = some 2 }
unfolding mem_lmdb storage_set_oid in_write_txn begin_write_txn commit_write_txn txn_set_oid_impl
    oid_payload put_u32le txn_put_raw validate_key map_mdb_rc encode_header begin_read_txn
get-set_oid_example =
    get-set_oid mem_lmdb mem_laws true name_key (1 ∷ 99999 ∷ []) (0 ∷ 0 ∷ 8 ∷ []) 3 (handle [])
      (handle oid_stored) (omega arith, (omega arith, tt)) (omega arith) refl refl

perform-readonly_example :
    perform mem_lmdb (set_int (pos 5)) (some (record { env = []; flags = 1; readonly = true })) key
    ≡ (err_readonly, some (record { env = []; flags = 1; readonly = true }))
perform-readonly_example =
    perform-readonly mem_lmdb (set_int (pos 5)) (record { env = []; flags = 1; readonly = true })
      key refl

-- A delete of a key that is not there fails and changes nothing.
perform_atomic_example :
    mem_laws.env_view int_stored (text "cpuTempMilliC")
    ≡ mem_laws.env_view int_stored (text "cpuTempMilliC")
unfolding mem_lmdb perform storage_delete in_write_txn begin_write_txn txn_delete_impl validate_key
    map_mdb_rc find
perform_atomic_example =
    perform_atomic mem_lmdb mem_laws delete (handle int_stored) (handle int_stored) name_key
      err_notfound refl (ground arith) (text "cpuTempMilliC")

perform_stores_example :
    (k : Bytes) × (name_key ≡ some k)
    × ((j : Bytes)
        → mem_laws.env_view ((text "deviceName", 1 ∷ 0 ∷ 0 ∷ 0 ∷ 9 ∷ 0 ∷ 0 ∷ 0 ∷ []) ∷ int_stored) j
          ≡ (if same k j then stored (set_int (pos 9)) else mem_laws.env_view int_stored j))
unfolding mem_lmdb perform storage_set_int in_write_txn begin_write_txn commit_write_txn
    txn_set_int_impl txn_put_raw validate_key map_mdb_rc encode_header put_u32le
perform_stores_example =
    perform_stores mem_lmdb mem_laws (set_int (pos 9)) (handle int_stored)
      (handle ((text "deviceName", 1 ∷ 0 ∷ 0 ∷ 0 ∷ 9 ∷ 0 ∷ 0 ∷ 0 ∷ []) ∷ int_stored)) name_key refl

abbrev open_txn : Entries → StorageTxn Entries
open_txn es = record { txn = es; readonly = false }

-- One value is written, and another is deleted.
abbrev two_calls : List (Option Bytes × TxnCall)
two_calls = (key, write_int (negsuc 199)) ∷ (name_key, remove) ∷ []

storage_txn_lem_example :
    (false ≡ false)
    × ((handle bytes_stored).readonly ≡ false)
    × ((storage_txn_commit mem_lmdb (some (open_txn int_stored)) bytes_stored).0 ≡ ok
        → (j : Bytes)
        → mem_laws.env_view
            (storage_txn_commit mem_lmdb (some (open_txn int_stored)) bytes_stored).1
            j
          ≡ after two_calls (mem_laws.env_view bytes_stored) j)
    × ((storage_txn_commit mem_lmdb (some (open_txn int_stored)) bytes_stored).0 ≢ ok
        → (j : Bytes)
        → mem_laws.env_view
            (storage_txn_commit mem_lmdb (some (open_txn int_stored)) bytes_stored).1
            j
          ≡ mem_laws.env_view bytes_stored j)
    × ((j : Bytes)
        → mem_laws.env_view (storage_txn_abort mem_lmdb (some (open_txn int_stored)) bytes_stored) j
          ≡ mem_laws.env_view bytes_stored j)
unfolding mem_lmdb storage_txn_begin map_mdb_rc run_all run_call storage_txn_set_int
    storage_txn_delete txn_set_int_impl txn_delete_impl txn_put_raw validate_key encode_header
    put_u32le find without
storage_txn_lem_example =
    storage_txn_lem mem_lmdb mem_laws true false (handle bytes_stored) (handle bytes_stored)
      (open_txn bytes_stored) (open_txn int_stored) (key, write_int (negsuc 199))
      ((name_key, remove) ∷ []) refl refl

-- The dbi cannot be opened: the transaction and the environment are released.
abbrev no_dbi : OpenCalls Entries
no_dbi = record {
  mkdir = true;
  env_create = success;
  set_mapsize = λ size. success;
  set_maxreaders = λ n. success;
  env_open = λ flags. success;
  txn_begin = λ rdonly. success;
  dbi_open = λ create. map_full;
  txn_commit = success;
  calloc = true;
  opened = [];
}

storage_env_open_lem_example :
    LeavesOpen no_dbi.opened 1
      (record { envs = 1; txns = 0 })
      (storage_env_open no_dbi
        (some (text "/run/cache.lmdb"))
        0
        1
        true
        (record { envs = 1; txns = 0 }))
storage_env_open_lem_example =
    storage_env_open_lem no_dbi (some (text "/run/cache.lmdb")) 0 1 true
      (record { envs = 1; txns = 0 })
