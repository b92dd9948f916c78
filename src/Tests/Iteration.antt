-- ===== src/Tests/Iteration.antt =====
-- Runs of the iterator of src/storage_lmdb.c and of the loads of src/table_rows.c on a small database.
use agentx_subagent.Prelude.{
  ◌≡◌, ◌≢◌, refl, true, false, none, some, List, [], ◌∷◌, Bytes, text, arith,
}
use agentx_subagent.Storage.Lmdb.{Lmdb, success, notfound}
use agentx_subagent.Storage.Codec.{map_mdb_rc}
use agentx_subagent.Storage.Env.{StorageEnv, begin_read_txn}
use agentx_subagent.Storage.Envs.{Envs, config}
use agentx_subagent.Storage.Iter.{
  StorageIter, storage_iter_open, iter_next, lacks_prefix, storage_iter_close,
}
use agentx_subagent.Storage.Iter.Keys.{CursorLaws, with_prefix, while_prefix, from_key, bytes_lt}
use agentx_subagent.Storage.Iter.Scan.{upcoming, Yields, iter_next_lem, upcoming-iter_open}
use agentx_subagent.Storage.MemDb.{Entries, MemCursor, mem_lmdb, sorted_keys, insert_key}
use agentx_subagent.Storage.MemDb.Laws.{mem_cursors, sorted-IsAscending}
use agentx_subagent.Rows.Rowset.{
  TableRowset, TableColumnRef, empty_rowset, Memory, load_loop, table_rowset_load, load_columns,
  rowset_load_column, take_key, rowset_push, sort_unique, sort_rows, insert_row, unique_rows,
  unique_from,
}
use agentx_subagent.Rows.Rowset.Load.{Loads, load_loop_lem}
use agentx_subagent.Rows.Rowset.Union.{Scanned, table_rowset_load_lem}
use agentx_subagent.Rows.Rowset.Sorted.{IsStrictlySorted, contains}
use agentx_subagent.Rows.Instance.{
  TableInstance, table_instance_parse, parse_loop, close_component, table_instance_compare,
}
use agentx_subagent.Rows.Rowset.Total.{table_rowset_load_total}

abbrev entries : Entries
entries =
    (text "portDescr.2", 4 ∷ 0 ∷ 0 ∷ 0 ∷ [])
    ∷ (text "portDescr.03", 4 ∷ 0 ∷ 0 ∷ 0 ∷ [])
    ∷ (text "deviceName", 4 ∷ 0 ∷ 0 ∷ 0 ∷ [])
    ∷ (text "portDescr.1", 4 ∷ 0 ∷ 0 ∷ 0 ∷ [])
    ∷ []

abbrev keys : List Bytes
keys = text "deviceName" ∷ text "portDescr.03" ∷ text "portDescr.1" ∷ text "portDescr.2" ∷ []

abbrev env : StorageEnv Entries
env = record { env = entries; flags = 0; readonly = false }

abbrev fresh : StorageIter Entries MemCursor
fresh = record {
  txn = entries;
  cursor = record { all = keys; rest = keys };
  prefix = text "portDescr.";
  started = false;
  exhausted = false;
}

upcoming-iter_open_example :
    upcoming mem_lmdb mem_cursors fresh ≡ with_prefix (text "portDescr.") (mem_cursors.keys entries)
unfolding mem_lmdb storage_iter_open begin_read_txn sorted_keys insert_key bytes_lt map_mdb_rc
upcoming-iter_open_example =
    upcoming-iter_open mem_lmdb mem_cursors true env (some (text "portDescr.")) fresh (some env)
      refl

iter_next_lem_example :
    Yields mem_lmdb mem_cursors (upcoming mem_lmdb mem_cursors fresh) (iter_next mem_lmdb fresh)
iter_next_lem_example = iter_next_lem mem_lmdb mem_cursors fresh

-- The canonical keys of the column become rows, and one is skipped.
load_loop_lem_example :
    Loads mem_lmdb mem_cursors
      (λ n. true)
      10
      (text "portDescr.03" ∷ text "portDescr.1" ∷ text "portDescr.2" ∷ [])
      empty_rowset
      (load_loop mem_lmdb (λ n. true) 4 10 fresh empty_rowset)
unfolding mem_lmdb upcoming while_prefix from_key bytes_lt lacks_prefix mem_cursors
load_loop_lem_example =
    load_loop_lem mem_lmdb mem_cursors (λ n. true) (λ n. refl) 4 10 fresh empty_rowset
      (text "portDescr.03" ∷ text "portDescr.1" ∷ text "portDescr.2" ∷ []) refl (omega arith)

-- A database that always holds the four keys.
abbrev frozen : Lmdb (Unit {0}) (Unit {0}) MemCursor
frozen = record {
  txn_begin = λ ro e. (success, tt, tt);
  txn_commit = λ t e. (success, tt);
  txn_abort = λ t e. tt;
  get = λ t k. (notfound, []);
  put = λ t k v. (success, tt);
  del = λ t k. (notfound, tt);
  env_sync = λ force e. (success, tt);
  stat = λ t. mem_lmdb.stat entries;
  cursor_open = λ t. (success, record { all = keys; rest = keys });
  cursor_get = mem_lmdb.cursor_get;
  cursor_close = λ c t. tt;
}

frozen_cursors : CursorLaws frozen
unfolding sorted_keys insert_key bytes_lt mem_cursors
frozen_cursors = record {
  keys = λ t. keys;
  all = λ c. c.all;
  rest = λ c. c.rest;
  ascending = λ t. sorted-IsAscending entries;
  opened = λ t h. refl;
  found = mem_cursors.found;
  ended = mem_cursors.ended;
}

abbrev both : Envs (Unit {0})
both = record {
  config_env = some (record { env = tt; flags = 0; readonly = false });
  cache_env = some (record { env = tt; flags = 0; readonly = false });
}

abbrev memory : Memory
memory = record { rowset = true; iters = λ col. true; rows = λ n. true }

table_rowset_load_total_example :
    table_rowset_load frozen memory 5
      (some (record { env = config; column = some (text "portDescr") } ∷ []))
      true
      both
    ≢ none
unfolding frozen_cursors
table_rowset_load_total_example =
    table_rowset_load_total frozen frozen_cursors memory 5
      (some (record { env = config; column = some (text "portDescr") } ∷ [])) true both
      (λ t. omega arith)

abbrev column : List TableColumnRef
column = record { env = config; column = some (text "portDescr") } ∷ []

abbrev stored : Envs Entries
stored = record { config_env = some env; cache_env = none }

abbrev two_rows : TableRowset
two_rows = record { rows = (1 ∷ []) ∷ (2 ∷ []) ∷ []; capacity = 16; skipped = 1 }

table_rowset_load_lem_example :
    (rows : List TableInstance) × Scanned mem_lmdb mem_cursors memory
      (λ n. refl)
      5
      column
      stored
      rows
    × IsStrictlySorted two_rows.rows
    × ((z : TableInstance) → contains z two_rows.rows ≡ contains z rows)
unfolding mem_lmdb table_rowset_load load_columns rowset_load_column load_loop storage_iter_open
    iter_next lacks_prefix take_key rowset_push table_instance_parse parse_loop close_component
    sort_unique sort_rows insert_row unique_rows unique_from table_instance_compare begin_read_txn
    map_mdb_rc sorted_keys insert_key bytes_lt from_key storage_iter_close
table_rowset_load_lem_example =
    table_rowset_load_lem mem_lmdb mem_cursors memory (λ n. refl) 5 column stored stored two_rows
      refl
