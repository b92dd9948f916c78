-- ===== src/Tests/Tables.antt =====
-- Runs of the table handlers of src/generated/demo_config_table.c on a database in memory.
use agentx_subagent.Storage.Iter.Keys.{bytes_lt, from_key}
use agentx_subagent.Storage.Iter.{storage_iter_open, iter_next, storage_iter_close, lacks_prefix}
use agentx_subagent.Storage.Access.Blobs.{txn_get_bytes_impl}
use agentx_subagent.Storage.Access.{txn_get_int_impl, txn_get_raw}
use agentx_subagent.Storage.Ops.{storage_get_int, storage_get_bytes}
use agentx_subagent.Rows.Oid.{table_instance_from_indexes, narrowed, table_instance_to_indexes}
use agentx_subagent.Rows.Instance.{
  table_cell_key, table_instance_format, format_loop, decimal, digits, table_instance_parse,
  parse_loop, close_component, table_instance_compare,
}
use agentx_subagent.Storage.Codec.{
  map_mdb_rc, encode_header, put_u32le, validate_key, decode_header, get_u32le,
}
use agentx_subagent.Prelude.{
  ◌≡◌, ◌⊎◌, inl, inr, refl, subst, true, false, some, List, [], ◌∷◌, Bytes, text, arith,
}
use agentx_subagent.Prelude.Int.{pos}
use agentx_subagent.Storage.Env.{StorageEnv, begin_read_txn, in_read_txn}
use agentx_subagent.Storage.Env.Reads.{CanRead}
use agentx_subagent.Storage.Envs.{Envs}
use agentx_subagent.Storage.MemDb.{Entries, mem_lmdb, find, sorted_keys, insert_key}
use agentx_subagent.Storage.MemDb.Laws.{mem_laws, mem_view, mem_notfound}
use agentx_subagent.Rows.Rowset.{
  table_rowset_load, load_columns, rowset_load_column, load_loop, take_key, rowset_push,
  sort_unique, sort_rows, insert_row, unique_rows, unique_from, table_rowset_count, table_rowset_at,
  table_rowset_skipped,
}
use agentx_subagent.Mib.Values.{int, fetch, get_call}
use agentx_subagent.Mib.Values.Effects.{Unchanged, db}
use agentx_subagent.Mib.Values.Reads.{Typed}
use agentx_subagent.Mib.Snmp.{
  SnmpErr, set_reserve2, set_action, set_undo, asn_integer, asn_octet_str,
}
use agentx_subagent.Mib.Columns.{CellUndo, PortColumn, port_descr, port_admin_status, port_info}
use agentx_subagent.Mib.Request.{Request, requests, request_laws, failed_errors, tables, table_laws}
use agentx_subagent.Mib.Rows.{
  Loop, port_config_column_refs, get_first_data_point, get_next_data_point, next_loop,
}
use agentx_subagent.Mib.Rows.Walk.{collect, collect-first, row_indexes}
use agentx_subagent.Mib.Tables.{handle_port_config_table, each, reserve2_request}
use agentx_subagent.Mib.Tables.Pending.{Clean, TypedTarget}
use agentx_subagent.Mib.Tables.Requests.{target}
use agentx_subagent.Mib.Tables.Rollback.{handle_port_config_table-rollback, SomeUndoFails}

abbrev opened : Entries → StorageEnv Entries
opened es = record { env = es; flags = 0; readonly = false }

abbrev envs : Envs Entries
envs = record {
  config_env = some (opened ((text "portAdminStatus.1", 1 ∷ 0 ∷ 0 ∷ 0 ∷ 1 ∷ 0 ∷ 0 ∷ 0 ∷ []) ∷ []));
  cache_env = some (opened []);
}

-- portAdminStatus.1, which exists, is set to 2, and portDescr.2, which does not, to "x".
abbrev status : Request CellUndo
status = record {
  asn = asn_integer;
  integer = pos 2;
  string = [];
  errors = [];
  data_list = [];
  info = some (record { colnum = 3; indexes = 1 ∷ [] });
  row = true;
}

abbrev descr : Request CellUndo
descr = record {
  asn = asn_octet_str;
  integer = pos 0;
  string = text "x";
  errors = [];
  data_list = [];
  info = some (record { colnum = 2; indexes = 2 ∷ [] });
  row = true;
}

abbrev pdu : List (Request CellUndo)
pdu = status ∷ descr ∷ []

abbrev reserved : SnmpErr × List (Request CellUndo) × Envs Entries
reserved = handle_port_config_table mem_lmdb requests tables (λ i. true) set_reserve2 pdu envs

abbrev acted : SnmpErr × List (Request CellUndo) × Envs Entries
acted =
    handle_port_config_table mem_lmdb requests tables (λ i. true) set_action reserved.1 reserved.2

abbrev undone : SnmpErr × List (Request CellUndo) × Envs Entries
undone = handle_port_config_table mem_lmdb requests tables (λ i. true) set_undo acted.1 acted.2

reads : (e : StorageEnv Entries) → CanRead mem_lmdb e
unfolding mem_lmdb begin_read_txn map_mdb_rc
reads e = refl

status-Clean : Clean mem_lmdb requests tables status
unfolding requests
status-Clean c = refl

descr-Clean : Clean mem_lmdb requests tables descr
unfolding requests
descr-Clean c = refl

-- A target is typed if the cell that it is known to be holds a value of its column's type.
typed_target :
    (q : Request CellUndo) (cell : PortColumn × Bytes)
    → target tables q ≡ some cell
    → Typed (port_info cell.0).syntax (db mem_lmdb mem_laws envs (port_info cell.0).ref cell.1)
    → TypedTarget mem_lmdb mem_laws requests tables request_laws table_laws envs q
typed_target q cell is typed c key names =
    let same_cell : ◌≡◌ {A = PortColumn × Bytes} cell (c, key) = cc in
    subst
      (λ (x : PortColumn × Bytes).
        Typed (port_info x.0).syntax (db mem_lmdb mem_laws envs (port_info x.0).ref x.1))
      same_cell typed

status-Typed : TypedTarget mem_lmdb mem_laws requests tables request_laws table_laws envs status
unfolding tables table_cell_key table_instance_format format_loop decimal digits
    table_instance_from_indexes encode_header put_u32le find narrowed
status-Typed =
    typed_target status (port_admin_status, text "portAdminStatus.1") refl
      (inr (int (pos 1), (omega arith, omega arith), mem_view _ _))

descr-Typed : TypedTarget mem_lmdb mem_laws requests tables request_laws table_laws envs descr
unfolding tables table_cell_key table_instance_format format_loop decimal digits
    table_instance_from_indexes find narrowed
descr-Typed = typed_target descr (port_descr, text "portDescr.2") refl (inl (mem_view _ _))

handle_port_config_table-rollback_example :
    Unchanged mem_lmdb mem_laws envs undone.2
    ⊎ SomeUndoFails mem_lmdb mem_laws mem_notfound requests tables request_laws table_laws acted.1
        undone.1
unfolding handle_port_config_table each reserve2_request requests tables table_cell_key
    table_instance_format format_loop decimal digits table_instance_from_indexes fetch get_call
    storage_get_int storage_get_bytes in_read_txn begin_read_txn txn_get_int_impl txn_get_bytes_impl
    txn_get_raw validate_key map_mdb_rc mem_lmdb find decode_header get_u32le narrowed
handle_port_config_table-rollback_example =
    handle_port_config_table-rollback mem_lmdb mem_laws mem_notfound requests tables request_laws
      table_laws pdu (λ i. true) (λ i. true) (λ i. true) envs reads
      (status-Clean, (descr-Clean, tt)) (status-Typed, (descr-Typed, tt))
      (failed_errors _, (failed_errors _, tt))

-- The cell that is there makes row 1.
abbrev row_loop : Loop
row_loop = record { rows = record { rows = (1 ∷ []) ∷ []; capacity = 16; skipped = 0 }; next = 1 }

collect-first_example :
    collect
      (λ subids template. some subids)
      some
      (0 ∷ [])
      5
      (record { loop_context = some row_loop; indexes = some (1 ∷ []) })
    ≡ row_indexes (λ subids template. some subids) some (0 ∷ []) ((1 ∷ []) ∷ [])
unfolding mem_lmdb port_config_column_refs get_first_data_point get_next_data_point next_loop
    table_rowset_load load_columns rowset_load_column load_loop storage_iter_open iter_next take_key
    rowset_push table_instance_parse parse_loop close_component sort_unique sort_rows insert_row
    unique_rows unique_from table_instance_compare begin_read_txn map_mdb_rc sorted_keys insert_key
    bytes_lt from_key storage_iter_close lacks_prefix table_rowset_count table_rowset_at
    table_rowset_skipped table_instance_to_indexes
collect-first_example =
    collect-first (λ subids template. some subids) some (0 ∷ []) mem_lmdb
      (record { rowset = true; iters = λ col. true; rows = λ n. true }) 5 5 port_config_column_refs
      7 0 envs envs row_loop.rows (record { loop_context = some row_loop; indexes = some (1 ∷ []) })
      refl refl (omega arith)
