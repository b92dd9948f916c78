-- ===== src/Mib/Tables.antt =====
-- The handlers of src/generated/demo_config_table.c and demo_status_table.c: each goes through the
-- requests of one PDU.
pub mod Registry
pub mod Deletes
pub mod Requests
pub mod Pending
pub mod Rollback
use agentx_subagent.Prelude.{
  ℕ, zero, suc, Bool, true, false, not, leb, ◌==◌, Option, none, some, List, [], ◌∷◌, Bytes, text,
  if◌then◌else◌,
}
use agentx_subagent.Storage.Types.{StorageRc, ok, err_notfound}
use agentx_subagent.Storage.Lmdb.{Lmdb}
use agentx_subagent.Storage.Codec.{Res, got, fail}
use agentx_subagent.Storage.Envs.{Envs, EnvRef, cache}
use agentx_subagent.Storage.Ops.Calls.{WriteCall, delete}
use agentx_subagent.Rows.Instance.{TableInstance, table_cell_key}
use agentx_subagent.Rows.Oid.{table_instance_from_indexes}
use agentx_subagent.Mib.Modes.{storage_modes, env_of}
use agentx_subagent.Mib.Values.{
  Cell, Syntax, integer32, unsigned32, octet_string, set_call, fetch, store,
}
use agentx_subagent.Mib.Columns.{
  CellUndo, TableInfo, TableSnmp, PortColumn, port_descr, port_admin_status, port_alarm_threshold,
  port_column, ColumnInfo, port_info, port_info_at, sensor_info_at, cell_key,
}
use agentx_subagent.Mib.Snmp.{
  Mode, get, set_reserve1, set_reserve2, set_free, set_action, set_commit, set_undo, other, SnmpErr,
  no_error, gen_err, no_such_instance, no_such_object, resource_unavailable, no_creation,
  not_writable, Asn, asn_integer, asn_counter, asn_octet_str, Snmp,
}
use agentx_subagent.Mib.Scalars.{
  answer, committed, undone, requested, reserve1_integer, reserve1_octets, zeroed, is_admin_status,
  is_milli_c,
}

-- `for (request = requests; request != NULL; request = request->next)`; `mem i` says whether the one
-- allocation made for the i-th request succeeds.
unfoldable pub each : {Q A : Type 0} → (Bool → Q → A → Q × A) → (ℕ → Bool) → List Q → A → List Q × A
each f mem [] a = ([], a)
each f mem (q ∷ qs) a =
    let (q', a') = f (mem 0) q a in
    let (qs', a'') = each f (λ i. mem (suc i)) qs a' in (q' ∷ qs', a'')

module _ {E T C Q U V : Type 0} (m : Lmdb E T C) (s : Snmp Q U) (t : TableSnmp Q V) where
  abbrev instance_of : TableInfo V → Option TableInstance
  instance_of info = table_instance_from_indexes t.parse t.build (some info.indexes) true

  abbrev pub get_at : ColumnInfo → Res Bytes → Q → Envs E → Q × Envs E
  get_at column (fail rc) q envs = (s.set_request_error gen_err q, envs)
  get_at column (got key) q envs =
      let (r, envs') = fetch m column.ref key column.syntax envs in (answer s column.asn r q, envs')

  -- From the instance on; `missing` is the default of the switch.
  abbrev pub at_column :
      (missing : Q → Q)
      → (ColumnInfo → Res Bytes → Q → Envs E → Q × Envs E)
      → Option TableInstance
      → Option ColumnInfo
      → Q
      → Envs E
      → Q × Envs E
  at_column missing act none column q envs = (s.set_request_error gen_err q, envs)
  at_column missing act (some inst) none q envs = (missing q, envs)
  at_column missing act (some inst) (some column) q envs = act column (cell_key column inst) q envs

  -- The tests that MODE_GET begins with.
  abbrev get_in :
      (ℕ → Option ColumnInfo) → Option (TableInfo V) → (row : Bool) → Q → Envs E → Q × Envs E
  get_in columns none row q envs = (s.set_request_error gen_err q, envs)
  get_in columns (some info) false q envs = (s.set_request_error no_such_instance q, envs)
  get_in columns (some info) true q envs =
      at_column (s.set_request_error no_such_object) get_at (instance_of info) (columns info.colnum)
        q envs

  unfoldable pub get_request : (ℕ → Option ColumnInfo) → Bool → Q → Envs E → Q × Envs E
  get_request columns mem q envs =
      get_in columns (t.extract_table_info q) (t.extract_iterator_context q) q envs

  -- The tests that RESERVE2 and ACTION begin with; the default of their switches does nothing.
  abbrev pub write_in :
      (ColumnInfo → Res Bytes → Q → Envs E → Q × Envs E)
      → Option (TableInfo V)
      → (row : Bool) → Q
      → Envs E
      → Q × Envs E
  write_in act none row q envs = (s.set_request_error gen_err q, envs)
  write_in act (some info) false q envs = (s.set_request_error gen_err q, envs)
  write_in act (some info) true q envs =
      at_column (λ q. q) act (instance_of info) (port_info_at info.colnum) q envs

  unfoldable pub check_column : PortColumn → Q → Q
  check_column port_descr q = reserve1_octets s asn_octet_str (λ vlen. leb vlen 63) q
  check_column port_admin_status q = reserve1_integer s asn_integer is_admin_status q
  check_column port_alarm_threshold q = reserve1_integer s asn_integer is_milli_c q

  abbrev check_in : Option (TableInfo V) → (row : Bool) → Q → Q
  check_in none row q = s.set_request_error gen_err q
  check_in (some info) false q = s.set_request_error no_creation q
  check_in (some info) true q = elim (port_column info.colnum) [
    | none ↦ s.set_request_error not_writable q
    | some column ↦ check_column column q
  ]

  unfoldable pub reserve1_request : Bool → Q → Envs E → Q × Envs E
  reserve1_request mem q envs =
      (check_in (t.extract_table_info q) (t.extract_iterator_context q) q, envs)

  abbrev pub action_at : (mem : Bool) → ColumnInfo → Res Bytes → Q → Envs E → Q × Envs E
  action_at mem column (fail rc) q envs = (s.set_request_error gen_err q, envs)
  action_at mem column (got key) q envs =
      let call = set_call mem (requested s column.syntax q) in
      let (rc, envs') = store m column.ref key call envs in (committed s rc q, envs')

  unfoldable pub action_request : Bool → Q → Envs E → Q × Envs E
  action_request mem q envs =
      write_in (action_at mem) (t.extract_table_info q) (t.extract_iterator_context q) q envs

module _ {E T C Q V : Type 0} (m : Lmdb E T C) (s : Snmp Q CellUndo) (t : TableSnmp Q V) where
  abbrev pub stash_of : Bytes → Bool → Cell → CellUndo
  stash_of key existed value = record { key = key; existed = existed; value = value }

  abbrev pub stashed : ColumnInfo → Bytes → StorageRc × Cell → Q → Q
  stashed column key (ok, prev) q = s.add_list_data column.undo_name (stash_of key true prev) q
  stashed column key (err_notfound, prev) q =
      s.add_list_data column.undo_name (stash_of key false (zeroed prev)) q
  stashed column key (rc, prev) q = s.set_request_error resource_unavailable q

  abbrev pub reserve2_at : (mem : Bool) → ColumnInfo → Res Bytes → Q → Envs E → Q × Envs E
  reserve2_at false column key q envs = (s.set_request_error resource_unavailable q, envs)
  reserve2_at true column (fail rc) q envs = (s.set_request_error gen_err q, envs)
  reserve2_at true column (got key) q envs =
      let (r, envs') = fetch m column.ref key column.syntax envs in (stashed column key r q, envs')

  unfoldable pub reserve2_request : Bool → Q → Envs E → Q × Envs E
  reserve2_request mem q envs =
      write_in m s t (reserve2_at mem) (t.extract_table_info q) (t.extract_iterator_context q) q
        envs

  -- FREE and COMMIT
  unfoldable pub release_request : Bool → Q → Envs E → Q × Envs E
  release_request mem q envs = (
    s.remove_list_data (port_info port_alarm_threshold).undo_name (
        s.remove_list_data (port_info port_admin_status).undo_name
          (s.remove_list_data (port_info port_descr).undo_name q)),
    envs,
  )

  abbrev pub tolerated : StorageRc × Envs E → StorageRc × Envs E
  tolerated (err_notfound, envs) = (ok, envs)
  tolerated (rc, envs) = (rc, envs)

  abbrev pub restore : (mem : Bool) → EnvRef → CellUndo → Envs E → StorageRc × Envs E
  restore mem ref prev envs =
      if prev.existed
      then store m ref prev.key (set_call mem prev.value) envs
      else tolerated (store m ref prev.key delete envs)

  abbrev pub undo_with : (mem : Bool) → ColumnInfo → Option CellUndo → Q → Envs E → Q × Envs E
  undo_with mem column none q envs = (q, envs)
  undo_with mem column (some prev) q envs =
      let (rc, envs') = restore mem column.ref prev envs in
      (s.remove_list_data column.undo_name (undone s rc q), envs')

  unfoldable pub undo_column : (mem : Bool) → PortColumn → Q → Envs E → Q × Envs E
  undo_column mem column q envs =
      undo_with mem (port_info column) (s.get_list_data (port_info column).undo_name q) q envs

  unfoldable pub undo_request : Bool → Q → Envs E → Q × Envs E
  undo_request mem q envs =
      let (q1, envs1) = undo_column mem port_descr q envs in
      let (q2, envs2) = undo_column mem port_admin_status q1 envs1 in
      undo_column mem port_alarm_threshold q2 envs2

  abbrev handled : List Q × Envs E → SnmpErr × List Q × Envs E
  handled (qs, envs) = (no_error, qs, envs)

  unfoldable pub handle_port_config_table :
      (ℕ → Bool) → Mode → List Q → Envs E → SnmpErr × List Q × Envs E
  handle_port_config_table mem get qs envs =
      handled (each (get_request m s t port_info_at) mem qs envs)
  handle_port_config_table mem set_reserve1 qs envs =
      handled (each (reserve1_request m s t) mem qs envs)
  handle_port_config_table mem set_reserve2 qs envs = handled (each reserve2_request mem qs envs)
  handle_port_config_table mem set_free qs envs = handled (each release_request mem qs envs)
  handle_port_config_table mem set_action qs envs =
      handled (each (action_request m s t) mem qs envs)
  handle_port_config_table mem set_commit qs envs = handled (each release_request mem qs envs)
  handle_port_config_table mem set_undo qs envs = handled (each undo_request mem qs envs)
  handle_port_config_table mem other qs envs = (gen_err, qs, envs)

  unfoldable pub handle_sensor_table : Mode → List Q → Envs E → SnmpErr × List Q × Envs E
  handle_sensor_table get qs envs =
      handled (each (get_request m s t sensor_info_at) (λ i. true) qs envs)
  handle_sensor_table mode qs envs = (gen_err, qs, envs)
