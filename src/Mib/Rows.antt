-- ===== src/Mib/Rows.antt =====
-- The walk over a table's rows: *_column_refs, *_get_first_data_point, *_get_next_data_point and
-- *_free_loop_context of src/generated/demo_config_table.c and demo_status_table.c.
pub mod Walk
use agentx_subagent.Prelude.{
  ℕ, zero, suc, ◌-◌, Bool, true, false, not, Option, none, some, List, [], ◌∷◌, Bytes, text, ltb,
  ◌==◌, if◌then◌else◌,
}
use agentx_subagent.Storage.Types.{StorageRc, ok}
use agentx_subagent.Storage.Lmdb.{Lmdb}
use agentx_subagent.Storage.Envs.{Envs, EnvRef, cache}
use agentx_subagent.Rows.Instance.{TableInstance}
use agentx_subagent.Rows.Rowset.{
  Memory, TableColumnRef, TableRowset, table_rowset_load, table_rowset_count, table_rowset_at,
  table_rowset_skipped,
}
use agentx_subagent.Rows.Oid.{table_instance_to_indexes}
use agentx_subagent.Mib.Modes.{storage_modes, env_of}

abbrev column_ref : EnvRef → Bytes → TableColumnRef
column_ref env column = record { env = env; column = some column }

unfoldable pub port_config_column_refs : List TableColumnRef
port_config_column_refs =
    column_ref (env_of storage_modes.port_descr) (text "portDescr")
    ∷ column_ref (env_of storage_modes.port_admin_status) (text "portAdminStatus")
    ∷ column_ref (env_of storage_modes.port_alarm_threshold_milli_c)
        (text "portAlarmThresholdMilliC")
    ∷ []

unfoldable pub sensor_column_refs : List TableColumnRef
sensor_column_refs =
    column_ref cache (text "sensorName")
    ∷ column_ref cache (text "sensorTempMilliC")
    ∷ column_ref cache (text "sensorSampleCount")
    ∷ []

-- struct *_loop
pub record Loop : Type 0 where
  pub rows : TableRowset
  pub next : ℕ

-- What a call leaves: *loop_context, and the returned index varbinds, `none` for NULL. The data
-- context is the address of *_row_present wherever varbinds are returned.
pub record Step (V : Type 0) : Type 0 where
  pub loop_context : Option Loop
  pub indexes : Option V

module _ {V : Type 0} (parse : List ℕ → V → Option V) (build : V → Option (List ℕ)) where
  abbrev advanced : Loop → Loop
  advanced loop = record loop { next = suc loop.next }

  -- The loop, on `left` rows that are left. A row that does not fit the index syntax is skipped,
  -- and the template is used for the next one.
  unfoldable pub next_loop : ℕ → Loop → V → Step V
  next_loop zero loop put_index_data = record { loop_context = some loop; indexes = none }
  next_loop (suc left) loop put_index_data =
      elim (table_instance_to_indexes parse build (table_rowset_at (some loop.rows) loop.next)
        (some put_index_data)) [
          | none ↦ next_loop left (advanced loop) put_index_data
          | some indexes ↦ record { loop_context = some (advanced loop); indexes = some indexes }
        ]

  unfoldable pub get_next_data_point : Option Loop → V → Step V
  get_next_data_point none put_index_data = record { loop_context = none; indexes = none }
  get_next_data_point (some loop) put_index_data =
      next_loop (table_rowset_count (some loop.rows) - loop.next) loop put_index_data

  -- What is left of *_get_first_data_point once the rows are loaded, with *_last_skipped; `mem`
  -- says whether the calloc of the loop state succeeds.
  abbrev rows_loaded : (mem : Bool) → StorageRc × Option TableRowset → V → ℕ → Step V × ℕ
  rows_loaded mem (ok, some rows) put_index_data last_skipped = (
    if mem
        then get_next_data_point (some (record { rows = rows; next = 0 })) put_index_data
        else record { loop_context = none; indexes = none },
    table_rowset_skipped (some rows),
  )
  rows_loaded mem (rc, rows) put_index_data last_skipped =
      (record { loop_context = none; indexes = none }, last_skipped)

  -- Over the column references of the table. `none` is fuel that has run out in the row scan.
  unfoldable pub get_first_data_point :
      {E T C : Type 0} (m : Lmdb E T C)
      → Memory
      → (fuel : ℕ) → (mem : Bool) → List TableColumnRef
      → V
      → ℕ
      → Envs E
      → Option ((Step V × ℕ) × Envs E)
  get_first_data_point m memory fuel mem refs put_index_data last_skipped envs =
      elim (table_rowset_load m memory fuel (some refs) true envs) [
        | none ↦ none
        | some (r, envs') ↦ some (rows_loaded mem r put_index_data last_skipped, envs')
      ]

module _ {E T C V : Type 0} (m : Lmdb E T C) (parse : List ℕ → V → Option V)
    (build : V → Option (List ℕ)) (memory : Memory) (fuel : ℕ) (mem : Bool) where
  -- portConfigTable_get_first_data_point and sensorTable_get_first_data_point
  unfoldable pub port_config_first : V → ℕ → Envs E → Option ((Step V × ℕ) × Envs E)
  port_config_first = get_first_data_point parse build m memory fuel mem port_config_column_refs

  unfoldable pub sensor_first : V → ℕ → Envs E → Option ((Step V × ℕ) × Envs E)
  sensor_first = get_first_data_point parse build m memory fuel mem sensor_column_refs
