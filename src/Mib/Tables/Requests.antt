-- ===== src/Mib/Tables/Requests.antt =====
-- One request of a SET through the phases of handle_portConfigTable in
-- src/generated/demo_config_table.c.
use agentx_subagent.Prelude.{
  ◌≡◌, ◌≢◌, refl, ap, Bool, true, false, Option, none, some, ℕ, ◌<◌, ◌-◌, ◌++◌, ◌∷◌, ltb, Bytes,
  length, length-append, arith, if◌then◌else◌,
}
use agentx_subagent.Storage.Types.{err_toobig, key_max}
use agentx_subagent.Storage.Lmdb.{Lmdb}
use agentx_subagent.Storage.Codec.{Res, got, fail, validate_key}
use agentx_subagent.Storage.Envs.{Envs}
use agentx_subagent.Rows.Instance.{TableInstance, table_cell_key, table_instance_format}
use agentx_subagent.Rows.Oid.{table_instance_from_indexes}
use agentx_subagent.Mib.Columns.{
  CellUndo, TableInfo, TableSnmp, PortColumn, port_descr, port_admin_status, port_alarm_threshold,
  port_column, ColumnInfo, info_of, port_info, cell_key,
}
use agentx_subagent.Mib.Snmp.{gen_err, resource_unavailable, Snmp, SnmpLaws}
use agentx_subagent.Mib.Tables.{at_column, write_in, reserve2_at, reserve2_request}

-- The name of a column's stash.
abbrev pub undo_name : PortColumn → Bytes
undo_name column = (port_info column).undo_name

name_ne : (xs ys : Bytes) → length xs ≢ length ys → xs ≢ ys
name_ne xs ys ne e = ne (ap length e)

pub undo_name_ne : (a b : PortColumn) → a ≢ b → undo_name a ≢ undo_name b
undo_name_ne port_descr port_descr ne = absurd (ne refl)
undo_name_ne port_descr port_admin_status ne = name_ne _ _ (omega arith)
undo_name_ne port_descr port_alarm_threshold ne = name_ne _ _ (omega arith)
undo_name_ne port_admin_status port_descr ne = name_ne _ _ (omega arith)
undo_name_ne port_admin_status port_admin_status ne = absurd (ne refl)
undo_name_ne port_admin_status port_alarm_threshold ne = name_ne _ _ (omega arith)
undo_name_ne port_alarm_threshold port_descr ne = name_ne _ _ (omega arith)
undo_name_ne port_alarm_threshold port_admin_status ne = name_ne _ _ (omega arith)
undo_name_ne port_alarm_threshold port_alarm_threshold ne = absurd (ne refl)

key_valid :
    (name text : Bytes) (key : Bytes)
    → 0 < length name
    → (if ltb key_max (length (name ++ (b'.' ∷ text)))
        then fail err_toobig
        else got (name ++ (b'.' ∷ text)))
      ≡ got key
    → validate_key (some key) ≡ got key
unfolding validate_key
key_valid name text key h e = ground (arith, length-append name (b'.' ∷ text), ap (length {A = ℕ}))

cell_key_valid_at :
    (name : Bytes) (inst : TableInstance) (key : Bytes)
    → 0 < length name
    → table_cell_key (some name) (some inst) true 256 ≡ got key
    → validate_key (some key) ≡ got key
unfolding table_cell_key
cell_key_valid_at name inst key h e =
    by_text (table_instance_format (some inst) true (256 - length name - 1)) refl
  where
    by_text :
        (r : Res Bytes)
        → table_instance_format (some inst) true (256 - length name - 1) ≡ r
        → validate_key (some key) ≡ got key
    by_text (fail rc) f = absurd (ground (arith, e, f))
    by_text (got text) f = key_valid name text key h (ground (arith, e, f))

pub cell_key_valid :
    (column : PortColumn) (inst : TableInstance) (key : Bytes)
    → cell_key (port_info column) inst ≡ got key
    → validate_key (some key) ≡ got key
cell_key_valid port_descr inst key h = cell_key_valid_at _ inst key (omega arith) h
cell_key_valid port_admin_status inst key h = cell_key_valid_at _ inst key (omega arith) h
cell_key_valid port_alarm_threshold inst key h = cell_key_valid_at _ inst key (omega arith) h

module _ {Q V : Type 0} (t : TableSnmp Q V) where
  abbrev pub target_at : PortColumn → Res Bytes → Option (PortColumn × Bytes)
  target_at column (fail rc) = none
  target_at column (got key) = some (column, key)

  abbrev pub target_row : Option TableInstance → Option PortColumn → Option (PortColumn × Bytes)
  target_row none column = none
  target_row (some inst) none = none
  target_row (some inst) (some column) = target_at column (cell_key (port_info column) inst)

  abbrev pub target_in : Option (TableInfo V) → (row : Bool) → Option (PortColumn × Bytes)
  target_in none row = none
  target_in (some info) false = none
  target_in (some info) true =
      target_row (table_instance_from_indexes t.parse t.build (some info.indexes) true)
        (port_column info.colnum)

  -- The cell that a request names: its column and its key.
  abbrev pub target : Q → Option (PortColumn × Bytes)
  target q = target_in (t.extract_table_info q) (t.extract_iterator_context q)

module _ {E T C Q U V : Type 0} (m : Lmdb E T C) (s : Snmp Q U) (t : TableSnmp Q V)
    (act : ColumnInfo → Res Bytes → Q → Envs E → Q × Envs E) (q : Q) (envs : Envs E) where
  -- A request with a target is handed to the code of the column, with the key.
  write_at :
      (column c : PortColumn) (key : Bytes) (r : Res Bytes)
      → target_at t column r ≡ some (c, key)
      → act (port_info column) r q envs ≡ act (port_info c) (got key) q envs
  write_at column c key (fail rc) h = cc
  write_at column c key (got k) h = cc

  write_column :
      (c : PortColumn) (key : Bytes) (o : Option TableInstance) (p : Option PortColumn)
      → target_row t o p ≡ some (c, key)
      → at_column m s t (λ x. x) act o (info_of port_info p) q envs
        ≡ act (port_info c) (got key) q envs
  write_column c key none p h = cc
  write_column c key (some inst) none h = cc
  write_column c key (some inst) (some column) h =
      write_at column c key (cell_key (port_info column) inst) h

  write_target_in :
      (c : PortColumn) (key : Bytes) (i : Option (TableInfo V)) (row : Bool)
      → target_in t i row ≡ some (c, key)
      → write_in m s t act i row q envs ≡ act (port_info c) (got key) q envs
  write_target_in c key none row h = cc
  write_target_in c key (some info) false h = cc
  write_target_in c key (some info) true h = write_column c key _ _ h

  pub write_target :
      (c : PortColumn) (key : Bytes)
      → target t q ≡ some (c, key)
      → write_in m s t act (t.extract_table_info q) (t.extract_iterator_context q) q envs
        ≡ act (port_info c) (got key) q envs
  write_target c key h = write_target_in c key _ _ h

module _ {E T C Q V : Type 0} (m : Lmdb E T C) (s : Snmp Q CellUndo) (t : TableSnmp Q V) where
  -- No code is run for a request, whichever phase it is.
  abbrev pub Skips : Q → Type 0
  Skips q =
      (act : ColumnInfo → Res Bytes → Q → Envs E → Q × Envs E) (envs : Envs E) (q' : Q)
      → t.extract_table_info q' ≡ t.extract_table_info q
      → t.extract_iterator_context q' ≡ t.extract_iterator_context q
      → write_in m s t act (t.extract_table_info q') (t.extract_iterator_context q') q' envs
        ≡ (q', envs)

module _ {E T C Q V : Type 0} (m : Lmdb E T C) (s : Snmp Q CellUndo) (t : TableSnmp Q V)
    (N : SnmpLaws s) where
  skips_key :
      (mem : Bool) (c : PortColumn) (r : Res Bytes) (q : Q) (envs : Envs E)
      → target_at t c r ≡ none
      → N.failed (reserve2_at m s t mem (port_info c) r q envs).0 ≡ false
      → ⊥
  skips_key mem c (got key) q envs e h = cc
  skips_key true c (fail rc) q envs e h = ground (arith, h, N.error_fails gen_err q refl)
  skips_key false c (fail rc) q envs e h =
      ground (arith, h, N.error_fails resource_unavailable q refl)

  skips_column :
      (mem : Bool) (q : Q) (envs : Envs E) (o : Option TableInstance) (p : Option PortColumn)
      → target_row t o p ≡ none
      → N.failed (at_column m s t (λ x. x) (reserve2_at m s t mem) o (info_of port_info p) q envs).0
        ≡ false
      → (act : ColumnInfo → Res Bytes → Q → Envs E → Q × Envs E) (envs' : Envs E) (q' : Q)
      → at_column m s t (λ x. x) act o (info_of port_info p) q' envs' ≡ (q', envs')
  skips_column mem q envs none p e h act envs' q' =
      absurd (ground (arith, h, N.error_fails gen_err q refl))
  skips_column mem q envs (some inst) none e h act envs' q' = refl
  skips_column mem q envs (some inst) (some c) e h act envs' q' =
      absurd (skips_key mem c (cell_key (port_info c) inst) q envs e h)

  skips_in :
      (mem : Bool) (q : Q) (envs : Envs E) (i : Option (TableInfo V)) (row : Bool)
      → target_in t i row ≡ none
      → N.failed (write_in m s t (reserve2_at m s t mem) i row q envs).0 ≡ false
      → (act : ColumnInfo → Res Bytes → Q → Envs E → Q × Envs E) (envs' : Envs E) (q' : Q)
      → write_in m s t act i row q' envs' ≡ (q', envs')
  skips_in mem q envs none row e h act envs' q' =
      absurd (ground (arith, h, N.error_fails gen_err q refl))
  skips_in mem q envs (some info) false e h act envs' q' =
      absurd (ground (arith, h, N.error_fails gen_err q refl))
  skips_in mem q envs (some info) true e h act envs' q' =
      skips_column mem q envs _ _ e h act envs' q'

  -- A request without a target that RESERVE2 lets pass is one of an unknown column.
  pub reserve2-Skips :
      (mem : Bool) (q : Q) (envs : Envs E)
      → target t q ≡ none
      → N.failed (reserve2_request m s t mem q envs).0 ≡ false
      → Skips m s t q
  unfolding reserve2_request
  reserve2-Skips mem q envs e h act envs' q' same_info same_context =
      rw (same_info, same_context) (skips_in mem q envs _ _ e h act envs' q')
