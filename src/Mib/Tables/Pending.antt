-- ===== src/Mib/Tables/Pending.antt =====
-- RESERVE2 and ACTION of one request of handle_portConfigTable in src/generated/demo_config_table.c:
-- what is stashed, and which cell is written.
pub mod Action
pub mod Undo
use agentx_subagent.Prelude.{
  ◌≡◌, ◌≢◌, refl, sym, ◌∙◌, ap, ◌⊎◌, inl, inr, Bool, true, false, not, ◌&&◌, Option, none, some,
  Bytes, same, arith, if◌then◌else◌,
}
use agentx_subagent.Storage.Types.{StorageRc, ok, err_notfound, err_inval}
use agentx_subagent.Storage.Lmdb.{Lmdb, LmdbLaws}
use agentx_subagent.Storage.Codec.{Res, got, fail, validate_key}
use agentx_subagent.Storage.Env.{StorageEnv}
use agentx_subagent.Storage.Env.Reads.{CanRead}
use agentx_subagent.Storage.Envs.{Envs, EnvRef}
use agentx_subagent.Rows.Instance.{TableInstance}
use agentx_subagent.Rows.Oid.{table_instance_from_indexes}
use agentx_subagent.Mib.Values.{Cell, int, uint, octets, encoding, set_call, fetch, store}
use agentx_subagent.Mib.Values.Effects.{
  Unchanged, Sets, db, same_env, fetch-Unchanged, store-Unchanged, store-Sets,
}
use agentx_subagent.Mib.Values.Reads.{Typed, ReadAs, fetch-ReadAs, blank}
use agentx_subagent.Mib.Columns.{
  CellUndo, TableInfo, TableSnmp, TableLaws, PortColumn, port_column, port_info, cell_key,
}
use agentx_subagent.Mib.Snmp.{SnmpErr, resource_unavailable, commit_failed, Snmp, SnmpLaws}
use agentx_subagent.Mib.Scalars.{committed, requested, zeroed}
use agentx_subagent.Mib.Tables.{
  action_at, action_request, stash_of, stashed, reserve2_at, reserve2_request,
}
use agentx_subagent.Mib.Tables.Requests.{
  undo_name, undo_name_ne, cell_key_valid, target, target_in, target_row, target_at, write_target,
  Skips, reserve2-Skips,
}

-- What UNDO writes back: a value, or none for a delete.
abbrev pub saved : CellUndo → Option Bytes
saved undo = if undo.existed then some (encoding undo.value) else none

-- The cell `j` of the database `r` is the target.
abbrev pub hit : Option (PortColumn × Bytes) → EnvRef → Bytes → Bool
hit none r j = false
hit (some (c, key)) r j = same_env (port_info c).ref r && same key j

module _ {Q V : Type 0} (t : TableSnmp Q V) where
  target_key_at :
      (c column : PortColumn) (key : Bytes) (inst : TableInstance) (r : Res Bytes)
      → cell_key (port_info column) inst ≡ r
      → target_at t column r ≡ some (c, key)
      → validate_key (some key) ≡ got key
  target_key_at c column key inst (fail rc) e h = cc
  target_key_at c column key inst (got k) e h =
      cell_key_valid column inst key (e ∙ ground (arith, h))

  target_key_row :
      (c : PortColumn) (key : Bytes) (o : Option TableInstance) (p : Option PortColumn)
      → target_row t o p ≡ some (c, key)
      → validate_key (some key) ≡ got key
  target_key_row c key none p h = cc
  target_key_row c key (some inst) none h = cc
  target_key_row c key (some inst) (some column) h = target_key_at c column key inst _ refl h

  target_key_in :
      (c : PortColumn) (key : Bytes) (i : Option (TableInfo V)) (row : Bool)
      → target_in t i row ≡ some (c, key)
      → validate_key (some key) ≡ got key
  target_key_in c key none row h = cc
  target_key_in c key (some info) false h = cc
  target_key_in c key (some info) true h = target_key_row c key _ _ h

  -- The key of a target is one that the storage takes.
  pub target_key :
      (q : Q) (c : PortColumn) (key : Bytes)
      → target t q ≡ some (c, key)
      → validate_key (some key) ≡ got key
  target_key q c key h = target_key_in c key _ _ h

module _ {E T C Q V : Type 0} (m : Lmdb E T C) (s : Snmp Q CellUndo) (t : TableSnmp Q V) where
  -- The request carries no stash.
  abbrev pub Clean : Q → Type 0
  Clean q = (c : PortColumn) → s.get_list_data (undo_name c) q ≡ none

  -- A request behind RESERVE2: it names no cell, or the stash of its column, and no other, holds
  -- what the database `a` holds in its cell.
  pub data Pending (a : EnvRef → Bytes → Option Bytes) (q : Q) : Type 0 where
    skips : target t q ≡ none → Skips m s t q → Clean q → Pending a q
    stash :
        (c : PortColumn) (undo : CellUndo)
        → target t q ≡ some (c, undo.key)
        → s.get_list_data (undo_name c) q ≡ some undo
        → ((other : PortColumn) → other ≢ c → s.get_list_data (undo_name other) q ≡ none)
        → saved undo ≡ a (port_info c).ref undo.key
        → Pending a q

module _ {E T C Q V : Type 0} (m : Lmdb E T C) (L : LmdbLaws m) (s : Snmp Q CellUndo)
    (t : TableSnmp Q V) (N : SnmpLaws s) (H : TableLaws s t) where
  -- The target's cell holds nothing, or a value of the column's type.
  abbrev pub TypedTarget : Envs E → Q → Type 0
  TypedTarget envs q =
      (c : PortColumn) (key : Bytes)
      → target t q ≡ some (c, key)
      → Typed (port_info c).syntax (db m L envs (port_info c).ref key)

  target_error : (e : SnmpErr) (q : Q) → target t (s.set_request_error e q) ≡ target t q
  target_error e q = rw (H.info-error e q, H.context-error e q)

  pub target_add :
      (name : Bytes) (u : CellUndo) (q : Q) → target t (s.add_list_data name u q) ≡ target t q
  target_add name u q = rw (H.info-add_list_data name u q, H.context-add_list_data name u q)

  added :
      (a : EnvRef → Bytes → Option Bytes) (q : Q) (c : PortColumn) (u : CellUndo)
      → Clean m s t q
      → target t q ≡ some (c, u.key)
      → saved u ≡ a (port_info c).ref u.key
      → Pending m s t a (s.add_list_data (undo_name c) u q)
  added a q c u clean names keeps =
      stash c u (target_add (undo_name c) u q ∙ names)
        (N.get-add_list_data (undo_name c) u q (clean c))
        (λ other ne.
          N.get-add_list_data_ne (undo_name other) (undo_name c) u q (undo_name_ne other c ne)
          ∙ clean other)
        keeps

  stashed_lem :
      (a : EnvRef → Bytes → Option Bytes) (q : Q) (c : PortColumn) (key : Bytes)
      (r : StorageRc × Cell)
      → Clean m s t q
      → target t q ≡ some (c, key)
      → ReadAs (port_info c).syntax (a (port_info c).ref key) r
      → N.failed (stashed m s t (port_info c) key r q) ≡ false
      → Pending m s t a (stashed m s t (port_info c) key r q)
  stashed_lem a q c key (err_inval, var) clean names reads pass =
      absurd (ground (arith, pass, N.error_fails resource_unavailable q refl))
  stashed_lem a q c key (ok, var) clean names (inl bad) pass = cc
  stashed_lem a q c key (ok, var) clean names (inr (inl (cell, e, full))) pass =
      added a q c (stash_of m s t key true var) clean names (ground (arith, e, full))
  stashed_lem a q c key (ok, var) clean names (inr (inr (e, empty))) pass =
      absurd (ground (arith, e))
  stashed_lem a q c key (err_notfound, var) clean names (inl bad) pass = cc
  stashed_lem a q c key (err_notfound, var) clean names (inr (inl (cell, e, full))) pass =
      absurd (ground (arith, e))
  stashed_lem a q c key (err_notfound, var) clean names (inr (inr (e, empty))) pass =
      added a q c (stash_of m s t key false (zeroed var)) clean names (sym empty)
  stashed_lem a q c key (_, var) clean names reads pass =
      absurd (ground (arith, pass, N.error_fails resource_unavailable q refl))

  reserve2_target :
      (mem : Bool) (q : Q) (envs : Envs E) (c : PortColumn) (key : Bytes)
      → ((e : StorageEnv E) → CanRead m e)
      → Clean m s t q
      → target t q ≡ some (c, key)
      → TypedTarget envs q
      → let r = reserve2_at m s t mem (port_info c) (got key) q envs in
        N.failed r.0 ≡ false → Pending m s t (db m L envs) r.0 × Unchanged m L envs r.1
  reserve2_target false q envs c key reads clean names typed pass =
      absurd (ground (arith, pass, N.error_fails resource_unavailable q refl))
  reserve2_target true q envs c key reads clean names typed pass =
      let column = port_info c in
      (
        stashed_lem (db m L envs) q c key (fetch m column.ref key column.syntax envs).0 clean names
            (fetch-ReadAs m L column.ref key column.syntax envs reads (target_key t q c key names)
              (typed c key names))
            pass,
        fetch-Unchanged m L column.ref key column.syntax envs,
      )

  -- RESERVE2 of a request without an error.
  pub reserve2-Pending :
      (mem : Bool) (q : Q) (envs : Envs E)
      → ((e : StorageEnv E) → CanRead m e)
      → Clean m s t q
      → TypedTarget envs q
      → N.failed (reserve2_request m s t mem q envs).0 ≡ false
      → Pending m s t (db m L envs) (reserve2_request m s t mem q envs).0
        × Unchanged m L envs (reserve2_request m s t mem q envs).1
  unfolding reserve2_request
  reserve2-Pending mem q envs reads clean typed pass = by_target (target t q) refl
    where
      by_target :
          (o : Option (PortColumn × Bytes))
          → target t q ≡ o
          → Pending m s t (db m L envs) (reserve2_request m s t mem q envs).0
            × Unchanged m L envs (reserve2_request m s t mem q envs).1
      by_target none e =
          let skip = reserve2-Skips m s t N mem q envs e pass in
          let same = skip (reserve2_at m s t mem) envs q refl refl in
          rw same (skips e skip clean, λ r j. refl)
      by_target (some (c, key)) e =
          let same = write_target m s t (reserve2_at m s t mem) q envs c key e in
          rw same (reserve2_target mem q envs c key reads clean e typed (rw same at pass))
