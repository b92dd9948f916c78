-- ===== src/Mib/Tables/Pending/Undo.antt =====
-- UNDO of one request of handle_portConfigTable in src/generated/demo_config_table.c.
use agentx_subagent.Prelude.{
  ◌≡◌, ◌≢◌, refl, sym, subst, ◌∙◌, ap, ◌⊎◌, inl, inr, Bool, true, false, Option, none, some, Bytes,
  same→eq, arith, if◌then◌else◌,
}
use agentx_subagent.Storage.Types.{StorageRc, ok, err_notfound}
use agentx_subagent.Storage.Lmdb.{Lmdb, LmdbLaws, NotFoundLaws}
use agentx_subagent.Storage.Codec.{got, validate_key}
use agentx_subagent.Storage.Envs.{Envs, EnvRef}
use agentx_subagent.Storage.Ops.Calls.{delete}
use agentx_subagent.Mib.Values.{encoding, set_call, store}
use agentx_subagent.Mib.Values.Effects.{
  Unchanged, Sets, db, same_env→eq, store-Unchanged, store-Sets,
}
use agentx_subagent.Mib.Columns.{
  CellUndo, TableSnmp, PortColumn, port_descr, port_admin_status, port_alarm_threshold, port_info,
}
use agentx_subagent.Mib.Snmp.{undo_failed, Snmp, SnmpLaws}
use agentx_subagent.Mib.Scalars.{undone}
use agentx_subagent.Mib.Scalars.Phases.{stored-set_call}
use agentx_subagent.Mib.Tables.{restore, tolerated, undo_with, undo_column, undo_request}
use agentx_subagent.Mib.Tables.Deletes.{store_delete-notfound}
use agentx_subagent.Mib.Tables.Requests.{undo_name, undo_name_ne, target}
use agentx_subagent.Mib.Tables.Pending.{saved, hit, target_key, Pending, skips, stash}

saved_old : (undo : CellUndo) → undo.existed ≡ true → saved undo ≡ some (encoding undo.value)
saved_old undo h = ap (λ b. if b then some (encoding undo.value) else none) h

saved_new : (undo : CellUndo) → undo.existed ≡ false → saved undo ≡ none
saved_new undo h = ap (λ b. if b then some (encoding undo.value) else none) h

module _ {E T C Q V : Type 0} (m : Lmdb E T C) (L : LmdbLaws m) (K : NotFoundLaws m L)
    (s : Snmp Q CellUndo) (t : TableSnmp Q V) (N : SnmpLaws s) where
  undo_column-none :
      (mem : Bool) (c : PortColumn) (q : Q) (envs : Envs E)
      → s.get_list_data (undo_name c) q ≡ none
      → undo_column m s t mem c q envs ≡ (q, envs)
  unfolding undo_column
  undo_column-none mem c q envs h = rw h

  undo_column-some :
      (mem : Bool) (c : PortColumn) (undo : CellUndo) (q : Q) (envs : Envs E)
      → s.get_list_data (undo_name c) q ≡ some undo
      → undo_column m s t mem c q envs ≡ undo_with m s t mem (port_info c) (some undo) q envs
  unfolding undo_column
  undo_column-some mem c undo q envs h = rw h

  undone_list_data :
      (name : Bytes) (rc : StorageRc) (q : Q)
      → s.get_list_data name (undone s rc q) ≡ s.get_list_data name q
  undone_list_data name ok q = refl
  undone_list_data name rc q = N.get_list_data-error name undo_failed q

  -- The other names stay free.
  undo_with-others :
      (mem : Bool) (c other : PortColumn) (undo : CellUndo) (q : Q) (envs : Envs E)
      → other ≢ c
      → s.get_list_data (undo_name other) q ≡ none
      → s.get_list_data (undo_name other) (undo_with m s t mem (port_info c) (some undo) q envs).0
        ≡ none
  undo_with-others mem c other undo q envs ne h =
      N.get-remove_list_data_ne (undo_name other) (undo_name c)
        (undone s (restore m s t mem (port_info c).ref undo envs).0 q) (undo_name_ne other c ne)
      ∙ undone_list_data (undo_name other) (restore m s t mem (port_info c).ref undo envs).0 q
      ∙ h

  -- Of the three blocks only the one with a stash does anything.
  undo_request_stash :
      (mem : Bool) (c : PortColumn) (undo : CellUndo) (q : Q) (envs : Envs E)
      → s.get_list_data (undo_name c) q ≡ some undo
      → ((other : PortColumn) → other ≢ c → s.get_list_data (undo_name other) q ≡ none)
      → undo_request m s t mem q envs ≡ undo_with m s t mem (port_info c) (some undo) q envs
  unfolding undo_request
  undo_request_stash mem port_descr undo q envs h free =
      let f = λ (c : PortColumn) (p : Q × Envs E). undo_column m s t mem c p.0 p.1 in
      let p = undo_with m s t mem (port_info port_descr) (some undo) q envs in
      let still = λ (other : PortColumn) (ne : other ≢ port_descr).
        undo_with-others mem port_descr other undo q envs ne (free other ne) in
      ap (λ x. f port_alarm_threshold (f port_admin_status x))
        (undo_column-some mem port_descr undo q envs h)
      ∙ ap (f port_alarm_threshold)
          (undo_column-none mem port_admin_status p.0 p.1 (still port_admin_status (λ e. cc)))
      ∙ undo_column-none mem port_alarm_threshold p.0 p.1 (still port_alarm_threshold (λ e. cc))
  undo_request_stash mem port_admin_status undo q envs h free =
      let f = λ (c : PortColumn) (p : Q × Envs E). undo_column m s t mem c p.0 p.1 in
      let p = undo_with m s t mem (port_info port_admin_status) (some undo) q envs in
      ap (λ x. f port_alarm_threshold (f port_admin_status x))
        (undo_column-none mem port_descr q envs (free port_descr (λ e. cc)))
      ∙ ap (f port_alarm_threshold) (undo_column-some mem port_admin_status undo q envs h)
      ∙ undo_column-none mem port_alarm_threshold p.0 p.1 (
          undo_with-others mem port_admin_status port_alarm_threshold undo q envs (λ e. cc)
            (free port_alarm_threshold (λ e. cc)))
  undo_request_stash mem port_alarm_threshold undo q envs h free =
      let f = λ (c : PortColumn) (p : Q × Envs E). undo_column m s t mem c p.0 p.1 in
      ap (λ x. f port_alarm_threshold (f port_admin_status x))
        (undo_column-none mem port_descr q envs (free port_descr (λ e. cc)))
      ∙ ap (f port_alarm_threshold)
          (undo_column-none mem port_admin_status q envs (free port_admin_status (λ e. cc)))
      ∙ undo_column-some mem port_alarm_threshold undo q envs h

  undo_request-none :
      (mem : Bool) (q : Q) (envs : Envs E)
      → ((c : PortColumn) → s.get_list_data (undo_name c) q ≡ none)
      → undo_request m s t mem q envs ≡ (q, envs)
  unfolding undo_request
  undo_request-none mem q envs free = rw (
    undo_column-none mem port_descr q envs (free port_descr),
    undo_column-none mem port_admin_status q envs (free port_admin_status),
    undo_column-none mem port_alarm_threshold q envs (free port_alarm_threshold),
  )

  -- The write of UNDO gives the cell what was saved, or fails and changes nothing.
  pub data Restored (ref : EnvRef) (undo : CellUndo) (before : Envs E)
      : StorageRc → Envs E → Type 0 where
    back :
        {after : Envs E}
        → Sets m L ref undo.key (saved undo) before after
        → Restored ref undo before ok after
    kept : {rc : StorageRc} {after : Envs E} → rc ≢ ok → Restored ref undo before rc after

  set_restored :
      (ref : EnvRef) (undo : CellUndo) (before after : Envs E) (rc : StorageRc)
      → (rc ≡ ok → Sets m L ref undo.key (saved undo) before after)
      → Restored ref undo before rc after
  set_restored ref undo before after ok good = back (good refl)
  set_restored ref undo before after rc good = kept (ground arith)

  tolerated_restored :
      (ref : EnvRef) (undo : CellUndo) (before : Envs E) (r : StorageRc × Envs E)
      → (r.0 ≡ ok → Sets m L ref undo.key (saved undo) before r.1)
      → (r.0 ≡ err_notfound → Sets m L ref undo.key (saved undo) before r.1)
      → Restored ref undo before (tolerated m s t r).0 (tolerated m s t r).1
  tolerated_restored ref undo before (ok, after) good missing = back (good refl)
  tolerated_restored ref undo before (err_notfound, after) good missing = back (missing refl)
  tolerated_restored ref undo before (rc, after) good missing = kept (ground arith)

  -- Nothing was there, and nothing is.
  Sets-none :
      (ref : EnvRef) (key : Bytes) (before after : Envs E)
      → db m L before ref key ≡ none
      → Unchanged m L before after
      → Sets m L ref key none before after
  Sets-none ref key before after empty same_db r j =
      ground (arith, empty, same_db r j, same→eq key j, same_env→eq ref r)

  restore_lem :
      (mem : Bool) (ref : EnvRef) (undo : CellUndo) (envs : Envs E)
      → validate_key (some undo.key) ≡ got undo.key
      → Restored ref undo envs
          (restore m s t mem ref undo envs).0
          (restore m s t mem ref undo envs).1
  restore_lem mem ref undo envs valid = by_case undo.existed refl
    where
      by_case :
          (b : Bool)
          → undo.existed ≡ b
          → let r =
              if b
              then store m ref undo.key (set_call mem undo.value) envs
              else tolerated m s t (store m ref undo.key delete envs) in
            Restored ref undo envs r.0 r.1
      by_case true old =
          set_restored ref undo envs (store m ref undo.key (set_call mem undo.value) envs).1
            (store m ref undo.key (set_call mem undo.value) envs).0
            (λ good.
              subst
                (λ v.
                  Sets m L ref undo.key v envs
                    (store m ref undo.key (set_call mem undo.value) envs).1)
                (stored-set_call mem undo.value ∙ sym (saved_old undo old))
                (store-Sets m L ref undo.key (set_call mem undo.value) envs good))
      by_case false new =
          let after = (store m ref undo.key delete envs).1 in
          tolerated_restored ref undo envs (store m ref undo.key delete envs)
            (λ good.
              subst (λ v. Sets m L ref undo.key v envs after) (sym (saved_new undo new))
                (store-Sets m L ref undo.key delete envs good))
            (λ missing.
              subst (λ v. Sets m L ref undo.key v envs after) (sym (saved_new undo new))
                (Sets-none ref undo.key envs after
                  (store_delete-notfound m L K ref undo.key envs valid missing)
                  (store-Unchanged m L ref undo.key delete envs (ground (arith, missing)))))

  -- UNDO reports that it has failed.
  abbrev pub UndoFails : Q → Q → Type 0
  UndoFails q q' =
      (c : PortColumn) × (q' ≡ s.remove_list_data (undo_name c) (s.set_request_error undo_failed q))

  abbrev pub Back :
      (EnvRef → Bytes → Option Bytes) → Option (PortColumn × Bytes) → Envs E → Envs E → Type 0
  Back a target before after =
      (r : EnvRef) (j : Bytes)
      → db m L after r j ≡ (if hit target r j then a r j else db m L before r j)

  restored-Back :
      (a : EnvRef → Bytes → Option Bytes) (c : PortColumn) (undo : CellUndo) (q : Q)
      (before after : Envs E) (rc : StorageRc)
      → saved undo ≡ a (port_info c).ref undo.key
      → Restored (port_info c).ref undo before rc after
      → Back a (some (c, undo.key)) before after
        ⊎ UndoFails q (s.remove_list_data (undo_name c) (undone s rc q))
  restored-Back a c undo q before after ok keeps (back sets) =
      inl (λ r j.
        ground (arith, sets r j, keeps, same→eq undo.key j, same_env→eq (port_info c).ref r))
  restored-Back a c undo q before after ok keeps (kept ne) = absurd (ne refl)
  restored-Back a c undo q before after rc keeps (kept ne) = inr (c, refl)

  -- UNDO gives the target what the database `a` holds there and changes nothing else, or fails.
  pub undo-Back :
      (a : EnvRef → Bytes → Option Bytes) (mem : Bool) (q : Q) (envs : Envs E)
      → Pending m s t a q
      → let r = undo_request m s t mem q envs in Back a (target t q) envs r.1 ⊎ UndoFails q r.0
  undo-Back a mem q envs (skips names skip clean) =
      rw (undo_request-none mem q envs clean, names) (inl (λ r j. refl))
  undo-Back a mem q envs (stash c undo names there others keeps) =
      rw (undo_request_stash mem c undo q envs there others, names)
        (restored-Back a c undo q envs _ _ keeps
          (restore_lem mem (port_info c).ref undo envs (target_key t q c undo.key names)))
