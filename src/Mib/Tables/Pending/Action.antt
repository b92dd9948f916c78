-- ===== src/Mib/Tables/Pending/Action.antt =====
-- ACTION of one request of handle_portConfigTable in src/generated/demo_config_table.c.
use agentx_subagent.Prelude.{◌≡◌, refl, ◌∙◌, Bool, false, Option, some, Bytes, arith}
use agentx_subagent.Storage.Types.{StorageRc, ok}
use agentx_subagent.Storage.Lmdb.{Lmdb, LmdbLaws}
use agentx_subagent.Storage.Envs.{Envs, EnvRef}
use agentx_subagent.Mib.Values.{set_call, store}
use agentx_subagent.Mib.Values.Effects.{db, store-Unchanged, store-Sets}
use agentx_subagent.Mib.Columns.{CellUndo, TableSnmp, TableLaws, PortColumn, port_info}
use agentx_subagent.Mib.Snmp.{SnmpErr, commit_failed, Snmp, SnmpLaws}
use agentx_subagent.Mib.Scalars.{committed, requested}
use agentx_subagent.Mib.Tables.{action_at, action_request}
use agentx_subagent.Mib.Tables.Requests.{undo_name, target, write_target}
use agentx_subagent.Mib.Tables.Pending.{hit, Pending, skips, stash, target_error}

module _ {E T C Q V : Type 0} (m : Lmdb E T C) (L : LmdbLaws m) (s : Snmp Q CellUndo)
    (t : TableSnmp Q V) (N : SnmpLaws s) (H : TableLaws s t) where
  -- An error does not touch the stash.
  error-Pending :
      (a : EnvRef → Bytes → Option Bytes) (e : SnmpErr) (q : Q)
      → Pending m s t a q
      → Pending m s t a (s.set_request_error e q)
  error-Pending a e q (skips names skip clean) =
      skips (target_error m L s t N H e q ∙ names)
        (λ act envs q' same_info same_context.
          skip act envs q' (same_info ∙ H.info-error e q) (same_context ∙ H.context-error e q))
        (λ c. N.get_list_data-error (undo_name c) e q ∙ clean c)
  error-Pending a e q (stash c undo names there others keeps) =
      stash c undo (target_error m L s t N H e q ∙ names)
        (N.get_list_data-error (undo_name c) e q ∙ there)
        (λ other ne. N.get_list_data-error (undo_name other) e q ∙ others other ne) keeps

  committed-Pending :
      (a : EnvRef → Bytes → Option Bytes) (rc : StorageRc) (q : Q)
      → Pending m s t a q
      → Pending m s t a (committed s rc q) × (target t (committed s rc q) ≡ target t q)
  committed-Pending a ok q p = (p, refl)
  committed-Pending a rc q p =
      (error-Pending a commit_failed q p, target_error m L s t N H commit_failed q)

  -- The two databases agree outside the target.
  abbrev pub Outside : Option (PortColumn × Bytes) → Envs E → Envs E → Type 0
  Outside target before after =
      (r : EnvRef) (j : Bytes) → hit target r j ≡ false → db m L after r j ≡ db m L before r j

  store-Outside :
      (mem : Bool) (q : Q) (envs : Envs E) (c : PortColumn) (key : Bytes)
      → let column = port_info c in
        let call = set_call mem (requested s column.syntax q) in
        Outside (some (c, key)) envs (store m column.ref key call envs).1
  store-Outside mem q envs c key r j missed =
      let column = port_info c in
      let call = set_call mem (requested s column.syntax q) in
      by_code (store m column.ref key call envs).0 refl
    where
      by_code :
          (rc : StorageRc)
          → (store m
              (port_info c).ref
              key
              (set_call mem (requested s (port_info c).syntax q))
              envs).0
            ≡ rc
          → db m L
              (store m
                (port_info c).ref
                key
                (set_call mem (requested s (port_info c).syntax q))
                envs).1
              r
              j
            ≡ db m L envs r j
      by_code ok e = store-Sets m L (port_info c).ref key _ envs e r j ∙ ground (arith, missed)
      by_code rc e = store-Unchanged m L (port_info c).ref key _ envs (ground (arith, e)) r j

  -- ACTION keeps the stash, and writes at most the target.
  pub action-Pending :
      (a : EnvRef → Bytes → Option Bytes) (mem : Bool) (q : Q) (envs : Envs E)
      → Pending m s t a q
      → let r = action_request m s t mem q envs in
        Pending m s t a r.0 × (target t r.0 ≡ target t q) × Outside (target t q) envs r.1
  unfolding action_request
  action-Pending a mem q envs (skips names skip clean) =
      rw (skip (action_at m s t mem) envs q refl refl)
        (skips names skip clean, refl, λ r j missed. refl)
  action-Pending a mem q envs (stash c undo names there others keeps) =
      let column = port_info c in
      let rc = (store m column.ref undo.key (set_call mem (requested s column.syntax q)) envs).0 in
      let (p, same_target) = committed-Pending a rc q (stash c undo names there others keeps) in
      rw (write_target m s t (action_at m s t mem) q envs c undo.key names)
        (p, same_target, rw names (store-Outside mem q envs c undo.key))
