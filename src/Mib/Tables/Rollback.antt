-- ===== src/Mib/Tables/Rollback.antt =====
-- A SET of several cells that is taken back: RESERVE2, ACTION and UNDO of handle_portConfigTable in
-- src/generated/demo_config_table.c.
use agentx_subagent.Prelude.{
  ℕ, suc, ◌≡◌, refl, sym, ◌∙◌, ◌⊎◌, inl, inr, Bool, false, ◌||◌, Option, List, [], ◌∷◌, Bytes, All,
  arith, if◌then◌else◌,
}
use agentx_subagent.Storage.Lmdb.{Lmdb, LmdbLaws, NotFoundLaws}
use agentx_subagent.Storage.Env.{StorageEnv}
use agentx_subagent.Storage.Env.Reads.{CanRead}
use agentx_subagent.Storage.Envs.{Envs, EnvRef}
use agentx_subagent.Mib.Values.Reads.{Typed-same}
use agentx_subagent.Mib.Values.Effects.{Unchanged, db}
use agentx_subagent.Mib.Columns.{CellUndo, TableSnmp, TableLaws, port_info}
use agentx_subagent.Mib.Snmp.{set_reserve2, set_action, set_undo, Snmp, SnmpLaws}
use agentx_subagent.Mib.Tables.{
  each, reserve2_request, action_request, undo_request, handle_port_config_table,
}
use agentx_subagent.Mib.Tables.Requests.{target}
use agentx_subagent.Mib.Tables.Pending.{
  hit, Clean, Pending, skips, stash, TypedTarget, reserve2-Pending,
}
use agentx_subagent.Mib.Tables.Pending.Action.{action-Pending}
use agentx_subagent.Mib.Tables.Pending.Undo.{UndoFails, Back, undo-Back}

module _ {E T C Q V : Type 0} (m : Lmdb E T C) (L : LmdbLaws m) (K : NotFoundLaws m L)
    (s : Snmp Q CellUndo) (t : TableSnmp Q V) (N : SnmpLaws s) (H : TableLaws s t) where
  Pending-same :
      (a b : EnvRef → Bytes → Option Bytes) (q : Q)
      → ((r : EnvRef) (j : Bytes) → b r j ≡ a r j)
      → Pending m s t b q
      → Pending m s t a q
  Pending-same a b q same_db (skips names skip clean) = skips names skip clean
  Pending-same a b q same_db (stash c undo names there others keeps) =
      stash c undo names there others (keeps ∙ same_db (port_info c).ref undo.key)

  -- RESERVE2 of all requests.
  reserve-Pending :
      (qs : List Q) (mem : ℕ → Bool) (start envs : Envs E)
      → ((e : StorageEnv E) → CanRead m e)
      → Unchanged m L start envs
      → All (Clean m s t) qs
      → All (TypedTarget m L s t N H start) qs
      → All (λ q. N.failed q ≡ false) (each (reserve2_request m s t) mem qs envs).0
      → All (Pending m s t (db m L start)) (each (reserve2_request m s t) mem qs envs).0
        × Unchanged m L start (each (reserve2_request m s t) mem qs envs).1
  unfolding each
  reserve-Pending [] mem start envs reads kept clean typed pass = (tt, kept)
  reserve-Pending (q ∷ qs) mem start envs reads kept clean typed pass =
      let (p, same_db) =
        reserve2-Pending m L s t N H (mem 0) q envs reads clean.0
          (λ c key names.
            Typed-same (port_info c).syntax (kept (port_info c).ref key) (typed.0 c key names))
          pass.0 in
      let (ps, all) =
        reserve-Pending qs (λ i. mem (suc i)) start (reserve2_request m s t (mem 0) q envs).1 reads
          (λ r j. same_db r j ∙ kept r j) clean.1 typed.1 pass.1 in
      ((Pending-same (db m L start) (db m L envs) _ kept p, ps), all)

  -- Some request has the cell `j` of the database `r` for its target.
  abbrev hits : List Q → EnvRef → Bytes → Bool
  hits [] r j = false
  hits (q ∷ qs) r j = hit (target t q) r j || hits qs r j

  -- ACTION of all requests.
  actions-Pending :
      (a : EnvRef → Bytes → Option Bytes) (qs : List Q) (mem : ℕ → Bool) (envs : Envs E)
      → All (Pending m s t a) qs
      → let r = each (action_request m s t) mem qs envs in
        All (Pending m s t a) r.0
        × ((ref : EnvRef) (j : Bytes) → hits r.0 ref j ≡ hits qs ref j)
        × ((ref : EnvRef) (j : Bytes)
            → hits qs ref j ≡ false
            → db m L r.1 ref j ≡ db m L envs ref j)
  unfolding each
  actions-Pending a [] mem envs ps = (tt, λ r j. refl, λ r j missed. refl)
  actions-Pending a (q ∷ qs) mem envs ps =
      let (p, names, outside) = action-Pending m L s t N H a (mem 0) q envs ps.0 in
      let (rest, same_hits, same_db) =
        actions-Pending a qs (λ i. mem (suc i)) (action_request m s t (mem 0) q envs).1 ps.1 in
      (
        (p, rest),
        λ r j. rw (names, same_hits r j),
        λ r j missed. same_db r j (ground (arith, missed)) ∙ outside r j (ground (arith, missed)),
      )

  -- Some request reports that its undo has failed: the requests before and after UNDO.
  abbrev pub SomeUndoFails : List Q → List Q → Type 0
  SomeUndoFails (q ∷ qs) (q' ∷ qs') = UndoFails m L K s t N q q' ⊎ SomeUndoFails qs qs'
  SomeUndoFails qs qs' = ⊥

  -- UNDO of all requests.
  undos-Back :
      (a : EnvRef → Bytes → Option Bytes) (qs : List Q) (mem : ℕ → Bool) (envs : Envs E)
      → All (Pending m s t a) qs
      → let r = each (undo_request m s t) mem qs envs in
        ((ref : EnvRef) (j : Bytes)
          → db m L r.1 ref j ≡ (if hits qs ref j then a ref j else db m L envs ref j))
        ⊎ SomeUndoFails qs r.0
  unfolding each
  undos-Back a [] mem envs ps = inl (λ r j. refl)
  undos-Back a (q ∷ qs) mem envs ps =
      both (each (undo_request m s t) (λ i. mem (suc i)) qs (undo_request m s t (mem 0) q envs).1).0
        (undo-Back m L K s t N a (mem 0) q envs ps.0)
        (undos-Back a qs (λ i. mem (suc i)) (undo_request m s t (mem 0) q envs).1 ps.1)
    where
      both :
          {b c : Envs E} {q' : Q} (qs' : List Q)
          → Back m L K s t N a (target t q) envs b ⊎ UndoFails m L K s t N q q'
          → ((ref : EnvRef) (j : Bytes)
              → db m L c ref j ≡ (if hits qs ref j then a ref j else db m L b ref j))
            ⊎ SomeUndoFails qs qs'
          → ((ref : EnvRef) (j : Bytes)
              → db m L c ref j
                ≡ (if hit (target t q) ref j || hits qs ref j then a ref j else db m L envs ref j))
            ⊎ (UndoFails m L K s t N q q' ⊎ SomeUndoFails qs qs')
      both qs' (inl back) (inl backs) = inl (λ r j. ground (arith, back r j, backs r j))
      both qs' (inr fails) rest = inr (inl fails)
      both qs' (inl back) (inr fails) = inr (inr fails)

  -- Let a list of requests have no stash of this handler yet, let the cell that each of them is
  -- for be missing or hold a value of its column's type, and let RESERVE2 report no error for
  -- any. Then RESERVE2, ACTION and UNDO of handle_portConfigTable, one after the other, whatever
  -- ACTION wrote and wherever it failed, leave both databases as they were at every key, cells
  -- that did not exist before included, or UNDO reports undoFailed for some request. Databases
  -- grant read transactions; LMDB's and Net-SNMP's laws hold.
  pub handle_port_config_table-rollback :
      (qs : List Q) (mem mem' mem'' : ℕ → Bool) (envs : Envs E)
      → ((e : StorageEnv E) → CanRead m e)
      → All (Clean m s t) qs
      → All (TypedTarget m L s t N H envs) qs
      → All (λ q. N.failed q ≡ false) (handle_port_config_table m s t mem set_reserve2 qs envs).1
      → let reserved = handle_port_config_table m s t mem set_reserve2 qs envs in
        let acted = handle_port_config_table m s t mem' set_action reserved.1 reserved.2 in
        let undone = handle_port_config_table m s t mem'' set_undo acted.1 acted.2 in
        Unchanged m L envs undone.2 ⊎ SomeUndoFails acted.1 undone.1
  unfolding handle_port_config_table
  handle_port_config_table-rollback qs mem mem' mem'' envs reads clean typed pass =
      let reserved = each (reserve2_request m s t) mem qs envs in
      let acted = each (action_request m s t) mem' reserved.0 reserved.1 in
      let (pending, kept) = reserve-Pending qs mem envs envs reads (λ r j. refl) clean typed pass in
      let (pending', same_hits, outside) =
        actions-Pending (db m L envs) reserved.0 mem' reserved.1 pending in
      by_undo acted.0 (each (undo_request m s t) mem'' acted.0 acted.1).0
        (λ r j missed. outside r j (sym (same_hits r j) ∙ missed) ∙ kept r j)
        (undos-Back (db m L envs) acted.0 mem'' acted.1 pending')
    where
      by_undo :
          {b c : Envs E} (xs ys : List Q)
          → ((r : EnvRef) (j : Bytes) → hits xs r j ≡ false → db m L b r j ≡ db m L envs r j)
          → ((r : EnvRef) (j : Bytes)
              → db m L c r j ≡ (if hits xs r j then db m L envs r j else db m L b r j))
            ⊎ SomeUndoFails xs ys
          → Unchanged m L envs c ⊎ SomeUndoFails xs ys
      by_undo xs ys outside (inl back) = inl (λ r j. ground (arith, back r j, outside r j))
      by_undo xs ys outside (inr fails) = inr fails
