-- ===== src/Mib/Scalars/Rollback.antt =====
-- A SET that is taken back: RESERVE2, ACTION and UNDO of the handlers of src/generated/demo_config.c.
use agentx_subagent.Prelude.{
  ◌≡◌, refl, sym, subst, ◌∙◌, ap, ◌⊎◌, inl, inr, Bool, true, none, some, Bytes,
}
use agentx_subagent.Storage.Lmdb.{Lmdb, LmdbLaws}
use agentx_subagent.Storage.Env.{StorageEnv}
use agentx_subagent.Storage.Envs.{Envs, EnvRef}
use agentx_subagent.DemoTrap.{Agent}
use agentx_subagent.Mib.Values.{Cell, encoding}
use agentx_subagent.Mib.Values.Effects.{Unchanged, Sets, Sets-back, Sets-same, db, fetch-Unchanged}
use agentx_subagent.Mib.Values.Reads.{Fits, reread, encoding-reread, blank}
use agentx_subagent.Mib.Snmp.{
  set_reserve2, set_action, set_undo, SnmpErr, commit_failed, undo_failed, Snmp, SnmpLaws,
}
use agentx_subagent.Mib.Scalars.{zeroed, requested, undo_with}
use agentx_subagent.Mib.Scalars.Registry.{Scalar, key_of, undo_name_of, ref_of, syntax_of, handle}
use agentx_subagent.Mib.Scalars.Phases.{
  Written, done, not_done, handle_action-Written, undo_with-Written,
}
use agentx_subagent.Mib.Scalars.Held.{
  zero_of, Held, db-Held, Stashes, Stashes-found, Stashes-missing, Sets-zero, undo_lem,
}

module _ {E T C Q : Type 0} (m : Lmdb E T C) (L : LmdbLaws m) (s : Snmp Q Cell)
    (N : SnmpLaws s) where
  -- An ACTION leaves the stash in the request.
  stash_kept :
      (name : Bytes) (ref : EnvRef) (key : Bytes) (cell prev : Cell) (failure : SnmpErr) (q q' : Q)
      (before after : Envs E)
      → Written m L s ref key cell failure q before q' after
      → s.get_list_data name q ≡ some prev
      → s.get_list_data name q' ≡ some prev
  stash_kept name ref key cell prev failure q q' before after (done there) h = h
  stash_kept name ref key cell prev failure q q' before after (not_done same) h =
      N.get_list_data-error name failure q ∙ h

  taken_back :
      (ref : EnvRef) (key : Bytes) (cell prev : Cell) (q q' q'' : Q) (a b c : Envs E)
      → Written m L s ref key cell commit_failed q a q' b
      → Written m L s ref key prev undo_failed q' b q'' c
      → db m L a ref key ≡ some (encoding prev)
      → Unchanged m L a c ⊎ (q'' ≡ s.set_request_error undo_failed q')
  taken_back ref key cell prev q q' q'' a b c (done there) (done back) held = inl (
      Sets-back m L ref key (some (encoding cell)) a b c there
        (subst (λ v. Sets m L ref key v b c) (sym held) back))
  taken_back ref key cell prev q q' q'' a b c (not_done same) (done back) held =
      inl (Sets-same m L ref key a b c same (subst (λ v. Sets m L ref key v b c) (sym held) back))
  taken_back ref key cell prev q q' q'' a b c act (not_done same) held = inr refl

  -- The two writes of ACTION and UNDO behind a RESERVE2 that has stashed `prev`.
  pub two_writes :
      (sc : Scalar) (mem mem' : Bool) (prev : Cell) (q : Q) (agent : Agent E)
      → Stashes m L s sc prev q agent
      → s.get_list_data (undo_name_of sc) q ≡ none
      → let reserved = handle m s sc true set_reserve2 q agent in
        let acted = handle m s sc mem set_action reserved.1 reserved.2 in
        let undone = handle m s sc mem' set_undo acted.1 acted.2 in
        (q' : Q) × (undone.1 ≡ s.remove_list_data (undo_name_of sc) q')
        × Written m L s
            (ref_of sc)
            (key_of sc)
            (requested s (syntax_of sc) reserved.1)
            commit_failed
            reserved.1
            reserved.2.envs
            acted.1
            acted.2.envs
        × Written m L s
            (ref_of sc)
            (key_of sc)
            prev
            undo_failed
            acted.1
            acted.2.envs
            q'
            undone.2.envs
  two_writes sc mem mem' prev q agent stashes free =
      let reserved = handle m s sc true set_reserve2 q agent in
      let acted = handle m s sc mem set_action reserved.1 reserved.2 in
      let action = handle_action-Written m L s sc mem reserved.1 reserved.2 in
      let there : s.get_list_data (undo_name_of sc) reserved.1 ≡ some prev =
        ap (λ r. s.get_list_data (undo_name_of sc) r.1) stashes
        ∙ N.get-add_list_data (undo_name_of sc) prev q free in
      let kept =
        stash_kept (undo_name_of sc) (ref_of sc) (key_of sc) _ prev commit_failed reserved.1 acted.1
          reserved.2.envs acted.2.envs action there in
      let undo = undo_lem m L s sc mem' prev acted.1 acted.2 kept in
      let back = undo_with-Written m L s mem' (ref_of sc) (key_of sc) prev acted.1 acted.2.envs in
      (
        (undo_with m s mem' (ref_of sc) (key_of sc) (some prev) acted.1 acted.2.envs).0,
        ap (λ r. r.1) undo,
        action,
        subst
            (λ c.
              Written m L s (ref_of sc) (key_of sc) prev undo_failed acted.1 acted.2.envs
                (undo_with m s mem' (ref_of sc) (key_of sc) (some prev) acted.1 acted.2.envs).0 c)
            (sym (ap (λ r. r.2.envs) undo)) back,
      )

  -- If a scalar of demo_config.c holds a value of its type, then RESERVE2, ACTION and UNDO of its
  -- handler, one after the other, whether ACTION succeeds or not, leave no stash in the request,
  -- and leave both databases as they were at every key, or the request reports undoFailed.
  -- RESERVE2 can allocate, the object's database grants a read transaction, and the request has
  -- no stash of this name before. LMDB's and Net-SNMP's laws hold.
  pub handle_rollback :
      (sc : Scalar) (mem mem' : Bool) (cell : Cell) (q : Q) (agent : Agent E) (env : StorageEnv E)
      → Fits (syntax_of sc) cell
      → Held m L s sc agent.envs env (some (encoding cell))
      → s.get_list_data (undo_name_of sc) q ≡ none
      → let reserved = handle m s sc true set_reserve2 q agent in
        let acted = handle m s sc mem set_action reserved.1 reserved.2 in
        let undone = handle m s sc mem' set_undo acted.1 acted.2 in
        (s.get_list_data (undo_name_of sc) undone.1 ≡ none)
        × (Unchanged m L agent.envs undone.2.envs
            ⊎ (undone.1
                ≡ s.remove_list_data (undo_name_of sc) (s.set_request_error undo_failed acted.1)))
  handle_rollback sc mem mem' cell q agent env fits held free =
      let prev = reread (syntax_of sc) cell in
      let stashes = Stashes-found m L s sc cell q agent env fits held in
      let reserved = handle m s sc true set_reserve2 q agent in
      let start : Unchanged m L agent.envs reserved.2.envs = λ r j.
        ap (λ p. db m L p.2.envs r j) stashes
        ∙ fetch-Unchanged m L (ref_of sc) (key_of sc) (syntax_of sc) agent.envs r j in
      let was : db m L reserved.2.envs (ref_of sc) (key_of sc) ≡ some (encoding prev) =
        start (ref_of sc) (key_of sc)
        ∙ db-Held m L s sc agent.envs env _ held
        ∙ ap some (sym (encoding-reread (syntax_of sc) cell fits)) in
      let (q', released, action, back) = two_writes sc mem mem' prev q agent stashes free in
      (
        ap (s.get_list_data (undo_name_of sc)) released
            ∙ N.get-remove_list_data (undo_name_of sc) q',
        outcome q' released start
            (taken_back (ref_of sc) (key_of sc) _ prev _ _ q' _ _ _ action back was),
      )
    where
      outcome :
          {a b c : Envs E} {x y : Q} (q' : Q)
          → x ≡ s.remove_list_data (undo_name_of sc) q'
          → Unchanged m L a b
          → Unchanged m L b c ⊎ (q' ≡ s.set_request_error undo_failed y)
          → Unchanged m L a c
            ⊎ (x ≡ s.remove_list_data (undo_name_of sc) (s.set_request_error undo_failed y))
      outcome q' e start (inl kept) = inl (λ r j. kept r j ∙ start r j)
      outcome q' e start (inr f) = inr (e ∙ ap (s.remove_list_data (undo_name_of sc)) f)

  -- If a scalar of demo_config.c does not exist, then RESERVE2, ACTION and UNDO of its handler,
  -- one after the other, leave it holding 0 or the empty string, or the request reports
  -- undoFailed. RESERVE2 can allocate, the object's database grants a read transaction, and the
  -- request has no stash of this name before. LMDB's and Net-SNMP's laws hold.
  pub handle_undo_absent :
      (sc : Scalar) (mem mem' : Bool) (q : Q) (agent : Agent E) (env : StorageEnv E)
      → Held m L s sc agent.envs env none
      → s.get_list_data (undo_name_of sc) q ≡ none
      → let reserved = handle m s sc true set_reserve2 q agent in
        let acted = handle m s sc mem set_action reserved.1 reserved.2 in
        let undone = handle m s sc mem' set_undo acted.1 acted.2 in
        (db m L undone.2.envs (ref_of sc) (key_of sc) ≡ some (encoding (zero_of sc)))
        ⊎ (undone.1
            ≡ s.remove_list_data (undo_name_of sc) (s.set_request_error undo_failed acted.1))
  handle_undo_absent sc mem mem' q agent env held free =
      let prev = zeroed (blank (syntax_of sc)) in
      let (q', released, action, back) =
        two_writes sc mem mem' prev q agent (Stashes-missing m L s sc q agent env held) free in
      outcome q' released back
    where
      outcome :
          {b c : Envs E} {x y : Q} (q' : Q)
          → x ≡ s.remove_list_data (undo_name_of sc) q'
          → Written m L s
              (ref_of sc)
              (key_of sc)
              (zeroed (blank (syntax_of sc)))
              undo_failed
              y
              b
              q'
              c
          → (db m L c (ref_of sc) (key_of sc) ≡ some (encoding (zero_of sc)))
            ⊎ (x ≡ s.remove_list_data (undo_name_of sc) (s.set_request_error undo_failed y))
      outcome q' e (done sets) = inl (Sets-zero m L s sc _ _ sets)
      outcome q' e (not_done same) = inr e
