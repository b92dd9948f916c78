-- ===== src/Mib/Scalars/Phases.antt =====
-- What each phase of a SET does in the handlers of src/generated/demo_config.c, for all of them.
use agentx_subagent.Prelude.{◌≡◌, ◌≢◌, refl, subst, ◌∙◌, Bool, some, Bytes, arith}
use agentx_subagent.Storage.Types.{StorageRc, ok}
use agentx_subagent.Storage.Lmdb.{Lmdb, LmdbLaws}
use agentx_subagent.Storage.Envs.{Envs, EnvRef}
use agentx_subagent.Storage.Ops.Calls.{stored}
use agentx_subagent.DemoTrap.{Agent}
use agentx_subagent.Mib.Values.{
  Cell, int, uint, octets, Syntax, integer32, encoding, set_call, store,
}
use agentx_subagent.Mib.Values.Effects.{Unchanged, Sets, store-Unchanged, store-Sets}
use agentx_subagent.Mib.Snmp.{
  set_reserve2, set_action, set_undo, SnmpErr, commit_failed, undo_failed, Snmp,
}
use agentx_subagent.Mib.Scalars.{
  on_envs, check_alarm, committed, undone, requested, reserve2_scalar, action_scalar,
  action_threshold, undo_with, undo_scalar, handle_device_name, handle_temp_threshold_milli_c,
  handle_admin_status_ext, handle_sample_interval_sec,
}
use agentx_subagent.Mib.Scalars.Alarm.{check-Unchanged}
use agentx_subagent.Mib.Scalars.Registry.{
  Scalar, device_name, temp_threshold_milli_c, admin_status_ext, sample_interval_sec, key_of,
  undo_name_of, ref_of, syntax_of, handle,
}

module _ {E T C Q : Type 0} (m : Lmdb E T C) (s : Snmp Q Cell) where
  pub handle_reserve2 :
      (sc : Scalar) (mem : Bool) (q : Q) (agent : Agent E)
      → handle m s sc mem set_reserve2 q agent
        ≡ on_envs m s agent (
            reserve2_scalar m s mem
              (ref_of sc)
              (key_of sc)
              (undo_name_of sc)
              (syntax_of sc)
              q
              agent.envs)
  unfolding handle_device_name handle_temp_threshold_milli_c handle_admin_status_ext
      handle_sample_interval_sec
  handle_reserve2 device_name mem q agent = refl
  handle_reserve2 temp_threshold_milli_c mem q agent = refl
  handle_reserve2 admin_status_ext mem q agent = refl
  handle_reserve2 sample_interval_sec mem q agent = refl

  pub handle_undo :
      (sc : Scalar) (mem : Bool) (q : Q) (agent : Agent E)
      → handle m s sc mem set_undo q agent
        ≡ on_envs m s agent
            (undo_scalar m s mem (ref_of sc) (key_of sc) (undo_name_of sc) q agent.envs)
  unfolding handle_device_name handle_temp_threshold_milli_c handle_admin_status_ext
      handle_sample_interval_sec
  handle_undo device_name mem q agent = refl
  handle_undo temp_threshold_milli_c mem q agent = refl
  handle_undo admin_status_ext mem q agent = refl
  handle_undo sample_interval_sec mem q agent = refl

pub stored-set_call : (mem : Bool) (cell : Cell) → stored (set_call mem cell) ≡ some (encoding cell)
stored-set_call mem (int v) = refl
stored-set_call mem (uint v) = refl
stored-set_call mem (octets buf len) = refl

module _ {E T C Q : Type 0} (m : Lmdb E T C) (L : LmdbLaws m) (s : Snmp Q Cell) where
  -- A value is written to its key and the request is as it was, or nothing is written and the
  -- request reports `failure`.
  pub data Written (ref : EnvRef) (key : Bytes) (cell : Cell) (failure : SnmpErr) (q : Q)
      (before : Envs E) : Q → Envs E → Type 0 where
    done :
        {after : Envs E}
        → Sets m L ref key (some (encoding cell)) before after
        → Written ref key cell failure q before q after
    not_done :
        {after : Envs E}
        → Unchanged m L before after
        → Written ref key cell failure q before (s.set_request_error failure q) after

  abbrev coded : SnmpErr → StorageRc → Q → Q
  coded failure ok q = q
  coded failure rc q = s.set_request_error failure q

  coded-Written :
      (ref : EnvRef) (key : Bytes) (cell : Cell) (failure : SnmpErr) (q : Q) (before after : Envs E)
      (rc : StorageRc)
      → (rc ≡ ok → Sets m L ref key (some (encoding cell)) before after)
      → (rc ≢ ok → Unchanged m L before after)
      → Written ref key cell failure q before (coded failure rc q) after
  coded-Written ref key cell failure q before after ok good bad = done (good refl)
  coded-Written ref key cell failure q before after rc good bad = not_done (bad (ground arith))

  store-Written :
      (ref : EnvRef) (key : Bytes) (mem : Bool) (cell : Cell) (failure : SnmpErr) (q : Q)
      (envs after : Envs E)
      → Unchanged m L (store m ref key (set_call mem cell) envs).1 after
      → Written ref key cell failure q envs
          (coded failure (store m ref key (set_call mem cell) envs).0 q)
          after
  store-Written ref key mem cell failure q envs after same =
      coded-Written ref key cell failure q envs after _
        (λ good r j.
          same r j
          ∙ subst (λ v. Sets m L ref key v envs (store m ref key (set_call mem cell) envs).1)
              (stored-set_call mem cell) (store-Sets m L ref key (set_call mem cell) envs good) r j)
        (λ bad r j. same r j ∙ store-Unchanged m L ref key (set_call mem cell) envs bad r j)

  committed_lem : (rc : StorageRc) (q : Q) → committed s rc q ≡ coded commit_failed rc q
  committed_lem ok q = refl
  committed_lem rc q = refl

  undone_lem : (rc : StorageRc) (q : Q) → undone s rc q ≡ coded undo_failed rc q
  undone_lem ok q = refl
  undone_lem rc q = refl

  check_alarm-Unchanged :
      (mem : Bool) (rc : StorageRc) (agent : Agent E)
      → Unchanged m L agent.envs (check_alarm m s mem rc agent).envs
  check_alarm-Unchanged mem ok agent r j = check-Unchanged m L mem agent r j
  check_alarm-Unchanged mem rc agent r j = refl

  action_scalar-Written :
      (mem : Bool) (ref : EnvRef) (key : Bytes) (syntax : Syntax) (q : Q) (envs : Envs E)
      → let r = action_scalar m s mem ref key syntax q envs in
        Written ref key (requested s syntax q) commit_failed q envs r.0 r.1
  unfolding action_scalar
  action_scalar-Written mem ref key syntax q envs =
      rw (committed_lem (store m ref key (set_call mem (requested s syntax q)) envs).0 q)
        (store-Written ref key mem (requested s syntax q) commit_failed q envs _ (λ r j. refl))

  action_threshold-Written :
      (mem : Bool) (ref : EnvRef) (key : Bytes) (q : Q) (agent : Agent E)
      → let r = action_threshold m s mem ref key q agent in
        Written ref key (requested s integer32 q) commit_failed q agent.envs r.0 r.1.envs
  unfolding action_threshold
  action_threshold-Written mem ref key q agent =
      let call = set_call mem (requested s integer32 q) in
      rw (committed_lem (store m ref key call agent.envs).0 q) (
        store-Written ref key mem (requested s integer32 q) commit_failed q agent.envs _ (
          check_alarm-Unchanged mem (store m ref key call agent.envs).0
            (record agent { envs = (store m ref key call agent.envs).1 })))

  -- ACTION writes the requested value, or it fails and reports commitFailed.
  pub handle_action-Written :
      (sc : Scalar) (mem : Bool) (q : Q) (agent : Agent E)
      → let r = handle m s sc mem set_action q agent in
        Written
          (ref_of sc)
          (key_of sc)
          (requested s (syntax_of sc) q)
          commit_failed
          q
          agent.envs
          r.1
          r.2.envs
  unfolding handle_device_name handle_temp_threshold_milli_c handle_admin_status_ext
      handle_sample_interval_sec
  handle_action-Written device_name mem q agent = action_scalar-Written mem _ _ _ q agent.envs
  handle_action-Written temp_threshold_milli_c mem q agent =
      action_threshold-Written mem _ _ q agent
  handle_action-Written admin_status_ext mem q agent = action_scalar-Written mem _ _ _ q agent.envs
  handle_action-Written sample_interval_sec mem q agent =
      action_scalar-Written mem _ _ _ q agent.envs

  -- UNDO writes the stashed value, or it fails and reports undoFailed.
  pub undo_with-Written :
      (mem : Bool) (ref : EnvRef) (key : Bytes) (prev : Cell) (q : Q) (envs : Envs E)
      → let r = undo_with m s mem ref key (some prev) q envs in
        Written ref key prev undo_failed q envs r.0 r.1
  undo_with-Written mem ref key prev q envs =
      rw (undone_lem (store m ref key (set_call mem prev) envs).0 q)
        (store-Written ref key mem prev undo_failed q envs _ (λ r j. refl))
