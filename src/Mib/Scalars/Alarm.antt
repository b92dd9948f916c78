-- ===== src/Mib/Scalars/Alarm.antt =====
-- demo_check_temp_alarm of src/demo_trap.c, which the handler of tempThresholdMilliC calls, as a reader
-- of the databases.
use agentx_subagent.Prelude.{
  zero, suc, refl, ◌∙◌, Bool, true, false, Option, none, some, Bool-cases, inl, inr,
}
use agentx_subagent.Prelude.Int.{ℤ, pos, negsuc, ltb_ℤ, ◌-ℤ◌}
use agentx_subagent.Storage.Types.{StorageRc, ok, err_notfound}
use agentx_subagent.Storage.Lmdb.{Lmdb, LmdbLaws}
use agentx_subagent.Storage.Envs.{Envs, null, config, cache}
use agentx_subagent.Storage.Ops.{storage_get_int}
use agentx_subagent.DemoTrap.{
  Agent, TempState, clear, alarm, Reading, values, absent, failed, read_cpu_temp,
  read_temp_threshold, read_both, first, second, emit, sent, judge, hysteresis,
  demo_send_temp_alarm, demo_check_temp_alarm,
}
use agentx_subagent.Mib.Values.Effects.{Unchanged, in_read_txn_view}

module _ {E T C : Type 0} (m : Lmdb E T C) (L : LmdbLaws m) where
  read_temp-Unchanged :
      (envs : Envs E) (out : ℤ) → Unchanged m L envs (read_temp_threshold m envs out).1
  unfolding read_temp_threshold storage_get_int
  read_temp-Unchanged envs out null j = refl
  read_temp-Unchanged envs out config j = refl
  read_temp-Unchanged envs out cache j = in_read_txn_view m L _ _ envs.cache_env j

  read_cpu-Unchanged : (envs : Envs E) (out : ℤ) → Unchanged m L envs (read_cpu_temp m envs out).1
  unfolding read_cpu_temp storage_get_int
  read_cpu-Unchanged envs out null j = refl
  read_cpu-Unchanged envs out config j = refl
  read_cpu-Unchanged envs out cache j = in_read_txn_view m L _ _ envs.cache_env j

  second-Unchanged :
      (cpu : ℤ) (r : (StorageRc × Option ℤ) × Envs E) → Unchanged m L r.1 (second m cpu r).1
  second-Unchanged cpu ((ok, some threshold), envs) r j = refl
  second-Unchanged cpu ((ok, none), envs) r j = refl
  second-Unchanged cpu ((err_notfound, out), envs) r j = refl
  second-Unchanged cpu ((_, out), envs) r j = refl

  first-Unchanged : (r : (StorageRc × Option ℤ) × Envs E) → Unchanged m L r.1 (first m r).1
  first-Unchanged ((ok, some cpu), envs) r j =
      second-Unchanged cpu (read_temp_threshold m envs (pos 0)) r j
      ∙ read_temp-Unchanged envs (pos 0) r j
  first-Unchanged ((ok, none), envs) r j = refl
  first-Unchanged ((err_notfound, out), envs) r j = refl
  first-Unchanged ((_, out), envs) r j = refl

  read_both-Unchanged : (envs : Envs E) → Unchanged m L envs (read_both m envs).1
  unfolding read_both
  read_both-Unchanged envs r j =
      first-Unchanged (read_cpu_temp m envs (pos 0)) r j ∙ read_cpu-Unchanged envs (pos 0) r j

  emit-Unchanged :
      (mem : Bool) (agent : Agent E) (r : Reading × Envs E)
      → Unchanged m L r.1 (emit m mem agent r).1.envs
  emit-Unchanged mem agent (absent, envs) r j = refl
  emit-Unchanged mem agent (failed, envs) r j = refl
  emit-Unchanged true agent (values cpu threshold, envs) r j = refl
  emit-Unchanged false agent (values cpu threshold, envs) r j = refl

  send-Unchanged :
      (mem : Bool) (agent : Agent E)
      → Unchanged m L agent.envs (demo_send_temp_alarm m mem agent).1.envs
  unfolding demo_send_temp_alarm
  send-Unchanged mem agent r j =
      emit-Unchanged mem agent (read_both m agent.envs) r j ∙ read_both-Unchanged agent.envs r j

  sent-Unchanged : (r : ℤ × Agent E) → Unchanged m L r.1.envs (sent m r).1.envs
  sent-Unchanged (pos zero, agent) r j = refl
  sent-Unchanged (pos (suc n), agent) r j = refl
  sent-Unchanged (negsuc n, agent) r j = refl

  judge-Unchanged :
      (mem : Bool) (state : TempState) (agent : Agent E) (r : Reading × Envs E)
      → Unchanged m L r.1 (judge m mem state agent r).1.envs
  judge-Unchanged mem state agent (absent, envs) r j = refl
  judge-Unchanged mem state agent (failed, envs) r j = refl
  judge-Unchanged mem clear agent (values cpu threshold, envs) r j =
      elim (Bool-cases (ltb_ℤ threshold cpu)) [
        | inl above ↦ rw above (
            let raised = record agent { envs = envs; temp_alarm_state = alarm } in
            sent-Unchanged (demo_send_temp_alarm m mem raised) r j ∙ send-Unchanged mem raised r j)
        | inr below ↦ rw below refl
      ]
  judge-Unchanged mem alarm agent (values cpu threshold, envs) r j =
      elim (Bool-cases (ltb_ℤ (threshold -ℤ hysteresis) cpu)) [
        | inl held ↦ rw held refl
        | inr cooled ↦ rw cooled refl
      ]

  -- The alarm check leaves both databases alone.
  pub check-Unchanged :
      (mem : Bool) (agent : Agent E)
      → Unchanged m L agent.envs (demo_check_temp_alarm m mem agent).1.envs
  unfolding demo_check_temp_alarm
  check-Unchanged mem agent r j =
      judge-Unchanged mem agent.temp_alarm_state agent (read_both m agent.envs) r j
      ∙ read_both-Unchanged agent.envs r j
