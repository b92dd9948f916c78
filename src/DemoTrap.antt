-- ===== src/DemoTrap.antt =====
-- src/demo_trap.c: emission of demoTempAlarm, with an edge detector in front of it.
pub mod Hysteresis
use agentx_subagent.Prelude.{
  ℕ, zero, Bool, true, false, Option, none, some, List, [], ◌∷◌, ◌++◌, text, if◌then◌else◌,
}
use agentx_subagent.Prelude.Int.{ℤ, pos, negsuc, ltb_ℤ, ◌-ℤ◌}
use agentx_subagent.Storage.Types.{StorageRc, ok, err_notfound}
use agentx_subagent.Storage.Lmdb.{Lmdb}
use agentx_subagent.Storage.Env.{StorageEnv}
use agentx_subagent.Storage.Envs.{Envs}
use agentx_subagent.Storage.Ops.{storage_get_int}

-- temp_state_t
pub data TempState : Type 0 where
  clear alarm : TempState

-- TEMP_ALARM_HYSTERESIS_MILLIC; the threshold less this is exact in an int unless the threshold is
-- within 500 of INT_MIN.
abbrev pub hysteresis : ℤ
hysteresis = pos 500

-- The varbinds of a notification that was handed to send_v2trap: cpuTempMilliC and
-- tempThresholdMilliC.
pub record Trap : Type 0 where
  pub cpu_temp : ℤ
  pub threshold : ℤ

-- What the program shares: the environments, the static temp_alarm_state, and the notifications
-- sent so far, oldest first.
pub record Agent (E : Type 0) : Type 0 where
  pub envs : Envs E
  pub temp_alarm_state : TempState
  pub traps : List Trap

-- What two reads came to: both values, an absent key, or another error.
pub data Reading : Type 0 where
  values : ℤ → ℤ → Reading
  absent failed : Reading

module _ {E T C : Type 0} (m : Lmdb E T C) where
  -- tempThresholdMilliC is STORAGE_MODE_VOLATILE, so it is read from cache_env like cpuTempMilliC.
  -- `out` is what the variable holds before.
  unfoldable pub read_temp_threshold : Envs E → ℤ → (StorageRc × Option ℤ) × Envs E
  read_temp_threshold envs out =
      let (r, env) =
        storage_get_int m envs.cache_env (some (text "tempThresholdMilliC")) (some out) in
      (r, record envs { cache_env = env })

  unfoldable pub read_cpu_temp : Envs E → ℤ → (StorageRc × Option ℤ) × Envs E
  read_cpu_temp envs out =
      let (r, env) = storage_get_int m envs.cache_env (some (text "cpuTempMilliC")) (some out) in
      (r, record envs { cache_env = env })

  abbrev pub second : ℤ → (StorageRc × Option ℤ) × Envs E → Reading × Envs E
  second cpu ((ok, some threshold), envs) = (values cpu threshold, envs)
  second cpu ((ok, none), envs) = (failed, envs)
  second cpu ((err_notfound, out), envs) = (absent, envs)
  second cpu ((rc, out), envs) = (failed, envs)

  abbrev pub first : (StorageRc × Option ℤ) × Envs E → Reading × Envs E
  first ((ok, some cpu), envs) = second cpu (read_temp_threshold envs (pos 0))
  first ((ok, none), envs) = (failed, envs)
  first ((err_notfound, out), envs) = (absent, envs)
  first ((rc, out), envs) = (failed, envs)

  -- The two reads that both functions begin with; the second is made only where the first succeeds.
  unfoldable pub read_both : Envs E → Reading × Envs E
  read_both envs = first (read_cpu_temp envs (pos 0))

  abbrev pub emit : (mem : Bool) → Agent E → Reading × Envs E → ℤ × Agent E
  emit mem agent (absent, envs) = (pos 0, record agent { envs = envs })
  emit mem agent (failed, envs) = (negsuc 0, record agent { envs = envs })
  emit true agent (values cpu threshold, envs) = (
    pos 0,
    record agent {
      envs = envs;
      traps = agent.traps ++ (record { cpu_temp = cpu; threshold = threshold } ∷ []);
    },
  )
  emit false agent (values cpu threshold, envs) = (negsuc 0, record agent { envs = envs })

  -- `mem` says whether snmp_varlist_add_variable could start the varbind list; the result of the
  -- two calls that add to it is not looked at, and they are taken to succeed.
  unfoldable pub demo_send_temp_alarm : (mem : Bool) → Agent E → ℤ × Agent E
  demo_send_temp_alarm mem agent = emit mem agent (read_both agent.envs)

  abbrev pub sent : ℤ × Agent E → ℤ × Agent E
  sent (pos zero, agent) = (pos 1, agent)
  sent (rc, agent) = (negsuc 0, agent)

  abbrev pub judge : (mem : Bool) → TempState → Agent E → Reading × Envs E → ℤ × Agent E
  judge mem state agent (absent, envs) = (pos 0, record agent { envs = envs })
  judge mem state agent (failed, envs) = (negsuc 0, record agent { envs = envs })
  judge mem clear agent (values cpu threshold, envs) =
      let raised =
        demo_send_temp_alarm mem (record agent { envs = envs; temp_alarm_state = alarm }) in
      if ltb_ℤ threshold cpu then sent raised else (pos 0, record agent { envs = envs })
  judge mem alarm agent (values cpu threshold, envs) =
      if ltb_ℤ (threshold -ℤ hysteresis) cpu
      then (pos 0, record agent { envs = envs })
      else (pos 0, record agent { envs = envs; temp_alarm_state = clear })

  unfoldable pub demo_check_temp_alarm : (mem : Bool) → Agent E → ℤ × Agent E
  demo_check_temp_alarm mem agent = judge mem agent.temp_alarm_state agent (read_both agent.envs)
