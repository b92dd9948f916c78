-- ===== src/Mib/Status.antt =====
-- src/generated/demo_status.c: the handlers of the read-only scalars.
use agentx_subagent.Prelude.{ℕ, false, List, [], ◌∷◌, Bytes, text}
use agentx_subagent.Storage.Lmdb.{Lmdb}
use agentx_subagent.Storage.Envs.{Envs, cache}
use agentx_subagent.Mib.Values.{Syntax, integer32, unsigned32, octet_string, fetch}
use agentx_subagent.Mib.Snmp.{
  Mode, get, SnmpErr, no_error, gen_err, Asn, asn_integer, asn_unsigned, asn_counter, asn_octet_str,
  Snmp,
}
use agentx_subagent.Mib.Scalars.{answer}
use agentx_subagent.Mib.Scalars.Registry.{Registration}

-- A handler, by the object that it is for.
pub data StatusScalar : Type 0 where
  cpu_temp_milli_c sample_count last_update_epoch status_text : StatusScalar

-- 1.3.6.1.4.1.99999.2, HANDLER_CAN_RONLY
abbrev register : Bytes → StatusScalar → ℕ → Registration StatusScalar
register name handler n = record {
  name = name;
  handler = handler;
  oid = 1 ∷ 3 ∷ 6 ∷ 1 ∷ 4 ∷ 1 ∷ 99999 ∷ 2 ∷ n ∷ [];
  writable = false;
}

unfoldable pub init_demo_status : List (Registration StatusScalar)
init_demo_status =
    register (text "cpuTempMilliC") cpu_temp_milli_c 1
    ∷ register (text "sampleCount") sample_count 2
    ∷ register (text "lastUpdateEpoch") last_update_epoch 3
    ∷ register (text "statusText") status_text 4
    ∷ []

module _ {E T C Q U : Type 0} (m : Lmdb E T C) (s : Snmp Q U) where
  -- Any mode but MODE_GET is an error of the handler; the environment is always cache_env.
  abbrev read_only : Bytes → Syntax → Asn → Mode → Q → Envs E → SnmpErr × Q × Envs E
  read_only key syntax asn get q envs =
      let (r, envs') = fetch m cache key syntax envs in (no_error, answer s asn r q, envs')
  read_only key syntax asn mode q envs = (gen_err, q, envs)

  unfoldable pub handle_cpu_temp_milli_c : Mode → Q → Envs E → SnmpErr × Q × Envs E
  handle_cpu_temp_milli_c mode q envs =
      read_only (text "cpuTempMilliC") integer32 asn_integer mode q envs

  unfoldable pub handle_sample_count : Mode → Q → Envs E → SnmpErr × Q × Envs E
  handle_sample_count mode q envs =
      read_only (text "sampleCount") unsigned32 asn_counter mode q envs

  unfoldable pub handle_last_update_epoch : Mode → Q → Envs E → SnmpErr × Q × Envs E
  handle_last_update_epoch mode q envs =
      read_only (text "lastUpdateEpoch") unsigned32 asn_unsigned mode q envs

  unfoldable pub handle_status_text : Mode → Q → Envs E → SnmpErr × Q × Envs E
  handle_status_text mode q envs =
      read_only (text "statusText") (octet_string 128) asn_octet_str mode q envs

  -- The handler that is registered for an object.
  abbrev pub handle_status : StatusScalar → Mode → Q → Envs E → SnmpErr × Q × Envs E
  handle_status cpu_temp_milli_c = handle_cpu_temp_milli_c
  handle_status sample_count = handle_sample_count
  handle_status last_update_epoch = handle_last_update_epoch
  handle_status status_text = handle_status_text
