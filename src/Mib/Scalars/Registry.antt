-- ===== src/Mib/Scalars/Registry.antt =====
-- init_demo_config of src/generated/demo_config.c: which handler answers which object.
use agentx_subagent.Prelude.{ℕ, ◌≡◌, Bool, true, false, List, [], ◌∷◌, Bytes, text}
use agentx_subagent.Storage.Lmdb.{Lmdb}
use agentx_subagent.Storage.Envs.{EnvRef}
use agentx_subagent.DemoTrap.{Agent}
use agentx_subagent.Mib.Modes.{storage_modes, env_of}
use agentx_subagent.Mib.Values.{Cell, Syntax, integer32, unsigned32, octet_string}
use agentx_subagent.Mib.Snmp.{
  Mode, SnmpErr, Asn, asn_integer, asn_unsigned, asn_octet_str, Snmp, SnmpLaws,
}
use agentx_subagent.Mib.Scalars.{
  handle_device_name, handle_temp_threshold_milli_c, handle_admin_status_ext,
  handle_sample_interval_sec,
}

-- A handler, by the object that it is for.
pub data Scalar : Type 0 where
  device_name temp_threshold_milli_c admin_status_ext sample_interval_sec : Scalar

-- netsnmp_create_handler_registration(name, handler, oid, OID_LENGTH(oid), HANDLER_CAN_RWRITE)
pub record Registration (H : Type 0) : Type 0 where
  pub name : Bytes
  pub handler : H
  pub oid : List ℕ
  pub writable : Bool

-- 1.3.6.1.4.1.99999.1
abbrev demo_config_oid : ℕ → List ℕ
demo_config_oid n = 1 ∷ 3 ∷ 6 ∷ 1 ∷ 4 ∷ 1 ∷ 99999 ∷ 1 ∷ n ∷ []

abbrev register : Bytes → Scalar → ℕ → Registration Scalar
register name handler n = record {
  name = name;
  handler = handler;
  oid = demo_config_oid n;
  writable = true;
}

unfoldable pub init_demo_config : List (Registration Scalar)
init_demo_config =
    register (text "deviceName") device_name 1
    ∷ register (text "tempThresholdMilliC") temp_threshold_milli_c 2
    ∷ register (text "adminStatusExt") admin_status_ext 3
    ∷ register (text "sampleIntervalSec") sample_interval_sec 4
    ∷ []

abbrev pub key_of : Scalar → Bytes
key_of device_name = text "deviceName"
key_of temp_threshold_milli_c = text "tempThresholdMilliC"
key_of admin_status_ext = text "adminStatusExt"
key_of sample_interval_sec = text "sampleIntervalSec"

abbrev pub undo_name_of : Scalar → Bytes
undo_name_of device_name = text "undo_deviceName"
undo_name_of temp_threshold_milli_c = text "undo_tempThresholdMilliC"
undo_name_of admin_status_ext = text "undo_adminStatusExt"
undo_name_of sample_interval_sec = text "undo_sampleIntervalSec"

abbrev pub ref_of : Scalar → EnvRef
ref_of device_name = env_of storage_modes.device_name
ref_of temp_threshold_milli_c = env_of storage_modes.temp_threshold_milli_c
ref_of admin_status_ext = env_of storage_modes.admin_status_ext
ref_of sample_interval_sec = env_of storage_modes.sample_interval_sec

abbrev pub syntax_of : Scalar → Syntax
syntax_of device_name = octet_string 64
syntax_of temp_threshold_milli_c = integer32
syntax_of admin_status_ext = integer32
syntax_of sample_interval_sec = unsigned32

abbrev pub asn_of : Scalar → Asn
asn_of device_name = asn_octet_str
asn_of temp_threshold_milli_c = asn_integer
asn_of admin_status_ext = asn_integer
asn_of sample_interval_sec = asn_unsigned

module _ {E T C Q : Type 0} (m : Lmdb E T C) (s : Snmp Q Cell) where
  abbrev pub handle : Scalar → (mem : Bool) → Mode → Q → Agent E → SnmpErr × Q × Agent E
  handle device_name = handle_device_name m s
  handle temp_threshold_milli_c = handle_temp_threshold_milli_c m s
  handle admin_status_ext = handle_admin_status_ext m s
  handle sample_interval_sec = handle_sample_interval_sec m s

  -- The phases of a SET one after the other; `mem` says what can be allocated in each of them.
  abbrev pub run : Scalar → (Mode → Bool) → List Mode → Q → Agent E → Q × Agent E
  run sc mem [] q agent = (q, agent)
  run sc mem (mode ∷ modes) q agent =
      let (rc, q', agent') = handle sc (mem mode) mode q agent in run sc mem modes q' agent'

  -- None of them reports an error.
  abbrev pub Passes : SnmpLaws s → Scalar → (Mode → Bool) → List Mode → Q → Agent E → Type 0
  Passes N sc mem [] q agent = Unit {0}
  Passes N sc mem (mode ∷ modes) q agent =
      let r = handle sc (mem mode) mode q agent in
      (N.failed r.1 ≡ false) × Passes N sc mem modes r.1 r.2
