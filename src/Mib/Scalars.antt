-- ===== src/Mib/Scalars.antt =====
-- src/generated/demo_config.c: the handlers of the read-write scalars, each a switch on the mode of
-- the request. The scalar helper of Net-SNMP hands them one request at a time.
pub mod Registry
pub mod Alarm
pub mod Phases
pub mod Held
pub mod Rollback
pub mod Accepts
pub mod Shown
pub mod Commits
use agentx_subagent.Prelude.{
  ℕ, Bool, true, false, not, ◌&&◌, ◌||◌, ◌==◌, leb, Option, none, some, List, [], ◌∷◌, Bytes, text,
  take, if◌then◌else◌,
}
use agentx_subagent.Prelude.Int.{ℤ, pos, negsuc, leb_ℤ, to_uint32, to_int32}
use agentx_subagent.Storage.Types.{StorageRc, ok, err_notfound}
use agentx_subagent.Storage.Lmdb.{Lmdb}
use agentx_subagent.Storage.Envs.{Envs, EnvRef, cache}
use agentx_subagent.Storage.Ops.Calls.{WriteCall}
use agentx_subagent.DemoTrap.{Agent, demo_check_temp_alarm}
use agentx_subagent.Mib.Modes.{storage_modes, env_of}
use agentx_subagent.Mib.Values.{
  Cell, int, uint, octets, Syntax, integer32, unsigned32, octet_string, set_call, fetch, store,
}
use agentx_subagent.Mib.Snmp.{
  Mode, get, set_reserve1, set_reserve2, set_free, set_action, set_commit, set_undo, other, SnmpErr,
  no_error, gen_err, no_such_instance, wrong_type, wrong_length, wrong_value, resource_unavailable,
  commit_failed, undo_failed, Asn, asn_integer, asn_unsigned, asn_counter, asn_octet_str, Snmp,
}

-- `case 1: case 2: case 3:`
abbrev pub is_admin_status : ℤ → Bool
is_admin_status (pos v) = v == 1 || v == 2 || v == 3
is_admin_status (negsuc v) = false

abbrev pub is_milli_c : ℤ → Bool
is_milli_c v = leb_ℤ (negsuc 39999) v && leb_ℤ v (pos 125000)

abbrev pub is_interval : ℤ → Bool
is_interval v = leb_ℤ (pos 1) v && leb_ℤ v (pos 86400)

-- What a stash holds where the object did not exist: `*prev = 0`, or `prev->len = 0`.
abbrev pub zeroed : Cell → Cell
zeroed (int v) = int (pos 0)
zeroed (uint v) = uint 0
zeroed (octets buf len) = octets buf 0

-- The cases of the switches, over the name, the environment and the type of the object. `mem` says
-- whether the one allocation of the case succeeds.
module _ {Q U : Type 0} (s : Snmp Q U) where
  -- The new value in the varbind, in the object's type.
  abbrev pub requested : Syntax → Q → Cell
  requested integer32 q = int (to_int32 (to_uint32 (s.integer q)))
  requested unsigned32 q = uint (to_uint32 (s.integer q))
  requested (octet_string n) q = octets (s.string q) (s.val_len q)

  -- What MODE_GET makes of the storage call.
  abbrev pub answer : Asn → StorageRc × Cell → Q → Q
  answer asn (ok, int v) q = s.set_var_integer asn v q
  answer asn (ok, uint v) q = s.set_var_integer asn (pos v) q
  answer asn (ok, octets buf len) q = s.set_var_value asn (take len buf) q
  answer asn (err_notfound, var) q = s.set_request_error no_such_instance q
  answer asn (rc, var) q = s.set_request_error gen_err q

  unfoldable pub reserve1_integer : Asn → (ℤ → Bool) → Q → Q
  reserve1_integer asn in_range q =
      if not (s.check_vb_type q asn)
      then s.set_request_error wrong_type q
      else if in_range (s.integer q)
      then q
      else s.set_request_error wrong_value q

  unfoldable pub reserve1_octets : Asn → (ℕ → Bool) → Q → Q
  reserve1_octets asn len_ok q =
      if not (s.check_vb_type q asn)
      then s.set_request_error wrong_type q
      else if len_ok (s.val_len q)
      then q
      else s.set_request_error wrong_length q

  abbrev pub committed : StorageRc → Q → Q
  committed ok q = q
  committed rc q = s.set_request_error commit_failed q

  abbrev pub undone : StorageRc → Q → Q
  undone ok q = q
  undone rc q = s.set_request_error undo_failed q

module _ {E T C Q : Type 0} (m : Lmdb E T C) (s : Snmp Q Cell) where
  abbrev pub on_envs : Agent E → Q × Envs E → SnmpErr × Q × Agent E
  on_envs agent (q, envs) = (no_error, q, record agent { envs = envs })

  abbrev pub get_scalar : EnvRef → Bytes → Syntax → Asn → Q → Envs E → Q × Envs E
  get_scalar ref key syntax asn q envs =
      let (r, envs') = fetch m ref key syntax envs in (answer s asn r q, envs')

  abbrev pub stashed : Bytes → StorageRc × Cell → Q → Q
  stashed undo_name (ok, prev) q = s.add_list_data undo_name prev q
  stashed undo_name (err_notfound, prev) q = s.add_list_data undo_name (zeroed prev) q
  stashed undo_name (rc, prev) q = s.set_request_error resource_unavailable q

  unfoldable pub reserve2_scalar :
      (mem : Bool) → EnvRef → Bytes → Bytes → Syntax → Q → Envs E → Q × Envs E
  reserve2_scalar false ref key undo_name syntax q envs =
      (s.set_request_error resource_unavailable q, envs)
  reserve2_scalar true ref key undo_name syntax q envs =
      let (r, envs') = fetch m ref key syntax envs in (stashed undo_name r q, envs')

  unfoldable pub action_scalar : (mem : Bool) → EnvRef → Bytes → Syntax → Q → Envs E → Q × Envs E
  action_scalar mem ref key syntax q envs =
      let (rc, envs') = store m ref key (set_call mem (requested s syntax q)) envs in
      (committed s rc q, envs')

  abbrev pub undo_with : (mem : Bool) → EnvRef → Bytes → Option Cell → Q → Envs E → Q × Envs E
  undo_with mem ref key none q envs = (q, envs)
  undo_with mem ref key (some prev) q envs =
      let (rc, envs') = store m ref key (set_call mem prev) envs in (undone s rc q, envs')

  unfoldable pub undo_scalar : (mem : Bool) → EnvRef → Bytes → Bytes → Q → Envs E → Q × Envs E
  undo_scalar mem ref key undo_name q envs =
      let (q', envs') = undo_with mem ref key (s.get_list_data undo_name q) q envs in
      (s.remove_list_data undo_name q', envs')

  -- MODE_SET_FREE and MODE_SET_COMMIT
  abbrev pub release : Bytes → Q → Agent E → SnmpErr × Q × Agent E
  release undo_name q agent = (no_error, s.remove_list_data undo_name q, agent)

  unfoldable pub handle_device_name : (mem : Bool) → Mode → Q → Agent E → SnmpErr × Q × Agent E
  handle_device_name mem get q agent = on_envs agent (
      get_scalar (env_of storage_modes.device_name) (text "deviceName") (octet_string 64)
        asn_octet_str q agent.envs)
  handle_device_name mem set_reserve1 q agent =
      (no_error, reserve1_octets s asn_octet_str (λ vlen. leb vlen 63) q, agent)
  handle_device_name mem set_reserve2 q agent = on_envs agent (
      reserve2_scalar mem (env_of storage_modes.device_name) (text "deviceName")
        (text "undo_deviceName") (octet_string 64) q agent.envs)
  handle_device_name mem set_free q agent = release (text "undo_deviceName") q agent
  handle_device_name mem set_action q agent = on_envs agent (
      action_scalar mem (env_of storage_modes.device_name) (text "deviceName") (octet_string 64) q
        agent.envs)
  handle_device_name mem set_commit q agent = release (text "undo_deviceName") q agent
  handle_device_name mem set_undo q agent = on_envs agent (
      undo_scalar mem (env_of storage_modes.device_name) (text "deviceName")
        (text "undo_deviceName") q agent.envs)
  handle_device_name mem other q agent = (gen_err, q, agent)

  -- A failed write leaves the switch before the alarm is looked at; the result of the call is not
  -- used. `mem` is then what demo_check_temp_alarm can allocate.
  abbrev pub check_alarm : (mem : Bool) → StorageRc → Agent E → Agent E
  check_alarm mem ok agent = (demo_check_temp_alarm m mem agent).1
  check_alarm mem rc agent = agent

  unfoldable pub action_threshold : (mem : Bool) → EnvRef → Bytes → Q → Agent E → Q × Agent E
  action_threshold mem ref key q agent =
      let (rc, envs') = store m ref key (set_call mem (requested s integer32 q)) agent.envs in
      (committed s rc q, check_alarm mem rc (record agent { envs = envs' }))

  unfoldable pub handle_temp_threshold_milli_c :
      (mem : Bool) → Mode → Q → Agent E → SnmpErr × Q × Agent E
  handle_temp_threshold_milli_c mem get q agent = on_envs agent (
      get_scalar (env_of storage_modes.temp_threshold_milli_c) (text "tempThresholdMilliC")
        integer32 asn_integer q agent.envs)
  handle_temp_threshold_milli_c mem set_reserve1 q agent =
      (no_error, reserve1_integer s asn_integer is_milli_c q, agent)
  handle_temp_threshold_milli_c mem set_reserve2 q agent = on_envs agent (
      reserve2_scalar mem (env_of storage_modes.temp_threshold_milli_c) (text "tempThresholdMilliC")
        (text "undo_tempThresholdMilliC") integer32 q agent.envs)
  handle_temp_threshold_milli_c mem set_free q agent =
      release (text "undo_tempThresholdMilliC") q agent
  handle_temp_threshold_milli_c mem set_action q agent =
      let (q', agent') =
        action_threshold mem (env_of storage_modes.temp_threshold_milli_c)
          (text "tempThresholdMilliC") q agent in
      (no_error, q', agent')
  handle_temp_threshold_milli_c mem set_commit q agent =
      release (text "undo_tempThresholdMilliC") q agent
  handle_temp_threshold_milli_c mem set_undo q agent = on_envs agent (
      undo_scalar mem (env_of storage_modes.temp_threshold_milli_c) (text "tempThresholdMilliC")
        (text "undo_tempThresholdMilliC") q agent.envs)
  handle_temp_threshold_milli_c mem other q agent = (gen_err, q, agent)

  unfoldable pub handle_admin_status_ext : (mem : Bool) → Mode → Q → Agent E → SnmpErr × Q × Agent E
  handle_admin_status_ext mem get q agent = on_envs agent (
      get_scalar (env_of storage_modes.admin_status_ext) (text "adminStatusExt") integer32
        asn_integer q agent.envs)
  handle_admin_status_ext mem set_reserve1 q agent =
      (no_error, reserve1_integer s asn_integer is_admin_status q, agent)
  handle_admin_status_ext mem set_reserve2 q agent = on_envs agent (
      reserve2_scalar mem (env_of storage_modes.admin_status_ext) (text "adminStatusExt")
        (text "undo_adminStatusExt") integer32 q agent.envs)
  handle_admin_status_ext mem set_free q agent = release (text "undo_adminStatusExt") q agent
  handle_admin_status_ext mem set_action q agent = on_envs agent (
      action_scalar mem (env_of storage_modes.admin_status_ext) (text "adminStatusExt") integer32 q
        agent.envs)
  handle_admin_status_ext mem set_commit q agent = release (text "undo_adminStatusExt") q agent
  handle_admin_status_ext mem set_undo q agent = on_envs agent (
      undo_scalar mem (env_of storage_modes.admin_status_ext) (text "adminStatusExt")
        (text "undo_adminStatusExt") q agent.envs)
  handle_admin_status_ext mem other q agent = (gen_err, q, agent)

  unfoldable pub handle_sample_interval_sec :
      (mem : Bool) → Mode → Q → Agent E → SnmpErr × Q × Agent E
  handle_sample_interval_sec mem get q agent = on_envs agent (
      get_scalar (env_of storage_modes.sample_interval_sec) (text "sampleIntervalSec") unsigned32
        asn_unsigned q agent.envs)
  handle_sample_interval_sec mem set_reserve1 q agent =
      (no_error, reserve1_integer s asn_unsigned is_interval q, agent)
  handle_sample_interval_sec mem set_reserve2 q agent = on_envs agent (
      reserve2_scalar mem (env_of storage_modes.sample_interval_sec) (text "sampleIntervalSec")
        (text "undo_sampleIntervalSec") unsigned32 q agent.envs)
  handle_sample_interval_sec mem set_free q agent = release (text "undo_sampleIntervalSec") q agent
  handle_sample_interval_sec mem set_action q agent = on_envs agent (
      action_scalar mem (env_of storage_modes.sample_interval_sec) (text "sampleIntervalSec")
        unsigned32 q agent.envs)
  handle_sample_interval_sec mem set_commit q agent =
      release (text "undo_sampleIntervalSec") q agent
  handle_sample_interval_sec mem set_undo q agent = on_envs agent (
      undo_scalar mem (env_of storage_modes.sample_interval_sec) (text "sampleIntervalSec")
        (text "undo_sampleIntervalSec") q agent.envs)
  handle_sample_interval_sec mem other q agent = (gen_err, q, agent)
