-- ===== src/Main/Defaults.antt =====
-- From the start-up of src/main.c to the handlers of src/generated/demo_config.c and
-- demo_status.c: what a freshly
-- started agent answers.
use agentx_subagent.Prelude.{
  ◌≡◌, refl, ap, ◌∙◌, Bool, true, false, Option, none, some, List, [], Bytes, text, arith,
}
use agentx_subagent.Prelude.Int.{pos}
use agentx_subagent.Storage.Types.{ok}
use agentx_subagent.Storage.Lmdb.{Lmdb, LmdbLaws}
use agentx_subagent.Storage.Env.{StorageEnv}
use agentx_subagent.Storage.Env.Reads.{CanRead}
use agentx_subagent.Storage.Envs.{Envs, EnvRef, config, cache, env_at}
use agentx_subagent.Storage.Codec.{validate_key, got}
use agentx_subagent.Storage.Open.{Handles}
use agentx_subagent.DemoTrap.{Agent}
use agentx_subagent.Mib.Values.{
  Cell, int, uint, octets, encoding, fetch, Syntax, integer32, unsigned32, octet_string,
}
use agentx_subagent.Mib.Values.Reads.{Fits, reread, get_call_found}
use agentx_subagent.Mib.Snmp.{get, Asn, asn_integer, asn_unsigned, asn_counter, asn_octet_str, Snmp}
use agentx_subagent.Mib.Status.{
  StatusScalar, cpu_temp_milli_c, sample_count, last_update_epoch, status_text,
  handle_cpu_temp_milli_c, handle_sample_count, handle_last_update_epoch, handle_status_text,
  handle_status,
}
use agentx_subagent.Mib.Scalars.{answer}
use agentx_subagent.Mib.Scalars.Registry.{
  Scalar, device_name, temp_threshold_milli_c, admin_status_ext, sample_interval_sec, key_of,
  ref_of, syntax_of, asn_of, handle,
}
use agentx_subagent.Mib.Scalars.Held.{key_of_valid}
use agentx_subagent.Mib.Scalars.Shown.{handle_get}
use agentx_subagent.Bootstrap.{
  Seed, cache_seeds, config_seeds, cache_config_scalars, cache_status_scalars, config_scalars,
}
use agentx_subagent.Bootstrap.Plan.{planned, default_of}
use agentx_subagent.Main.{
  Process, Outside, no_envs, config_path_of, cache_path_of, subagent_storage_init,
}
use agentx_subagent.Main.Initialised.{Seeded, Initialised, failed, ready, init-Initialised}

-- A scalar of demo_config.c or of demo_status.c.
pub data Object : Type 0 where
  config_scalar : Scalar → Object
  status_scalar : StatusScalar → Object

abbrev pub object_key : Object → Bytes
object_key (config_scalar sc) = key_of sc
object_key (status_scalar cpu_temp_milli_c) = text "cpuTempMilliC"
object_key (status_scalar sample_count) = text "sampleCount"
object_key (status_scalar last_update_epoch) = text "lastUpdateEpoch"
object_key (status_scalar status_text) = text "statusText"

abbrev pub object_ref : Object → EnvRef
object_ref (config_scalar sc) = ref_of sc
object_ref (status_scalar st) = cache

abbrev object_syntax : Object → Syntax
object_syntax (config_scalar sc) = syntax_of sc
object_syntax (status_scalar cpu_temp_milli_c) = integer32
object_syntax (status_scalar status_text) = octet_string 128
object_syntax (status_scalar st) = unsigned32

abbrev object_asn : Object → Asn
object_asn (config_scalar sc) = asn_of sc
object_asn (status_scalar cpu_temp_milli_c) = asn_integer
object_asn (status_scalar sample_count) = asn_counter
object_asn (status_scalar last_update_epoch) = asn_unsigned
object_asn (status_scalar status_text) = asn_octet_str

-- The default of a scalar.
abbrev pub default_cell : Object → Cell
default_cell (config_scalar device_name) = octets (text "agentx-demo") 11
default_cell (config_scalar temp_threshold_milli_c) = int (pos 70000)
default_cell (config_scalar admin_status_ext) = int (pos 1)
default_cell (config_scalar sample_interval_sec) = uint 60
default_cell (status_scalar cpu_temp_milli_c) = int (pos 0)
default_cell (status_scalar status_text) = octets (text "initialising") 12
default_cell (status_scalar st) = uint 0

abbrev pub seeds_of : EnvRef → List Seed
seeds_of config = config_seeds
seeds_of ref = cache_seeds

default_of-default_cell :
    (o : Object)
    → default_of (seeds_of (object_ref o)) (object_key o) ≡ some (encoding (default_cell o))
unfolding config_seeds config_scalars cache_seeds cache_config_scalars cache_status_scalars
    default_of
default_of-default_cell (config_scalar device_name) = refl
default_of-default_cell (config_scalar temp_threshold_milli_c) = refl
default_of-default_cell (config_scalar admin_status_ext) = refl
default_of-default_cell (config_scalar sample_interval_sec) = refl
default_of-default_cell (status_scalar cpu_temp_milli_c) = refl
default_of-default_cell (status_scalar sample_count) = refl
default_of-default_cell (status_scalar last_update_epoch) = refl
default_of-default_cell (status_scalar status_text) = refl

default_cell-Fits : (o : Object) → Fits (object_syntax o) (default_cell o)
default_cell-Fits (config_scalar device_name) = (omega arith, omega arith)
default_cell-Fits (config_scalar temp_threshold_milli_c) = (omega arith, omega arith)
default_cell-Fits (config_scalar admin_status_ext) = (omega arith, omega arith)
default_cell-Fits (config_scalar sample_interval_sec) = omega arith
default_cell-Fits (status_scalar cpu_temp_milli_c) = (omega arith, omega arith)
default_cell-Fits (status_scalar sample_count) = omega arith
default_cell-Fits (status_scalar last_update_epoch) = omega arith
default_cell-Fits (status_scalar status_text) = (omega arith, omega arith)

object_key_valid : (o : Object) → validate_key (some (object_key o)) ≡ got (object_key o)
unfolding validate_key
object_key_valid (config_scalar sc) = key_of_valid sc
object_key_valid (status_scalar cpu_temp_milli_c) = refl
object_key_valid (status_scalar sample_count) = refl
object_key_valid (status_scalar last_update_epoch) = refl
object_key_valid (status_scalar status_text) = refl

module _ {E T C Q : Type 0} (m : Lmdb E T C) (L : LmdbLaws m) (s : Snmp Q Cell)
    (outside : Outside E) where
  -- A GET through the object's handler.
  abbrev pub get_object : Object → (mem : Bool) → Q → Agent E → Q
  get_object (config_scalar sc) mem q agent = (handle m s sc mem get q agent).1
  get_object (status_scalar st) mem q agent = (handle_status m s st get q agent.envs).1

  get_object-fetch :
      (o : Object) (mem : Bool) (q : Q) (agent : Agent E)
      → get_object o mem q agent
        ≡ answer s
            (object_asn o)
            (fetch m (object_ref o) (object_key o) (object_syntax o) agent.envs).0
            q
  unfolding handle_cpu_temp_milli_c handle_sample_count handle_last_update_epoch handle_status_text
  get_object-fetch (config_scalar sc) mem q agent = ap (λ x. x.1) (handle_get m s sc mem q agent)
  get_object-fetch (status_scalar cpu_temp_milli_c) mem q agent = refl
  get_object-fetch (status_scalar sample_count) mem q agent = refl
  get_object-fetch (status_scalar last_update_epoch) mem q agent = refl
  get_object-fetch (status_scalar status_text) mem q agent = refl

  -- What a GET shows of it.
  abbrev pub shown_default : Object → Q → Q
  shown_default (config_scalar device_name) q = s.set_var_value asn_octet_str (text "agentx-demo") q
  shown_default (config_scalar temp_threshold_milli_c) q =
      s.set_var_integer asn_integer (pos 70000) q
  shown_default (config_scalar admin_status_ext) q = s.set_var_integer asn_integer (pos 1) q
  shown_default (config_scalar sample_interval_sec) q = s.set_var_integer asn_unsigned (pos 60) q
  shown_default (status_scalar cpu_temp_milli_c) q = s.set_var_integer asn_integer (pos 0) q
  shown_default (status_scalar sample_count) q = s.set_var_integer asn_counter (pos 0) q
  shown_default (status_scalar last_update_epoch) q = s.set_var_integer asn_unsigned (pos 0) q
  shown_default (status_scalar status_text) q =
      s.set_var_value asn_octet_str (text "initialising") q

  answer_default :
      (o : Object) (q : Q)
      → answer s (object_asn o) (ok, reread (object_syntax o) (default_cell o)) q
        ≡ shown_default o q
  answer_default (config_scalar device_name) q = refl
  answer_default (config_scalar temp_threshold_milli_c) q = refl
  answer_default (config_scalar admin_status_ext) q = refl
  answer_default (config_scalar sample_interval_sec) q = refl
  answer_default (status_scalar cpu_temp_milli_c) q = refl
  answer_default (status_scalar sample_count) q = refl
  answer_default (status_scalar last_update_epoch) q = refl
  answer_default (status_scalar status_text) q = refl

  -- The path of the database that a scalar lives in.
  abbrev pub path_of : EnvRef → (config_path cache_path : Option Bytes) → Bytes
  path_of config config_path cache_path = config_path_of m outside config_path
  path_of ref config_path cache_path = cache_path_of m outside cache_path

  started :
      (h : Handles) (config_path cache_path : Bytes) (r : Bool × Process E)
      → Initialised m L outside h config_path cache_path r
      → r.0 ≡ true
      → (a b : StorageEnv E) × (r.1.envs.config_env ≡ some a)
        × (r.1.envs.cache_env ≡ some b)
        × Seeded m L outside (default_of config_seeds) config_path a
        × Seeded m L outside (default_of cache_seeds) cache_path b
  started h config_path cache_path _ (failed same) e = cc
  started h config_path cache_path _ (ready a b is_a is_b created seeds_a seeds_b) e =
      (a, b, is_a, is_b, seeds_a, seeds_b)

  -- The database of an object after the start-up answers with the default, if the object was not
  -- there before.
  fetched_from :
      (o : Object) (envs : Envs E) (env : StorageEnv E) (path : Bytes)
      → env_at (object_ref o) envs ≡ some env
      → CanRead m env
      → Seeded m L outside (default_of (seeds_of (object_ref o))) path env
      → L.env_view (outside.opens path).opened (object_key o) ≡ none
      → (fetch m (object_ref o) (object_key o) (object_syntax o) envs).0
        ≡ (ok, reread (object_syntax o) (default_cell o))
  unfolding fetch
  fetched_from o envs env path is reads seeds empty =
      let held : L.env_view env.env (object_key o) ≡ some (encoding (default_cell o)) =
        seeds (object_key o)
        ∙ ap (planned false (default_of (seeds_of (object_ref o)) (object_key o))) empty
        ∙ default_of-default_cell o in
      rw (is) (
        get_call_found m L env (object_key o) (object_syntax o) (default_cell o)
          (default_cell-Fits o) (reads, object_key_valid o, held))

  fetched :
      (o : Object) (envs : Envs E) (config_path cache_path : Option Bytes) (a b : StorageEnv E)
      → envs.config_env ≡ some a
      → envs.cache_env ≡ some b
      → ((e : StorageEnv E) → CanRead m e)
      → Seeded m L outside (default_of config_seeds) (config_path_of m outside config_path) a
      → Seeded m L outside (default_of cache_seeds) (cache_path_of m outside cache_path) b
      → L.env_view
          (outside.opens (path_of (object_ref o) config_path cache_path)).opened
          (object_key o)
        ≡ none
      → (fetch m (object_ref o) (object_key o) (object_syntax o) envs).0
        ≡ (ok, reread (object_syntax o) (default_cell o))
  fetched (config_scalar device_name) envs config_path cache_path a b is_a is_b reads seeds_a
        seeds_b =
      fetched_from (config_scalar device_name) envs a _ is_a (reads a) seeds_a
  fetched (config_scalar temp_threshold_milli_c) envs config_path cache_path a b is_a is_b reads
        seeds_a seeds_b =
      fetched_from (config_scalar temp_threshold_milli_c) envs b _ is_b (reads b) seeds_b
  fetched (config_scalar admin_status_ext) envs config_path cache_path a b is_a is_b reads seeds_a
        seeds_b =
      fetched_from (config_scalar admin_status_ext) envs a _ is_a (reads a) seeds_a
  fetched (config_scalar sample_interval_sec) envs config_path cache_path a b is_a is_b reads
        seeds_a seeds_b =
      fetched_from (config_scalar sample_interval_sec) envs a _ is_a (reads a) seeds_a
  fetched (status_scalar st) envs config_path cache_path a b is_a is_b reads seeds_a seeds_b =
      fetched_from (status_scalar st) envs b _ is_b (reads b) seeds_b

  -- If subagent_storage_init succeeds where neither database was open and the database of a
  -- scalar held nothing for it, then a GET through the scalar's handler, on the two databases
  -- that the start-up has left, answers with the default of the object in the object's type: for
  -- the four of demo_config.c agentx-demo, 70000, 1 or 60, for the four of demo_status.c 0 or,
  -- for statusText, initialising. Databases grant read transactions and meet LMDB's laws.
  pub start-get :
      (o : Object) (config_path cache_path : Option Bytes) (h : Handles) (mem : Bool) (q : Q)
      (agent : Agent E)
      → let r =
          subagent_storage_init m outside config_path cache_path
            (record { envs = no_envs; handles = h; closed = [] }) in
        r.0 ≡ true
        → agent.envs ≡ r.1.envs
        → ((e : StorageEnv E) → CanRead m e)
        → L.env_view
            (outside.opens (path_of (object_ref o) config_path cache_path)).opened
            (object_key o)
          ≡ none
        → get_object o mem q agent ≡ shown_default o q
  start-get o config_path cache_path h mem q agent starts same reads empty =
      let r =
        subagent_storage_init m outside config_path cache_path
          (record { envs = no_envs; handles = h; closed = [] }) in
      let (a, b, is_a, is_b, seeds_a, seeds_b) =
        started h (config_path_of m outside config_path) (cache_path_of m outside cache_path) r
          (init-Initialised m L outside config_path cache_path h) starts in
      get_object-fetch o mem q agent
      ∙ ap (λ x. answer s (object_asn o) x q)
          (ap (λ envs. (fetch m (object_ref o) (object_key o) (object_syntax o) envs).0) same
            ∙ fetched o r.1.envs config_path cache_path a b is_a is_b reads seeds_a seeds_b empty)
      ∙ answer_default o q
