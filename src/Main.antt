-- ===== src/Main.antt =====
-- src/main.c: the databases at start-up and shutdown, and the descriptors that the event loop waits
-- for.
pub mod Initialised
pub mod Settled
pub mod Startup
pub mod Waiting
pub mod Defaults
pub mod Loop
use agentx_subagent.Prelude.{
  ℕ, zero, suc, Bool, true, false, Option, none, some, List, [], ◌∷◌, Bytes, text,
}
use agentx_subagent.Prelude.Int.{ℤ, pos, negsuc}
use agentx_subagent.Storage.Types.{StorageRc, ok}
use agentx_subagent.Storage.Lmdb.{Lmdb}
use agentx_subagent.Storage.Env.{StorageEnv}
use agentx_subagent.Storage.Envs.{Envs}
use agentx_subagent.Storage.Iter.{storage_env_stat}
use agentx_subagent.Storage.Open.{OpenCalls, Handles, Opening, storage_env_open, storage_env_close}
use agentx_subagent.Ipc.Server.Dispatch.{Server, ipc_server_fill_fdset}
use agentx_subagent.Bootstrap.{Memory, cache_bootstrap_defaults, config_bootstrap_defaults}

-- The two globals, the LMDB handles that the opens and closes leave unreleased, and each LMDB
-- environment as it was when mdb_env_close released it.
pub record Process (E : Type 0) : Type 0 where
  pub envs : Envs E
  pub handles : Handles
  pub closed : List E

-- storage_env_close, as the list of the closed environments sees it.
abbrev pub closing : {E : Type 0} → Option (StorageEnv E) → List E → List E
closing none closed = closed
closing (some env) closed = env.env ∷ closed

abbrev pub no_envs : {E : Type 0} → Envs E
no_envs = record { config_env = none; cache_env = none }

-- `path == NULL || path[0] == '\0'`
abbrev pub or_default : Option Bytes → Bytes → Bytes
or_default none default = default
or_default (some []) default = default
or_default (some (c ∷ path)) default = c ∷ path

-- SUBAGENT_CONFIG_DB_DEFAULT and SUBAGENT_CACHE_DB_DEFAULT
abbrev config_db_default : Bytes
config_db_default = text "/var/lib/agentx-subagent/config.lmdb"

abbrev cache_db_default : Bytes
cache_db_default = text "/run/agentx-subagent/cache.lmdb"

-- STORAGE_ENV_PERSISTENT and STORAGE_ENV_NOSYNC
abbrev pub env_persistent : ℕ
env_persistent = 0

abbrev pub env_nosync : ℕ
env_nosync = 1

-- How the outside goes: the environment variables, the calls of an open of each path, and what each
-- of the two seedings can allocate.
pub record Outside (E : Type 0) : Type 0 where
  pub getenv : Bytes → Option Bytes
  pub opens : Bytes → OpenCalls E
  pub config_memory : Memory
  pub cache_memory : Memory

module _ {E T C : Type 0} (m : Lmdb E T C) (outside : Outside E) where
  abbrev pub config_path_of : Option Bytes → Bytes
  config_path_of path =
      or_default path (or_default (outside.getenv (text "AGENTX_CONFIG_DB")) config_db_default)

  abbrev pub cache_path_of : Option Bytes → Bytes
  cache_path_of path =
      or_default path (or_default (outside.getenv (text "AGENTX_CACHE_DB")) cache_db_default)

  -- Each of the next four is what is left of subagent_storage_init once a call has answered; true is
  -- the return value 0. The statistics are only logged.
  abbrev pub cache_seeded :
      StorageRc × Option (StorageEnv E)
      → Option (StorageEnv E)
      → Handles
      → List E
      → Bool × Process E
  cache_seeded (ok, cache) config h closed = (
    true,
    record {
      envs = record { config_env = config; cache_env = (storage_env_stat m cache).1 };
      handles = h;
      closed = closed;
    },
  )
  cache_seeded (rc, cache) config h closed = (
    false,
    record {
      envs = no_envs;
      handles = storage_env_close config (storage_env_close cache h);
      closed = closing config (closing cache closed);
    },
  )

  abbrev pub cache_opened : Opening E → Option (StorageEnv E) → List E → Bool × Process E
  cache_opened ((ok, cache), h) config closed =
      let (stat, cache') = storage_env_stat m cache in
      cache_seeded (cache_bootstrap_defaults m outside.cache_memory cache' false) config h closed
  cache_opened ((rc, cache), h) config closed = (
    false,
    record { envs = no_envs; handles = storage_env_close config h; closed = closing config closed },
  )

  abbrev pub config_seeded :
      Bytes
      → StorageRc × Option (StorageEnv E)
      → Handles
      → Option (StorageEnv E)
      → List E
      → Bool × Process E
  config_seeded path (ok, config) h cache closed =
      cache_opened (storage_env_open (outside.opens path) (some path) 0 env_nosync true h) config
        closed
  config_seeded path (rc, config) h cache closed = (
    false,
    record {
      envs = record { config_env = none; cache_env = cache };
      handles = storage_env_close config h;
      closed = closing config closed;
    },
  )

  abbrev pub config_opened : Bytes → Opening E → Option (StorageEnv E) → List E → Bool × Process E
  config_opened path ((ok, config), h) cache closed =
      config_seeded path (config_bootstrap_defaults m outside.config_memory config) h cache closed
  config_opened path ((rc, config), h) cache closed = (
    false,
    record { envs = record { config_env = none; cache_env = cache }; handles = h; closed = closed },
  )

  unfoldable pub subagent_storage_init :
      (config_path cache_path : Option Bytes) → Process E → Bool × Process E
  subagent_storage_init config_path cache_path p =
      let path = config_path_of config_path in
      config_opened (cache_path_of cache_path)
        (storage_env_open (outside.opens path) (some path) 0 env_persistent true p.handles)
        p.envs.cache_env p.closed

unfoldable pub subagent_storage_shutdown : {E : Type 0} → Process E → Process E
subagent_storage_shutdown p = record {
  envs = no_envs;
  handles = storage_env_close p.envs.config_env (storage_env_close p.envs.cache_env p.handles);
  closed = closing p.envs.config_env (closing p.envs.cache_env p.closed);
}

-- What select() is called with: the descriptors, and the number one above the highest. `fdset` and
-- `numfds` are what snmp_select_info leaves.
abbrev pub less_one : ℕ → ℤ
less_one zero = negsuc 0
less_one (suc n) = pos n

abbrev pub plus_one : ℤ → ℤ
plus_one (pos n) = pos (suc n)
plus_one (negsuc zero) = pos 0
plus_one (negsuc (suc n)) = negsuc n

unfoldable pub select_args : {E : Type 0} → Option (Server E) → List ℤ → ℕ → List ℤ × ℤ
select_args ipc fdset numfds =
    let (fds, max_fd) = ipc_server_fill_fdset ipc fdset (less_one numfds) in (fds, plus_one max_fd)
