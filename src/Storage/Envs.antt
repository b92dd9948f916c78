-- ===== src/Storage/Envs.antt =====
-- The two environments of include/subagent_env.h, which the whole subagent shares.
use agentx_subagent.Prelude.{Option, none}
use agentx_subagent.Storage.Env.{StorageEnv}

-- The globals config_env and cache_env, and the pointers that can be held to them.
pub record Envs (E : Type 0) : Type 0 where
  pub config_env : Option (StorageEnv E)
  pub cache_env : Option (StorageEnv E)

pub data EnvRef : Type 0 where
  null config cache : EnvRef

module _ {E : Type 0} where
  abbrev pub env_at : EnvRef → Envs E → Option (StorageEnv E)
  env_at null envs = none
  env_at config envs = envs.config_env
  env_at cache envs = envs.cache_env

  abbrev pub set_env : EnvRef → Option (StorageEnv E) → Envs E → Envs E
  set_env null env envs = envs
  set_env config env envs = record envs { config_env = env }
  set_env cache env envs = record envs { cache_env = env }
