-- ===== src/Tests/Bootstrap.antt =====
-- Runs of src/generated/storage_bootstrap.c on a database in memory.
use agentx_subagent.Prelude.{text, ◌≡◌, ◌≢◌, true, false, some, [], ◌∷◌, Bytes}
use agentx_subagent.Storage.Types.{ok}
use agentx_subagent.Storage.Env.{StorageEnv}
use agentx_subagent.Storage.MemDb.{Entries, mem_lmdb}
use agentx_subagent.Storage.MemDb.Laws.{mem_laws}
use agentx_subagent.Bootstrap.{
  Memory, cache_seeds, config_seeds, cache_bootstrap_defaults, config_bootstrap_defaults,
}
use agentx_subagent.Bootstrap.Plan.{planned, default_of}
use agentx_subagent.Bootstrap.Plan.Outcome.{
  cache_bootstrap_defaults_lem, config_bootstrap_defaults_lem,
}

abbrev opened : Entries → StorageEnv Entries
opened es = record { env = es; flags = 0; readonly = false }

abbrev enough : Memory
enough = record { txn = true; buffer = λ key. true }

cache_bootstrap_defaults_lem_example :
    (env' : StorageEnv Entries) × ((cache_bootstrap_defaults mem_lmdb enough
        (some (opened []))
        true).1
      ≡ some env')
    × ((cache_bootstrap_defaults mem_lmdb enough (some (opened [])) true).0 ≡ ok
        → (j : Bytes)
        → mem_laws.env_view env'.env j
          ≡ planned true (default_of cache_seeds j) (mem_laws.env_view [] j))
    × ((cache_bootstrap_defaults mem_lmdb enough (some (opened [])) true).0 ≢ ok
        → (j : Bytes) → mem_laws.env_view env'.env j ≡ mem_laws.env_view [] j)
cache_bootstrap_defaults_lem_example =
    cache_bootstrap_defaults_lem mem_lmdb mem_laws enough true (opened [])

-- The operator has set adminStatusExt to down(2).
abbrev down : Entries
down = (text "adminStatusExt", 1 ∷ 0 ∷ 0 ∷ 0 ∷ 2 ∷ 0 ∷ 0 ∷ 0 ∷ []) ∷ []

config_bootstrap_defaults_lem_example :
    (env' : StorageEnv Entries) × ((config_bootstrap_defaults mem_lmdb enough
        (some (opened down))).1
      ≡ some env')
    × ((config_bootstrap_defaults mem_lmdb enough (some (opened down))).0 ≡ ok
        → (j : Bytes)
        → mem_laws.env_view env'.env j
          ≡ planned false (default_of config_seeds j) (mem_laws.env_view down j))
    × ((config_bootstrap_defaults mem_lmdb enough (some (opened down))).0 ≢ ok
        → (j : Bytes) → mem_laws.env_view env'.env j ≡ mem_laws.env_view down j)
config_bootstrap_defaults_lem_example =
    config_bootstrap_defaults_lem mem_lmdb mem_laws enough (opened down)
