-- ===== src/Main/Settled.antt =====
-- src/main.c: which transactions subagent_storage_init and subagent_storage_shutdown leave open in the
-- environments that they hold or have closed.
use agentx_subagent.Prelude.{
  ℕ, ◌≡◌, refl, ◌∙◌, ap, true, false, Option, none, some, List, [], Bytes, All,
}
use agentx_subagent.Storage.Types.{StorageRc, ok}
use agentx_subagent.Storage.Lmdb.{Lmdb, TxnLaws}
use agentx_subagent.Storage.Env.{StorageEnv}
use agentx_subagent.Storage.Open.{Handles, Opening, LeavesOpen, storage_env_open_lem}
use agentx_subagent.Bootstrap.{cache_bootstrap_defaults, config_bootstrap_defaults}
use agentx_subagent.Bootstrap.Transactions.{txns_of, stat-txns, bootstrap-txns}
use agentx_subagent.Main.{
  Process, Outside, no_envs, config_path_of, cache_path_of, cache_seeded, cache_opened,
  config_seeded, config_opened, closing, subagent_storage_init, subagent_storage_shutdown,
  env_persistent, env_nosync,
}

module _ {E T C : Type 0} (m : Lmdb E T C) (W : TxnLaws m) where
  -- No environment that the process holds or has closed has, or had when it was closed, a
  -- transaction open.
  abbrev pub Settled : Process E → Type 0
  Settled p =
      (txns_of m W p.envs.config_env ≡ 0)
      × (txns_of m W p.envs.cache_env ≡ 0)
      × All (λ e. W.open_txns e ≡ 0) p.closed

  closing-All :
      (env : Option (StorageEnv E)) (closed : List E)
      → txns_of m W env ≡ 0
      → All (λ e. W.open_txns e ≡ 0) closed
      → All (λ e. W.open_txns e ≡ 0) (closing env closed)
  closing-All none closed settled before = before
  closing-All (some env) closed settled before = (settled, before)

  pub shutdown-Settled : (p : Process E) → Settled p → Settled (subagent_storage_shutdown p)
  unfolding subagent_storage_shutdown
  shutdown-Settled p (config, cache, closed) =
      (refl, refl, closing-All _ _ config (closing-All _ _ cache closed))

  module _ (outside : Outside E)
      (fresh : (path : Bytes) → W.open_txns (outside.opens path).opened ≡ 0) where
    cache_seeded-Settled :
        (r : StorageRc × Option (StorageEnv E)) (config : Option (StorageEnv E)) (h : Handles)
        → txns_of m W r.1 ≡ 0
        → txns_of m W config ≡ 0
        → Settled (cache_seeded m outside r config h []).1
    cache_seeded-Settled (ok, cache) config h none_in none_config =
        (none_config, stat-txns m W cache ∙ none_in, tt)
    cache_seeded-Settled (_, cache) config h none_in none_config =
        (refl, refl, closing-All config _ none_config (closing-All cache [] none_in tt))

    opened-txns :
        (path : Bytes) (flags : ℕ) (h : Handles) (r : Opening E)
        → LeavesOpen (outside.opens path).opened flags h r
        → txns_of m W r.0.1 ≡ 0
    opened-txns path flags h ((rc, none), h') e = refl
    opened-txns path flags h ((rc, some env), h') (good, created, same, ro, is) =
        ap (λ e. W.open_txns e) is ∙ fresh path

    cache_opened-Settled :
        (r : Opening E) (config : Option (StorageEnv E))
        → txns_of m W r.0.1 ≡ 0
        → txns_of m W config ≡ 0
        → Settled (cache_opened m outside r config []).1
    unfolding cache_bootstrap_defaults
    cache_opened-Settled ((ok, cache), h) config none_in none_config =
        cache_seeded-Settled _ config h
          (bootstrap-txns m W outside.cache_memory false _ _ ∙ stat-txns m W cache ∙ none_in)
          none_config
    cache_opened-Settled ((_, cache), h) config none_in none_config =
        (refl, refl, closing-All config [] none_config tt)

    config_seeded-Settled :
        (path : Bytes) (r : StorageRc × Option (StorageEnv E)) (h : Handles)
        → txns_of m W r.1 ≡ 0
        → Settled (config_seeded m outside path r h none []).1
    config_seeded-Settled path (ok, config) h none_config =
        cache_opened-Settled _ config
          (opened-txns path env_nosync h _
            (storage_env_open_lem (outside.opens path) (some path) 0 env_nosync true h))
          none_config
    config_seeded-Settled path (_, config) h none_config =
        (refl, refl, closing-All config [] none_config tt)

    config_opened-Settled :
        (path : Bytes) (r : Opening E)
        → txns_of m W r.0.1 ≡ 0
        → Settled (config_opened m outside path r none []).1
    unfolding config_bootstrap_defaults
    config_opened-Settled path ((ok, config), h) none_in =
        config_seeded-Settled path _ h
          (bootstrap-txns m W outside.config_memory false _ config ∙ none_in)
    config_opened-Settled path ((_, config), h) none_in = (refl, refl, tt)

    pub init-Settled :
        (config_path cache_path : Option Bytes) (h : Handles)
        → Settled
            (subagent_storage_init m outside config_path cache_path
              (record { envs = no_envs; handles = h; closed = [] })).1
    unfolding subagent_storage_init
    init-Settled config_path cache_path h =
        let path = config_path_of m outside config_path in
        config_opened-Settled (cache_path_of m outside cache_path) _ (
          opened-txns path env_persistent h _
            (storage_env_open_lem (outside.opens path) (some path) 0 env_persistent true h))
