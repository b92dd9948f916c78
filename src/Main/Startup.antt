-- ===== src/Main/Startup.antt =====
-- src/main.c: what subagent_storage_init leaves behind, whichever of its calls fails, and what
-- subagent_storage_shutdown makes of it.
use agentx_subagent.Prelude.{◌≡◌, Option, [], Bytes}
use agentx_subagent.Storage.Lmdb.{Lmdb, LmdbLaws, TxnLaws}
use agentx_subagent.Storage.Open.{Handles}
use agentx_subagent.Main.{
  Outside, no_envs, config_path_of, cache_path_of, subagent_storage_init, subagent_storage_shutdown,
}
use agentx_subagent.Main.Initialised.{Initialised, init-Initialised, shutdown-Initialised}
use agentx_subagent.Main.Settled.{Settled, init-Settled, shutdown-Settled}

module _ {E T C : Type 0} (m : Lmdb E T C) (L : LmdbLaws m) (W : TxnLaws m) (outside : Outside E)
    (fresh : (path : Bytes) → W.open_txns (outside.opens path).opened ≡ 0) where
  -- Let neither database be open, and no environment be closed yet. Whatever the calls of the two
  -- opens answer, whatever cannot be allocated and whichever storage call fails,
  -- subagent_storage_init ends in one of two ways. It fails, both globals are NULL, and no more
  -- LMDB handles of opens are held than before. Or it succeeds, both globals are set, two more
  -- MDB_env and no more MDB_txn of opens are held, and each database holds what was at its path
  -- and otherwise its defaults. In both, no environment that is held or was closed has, or had
  -- when it was closed, a transaction of a seeding or of the statistics open. An environment
  -- comes from its open without one; the databases meet LMDB's laws of maps and of transactions.
  pub subagent_storage_init_lem :
      (config_path cache_path : Option Bytes) (h : Handles)
      → let r =
          subagent_storage_init m outside config_path cache_path
            (record { envs = no_envs; handles = h; closed = [] }) in
        Initialised m L outside h
          (config_path_of m outside config_path)
          (cache_path_of m outside cache_path)
          r
        × Settled m W r.1
  subagent_storage_init_lem config_path cache_path h = (
    init-Initialised m L outside config_path cache_path h,
    init-Settled m W outside fresh config_path cache_path h,
  )

  -- Let neither database be open, and no environment be closed yet. Then
  -- subagent_storage_shutdown after subagent_storage_init, whether that failed or not, leaves
  -- both globals NULL and as many LMDB handles of opens as were held before, and no environment
  -- that was closed had a transaction of a seeding or of the statistics open then. An environment
  -- comes from its open without one; the databases meet LMDB's laws of maps and of transactions.
  pub shutdown-init :
      (config_path cache_path : Option Bytes) (h : Handles)
      → let p =
          subagent_storage_shutdown
            (subagent_storage_init m outside config_path cache_path
              (record { envs = no_envs; handles = h; closed = [] })).1 in
        (p.envs ≡ no_envs) × (p.handles ≡ h) × Settled m W p
  shutdown-init config_path cache_path h =
      let (envs, handles) =
        shutdown-Initialised m L outside h _ _ _
          (init-Initialised m L outside config_path cache_path h) in
      (
        envs,
        handles,
        shutdown-Settled m W _ (init-Settled m W outside fresh config_path cache_path h),
      )
