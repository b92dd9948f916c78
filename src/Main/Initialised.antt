-- ===== src/Main/Initialised.antt =====
-- src/main.c: the globals, handles and databases that subagent_storage_init leaves behind, whichever
-- of its calls fails, and what subagent_storage_shutdown makes of them.
use agentx_subagent.Prelude.{
  ℕ, ◌≡◌, subst, refl, sym, ◌∙◌, ap, Bool, true, false, Option, none, some, List, [], Bytes, arith,
}
use agentx_subagent.Storage.Types.{StorageRc, ok}
use agentx_subagent.Storage.Lmdb.{Lmdb, LmdbLaws}
use agentx_subagent.Storage.Env.{StorageEnv, begin_read_txn, in_read_txn, if_begun}
use agentx_subagent.Storage.Iter.{storage_env_stat, no_stat, stat_out}
use agentx_subagent.Storage.Ops.Calls.{pair_of}
use agentx_subagent.Storage.Txn.{storage_txn_begin}
use agentx_subagent.Storage.Open.{
  Handles, Opening, storage_env_close, env_created, env_closed, closed_again, LeavesOpen,
  storage_env_open_lem,
}
use agentx_subagent.Mib.Values.Effects.{view_of, in_read_txn_view}
use agentx_subagent.Bootstrap.{
  cache_bootstrap_defaults, config_bootstrap_defaults, bootstrap, cache_seeds, config_seeds,
}
use agentx_subagent.Bootstrap.Plan.{planned, default_of}
use agentx_subagent.Bootstrap.Plan.Outcome.{
  cache_bootstrap_defaults_lem, config_bootstrap_defaults_lem,
}
use agentx_subagent.Main.{
  Process, Outside, no_envs, config_path_of, cache_path_of, cache_seeded, cache_opened,
  config_seeded, config_opened, subagent_storage_init, subagent_storage_shutdown, env_persistent,
  env_nosync,
}

module _ {E T C : Type 0} (m : Lmdb E T C) (L : LmdbLaws m) (outside : Outside E) where
  -- `env` holds what was there when the path was opened, and the defaults of the seeds elsewhere.
  abbrev pub Seeded : (Bytes → Option Bytes) → Bytes → StorageEnv E → Type 0
  Seeded default path env =
      (j : Bytes)
      → L.env_view env.env j ≡ planned false (default j) (L.env_view (outside.opens path).opened j)

  -- The two ways in which the start-up of the databases ends.
  pub data Initialised (h : Handles) (config_path cache_path : Bytes)
      : Bool × Process E → Type 0 where
    failed :
        {h' : Handles} {closed : List E}
        → h' ≡ h
        → Initialised h config_path cache_path
            (false, record { envs = no_envs; handles = h'; closed = closed })
    ready :
        {config' cache' : Option (StorageEnv E)} {h' : Handles} {closed : List E}
        (config cache : StorageEnv E)
        → config' ≡ some config
        → cache' ≡ some cache
        → h' ≡ env_created (env_created h)
        → Seeded (default_of config_seeds) config_path config
        → Seeded (default_of cache_seeds) cache_path cache
        → Initialised h config_path cache_path (
          true,
          record {
            envs = record { config_env = config'; cache_env = cache' };
            handles = h';
            closed = closed;
          },
        )

  if_begun_handle :
      {A : Type 0} (fails : StorageRc → A) (impl : T → A) (env : StorageEnv E)
      (r : StorageRc × T × E)
      → (env' : StorageEnv E) × ((if_begun m fails impl env r).1 ≡ some env')
  if_begun_handle fails impl env (ok, txn, e) = (_, refl)
  if_begun_handle fails impl env (_, txn, e) = (_, refl)

  -- The statistics leave the handle a handle of the same database.
  stat_handle :
      (env : StorageEnv E)
      → (env' : StorageEnv E) × ((storage_env_stat m (some env)).1 ≡ some env')
        × ((j : Bytes) → L.env_view env'.env j ≡ L.env_view env.env j)
  unfolding storage_env_stat in_read_txn
  stat_handle env =
      let out : T → StorageRc × Option (ℕ × ℕ) = λ txn. stat_out m (m.stat txn) in
      let (env', e) = if_begun_handle (no_stat m) out env (begin_read_txn m env) in
      (
        env',
        e,
        λ j. sym (ap (λ o. view_of m L o j) e) ∙ in_read_txn_view m L (no_stat m) out (some env) j,
      )

  close_created :
      (env : StorageEnv E) (h h' : Handles)
      → h' ≡ env_created h
      → storage_env_close (some env) h' ≡ h
  unfolding storage_env_close
  close_created env h h' created = ap env_closed created ∙ closed_again h

  cache_seeded_lem :
      (h h' : Handles) (config_path cache_path : Bytes) (config cache : StorageEnv E)
      (r : StorageRc × Option (StorageEnv E))
      → h' ≡ env_created (env_created h)
      → Seeded (default_of config_seeds) config_path config
      → r.1 ≡ some cache
      → (r.0 ≡ ok → Seeded (default_of cache_seeds) cache_path cache)
      → Initialised h config_path cache_path (cache_seeded m outside r (some config) h' [])
  cache_seeded_lem h h' config_path cache_path config cache (ok, env) created seeded is fills =
      let (cache', e, keeps) = stat_handle cache in
      ready config cache' refl (ap (λ o. (storage_env_stat m o).1) is ∙ e) created seeded
        (λ j. keeps j ∙ fills refl j)
  cache_seeded_lem h h' config_path cache_path config cache (_, env) created seeded is fills =
      failed (
        ap (λ o. storage_env_close (some config) (storage_env_close o h')) is
        ∙ close_created config h _ (close_created cache (env_created h) h' created))

  -- Seeding a handle that comes from an open.
  filled_from :
      (default : Option Bytes) (path : Bytes) (opened env : StorageEnv E) (j : Bytes)
      → opened.env ≡ (outside.opens path).opened
      → L.env_view env.env j ≡ L.env_view opened.env j
      → planned false default (L.env_view env.env j)
        ≡ planned false default (L.env_view (outside.opens path).opened j)
  filled_from default path opened env j is keeps =
      ap (planned false default) (keeps ∙ ap (λ e. L.env_view e j) is)

  cache_some_lem :
      (h h' : Handles) (config_path cache_path : Bytes) (config cache : StorageEnv E)
      → h' ≡ env_created (env_created h)
      → cache.env ≡ (outside.opens cache_path).opened
      → Seeded (default_of config_seeds) config_path config
      → Initialised h config_path cache_path
          (cache_opened m outside ((ok, some cache), h') (some config) [])
  cache_some_lem h h' config_path cache_path config cache created is seeded =
      let (cache', e, keeps) = stat_handle cache in
      let (filled, e', fills, bad) =
        cache_bootstrap_defaults_lem m L outside.cache_memory false cache' in
      subst
        (λ o. Initialised h config_path cache_path (
          cache_seeded m outside (cache_bootstrap_defaults m outside.cache_memory o false)
            (some config) h' []))
        (sym e)
        (cache_seeded_lem h h' config_path cache_path config filled _ created seeded e' (λ good j.
          fills good j
          ∙ filled_from (default_of cache_seeds j) cache_path cache cache' j is (keeps j)))

  cache_opened_lem :
      (h : Handles) (config_path cache_path : Bytes) (config : StorageEnv E) (r : Opening E)
      → LeavesOpen (outside.opens cache_path).opened env_nosync (env_created h) r
      → Seeded (default_of config_seeds) config_path config
      → Initialised h config_path cache_path (cache_opened m outside r (some config) [])
  unfolding storage_env_stat in_read_txn cache_bootstrap_defaults bootstrap storage_txn_begin
      storage_env_close
  cache_opened_lem h config_path cache_path config ((ok, none), h') e seeded =
      failed (close_created config h h' e)
  cache_opened_lem h config_path cache_path config ((ok, some cache), h') (_, created, _, _, is)
        seeded =
      cache_some_lem h h' config_path cache_path config cache created is seeded
  cache_opened_lem h config_path cache_path config ((_, none), h') e seeded =
      failed (close_created config h h' e)
  cache_opened_lem h config_path cache_path config ((_, some cache), h') (bad, _, _, _, _) seeded =
      absurd (ground (arith, bad))

  config_seeded_lem :
      (h h' : Handles) (config_path cache_path : Bytes) (config : StorageEnv E)
      (r : StorageRc × Option (StorageEnv E))
      → h' ≡ env_created h
      → r.1 ≡ some config
      → (r.0 ≡ ok → Seeded (default_of config_seeds) config_path config)
      → Initialised h config_path cache_path (config_seeded m outside cache_path r h' none [])
  config_seeded_lem h h' config_path cache_path config (ok, env) created is fills =
      subst
        (λ (x : Option (StorageEnv E) × Handles).
          Initialised h config_path cache_path
            (config_seeded m outside cache_path (ok, x.0) x.1 none []))
        (sym (pair_of is created))
        (cache_opened_lem h config_path cache_path config _
          (storage_env_open_lem (outside.opens cache_path) (some cache_path) 0 env_nosync true
            (env_created h))
          (fills refl))
  config_seeded_lem h h' config_path cache_path config (_, env) created is fills =
      failed (ap (λ o. storage_env_close o h') is ∙ close_created config h h' created)

  config_some_lem :
      (h h' : Handles) (config_path cache_path : Bytes) (config : StorageEnv E)
      → h' ≡ env_created h
      → config.env ≡ (outside.opens config_path).opened
      → Initialised h config_path cache_path
          (config_opened m outside cache_path ((ok, some config), h') none [])
  config_some_lem h h' config_path cache_path config created is =
      let (filled, e, fills, bad) =
        config_bootstrap_defaults_lem m L outside.config_memory config in
      config_seeded_lem h h' config_path cache_path filled _ created e (λ good j.
        fills good j ∙ filled_from (default_of config_seeds j) config_path config config j is refl)

  config_opened_lem :
      (h : Handles) (config_path cache_path : Bytes) (r : Opening E)
      → LeavesOpen (outside.opens config_path).opened env_persistent h r
      → Initialised h config_path cache_path (config_opened m outside cache_path r none [])
  unfolding config_bootstrap_defaults bootstrap storage_txn_begin storage_env_close
  config_opened_lem h config_path cache_path ((ok, none), h') e = failed e
  config_opened_lem h config_path cache_path ((ok, some config), h') (_, created, _, _, is) =
      config_some_lem h h' config_path cache_path config created is
  config_opened_lem h config_path cache_path ((_, none), h') e = failed e
  config_opened_lem h config_path cache_path ((_, some config), h') (bad, _, _, _, _) =
      absurd (ground (arith, bad))

  -- One of the two ways is how the start-up ends where neither database was open.
  pub init-Initialised :
      (config_path cache_path : Option Bytes) (h : Handles)
      → Initialised h (config_path_of m outside config_path) (cache_path_of m outside cache_path) (
          subagent_storage_init m outside config_path cache_path
            (record { envs = no_envs; handles = h; closed = [] }))
  unfolding subagent_storage_init
  init-Initialised config_path cache_path h =
      let path = config_path_of m outside config_path in
      config_opened_lem h path (cache_path_of m outside cache_path) _
        (storage_env_open_lem (outside.opens path) (some path) 0 env_persistent true h)

  both_closed :
      {config' cache' : Option (StorageEnv E)} {h' : Handles} (h : Handles)
      (config cache : StorageEnv E)
      → config' ≡ some config
      → cache' ≡ some cache
      → h' ≡ env_created (env_created h)
      → storage_env_close config' (storage_env_close cache' h') ≡ h
  both_closed h config cache is_config is_cache created =
      rw (is_config, is_cache)
        (close_created config h _ (close_created cache (env_created h) _ created))

  pub shutdown-Initialised :
      (h : Handles) (config_path cache_path : Bytes) (r : Bool × Process E)
      → Initialised h config_path cache_path r
      → (((subagent_storage_shutdown r.1).envs ≡ no_envs)
          × ((subagent_storage_shutdown r.1).handles ≡ h))
  unfolding subagent_storage_shutdown storage_env_close
  shutdown-Initialised h config_path cache_path _ (failed same) = (refl, same)
  shutdown-Initialised h config_path cache_path _
        (ready config cache is_config is_cache created _ _) =
      (refl, both_closed h config cache is_config is_cache created)
