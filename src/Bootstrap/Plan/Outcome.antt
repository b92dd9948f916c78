-- ===== src/Bootstrap/Plan/Outcome.antt =====
-- src/generated/storage_bootstrap.c: what the two calls leave in the database, on every path.
use agentx_subagent.Prelude.{
  if◌then◌else◌, ◌≡◌, ◌≢◌, refl, ◌∙◌, ap, Bool, true, false, Option, none, some, List, Bytes, arith,
}
use agentx_subagent.Storage.Types.{StorageRc, ok, err_readonly}
use agentx_subagent.Storage.Lmdb.{Lmdb, LmdbLaws}
use agentx_subagent.Storage.Codec.{map_mdb_rc}
use agentx_subagent.Storage.Codec.Words.{map_mdb_rc-eq-ok}
use agentx_subagent.Storage.Env.{StorageEnv}
use agentx_subagent.Storage.Txn.{
  StorageTxn, begun, storage_txn_begin, storage_txn_commit, storage_txn_abort,
}
use agentx_subagent.Bootstrap.{
  Seed, Memory, if_begun, finish, seed_all, bootstrap, cache_seeds, config_seeds,
  cache_bootstrap_defaults, config_bootstrap_defaults,
}
use agentx_subagent.Bootstrap.Blocks.{seed_all-IsOpen}
use agentx_subagent.Storage.Ops.Calls.{helper-writing}
use agentx_subagent.Bootstrap.Plan.Keys.{cache_seeds-Seeded, config_seeds-Seeded}
use agentx_subagent.Bootstrap.Plan.{planned, default_of, Seeded, seed_all-Leads}

module _ {E T C : Type 0} (m : Lmdb E T C) (L : LmdbLaws m) where
  -- How storage_txn_begin for writing ends.
  data Begun (env : StorageEnv E)
      : (StorageRc × Option (StorageTxn T)) × Option (StorageEnv E) → Type 0 where
    refused :
        {rc : StorageRc} {txn : Option (StorageTxn T)} (env' : StorageEnv E)
        → rc ≢ ok
        → ((j : Bytes) → L.env_view env'.env j ≡ L.env_view env.env j)
        → Begun env ((rc, txn), some env')
    opened :
        (txn : StorageTxn T) (env' : StorageEnv E)
        → txn.readonly ≡ false
        → ((j : Bytes) → L.txn_view txn.txn j ≡ L.env_view env.env j)
        → ((j : Bytes) → L.env_view env'.env j ≡ L.env_view env.env j)
        → L.writing txn.txn env'.env ≡ true
        → Begun env ((ok, some txn), some env')

  begun-Begun :
      (mem : Bool) (env : StorageEnv E) (r : StorageRc × T × E)
      → (r.0 ≡ ok → (j : Bytes) → L.txn_view r.1 j ≡ L.env_view env.env j)
      → ((j : Bytes) → L.env_view r.2 j ≡ L.env_view env.env j)
      → (r.0 ≡ ok → L.writing r.1 r.2 ≡ true)
      → Begun env (begun m mem env false r)
  begun-Begun true env (ok, t, e) starts keeps writes =
      opened _ _ refl (starts refl) keeps (writes refl)
  begun-Begun false env (ok, t, e) starts keeps writes =
      refused _ (ground arith) (λ j. L.abort_keeps t e j ∙ keeps j)
  begun-Begun mem env (_, t, e) starts keeps writes = refused _ (ground arith) keeps

  storage_txn_begin-Begun :
      (mem : Bool) (env : StorageEnv E) → Begun env (storage_txn_begin m mem (some env) false true)
  unfolding storage_txn_begin
  storage_txn_begin-Begun mem env = by_mode env.readonly
    where
      by_mode :
          (ro : Bool)
          → Begun env (
              if ro
              then ((err_readonly, none), some env)
              else begun m mem env false (
                map_mdb_rc (m.txn_begin false env.env).0,
                (m.txn_begin false env.env).1,
                (m.txn_begin false env.env).2,
              ))
      by_mode true = refused _ (ground arith) (λ j. refl)
      by_mode false =
          begun-Begun mem env
            (
              map_mdb_rc (m.txn_begin false env.env).0,
              (m.txn_begin false env.env).1,
              (m.txn_begin false env.env).2,
            )
            (λ good j. L.begin_snapshot false env.env j (map_mdb_rc-eq-ok _ good))
            (L.begin_keeps false env.env)
            (λ good. L.begin_writing env.env (map_mdb_rc-eq-ok _ good))

  -- The outcome of a run: everything planned, or nothing at all.
  abbrev AllOrNothing :
      (Bytes → Option Bytes → Option Bytes)
      → StorageEnv E
      → StorageRc × Option (StorageEnv E)
      → Type 0
  AllOrNothing plan env r =
      (env' : StorageEnv E) × (r.1 ≡ some env')
      × (r.0 ≡ ok → (j : Bytes) → L.env_view env'.env j ≡ plan j (L.env_view env.env j))
      × (r.0 ≢ ok → (j : Bytes) → L.env_view env'.env j ≡ L.env_view env.env j)

  finish_lem :
      (mem : Memory) (plan : Bytes → Option Bytes → Option Bytes) (env before : StorageEnv E)
      (r : StorageRc × Option (StorageTxn T))
      → ((j : Bytes) → L.env_view env.env j ≡ L.env_view before.env j)
      → (r.0 ≡ ok
          → (txn : StorageTxn T) × (r.1 ≡ some txn)
            × ((j : Bytes) → L.txn_view txn.txn j ≡ plan j (L.env_view before.env j)))
      → ((txn : StorageTxn T) × (r.1 ≡ some txn) × (L.writing txn.txn env.env ≡ true))
      → AllOrNothing plan before (finish m mem env r)
  unfolding storage_txn_commit storage_txn_abort map_mdb_rc
  finish_lem mem plan env before (ok, none) keeps holds still =
      (_, refl, λ good. absurd (ground (arith, good)), λ bad. keeps)
  finish_lem mem plan env before (ok, some txn) keeps holds still =
      let (t, e, sees) = holds refl in
      let mine : txn ≡ t = cc in
      let (u, is, writes) = still in
      let same : txn ≡ u = cc in
      let mode : L.writing txn.txn env.env ≡ true =
        ap (λ (x : StorageTxn T). L.writing x.txn env.env) same ∙ writes in
      (
        _,
        refl,
        λ good j.
            L.commit_publishes txn.txn env.env j mode (map_mdb_rc-eq-ok _ good)
            ∙ ap (λ (x : StorageTxn T). L.txn_view x.txn j) mine
            ∙ sees j,
        λ bad j. L.commit_fails txn.txn env.env j (λ s. bad (rw s refl)) ∙ keeps j,
      )
  finish_lem mem plan env before (_, none) keeps holds still =
      (_, refl, λ good. absurd (ground (arith, good)), λ bad. keeps)
  finish_lem mem plan env before (_, some txn) keeps holds still = (
    _,
    refl,
    λ good. absurd (ground (arith, good)),
    λ bad j. L.abort_keeps txn.txn env.env j ∙ keeps j,
  )

  abbrev plan_of : (overwrite : Bool) → List Seed → Bytes → Option Bytes → Option Bytes
  plan_of overwrite seeds j before = planned overwrite (default_of seeds j) before

  if_refused_lem :
      (mem : Memory) (overwrite : Bool) (seeds : List Seed) (env env' : StorageEnv E)
      (rc : StorageRc) (txn : Option (StorageTxn T))
      → rc ≢ ok
      → ((j : Bytes) → L.env_view env'.env j ≡ L.env_view env.env j)
      → AllOrNothing
          (plan_of overwrite seeds)
          env
          (if_begun m mem overwrite seeds ((rc, txn), some env'))
  if_refused_lem mem overwrite seeds env env' ok txn bad keeps = absurd (bad refl)
  if_refused_lem mem overwrite seeds env env' _ txn bad keeps =
      (env', refl, λ good. absurd (ground (arith, good)), λ b. keeps)

  if_begun_lem :
      (mem : Memory) (overwrite : Bool) (seeds : List Seed) (env : StorageEnv E)
      (r : (StorageRc × Option (StorageTxn T)) × Option (StorageEnv E))
      → Seeded seeds
      → Begun env r
      → AllOrNothing (plan_of overwrite seeds) env (if_begun m mem overwrite seeds r)
  if_begun_lem mem overwrite seeds env _ plain (refused env' bad keeps) =
      if_refused_lem mem overwrite seeds env env' _ _ bad keeps
  if_begun_lem mem overwrite seeds env _ plain (opened txn env' writable sees keeps writes) =
      finish_lem mem (plan_of overwrite seeds) env' env (seed_all m mem overwrite seeds (some txn))
        keeps
        (λ good.
          let (last, e, w, holds) =
            seed_all-Leads m L mem overwrite seeds (L.env_view env.env) txn plain writable sees
              good in
          (last, e, holds))
        (seed_all-IsOpen m mem (λ t. L.writing t env'.env ≡ true)
          (λ c key t p. helper-writing m L c (some key) t env'.env ∙ p) overwrite seeds txn writes)

  bootstrap_lem :
      (mem : Memory) (overwrite : Bool) (seeds : List Seed) (env : StorageEnv E)
      → Seeded seeds
      → AllOrNothing (plan_of overwrite seeds) env (bootstrap m mem overwrite seeds (some env))
  unfolding bootstrap
  bootstrap_lem mem overwrite seeds env plain =
      if_begun_lem mem overwrite seeds env _ plain (storage_txn_begin-Begun mem.txn env)

  -- cache_bootstrap_defaults on an open database returns with a handle of it. If it reports OK,
  -- then at every key the database holds its default and otherwise what was there before, if told
  -- to overwrite, and what was there before and otherwise its default, if not. If it reports an
  -- error, the database holds at every key what it held before. The database meets LMDB's laws.
  pub cache_bootstrap_defaults_lem :
      (mem : Memory) (overwrite : Bool) (env : StorageEnv E)
      → (env' : StorageEnv E) × ((cache_bootstrap_defaults m mem (some env) overwrite).1
          ≡ some env')
        × ((cache_bootstrap_defaults m mem (some env) overwrite).0 ≡ ok
            → (j : Bytes)
            → L.env_view env'.env j
              ≡ planned overwrite (default_of cache_seeds j) (L.env_view env.env j))
        × ((cache_bootstrap_defaults m mem (some env) overwrite).0 ≢ ok
            → (j : Bytes) → L.env_view env'.env j ≡ L.env_view env.env j)
  unfolding cache_bootstrap_defaults
  cache_bootstrap_defaults_lem mem overwrite env =
      bootstrap_lem mem overwrite cache_seeds env cache_seeds-Seeded

  -- config_bootstrap_defaults on an open database returns with a handle of it. If it reports OK,
  -- the database holds at every key what was there before and otherwise its default; if it
  -- reports an error, it holds what it held before. The database meets LMDB's laws.
  pub config_bootstrap_defaults_lem :
      (mem : Memory) (env : StorageEnv E)
      → (env' : StorageEnv E) × ((config_bootstrap_defaults m mem (some env)).1 ≡ some env')
        × ((config_bootstrap_defaults m mem (some env)).0 ≡ ok
            → (j : Bytes)
            → L.env_view env'.env j
              ≡ planned false (default_of config_seeds j) (L.env_view env.env j))
        × ((config_bootstrap_defaults m mem (some env)).0 ≢ ok
            → (j : Bytes) → L.env_view env'.env j ≡ L.env_view env.env j)
  unfolding config_bootstrap_defaults
  config_bootstrap_defaults_lem mem env =
      bootstrap_lem mem false config_seeds env config_seeds-Seeded
