-- ===== src/Bootstrap/Transactions.antt =====
-- How many transactions the seedings of src/generated/storage_bootstrap.c and storage_env_stat of
-- src/storage_lmdb.c leave open.
use agentx_subagent.Prelude.{
  ℕ, ◌+◌, ◌≡◌, ◌≢◌, refl, ◌∙◌, Bool, true, false, Option, none, some, List, arith, if◌then◌else◌,
}
use agentx_subagent.Storage.Types.{StorageRc, ok, err_readonly}
use agentx_subagent.Storage.Lmdb.{Lmdb, TxnLaws}
use agentx_subagent.Storage.Codec.{map_mdb_rc}
use agentx_subagent.Storage.Codec.Words.{map_mdb_rc-eq-ok}
use agentx_subagent.Storage.Env.{StorageEnv, begin_read_txn, in_read_txn, if_begun}
use agentx_subagent.Storage.Iter.{storage_env_stat, no_stat, stat_out}
use agentx_subagent.Storage.Txn.{
  StorageTxn, begun, storage_txn_begin, storage_txn_commit, storage_txn_abort,
}
use agentx_subagent.Bootstrap.{
  Seed, Memory, set_default, seed_key, seed_one, next_seed, seed_all, finish, bootstrap, probe,
  is_notfound,
}
use agentx_subagent.Bootstrap
use agentx_subagent.Bootstrap.Blocks.{seed_all-IsOpen}

module _ {E T C : Type 0} (m : Lmdb E T C) (W : TxnLaws m) where
  -- The transactions that are open behind a handle; a NULL handle has none.
  abbrev pub txns_of : Option (StorageEnv E) → ℕ
  txns_of none = 0
  txns_of (some env) = W.open_txns env.env

  if_begun-txns :
      {A : Type 0} (fails : StorageRc → A) (impl : T → A) (env : StorageEnv E)
      (r : StorageRc × T × E)
      → (r.0 ≡ ok → W.open_txns r.2 ≡ W.open_txns env.env + 1)
      → (r.0 ≢ ok → W.open_txns r.2 ≡ W.open_txns env.env)
      → txns_of (if_begun m fails impl env r).1 ≡ W.open_txns env.env
  if_begun-txns fails impl env (ok, txn, e) starts refused =
      omega (arith, starts refl, W.abort_ends txn e)
  if_begun-txns fails impl env (_, txn, e) starts refused = refused (ground arith)

  -- The statistics end the transaction in which they read.
  pub stat-txns : (env : Option (StorageEnv E)) → txns_of (storage_env_stat m env).1 ≡ txns_of env
  unfolding storage_env_stat in_read_txn begin_read_txn map_mdb_rc
  stat-txns none = refl
  stat-txns (some env) =
      if_begun-txns (no_stat m) (λ txn. stat_out m (m.stat txn)) env _
        (λ good. W.begin_opens true env.env (map_mdb_rc-eq-ok _ good))
        (λ bad. W.begin_refused true env.env (λ s. bad (rw s refl)))

  -- A storage_txn_begin that succeeds has opened one transaction, one that fails none.
  data Starts (n : ℕ) : (StorageRc × Option (StorageTxn T)) × Option (StorageEnv E) → Type 0 where
    refused :
        {rc : StorageRc} {txn : Option (StorageTxn T)} {env : Option (StorageEnv E)}
        → rc ≢ ok
        → txns_of env ≡ n
        → Starts n ((rc, txn), env)
    started :
        (txn : StorageTxn T) (env : StorageEnv E)
        → W.open_txns env.env ≡ n + 1
        → Starts n ((ok, some txn), some env)

  begun-Starts :
      (mem : Bool) (env : StorageEnv E) (ro : Bool) (r : StorageRc × T × E)
      → (r.0 ≡ ok → W.open_txns r.2 ≡ W.open_txns env.env + 1)
      → (r.0 ≢ ok → W.open_txns r.2 ≡ W.open_txns env.env)
      → Starts (W.open_txns env.env) (begun m mem env ro r)
  begun-Starts true env ro (ok, txn, e) starts fails = started _ _ (starts refl)
  begun-Starts false env ro (ok, txn, e) starts fails =
      refused (ground arith) (omega (arith, starts refl, W.abort_ends txn e))
  begun-Starts mem env ro (_, txn, e) starts fails = refused (ground arith) (fails (ground arith))

  storage_txn_begin-Starts :
      (mem : Bool) (env : Option (StorageEnv E))
      → Starts (txns_of env) (storage_txn_begin m mem env false true)
  unfolding storage_txn_begin map_mdb_rc
  storage_txn_begin-Starts mem none = refused (ground arith) refl
  storage_txn_begin-Starts mem (some env) = by_mode env.readonly
    where
      by_mode :
          (ro : Bool)
          → Starts (W.open_txns env.env) (
              if ro
              then ((err_readonly, none), some env)
              else begun m mem env false (
                map_mdb_rc (m.txn_begin false env.env).0,
                (m.txn_begin false env.env).1,
                (m.txn_begin false env.env).2,
              ))
      by_mode true = refused (ground arith) refl
      by_mode false =
          begun-Starts mem env false
            (
              map_mdb_rc (m.txn_begin false env.env).0,
              (m.txn_begin false env.env).1,
              (m.txn_begin false env.env).2,
            )
            (λ good. W.begin_opens false env.env (map_mdb_rc-eq-ok _ good))
            (λ bad. W.begin_refused false env.env (λ s. bad (rw s refl)))

  finish-txns :
      (mem : Memory) (n : ℕ) (env : StorageEnv E) (r : StorageRc × Option (StorageTxn T))
      → ((txn : StorageTxn T) × (r.1 ≡ some txn))
      → W.open_txns env.env ≡ n + 1
      → txns_of (finish m mem env r).1 ≡ n
  unfolding storage_txn_commit storage_txn_abort
  finish-txns mem n env (ok, o) (txn, is) one =
      rw is (omega (arith, one, W.commit_ends txn.txn env.env))
  finish-txns mem n env (_, o) (txn, is) one =
      rw is (omega (arith, one, W.abort_ends txn.txn env.env))

  if_refused-txns :
      (mem : Memory) (overwrite : Bool) (seeds : List Seed) (rc : StorageRc)
      (txn : Option (StorageTxn T)) (env : Option (StorageEnv E))
      → rc ≢ ok
      → txns_of (Bootstrap.if_begun m mem overwrite seeds ((rc, txn), env)).1 ≡ txns_of env
  if_refused-txns mem overwrite seeds ok txn env bad = absurd (bad refl)
  if_refused-txns mem overwrite seeds _ txn env bad = refl

  if_begun_seeds-txns :
      (mem : Memory) (overwrite : Bool) (seeds : List Seed) (n : ℕ)
      (r : (StorageRc × Option (StorageTxn T)) × Option (StorageEnv E))
      → Starts n r
      → txns_of (Bootstrap.if_begun m mem overwrite seeds r).1 ≡ n
  if_begun_seeds-txns mem overwrite seeds n _ (refused bad same) =
      if_refused-txns mem overwrite seeds _ _ _ bad ∙ same
  if_begun_seeds-txns mem overwrite seeds n _ (started txn env one) =
      let (after, e, p) =
        seed_all-IsOpen m mem (λ t. Unit {0}) (λ c key t p. tt) overwrite seeds txn tt in
      finish-txns mem n env _ (after, e) one

  -- A seeding ends the transaction in which it writes, whichever of its calls fails.
  pub bootstrap-txns :
      (mem : Memory) (overwrite : Bool) (seeds : List Seed) (env : Option (StorageEnv E))
      → txns_of (bootstrap m mem overwrite seeds env).1 ≡ txns_of env
  unfolding bootstrap
  bootstrap-txns mem overwrite seeds env =
      if_begun_seeds-txns mem overwrite seeds _ _ (storage_txn_begin-Starts mem.txn env)
