-- ===== src/Storage/Env/Writes.antt =====
-- What a writing call of src/storage_lmdb.c does to the committed database.
use agentx_subagent.Prelude.{
  ◌≡◌, ◌≢◌, refl, ◌∙◌, true, false, Option, some, Bytes, same, arith, if◌then◌else◌, [], ap,
}
use agentx_subagent.Storage.Types.{StorageRc, ok, err_readonly}
use agentx_subagent.Storage.Lmdb.{Lmdb, LmdbLaws}
use agentx_subagent.Storage.Codec.{Res, got, fail, map_mdb_rc, validate_key}
use agentx_subagent.Storage.Codec.Words.{map_mdb_rc-eq-ok, validate_key-ne-ok}
use agentx_subagent.Storage.Access.{put_at, txn_put_raw}
use agentx_subagent.Storage.Env.{
  StorageEnv, begin_write_txn, commit_write_txn, commit_or_abort, in_write_txn,
}

module _ {E T C : Type 0} (m : Lmdb E T C) where
  -- On a handle opened read-only a writing call does not even reach LMDB.
  pub in_write_txn_readonly :
      (impl : T → StorageRc × T) (env : StorageEnv E)
      → env.readonly ≡ true
      → in_write_txn m impl (some env) ≡ (err_readonly, some env)
  unfolding in_write_txn begin_write_txn
  in_write_txn_readonly impl env h = ground (arith, h)

module _ {E T C : Type 0} (m : Lmdb E T C) (L : LmdbLaws m) where
  -- The transaction of a writing call starts from the committed database, and nothing is committed.
  pub begin_write_lem :
      (env : StorageEnv E) (txn : T) (e : E)
      → begin_write_txn m env ≡ (got txn, e)
      → (k : Bytes)
      → (L.txn_view txn k ≡ L.env_view env.env k) × (L.env_view e k ≡ L.env_view env.env k)
  unfolding begin_write_txn
  begin_write_lem env txn e h k = ground (
    arith,
    map_mdb_rc-eq-ok (m.txn_begin false env.env).0,
    L.begin_snapshot false env.env k,
    L.begin_keeps false env.env k,
  )

  begin_write-writing :
      (env : StorageEnv E) (txn : T) (e : E)
      → begin_write_txn m env ≡ (got txn, e)
      → L.writing txn e ≡ true
  unfolding begin_write_txn
  begin_write-writing env txn e h =
      ground (arith, h, map_mdb_rc-eq-ok (m.txn_begin false env.env).0, L.begin_writing env.env)

  begin_write_fails :
      (env : StorageEnv E) (rc : StorageRc) (e : E)
      → begin_write_txn m env ≡ (fail rc, e)
      → (k : Bytes) → (L.env_view e k ≡ L.env_view env.env k) × (rc ≢ ok)
  unfolding begin_write_txn
  begin_write_fails env rc e h k = ground (arith, L.begin_keeps false env.env k)

  -- A commit publishes the write transaction, and a failed one nothing.
  commit_write_publishes :
      (txn : T) (e : E) (k : Bytes)
      → L.writing txn e ≡ true
      → (commit_write_txn m txn e).0 ≡ ok
      → L.env_view (commit_write_txn m txn e).1 k ≡ L.txn_view txn k
  unfolding commit_write_txn
  commit_write_publishes txn e k w h =
      L.commit_publishes txn e k w (map_mdb_rc-eq-ok (m.txn_commit txn e).0 h)

  commit_write_fails :
      (txn : T) (e : E) (k : Bytes)
      → (commit_write_txn m txn e).0 ≢ ok
      → L.env_view (commit_write_txn m txn e).1 k ≡ L.env_view e k
  unfolding commit_write_txn map_mdb_rc
  commit_write_fails txn e k h = L.commit_fails txn e k (λ s. h (rw s refl))

  -- A write of one value that succeeds, at any key and at no other.
  abbrev pub Stores : StorageEnv E → Bytes → Bytes → StorageEnv E → Type 0
  Stores env k value env' =
      (j : Bytes) → L.env_view env'.env j ≡ (if same k j then some value else L.env_view env.env j)

  abbrev pub Keeps : StorageEnv E → StorageEnv E → Type 0
  Keeps env env' = (j : Bytes) → L.env_view env'.env j ≡ L.env_view env.env j

  pub put_raw_lem :
      (txn : T) (key : Option Bytes) (value : Bytes)
      → (txn_put_raw m txn key value).0 ≡ ok
      → (k : Bytes) × (validate_key key ≡ got k)
        × ((j : Bytes)
            → L.txn_view (txn_put_raw m txn key value).1 j
              ≡ (if same k j then some value else L.txn_view txn j))
  unfolding txn_put_raw
  put_raw_lem txn key value h = put_valid (validate_key key) refl
    where
      put_valid :
          (r : Res Bytes)
          → validate_key key ≡ r
          → (k : Bytes) × (validate_key key ≡ got k)
            × ((j : Bytes)
                → L.txn_view (txn_put_raw m txn key value).1 j
                  ≡ (if same k j then some value else L.txn_view txn j))
      put_valid (fail rc) e = absurd (ground (arith, validate_key-ne-ok key rc e))
      put_valid (got k) e = (
        k,
        e,
        λ j. ground (arith, map_mdb_rc-eq-ok (m.put txn k value).0, L.put_stores txn k value j),
      )

  pub put_raw-writing :
      (txn : T) (key : Option Bytes) (value : Bytes) (e : E)
      → L.writing (txn_put_raw m txn key value).1 e ≡ L.writing txn e
  unfolding txn_put_raw
  put_raw-writing txn key value e = by_key (validate_key key)
    where
      by_key : (r : Res Bytes) → L.writing (put_at m txn value r).1 e ≡ L.writing txn e
      by_key (fail rc) = refl
      by_key (got k) = L.put_writing txn k value e

  abbrev Published : StorageEnv E → StorageRc × T → StorageEnv E → Type 0
  Published env r env' =
      (r.0 ≡ ok)
      × ((j : Bytes) → L.env_view env'.env j ≡ L.txn_view r.1 j)
      × (env'.readonly ≡ env.readonly)

  commit_or_abort_commits :
      (r : StorageRc × T) (env env' : StorageEnv E) (e : E)
      → L.writing r.1 e ≡ true
      → commit_or_abort m env e r ≡ (ok, some env')
      → Published env r env'
  commit_or_abort_commits (ok, txn) env env' e w h =
      (refl, λ j. ground (arith, h, commit_write_publishes txn e j w), ground arith)
  commit_or_abort_commits (rc, txn) env env' e w h = cc

  -- A call that reports an error leaves the committed database as it was.
  commit_or_abort_keeps :
      (r : StorageRc × T) (env env' : StorageEnv E) (e : E) (rc : StorageRc)
      → commit_or_abort m env e r ≡ (rc, some env')
      → rc ≢ ok
      → (j : Bytes) → L.env_view env'.env j ≡ L.env_view e j
  commit_or_abort_keeps (ok, txn) env env' e rc h ne j =
      ground (arith, h, ne, commit_write_fails txn e j)
  commit_or_abort_keeps (_, txn) env env' e rc h ne j = ground (arith, L.abort_keeps txn e j)

  abbrev Committed : (T → StorageRc × T) → StorageEnv E → StorageEnv E → Type 0
  Committed impl env env' =
      (txn : T) × ((j : Bytes) → L.txn_view txn j ≡ L.env_view env.env j)
      × Published env (impl txn) env'

  -- A writing call that reports success ran its helper in a fresh transaction and committed it.
  pub in_write_txn_commits :
      (impl : T → StorageRc × T) (env env' : StorageEnv E)
      → ((t : T) (e : E) → L.writing (impl t).1 e ≡ L.writing t e)
      → in_write_txn m impl (some env) ≡ (ok, some env')
      → Committed impl env env'
  unfolding in_write_txn
  in_write_txn_commits impl env env' same h = by_begin (begin_write_txn m env) refl
    where
      by_begin : (r : Res T × E) → begin_write_txn m env ≡ r → Committed impl env env'
      by_begin (fail rc, e) b = absurd (ground (arith, begin_write_fails env rc e b []))
      by_begin (got txn, e) b = (
        txn,
        λ j. (begin_write_lem env txn e b j).0,
        commit_or_abort_commits (impl txn) env env' e (same txn e ∙ begin_write-writing env txn e b)
            (rw b at h),
      )

  -- Any writing call, whatever its helper did: an error leaves every committed value in place.
  pub in_write_txn-Keeps :
      (impl : T → StorageRc × T) (env env' : StorageEnv E) (rc : StorageRc)
      → in_write_txn m impl (some env) ≡ (rc, some env')
      → rc ≢ ok
      → Keeps env env'
  unfolding in_write_txn
  in_write_txn-Keeps impl env env' rc h ne j = by_begin (begin_write_txn m env) refl
    where
      by_begin :
          (r : Res T × E) → begin_write_txn m env ≡ r → L.env_view env'.env j ≡ L.env_view env.env j
      by_begin (fail rc', e) b = ground (arith, begin_write_fails env rc' e b j)
      by_begin (got txn, e) b =
          commit_or_abort_keeps (impl txn) env env' e rc (rw b at h) ne j
          ∙ (begin_write_lem env txn e b j).1

  -- A call whose helper writes one value.
  pub put_commits :
      (key : Option Bytes) (value : Bytes) (env env' : StorageEnv E)
      → in_write_txn m (λ txn. txn_put_raw m txn key value) (some env) ≡ (ok, some env')
      → (k : Bytes) × (validate_key key ≡ got k) × Stores env k value env'
  put_commits key value env env' h =
      let (txn, fresh, published) =
        in_write_txn_commits (λ txn. txn_put_raw m txn key value) env env'
          (λ t e. put_raw-writing t key value e) h in
      let (k, valid, puts) = put_raw_lem txn key value published.0 in
      (
        k,
        valid,
        λ j.
            published.1 j
            ∙ puts j
            ∙ ap (λ (o : Option Bytes). if same k j then some value else o) (fresh j),
      )
