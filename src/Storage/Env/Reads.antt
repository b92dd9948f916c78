-- ===== src/Storage/Env/Reads.antt =====
-- What a reading call of src/storage_lmdb.c sees of the committed database.
use agentx_subagent.Prelude.{◌≡◌, refl, sym, ◌∙◌, true, Option, none, some, Bytes, arith}
use agentx_subagent.Storage.Types.{StorageRc, ok, err_notfound}
use agentx_subagent.Storage.Lmdb.{Lmdb, LmdbLaws}
use agentx_subagent.Storage.Codec.{Res, got, fail, map_mdb_rc, validate_key}
use agentx_subagent.Storage.Codec.Words.{map_mdb_rc-eq-ok, validate_key_valid}
use agentx_subagent.Storage.Access.{txn_get_raw}
use agentx_subagent.Storage.Env.{StorageEnv, begin_read_txn, in_read_txn, if_begun}

-- mdb_txn_begin grants the handle a read transaction.
abbrev pub CanRead : {E T C : Type 0} (m : Lmdb E T C) → StorageEnv E → Type 0
CanRead m env = (begin_read_txn m env).0 ≡ ok

module _ {E T C : Type 0} (m : Lmdb E T C) (L : LmdbLaws m) where
  -- The transaction of a reading call shows the committed database.
  pub begin_read_lem :
      (env : StorageEnv E) (j : Bytes)
      → CanRead m env
      → L.txn_view (begin_read_txn m env).1 j ≡ L.env_view env.env j
  unfolding begin_read_txn
  begin_read_lem env j h =
      L.begin_snapshot true env.env j (map_mdb_rc-eq-ok (m.txn_begin true env.env).0 h)

  pub txn_get_raw_found :
      (txn : T) (key : Option Bytes) (k v : Bytes)
      → validate_key key ≡ got k
      → L.txn_view txn k ≡ some v
      → txn_get_raw m txn key ≡ got v
  unfolding txn_get_raw
  txn_get_raw_found txn key k v valid e =
      rw (valid, L.get_found txn k v (validate_key_valid key k valid) e)

  pub txn_get_raw_missing :
      (txn : T) (key : Option Bytes) (k : Bytes)
      → validate_key key ≡ got k
      → L.txn_view txn k ≡ none
      → txn_get_raw m txn key ≡ fail err_notfound
  unfolding txn_get_raw map_mdb_rc
  txn_get_raw_missing txn key k valid e =
      rw (valid) (ground (arith, L.get_missing txn k (validate_key_valid key k valid) e))

  -- What a lookup finds is decided by the database that the transaction sees at the key.
  pub txn_get_raw_same :
      (t u : T) (key : Option Bytes)
      → ((j : Bytes) → L.txn_view t j ≡ L.txn_view u j)
      → txn_get_raw m t key ≡ txn_get_raw m u key
  txn_get_raw_same t u key eq = by_key (validate_key key) refl
    where
      by_view :
          (k : Bytes) (o : Option Bytes)
          → validate_key key ≡ got k
          → L.txn_view t k ≡ o
          → L.txn_view u k ≡ o
          → txn_get_raw m t key ≡ txn_get_raw m u key
      by_view k none valid a b =
          txn_get_raw_missing t key k valid a ∙ sym (txn_get_raw_missing u key k valid b)
      by_view k (some v) valid a b =
          txn_get_raw_found t key k v valid a ∙ sym (txn_get_raw_found u key k v valid b)

      by_key : (r : Res Bytes) → validate_key key ≡ r → txn_get_raw m t key ≡ txn_get_raw m u key
      by_key (fail rc) e = unfold txn_get_raw in rw e
      by_key (got k) e = by_view k (L.txn_view u k) e (eq k) refl

  if_begun_lem :
      {A : Type 0} (failed : StorageRc → A) (impl : T → A) (env : StorageEnv E)
      (r : StorageRc × T × E)
      → r.0 ≡ ok
      → (if_begun m failed impl env r).0 ≡ impl r.1
  if_begun_lem failed impl env (ok, txn, e) h = refl
  if_begun_lem failed impl env (_, txn, e) h = cc

  -- A reading call returns what its helper makes of the transaction.
  pub in_read_txn_lem :
      {A : Type 0} (failed : StorageRc → A) (impl : T → A) (env : StorageEnv E)
      → CanRead m env
      → (in_read_txn m failed impl (some env)).0 ≡ impl (begin_read_txn m env).1
  unfolding in_read_txn
  in_read_txn_lem failed impl env h = if_begun_lem failed impl env (begin_read_txn m env) h

  pub read_found :
      (env : StorageEnv E) (key : Option Bytes) (k v : Bytes)
      → CanRead m env
      → validate_key key ≡ got k
      → L.env_view env.env k ≡ some v
      → txn_get_raw m (begin_read_txn m env).1 key ≡ got v
  read_found env key k v can valid e =
      txn_get_raw_found (begin_read_txn m env).1 key k v valid (begin_read_lem env k can ∙ e)
