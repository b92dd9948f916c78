-- ===== src/Storage/Ops/Calls.antt =====
-- The six writing calls of src/storage_lmdb.c taken together: what all of them keep to.
use agentx_subagent.Prelude.{
  ℕ, ◌≡◌, ◌≢◌, refl, ◌∙◌, ap, Bool, true, false, not, Option, none, some, List, Bytes, same,
  same_refl, arith, ◌++◌, if◌then◌else◌,
}
use agentx_subagent.Prelude.Int.{ℤ, to_uint32}
use agentx_subagent.Storage.Types.{
  StorageRc, ok, err_readonly, err_notfound, err_inval, err_io, type_int32, type_uint32,
  type_uint64, type_bytes, type_oid,
}
use agentx_subagent.Storage.Lmdb.{Lmdb, LmdbLaws}
use agentx_subagent.Storage.Codec.{
  Res, got, fail, validate_key, encode_header, put_u32le, put_u64le,
}
use agentx_subagent.Storage.Codec.Words.{map_mdb_rc-eq-ok, validate_key-eq-got, validate_key-ne-ok}
use agentx_subagent.Storage.Access.{txn_set_int_impl, txn_set_uint_impl, txn_set_u64_impl}
use agentx_subagent.Storage.Access.Blobs.{
  txn_set_bytes_impl, txn_set_oid_impl, txn_delete_impl, txn_exists_impl, delete_at, elements,
  oid_payload,
}
use agentx_subagent.Storage.Env.{
  StorageEnv, in_write_txn, begin_read_txn, begin_write_txn, if_opened, commit_or_abort,
}
use agentx_subagent.Storage.Env.Writes.{
  put_raw_lem, put_raw-writing, in_write_txn_commits, in_write_txn-Keeps, in_write_txn_readonly,
}
use agentx_subagent.Storage.Env.Reads.{
  CanRead, in_read_txn_lem, begin_read_lem, txn_get_raw_missing,
}
use agentx_subagent.Storage.Ops.{
  storage_set_int, storage_set_uint, storage_set_u64, storage_set_bytes, storage_set_oid,
  storage_delete, storage_exists,
}

pub data WriteCall : Type 0 where
  set_int : ℤ → WriteCall
  set_uint set_u64 : ℕ → WriteCall
  set_bytes set_oid : (mem : Bool) → Option (List ℕ) → ℕ → WriteCall
  delete : WriteCall

-- The bytes that a call leaves at its key; `none` for a delete.
abbrev pub stored : WriteCall → Option Bytes
stored (set_int val) = some (encode_header type_int32 ++ put_u32le (to_uint32 val))
stored (set_uint val) = some (encode_header type_uint32 ++ put_u32le val)
stored (set_u64 val) = some (encode_header type_uint64 ++ put_u64le val)
stored (set_bytes mem buf len) = some (encode_header type_bytes ++ elements buf len)
stored (set_oid mem subids count) =
    some (encode_header type_oid ++ oid_payload (elements subids count))
stored delete = none

pub pair_of : {A B : Type 0} {r : A × B} {a : A} {b : B} → r.0 ≡ a → r.1 ≡ b → r ≡ (a, b)
pair_of p q = rw (p, q) refl

module _ {E T C : Type 0} (m : Lmdb E T C) where
  unfoldable pub perform :
      WriteCall → Option (StorageEnv E) → Option Bytes → StorageRc × Option (StorageEnv E)
  perform (set_int val) env key = storage_set_int m env key val
  perform (set_uint val) env key = storage_set_uint m env key val
  perform (set_u64 val) env key = storage_set_u64 m env key val
  perform (set_bytes mem buf len) env key = storage_set_bytes m env key mem buf len
  perform (set_oid mem subids count) env key = storage_set_oid m env key mem subids count
  perform delete env key = storage_delete m env key

  -- The txn_*_impl helper behind a call.
  unfoldable pub helper : WriteCall → Option Bytes → T → StorageRc × T
  helper (set_int val) key txn = txn_set_int_impl m txn key val
  helper (set_uint val) key txn = txn_set_uint_impl m txn key val
  helper (set_u64 val) key txn = txn_set_u64_impl m txn key val
  helper (set_bytes mem buf len) key txn = txn_set_bytes_impl m mem txn key buf len
  helper (set_oid mem subids count) key txn = txn_set_oid_impl m mem txn key subids count
  helper delete key txn = txn_delete_impl m txn key

  perform-helper :
      (c : WriteCall) (env : Option (StorageEnv E)) (key : Option Bytes)
      → perform c env key ≡ in_write_txn m (helper c key) env
  unfolding perform helper storage_set_int storage_set_uint storage_set_u64 storage_set_bytes
      storage_set_oid storage_delete
  perform-helper (set_int val) env key = refl
  perform-helper (set_uint val) env key = refl
  perform-helper (set_u64 val) env key = refl
  perform-helper (set_bytes mem buf len) env key = refl
  perform-helper (set_oid mem subids count) env key = refl
  perform-helper delete env key = refl

  if_opened_handle :
      (impl : T → StorageRc × T) (env : StorageEnv E) (r : Res T × E)
      → (env' : StorageEnv E) × ((if_opened m impl env r).1 ≡ some env')
  if_opened_handle impl env (fail rc, e) = (_, refl)
  if_opened_handle impl env (got txn, e) = by_result (impl txn)
    where
      by_result :
          (r : StorageRc × T) → (env' : StorageEnv E) × ((commit_or_abort m env e r).1 ≡ some env')
      by_result (ok, txn) = (_, refl)
      by_result (rc, txn) = (_, refl)

  -- A handle stays a handle, and a NULL handle is refused.
  pub perform_handle :
      (c : WriteCall) (env : StorageEnv E) (key : Option Bytes)
      → (env' : StorageEnv E) × ((perform c (some env) key).1 ≡ some env')
  unfolding in_write_txn
  perform_handle c env key =
      let (after, e) = if_opened_handle (helper c key) env (begin_write_txn m env) in
      (after, ap (λ r. r.1) (perform-helper c (some env) key) ∙ e)

  pub perform_null : (c : WriteCall) (key : Option Bytes) → perform c none key ≡ (err_inval, none)
  unfolding in_write_txn
  perform_null c key = perform-helper c none key

  -- A writing call that succeeds was made on a handle, which it returns.
  pub perform-eq-ok :
      (c : WriteCall) (env : Option (StorageEnv E)) (key : Option Bytes)
      → (perform c env key).0 ≡ ok
      → (before : StorageEnv E) × (after : StorageEnv E) × (env ≡ some before)
        × (perform c env key ≡ (ok, some after))
  perform-eq-ok c none key h = absurd (ground (arith, perform_null c key))
  perform-eq-ok c (some env) key h =
      let (after, e) = perform_handle c env key in (env, after, refl, pair_of h e)

  -- On a handle that was opened read-only every storage_set_* and storage_delete call returns
  -- ERR_READONLY and leaves the environment exactly as it was, for any arguments.
  pub perform-readonly :
      (c : WriteCall) (env : StorageEnv E) (key : Option Bytes)
      → env.readonly ≡ true
      → perform c (some env) key ≡ (err_readonly, some env)
  perform-readonly c env key h =
      perform-helper c (some env) key ∙ in_write_txn_readonly m (helper c key) env h

module _ {E T C : Type 0} (m : Lmdb E T C) (L : LmdbLaws m) where
  -- A storage_set_* or storage_delete call on a handle that reports an error has changed no
  -- committed value at any key. The database meets LMDB's laws.
  pub perform_atomic :
      (c : WriteCall) (env env' : StorageEnv E) (key : Option Bytes) (rc : StorageRc)
      → perform m c (some env) key ≡ (rc, some env')
      → rc ≢ ok
      → (j : Bytes) → L.env_view env'.env j ≡ L.env_view env.env j
  perform_atomic c env env' key rc h =
      in_write_txn-Keeps m L (helper m c key) env env' rc (rw perform-helper at h)

  -- A helper that succeeds leaves the value at its key, `none` for no value, and no other change.
  abbrev pub Leaves : Option Bytes → Option Bytes → T → StorageRc × T → Type 0
  Leaves key value txn r =
      r.0 ≡ ok
      → (k : Bytes) × (validate_key key ≡ got k)
        × ((j : Bytes) → L.txn_view r.1 j ≡ (if same k j then value else L.txn_view txn j))

  delete-Leaves : (key : Option Bytes) (txn : T) → Leaves key none txn (txn_delete_impl m txn key)
  unfolding txn_delete_impl
  delete-Leaves key txn h = by_key (validate_key key) refl
    where
      by_key :
          (r : Res Bytes)
          → validate_key key ≡ r
          → (k : Bytes) × (validate_key key ≡ got k)
            × ((j : Bytes)
                → L.txn_view (txn_delete_impl m txn key).1 j
                  ≡ (if same k j then none else L.txn_view txn j))
      by_key (fail rc) e = absurd (ground (arith, validate_key-ne-ok key rc e))
      by_key (got k) e =
          (k, e, λ j. ground (arith, map_mdb_rc-eq-ok (m.del txn k).0, L.del_removes txn k j))

  guarded-Leaves :
      (b : Bool) (rc : StorageRc) (key value : Option Bytes) (txn : T) (r : StorageRc × T)
      → rc ≢ ok
      → Leaves key value txn r
      → Leaves key value txn (if b then (rc, txn) else r)
  guarded-Leaves true rc key value txn r ne e h = absurd (ne h)
  guarded-Leaves false rc key value txn r ne e h = e h

  pub helper-Leaves :
      (c : WriteCall) (key : Option Bytes) (txn : T)
      → Leaves key (stored c) txn (helper m c key txn)
  unfolding helper txn_set_int_impl txn_set_uint_impl txn_set_u64_impl txn_set_bytes_impl
      txn_set_oid_impl
  helper-Leaves (set_int val) key txn = put_raw_lem m L txn key _
  helper-Leaves (set_uint val) key txn = put_raw_lem m L txn key _
  helper-Leaves (set_u64 val) key txn = put_raw_lem m L txn key _
  helper-Leaves (set_bytes mem buf len) key txn =
      guarded-Leaves _ err_inval key _ txn _ (ground arith)
        (guarded-Leaves (not mem) err_io key _ txn _ (ground arith) (put_raw_lem m L txn key _))
  helper-Leaves (set_oid mem subids count) key txn =
      guarded-Leaves _ err_inval key _ txn _ (ground arith)
        (guarded-Leaves (not mem) err_io key _ txn _ (ground arith) (put_raw_lem m L txn key _))
  helper-Leaves delete key txn = delete-Leaves key txn

  delete-writing :
      (key : Option Bytes) (txn : T) (e : E)
      → L.writing (txn_delete_impl m txn key).1 e ≡ L.writing txn e
  unfolding txn_delete_impl
  delete-writing key txn e = by_key (validate_key key)
    where
      by_key : (r : Res Bytes) → L.writing (delete_at m txn r).1 e ≡ L.writing txn e
      by_key (fail rc) = refl
      by_key (got k) = L.del_writing txn k e

  guarded-writing :
      (b : Bool) (rc : StorageRc) (txn : T) (e : E) (r : StorageRc × T)
      → L.writing r.1 e ≡ L.writing txn e
      → L.writing (if b then (rc, txn) else r).1 e ≡ L.writing txn e
  guarded-writing true rc txn e r same = refl
  guarded-writing false rc txn e r same = same

  -- A helper works on the same transaction throughout.
  pub helper-writing :
      (c : WriteCall) (key : Option Bytes) (txn : T) (e : E)
      → L.writing (helper m c key txn).1 e ≡ L.writing txn e
  unfolding helper txn_set_int_impl txn_set_uint_impl txn_set_u64_impl txn_set_bytes_impl
      txn_set_oid_impl
  helper-writing (set_int val) key txn e = put_raw-writing m L txn key _ e
  helper-writing (set_uint val) key txn e = put_raw-writing m L txn key _ e
  helper-writing (set_u64 val) key txn e = put_raw-writing m L txn key _ e
  helper-writing (set_bytes mem buf len) key txn e =
      guarded-writing _ err_inval txn e _
        (guarded-writing (not mem) err_io txn e _ (put_raw-writing m L txn key _ e))
  helper-writing (set_oid mem subids count) key txn e =
      guarded-writing _ err_inval txn e _
        (guarded-writing (not mem) err_io txn e _ (put_raw-writing m L txn key _ e))
  helper-writing delete key txn e = delete-writing key txn e

  -- A call that succeeds found its key valid and committed there what it stores, and nothing else.
  pub perform_valid :
      (c : WriteCall) (env env' : StorageEnv E) (key : Option Bytes)
      → perform m c (some env) key ≡ (ok, some env')
      → (k : Bytes) × (validate_key key ≡ got k)
        × ((j : Bytes)
            → L.env_view env'.env j ≡ (if same k j then stored c else L.env_view env.env j))
  perform_valid c env env' key h =
      let (txn, fresh, published) =
        in_write_txn_commits m L (helper m c key) env env' (helper-writing c key)
          (rw perform-helper at h) in
      let (k, valid, leaves) = helper-Leaves c key txn published.0 in
      (
        k,
        valid,
        λ j.
            published.1 j
            ∙ leaves j
            ∙ ap (λ (o : Option Bytes). if same k j then stored c else o) (fresh j),
      )

  -- A storage_set_* or storage_delete call that succeeds has committed at its key the encoding of
  -- its value, or no value for a delete, and at every other key what was there. The database
  -- meets LMDB's laws.
  pub perform_stores :
      (c : WriteCall) (env env' : StorageEnv E) (key : Option Bytes)
      → perform m c (some env) key ≡ (ok, some env')
      → (k : Bytes) × (key ≡ some k)
        × ((j : Bytes)
            → L.env_view env'.env j ≡ (if same k j then stored c else L.env_view env.env j))
  perform_stores c env env' key h =
      let (k, valid, writes) = perform_valid c env env' key h in
      (k, validate_key-eq-got key k valid, writes)

  -- After a successful storage_delete, storage_exists on the key answers NOTFOUND, if it gets a
  -- read transaction. The database meets LMDB's laws.
  pub exists-delete :
      (env env' : StorageEnv E) (key : Option Bytes)
      → storage_delete m (some env) key ≡ (ok, some env')
      → CanRead m env'
      → (storage_exists m (some env') key).0 ≡ err_notfound
  unfolding storage_delete storage_exists txn_exists_impl
  exists-delete env env' key h can =
      let (txn, fresh, published) =
        in_write_txn_commits m L (λ txn. txn_delete_impl m txn key) env env' (delete-writing key)
          h in
      let (k, valid, dels) = delete-Leaves key txn published.0 in
      in_read_txn_lem m L (λ rc. rc) (λ txn. txn_exists_impl m txn key) env' can
      ∙ rw (
          txn_get_raw_missing m L (begin_read_txn m env').1 key k valid
            (begin_read_lem m L env' k can ∙ published.1 k ∙ ground (arith, dels k, same_refl k)))
