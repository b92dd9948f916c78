-- ===== src/Storage/RoundTrip/Mismatch.antt =====
-- src/storage_lmdb.c: a stored value read as another type.
use agentx_subagent.Prelude.{
  ℕ, ◌<◌, ◌≡◌, ◌≢◌, refl, ◌∙◌, ap, Option, none, some, List, Bytes, ◌++◌, same_refl, arith,
}
use agentx_subagent.Prelude.Int.{ℤ}
use agentx_subagent.Storage.Types.{
  err_type, ok, type_int32, type_uint32, type_uint64, type_bytes, type_oid,
}
use agentx_subagent.Storage.Lmdb.{Lmdb, LmdbLaws}
use agentx_subagent.Storage.Codec.{got, encode_header}
use agentx_subagent.Storage.Codec.Words.{decode-encode_header_ne}
use agentx_subagent.Storage.Access.{
  txn_get_raw, txn_get_int_impl, txn_get_uint_impl, txn_get_u64_impl,
}
use agentx_subagent.Storage.Access.Blobs.{txn_get_bytes_impl, txn_get_oid_impl}
use agentx_subagent.Storage.Env.{StorageEnv, begin_read_txn}
use agentx_subagent.Storage.Env.Reads.{CanRead, in_read_txn_lem, read_found}
use agentx_subagent.Storage.Ops.{
  storage_get_int, storage_get_uint, storage_get_u64, storage_get_bytes, storage_get_oid, untouched,
  unsized,
}
use agentx_subagent.Storage.Ops.Calls.{
  WriteCall, set_int, set_uint, set_u64, set_bytes, set_oid, delete, perform, stored, perform_valid,
}

-- The five reading calls with what the caller's variables hold, or its buffer and its size.
pub data ReadCall : Type 0 where
  get_int : ℤ → ReadCall
  get_uint get_u64 : ℕ → ReadCall
  get_bytes get_oid : List ℕ → ℕ → ReadCall

abbrev pub read_type : ReadCall → ℕ
read_type (get_int old) = type_int32
read_type (get_uint old) = type_uint32
read_type (get_u64 old) = type_uint64
read_type (get_bytes buf size) = type_bytes
read_type (get_oid subids count) = type_oid

-- The type that a call writes; a delete writes none.
abbrev pub written_type : WriteCall → Option ℕ
written_type (set_int val) = some type_int32
written_type (set_uint val) = some type_uint32
written_type (set_u64 val) = some type_uint64
written_type (set_bytes mem buf len) = some type_bytes
written_type (set_oid mem subids count) = some type_oid
written_type delete = none

typed :
    (type t : ℕ) (payload : Bytes)
    → type ≡ t
    → type < 256
    → (rest : Bytes) × (◌≡◌ {A = Option Bytes}
        (some (encode_header type ++ payload))
        (some (encode_header t ++ rest)))
      × (t < 256)
typed type t payload same small =
    (payload, ap (λ n. some (encode_header n ++ payload)) same, omega (arith, same, small))

-- Whatever is stored starts with the header of its type.
stored-written_type :
    (c : WriteCall) (t : ℕ)
    → written_type c ≡ some t
    → (payload : Bytes) × (stored c ≡ some (encode_header t ++ payload)) × (t < 256)
stored-written_type (set_int val) t h = typed type_int32 t _ (ground arith) (omega arith)
stored-written_type (set_uint val) t h = typed type_uint32 t _ (ground arith) (omega arith)
stored-written_type (set_u64 val) t h = typed type_uint64 t _ (ground arith) (omega arith)
stored-written_type (set_bytes mem buf len) t h = typed type_bytes t _ (ground arith) (omega arith)
stored-written_type (set_oid mem subids count) t h = typed type_oid t _ (ground arith) (omega arith)
stored-written_type delete t h = absurd (ground (arith, h))

module _ {E T C : Type 0} (m : Lmdb E T C) where
  -- The call returns ERR_TYPE and leaves what the caller handed in as it was.
  abbrev pub Refuses : ReadCall → Option (StorageEnv E) → Option Bytes → Type 0
  Refuses (get_int old) env key = (storage_get_int m env key (some old)).0 ≡ (err_type, some old)
  Refuses (get_uint old) env key = (storage_get_uint m env key (some old)).0 ≡ (err_type, some old)
  Refuses (get_u64 old) env key = (storage_get_u64 m env key (some old)).0 ≡ (err_type, some old)
  Refuses (get_bytes buf size) env key =
      (storage_get_bytes m env key (some buf) (some size)).0
      ≡ record { rc = err_type; buf = some buf; len = some size }
  Refuses (get_oid subids count) env key =
      (storage_get_oid m env key (some subids) (some count)).0
      ≡ record { rc = err_type; buf = some subids; len = some count }

module _ {E T C : Type 0} (m : Lmdb E T C) (L : LmdbLaws m) where
  refused_by_type :
      (r : ReadCall) (t : ℕ) (payload : Bytes) (env : StorageEnv E) (key : Option Bytes)
      → t < 256
      → t ≢ read_type r
      → CanRead m env
      → txn_get_raw m (begin_read_txn m env).1 key ≡ got (encode_header t ++ payload)
      → Refuses m r (some env) key
  unfolding storage_get_int storage_get_uint storage_get_u64 storage_get_bytes storage_get_oid
      txn_get_int_impl txn_get_uint_impl txn_get_u64_impl txn_get_bytes_impl txn_get_oid_impl
  refused_by_type (get_int old) t payload env key small ne can raw =
      in_read_txn_lem m L (untouched (some old)) (λ txn. txn_get_int_impl m txn key (some old)) env
        can
      ∙ rw (raw, decode-encode_header_ne t type_int32 payload small ne) refl
  refused_by_type (get_uint old) t payload env key small ne can raw =
      in_read_txn_lem m L (untouched (some old)) (λ txn. txn_get_uint_impl m txn key (some old)) env
        can
      ∙ rw (raw, decode-encode_header_ne t type_uint32 payload small ne) refl
  refused_by_type (get_u64 old) t payload env key small ne can raw =
      in_read_txn_lem m L (untouched (some old)) (λ txn. txn_get_u64_impl m txn key (some old)) env
        can
      ∙ rw (raw, decode-encode_header_ne t type_uint64 payload small ne) refl
  refused_by_type (get_bytes buf size) t payload env key small ne can raw =
      in_read_txn_lem m L (unsized (some buf) (some size))
        (λ txn. txn_get_bytes_impl m txn key (some buf) (some size)) env can
      ∙ rw (raw, decode-encode_header_ne t type_bytes payload small ne) refl
  refused_by_type (get_oid subids count) t payload env key small ne can raw =
      in_read_txn_lem m L (unsized (some subids) (some count))
        (λ txn. txn_get_oid_impl m txn key (some subids) (some count)) env can
      ∙ rw (raw, decode-encode_header_ne t type_oid payload small ne) refl

  -- Let a storage_set_* call of any of the five types succeed. Then a storage_get_* call of any
  -- other type on the same key, with variables that are not NULL, returns ERR_TYPE and leaves the
  -- caller's variable, or its buffer and its length, as they were, if it gets a read transaction.
  -- The database meets LMDB's laws.
  pub get-set_mismatch :
      (c : WriteCall) (r : ReadCall) (t : ℕ) (key : Option Bytes) (env env' : StorageEnv E)
      → written_type c ≡ some t
      → t ≢ read_type r
      → perform m c (some env) key ≡ (ok, some env')
      → CanRead m env'
      → Refuses m r (some env') key
  get-set_mismatch c r t key env env' writes ne h can =
      let (k, valid, stores) = perform_valid m L c env env' key h in
      let (payload, is, small) = stored-written_type c t writes in
      let view : L.env_view env'.env k ≡ stored c = stores k ∙ ground (arith, same_refl k) in
      refused_by_type r t payload env' key small ne can
        (read_found m L env' key k _ can valid (view ∙ is))
