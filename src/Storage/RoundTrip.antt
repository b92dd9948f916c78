-- ===== src/Storage/RoundTrip.antt =====
-- A value that a storage_set_* call of src/storage_lmdb.c committed is what the storage_get_* call of
-- the same type returns.
pub mod Blobs
pub mod Mismatch
use agentx_subagent.Prelude.{
  ℕ, zero, suc, ◌+◌, ◌-◌, ◌*◌, ◌/◌, ◌%◌, ◌^◌, ◌<◌, ◌≤◌, ◌≡◌, ◌≢◌, refl, ◌∙◌, sym, ap, Bool, true,
  false, Option, none, some, List, [], ◌∷◌, ◌++◌, Bytes, length, drop, take, take-length, All,
  arith, same_refl,
}
use agentx_subagent.Prelude.Int.{ℤ, IsInt32, to_uint32, to_int32, to_int32-to_uint32, to_uint32-lt}
use agentx_subagent.Storage.Types.{
  StorageRc, ok, err_type, type_int32, type_uint32, type_uint64, type_bytes, type_oid,
}
use agentx_subagent.Storage.Lmdb.{Lmdb, LmdbLaws}
use agentx_subagent.Storage.Codec.{
  Res, got, fail, ◌>>=◌, encode_header, decode_header, put_u32le, put_u64le, get_u32le, get_u64le,
}
use agentx_subagent.Storage.Codec.Words.{
  get-put_u32le_self, length-put_u32le, length-put_u64le, get-put_u64le, decode-encode_header,
  decode-encode_header_ne,
}
use agentx_subagent.Storage.Access.{
  at_least, store_out, txn_get_raw, txn_put_raw, txn_get_int_impl, txn_set_int_impl,
  txn_get_uint_impl, txn_set_uint_impl, txn_get_u64_impl, txn_set_u64_impl,
}
use agentx_subagent.Storage.Access.Blobs.{Sized, txn_get_bytes_impl, txn_set_bytes_impl}
use agentx_subagent.Storage.Env.{StorageEnv, in_write_txn, begin_read_txn}
use agentx_subagent.Storage.Env.Writes.{put_commits}
use agentx_subagent.Storage.Env.Reads.{CanRead, in_read_txn_lem, read_found}
use agentx_subagent.Storage.Ops.{
  storage_get_int, storage_set_int, storage_get_uint, storage_set_uint, storage_get_u64,
  storage_set_u64, storage_get_bytes, storage_set_bytes, untouched, unsized,
}
use mathlib.Core.List.{append-nil}

at_least_put : (n : ℕ) (p : Bytes) → length p ≡ n → at_least n p ≡ got p
at_least_put n p h = ground arith

-- The payloads of the three kinds of number, read back from a whole stored value.
pub int_read :
    (z : ℤ)
    → IsInt32 z
    → (do
      payload ← decode_header (encode_header type_int32 ++ put_u32le (to_uint32 z)) type_int32
      payload ← at_least 4 payload
      got (to_int32 (get_u32le payload)))
      ≡ got z
int_read z fits =
    rw
      (
        decode-encode_header type_int32 (put_u32le (to_uint32 z)) (omega arith),
        at_least_put 4 (put_u32le (to_uint32 z)) (length-put_u32le (to_uint32 z)),
        get-put_u32le_self (to_uint32 z) (to_uint32-lt z),
      )
      (ap got (to_int32-to_uint32 z fits))

pub uint_read :
    (v : ℕ)
    → v < 2 ^ 32
    → (do
      payload ← decode_header (encode_header type_uint32 ++ put_u32le v) type_uint32
      payload ← at_least 4 payload
      got (get_u32le payload))
      ≡ got v
uint_read v fits =
    rw
      (
        decode-encode_header type_uint32 (put_u32le v) (omega arith),
        at_least_put 4 (put_u32le v) (length-put_u32le v),
      )
      (ap got (get-put_u32le_self v fits))

u64_read :
    (v : ℕ)
    → v < 2 ^ 64
    → (do
      payload ← decode_header (encode_header type_uint64 ++ put_u64le v) type_uint64
      payload ← at_least 8 payload
      got (get_u64le payload))
      ≡ got v
u64_read v fits =
    rw
      (
        decode-encode_header type_uint64 (put_u64le v) (omega arith),
        at_least_put 8 (put_u64le v) (length-put_u64le v),
      )
      (ap got (get-put_u64le v fits))

module _ {E T C : Type 0} (m : Lmdb E T C) (L : LmdbLaws m) where
  pub read_after_put :
      (key : Option Bytes) (value : Bytes) (env env' : StorageEnv E)
      → in_write_txn m (λ txn. txn_put_raw m txn key value) (some env) ≡ (ok, some env')
      → CanRead m env'
      → txn_get_raw m (begin_read_txn m env').1 key ≡ got value
  read_after_put key value env env' h can =
      let (k, valid, stores) = put_commits m L key value env env' h in
      read_found m L env' key k value can valid (ground (arith, stores k, same_refl k))

  -- After a successful storage_set_int of an int32_t, storage_get_int on the same key returns
  -- that value, negative ones included, if it gets a read transaction. The database meets LMDB's
  -- laws.
  pub get-set_int :
      (key : Option Bytes) (z old : ℤ) (env env' : StorageEnv E)
      → IsInt32 z
      → storage_set_int m (some env) key z ≡ (ok, some env')
      → CanRead m env'
      → (storage_get_int m (some env') key (some old)).0 ≡ (ok, some z)
  unfolding storage_set_int storage_get_int txn_set_int_impl txn_get_int_impl
  get-set_int key z old env env' fits h can =
      in_read_txn_lem m L (untouched (some old)) (λ txn. txn_get_int_impl m txn key (some old)) env'
        can
      ∙ rw (read_after_put key (encode_header type_int32 ++ put_u32le (to_uint32 z)) env env' h can)
          (ap (store_out old) (int_read z fits))

  -- get after set of a uint32_t
  pub get-set_uint :
      (key : Option Bytes) (v old : ℕ) (env env' : StorageEnv E)
      → v < 2 ^ 32
      → storage_set_uint m (some env) key v ≡ (ok, some env')
      → CanRead m env'
      → (storage_get_uint m (some env') key (some old)).0 ≡ (ok, some v)
  unfolding storage_set_uint storage_get_uint txn_set_uint_impl txn_get_uint_impl
  get-set_uint key v old env env' fits h can =
      in_read_txn_lem m L (untouched (some old)) (λ txn. txn_get_uint_impl m txn key (some old))
        env' can
      ∙ rw (read_after_put key (encode_header type_uint32 ++ put_u32le v) env env' h can)
          (ap (store_out old) (uint_read v fits))

  -- After a successful storage_set_u64 of a number below 2^64, storage_get_u64 on the same key
  -- returns that number, if it gets a read transaction. The database meets LMDB's laws.
  pub get-set_u64 :
      (key : Option Bytes) (v old : ℕ) (env env' : StorageEnv E)
      → v < 2 ^ 64
      → storage_set_u64 m (some env) key v ≡ (ok, some env')
      → CanRead m env'
      → (storage_get_u64 m (some env') key (some old)).0 ≡ (ok, some v)
  unfolding storage_set_u64 storage_get_u64 txn_set_u64_impl txn_get_u64_impl
  get-set_u64 key v old env env' fits h can =
      in_read_txn_lem m L (untouched (some old)) (λ txn. txn_get_u64_impl m txn key (some old)) env'
        can
      ∙ rw (read_after_put key (encode_header type_uint64 ++ put_u64le v) env env' h can)
          (ap (store_out old) (u64_read v fits))
