-- ===== src/Storage/Access.antt =====
-- The helpers txn_*_impl of src/storage_lmdb.c, which work on a transaction that is already open.
-- An out pointer is an `Option`: `none` is NULL, `some x` points at `x`, and the new content comes
-- back.
pub mod Blobs
use agentx_subagent.Prelude.{
  ℕ, zero, suc, ◌+◌, ◌*◌, ◌/◌, ◌%◌, ◌^◌, Bool, true, false, not, ◌&&◌, Option, none, some, List, [],
  ◌∷◌, ◌++◌, Bytes, length, get_or, drop, set, ltb, ◌==◌, if◌then◌else◌,
}
use agentx_subagent.Prelude.Int.{ℤ, to_int32, to_uint32}
use agentx_subagent.Storage.Types.{
  StorageRc, ok, err_type, err_inval, err_toobig, err_io, value_header_len, type_int32, type_uint32,
  type_uint64, type_bytes, type_oid,
}
use agentx_subagent.Storage.Lmdb.{Lmdb, MdbRc, success}
use agentx_subagent.Storage.Codec.{
  Res, got, fail, ◌>>=◌, put_u32le, get_u32le, put_u64le, get_u64le, map_mdb_rc, validate_key,
  encode_header, decode_header,
}

-- An MDB call's value where the code is `success`, else the mapped code.
abbrev pub checked : {A : Type 0} → MdbRc → A → Res A
checked success a = got a
checked rc a = fail (map_mdb_rc rc)

-- `if (rc != STORAGE_OK) return rc; *out = v; return STORAGE_OK;`
abbrev pub store_out : {A : Type 0} → A → Res A → StorageRc × Option A
store_out old (got v) = (ok, some v)
store_out old (fail rc) = (rc, some old)

abbrev pub at_least : ℕ → Bytes → Res Bytes
at_least n payload = if ltb (length payload) n then fail err_inval else got payload

module _ {E T C : Type 0} (m : Lmdb E T C) where
  unfoldable pub txn_get_raw : T → Option Bytes → Res Bytes
  txn_get_raw txn key = do
    mkey ← validate_key key
    let (mrc, data') = m.get txn mkey
    checked mrc data'

  -- A write that fails leaves the transaction to its caller, who aborts it.
  abbrev pub put_at : T → Bytes → Res Bytes → StorageRc × T
  put_at txn value (fail rc) = (rc, txn)
  put_at txn value (got mkey) = let (mrc, txn') = m.put txn mkey value in (map_mdb_rc mrc, txn')

  unfoldable pub txn_put_raw : T → Option Bytes → Bytes → StorageRc × T
  txn_put_raw txn key value = put_at txn value (validate_key key)

  unfoldable pub txn_get_int_impl : T → Option Bytes → Option ℤ → StorageRc × Option ℤ
  txn_get_int_impl txn key none = (err_inval, none)
  txn_get_int_impl txn key (some old) = store_out old (do
    raw ← txn_get_raw txn key
    payload ← decode_header raw type_int32
    payload ← at_least 4 payload
    got (to_int32 (get_u32le payload)))

  unfoldable pub txn_set_int_impl : T → Option Bytes → ℤ → StorageRc × T
  txn_set_int_impl txn key val =
      txn_put_raw txn key (encode_header type_int32 ++ put_u32le (to_uint32 val))

  unfoldable pub txn_get_uint_impl : T → Option Bytes → Option ℕ → StorageRc × Option ℕ
  txn_get_uint_impl txn key none = (err_inval, none)
  txn_get_uint_impl txn key (some old) = store_out old (do
    raw ← txn_get_raw txn key
    payload ← decode_header raw type_uint32
    payload ← at_least 4 payload
    got (get_u32le payload))

  unfoldable pub txn_set_uint_impl : T → Option Bytes → ℕ → StorageRc × T
  txn_set_uint_impl txn key val = txn_put_raw txn key (encode_header type_uint32 ++ put_u32le val)

  unfoldable pub txn_get_u64_impl : T → Option Bytes → Option ℕ → StorageRc × Option ℕ
  txn_get_u64_impl txn key none = (err_inval, none)
  txn_get_u64_impl txn key (some old) = store_out old (do
    raw ← txn_get_raw txn key
    payload ← decode_header raw type_uint64
    payload ← at_least 8 payload
    got (get_u64le payload))

  unfoldable pub txn_set_u64_impl : T → Option Bytes → ℕ → StorageRc × T
  txn_set_u64_impl txn key val = txn_put_raw txn key (encode_header type_uint64 ++ put_u64le val)
