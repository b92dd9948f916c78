-- ===== src/Storage/Access/Blobs.antt =====
-- The byte-string and OID accessors, delete, exists and type_of of src/storage_lmdb.c, on an open
-- transaction. A buffer is the list of its elements; memcpy over its front keeps what lies behind.
-- Allocation is an argument: `mem` says whether malloc succeeds.
use agentx_subagent.Prelude.{
  ℕ, zero, suc, ◌/◌, ◌%◌, Bool, true, false, not, ◌&&◌, Option, none, some, List, [], ◌∷◌, ◌++◌,
  Bytes, length, get_or, take, drop, ltb, ◌==◌, if◌then◌else◌,
}
use agentx_subagent.Storage.Types.{
  StorageRc, ok, err_inval, err_toobig, err_io, value_header_len, type_bytes, type_oid,
}
use agentx_subagent.Storage.Lmdb.{Lmdb}
use agentx_subagent.Storage.Codec.{
  Res, got, fail, ◌>>=◌, put_u32le, get_u32le, map_mdb_rc, validate_key, encode_header,
  decode_header,
}
use agentx_subagent.Storage.Access.{txn_get_raw, txn_put_raw, store_out}

abbrev pub is_null {ℓ} : {A : Type ℓ} → Option A → Bool
is_null none = true
is_null (some a) = false

-- What a read of a sized value returns: the code, the caller's buffer, and its size word.
pub record Sized (A : Type 0) : Type 0 where
  pub rc : StorageRc
  pub buf : Option (List A)
  pub len : Option ℕ

-- memcpy(buf, xs, n)
abbrev pub copy_in : {A : Type 0} → List A → Option (List A) → Option (List A)
copy_in xs none = none
copy_in xs (some buf) = some (xs ++ drop (length xs) buf)

-- `size` is the caller's *len: too small a buffer is told the size that it needs.
abbrev pub copy_out : {A : Type 0} → Option (List A) → ℕ → Res (List A) → Sized A
copy_out buf size (fail rc) = record { rc = rc; buf = buf; len = some size }
copy_out buf size (got xs) =
    if ltb size (length xs)
    then record { rc = err_toobig; buf = buf; len = some (length xs) }
    else record { rc = ok; buf = copy_in xs buf; len = some (length xs) }

-- `n` words, the first at `payload`.
unfoldable pub oid_words : ℕ → Bytes → List ℕ
oid_words zero payload = []
oid_words (suc n) payload = get_u32le payload ∷ oid_words n (drop 4 payload)

unfoldable pub oid_payload : List ℕ → Bytes
oid_payload [] = []
oid_payload (w ∷ ws) = put_u32le w ++ oid_payload ws

abbrev pub elements : {A : Type 0} → Option (List A) → ℕ → List A
elements none n = []
elements (some xs) n = take n xs

module _ {E T C : Type 0} (m : Lmdb E T C) where
  unfoldable pub txn_get_bytes_impl : T → Option Bytes → Option Bytes → Option ℕ → Sized ℕ
  txn_get_bytes_impl txn key buf none = record { rc = err_inval; buf = buf; len = none }
  txn_get_bytes_impl txn key buf (some size) =
      if is_null buf && not (size == 0)
      then record { rc = err_inval; buf = buf; len = some size }
      else copy_out buf size (do raw ← txn_get_raw m txn key; decode_header raw type_bytes)

  unfoldable pub txn_set_bytes_impl :
      (mem : Bool) → T → Option Bytes → Option Bytes → ℕ → StorageRc × T
  txn_set_bytes_impl mem txn key buf len =
      if is_null buf && not (len == 0)
      then (err_inval, txn)
      else if not mem
      then (err_io, txn)
      else txn_put_raw m txn key (encode_header type_bytes ++ elements buf len)

  unfoldable pub txn_get_oid_impl : T → Option Bytes → Option (List ℕ) → Option ℕ → Sized ℕ
  txn_get_oid_impl txn key subids none = record { rc = err_inval; buf = subids; len = none }
  txn_get_oid_impl txn key subids (some count) =
      if is_null subids && not (count == 0)
      then record { rc = err_inval; buf = subids; len = some count }
      else copy_out subids count (do
        raw ← txn_get_raw m txn key
        payload ← decode_header raw type_oid
        if length payload % 4 == 0
            then got (oid_words (length payload / 4) payload)
            else fail err_inval)

  unfoldable pub txn_set_oid_impl :
      (mem : Bool) → T → Option Bytes → Option (List ℕ) → ℕ → StorageRc × T
  txn_set_oid_impl mem txn key subids count =
      if is_null subids && not (count == 0)
      then (err_inval, txn)
      else if not mem
      then (err_io, txn)
      else txn_put_raw m txn key (encode_header type_oid ++ oid_payload (elements subids count))

  abbrev pub delete_at : T → Res Bytes → StorageRc × T
  delete_at txn (fail rc) = (rc, txn)
  delete_at txn (got mkey) = let (mrc, txn') = m.del txn mkey in (map_mdb_rc mrc, txn')

  unfoldable pub txn_delete_impl : T → Option Bytes → StorageRc × T
  txn_delete_impl txn key = delete_at txn (validate_key key)

  abbrev code_of : Res Bytes → StorageRc
  code_of (got raw) = ok
  code_of (fail rc) = rc

  unfoldable pub txn_exists_impl : T → Option Bytes → StorageRc
  txn_exists_impl txn key = code_of (txn_get_raw m txn key)

  unfoldable pub txn_type_of_impl : T → Option Bytes → Option ℕ → StorageRc × Option ℕ
  txn_type_of_impl txn key none = (err_inval, none)
  txn_type_of_impl txn key (some old) = store_out old (do
    raw ← txn_get_raw m txn key
    if ltb (length raw) value_header_len then fail err_inval else got (get_or raw 0 0))
