-- ===== src/Storage/RoundTrip/Blobs.antt =====
-- Byte strings and OIDs read back, and the buffer is told when it is too small.
use agentx_subagent.Prelude.{
  ℕ, ◌*◌, ◌/◌, ◌%◌, ◌^◌, ◌<◌, ◌≤◌, ◌≡◌, refl, ◌∙◌, ap, Bool, true, false, Option, some, List, [],
  ◌∷◌, ◌++◌, Bytes, length, length-append, drop, take-length, All, arith, ◌==◌, if◌then◌else◌,
}
use agentx_subagent.Storage.Types.{ok, err_toobig, err_io, err_inval, type_bytes, type_oid}
use agentx_subagent.Storage.Lmdb.{Lmdb, LmdbLaws}
use agentx_subagent.Storage.Codec.{got, fail, ◌>>=◌, encode_header, decode_header, put_u32le}
use agentx_subagent.Storage.Codec.Words.{get-put_u32le, decode-encode_header, length-put_u32le}
use agentx_subagent.Storage.Access.{txn_get_raw}
use agentx_subagent.Storage.Access.Blobs.{
  txn_get_bytes_impl, txn_set_bytes_impl, txn_get_oid_impl, txn_set_oid_impl, oid_words,
  oid_payload, copy_out,
}
use agentx_subagent.Storage.Env.{StorageEnv, begin_read_txn}
use agentx_subagent.Storage.Env.Writes.{in_write_txn_commits}
use agentx_subagent.Storage.Env.Reads.{CanRead, in_read_txn_lem}
use agentx_subagent.Storage.Ops.{
  storage_get_bytes, storage_set_bytes, storage_get_oid, storage_set_oid, unsized,
}
use agentx_subagent.Storage.RoundTrip.{read_after_put}

length-oid_payload : (ws : List ℕ) → length (oid_payload ws) ≡ 4 * length ws
unfolding oid_payload
length-oid_payload [] = refl
length-oid_payload (w ∷ ws) =
    omega (
      arith,
      length-append (put_u32le w) (oid_payload ws),
      length-put_u32le w,
      length-oid_payload ws,
    )

abbrev IsWord : ℕ → Type 0
IsWord w = w < 2 ^ 32

drop-put_u32le : (w : ℕ) (p : Bytes) → drop 4 (put_u32le w ++ p) ≡ p
unfolding put_u32le
drop-put_u32le w p = refl

oid_words-payload : (ws : List ℕ) → All IsWord ws → oid_words (length ws) (oid_payload ws) ≡ ws
unfolding oid_words oid_payload
oid_words-payload [] h = refl
oid_words-payload (w ∷ ws) (hw, hws) = rw (
  drop-put_u32le w (oid_payload ws),
  get-put_u32le w (oid_payload ws) hw,
  oid_words-payload ws hws,
)

oid_read :
    (ws : List ℕ)
    → All IsWord ws
    → (do
      payload ← decode_header (encode_header type_oid ++ oid_payload ws) type_oid
      if length payload % 4 == 0
          then got (oid_words (length payload / 4) payload)
          else fail err_inval)
      ≡ got ws
oid_read ws h =
    let quarter : length (oid_payload ws) / 4 ≡ length ws = omega (arith, length-oid_payload ws) in
    let whole : length (oid_payload ws) % 4 ≡ 0 = omega (arith, length-oid_payload ws) in
    rw (decode-encode_header type_oid (oid_payload ws) (omega arith), whole, quarter)
      (ap got (oid_words-payload ws h))

module _ {E T C : Type 0} (m : Lmdb E T C) (L : LmdbLaws m) where
  raw_after_set_bytes :
      (mem : Bool) (key : Option Bytes) (value : Bytes) (env env' : StorageEnv E)
      → storage_set_bytes m (some env) key mem (some value) (length value) ≡ (ok, some env')
      → CanRead m env'
      → txn_get_raw m (begin_read_txn m env').1 key ≡ got (encode_header type_bytes ++ value)
  unfolding storage_set_bytes txn_set_bytes_impl
  raw_after_set_bytes false key value env env' h can =
      cc ((in_write_txn_commits m L (λ txn. (err_io, txn)) env env' (λ t e. refl) h).2.0)
  raw_after_set_bytes true key value env env' h can =
      read_after_put m L key (encode_header type_bytes ++ value) env env'
        (rw (take-length value) at h) can

  -- What storage_get_bytes returns behind a storage_set_bytes of `value`, for a buffer of `size`.
  bytes_after_set :
      (mem : Bool) (key : Option Bytes) (value buf : Bytes) (size : ℕ) (env env' : StorageEnv E)
      → storage_set_bytes m (some env) key mem (some value) (length value) ≡ (ok, some env')
      → CanRead m env'
      → (storage_get_bytes m (some env') key (some buf) (some size)).0
        ≡ copy_out (some buf) size (got value)
  unfolding storage_get_bytes txn_get_bytes_impl
  bytes_after_set mem key value buf size env env' h can =
      in_read_txn_lem m L (unsized (some buf) (some size))
        (λ txn. txn_get_bytes_impl m txn key (some buf) (some size)) env' can
      ∙ rw (
        raw_after_set_bytes mem key value env env' h can,
        decode-encode_header type_bytes value (omega arith),
      )

  -- After a successful storage_set_bytes, storage_get_bytes with a buffer size that is not
  -- smaller returns the bytes at the front of the buffer, leaves the rest of it alone and sets
  -- the length, if it gets a read transaction. The database meets LMDB's laws.
  pub get-set_bytes :
      (mem : Bool) (key : Option Bytes) (value buf : Bytes) (size : ℕ) (env env' : StorageEnv E)
      → length value ≤ size
      → storage_set_bytes m (some env) key mem (some value) (length value) ≡ (ok, some env')
      → CanRead m env'
      → (storage_get_bytes m (some env') key (some buf) (some size)).0 ≡ record {
        rc = ok;
        buf = some (value ++ drop (length value) buf);
        len = some (length value);
      }
  get-set_bytes mem key value buf size env env' fits h can =
      bytes_after_set mem key value buf size env env' h can ∙ ground arith

  -- After a successful storage_set_bytes, storage_get_bytes with a size that is too small returns
  -- ERR_TOOBIG, leaves the buffer alone and sets the length that is needed, if it gets a read
  -- transaction. The database meets LMDB's laws.
  pub get-set_bytes_toobig :
      (mem : Bool) (key : Option Bytes) (value buf : Bytes) (size : ℕ) (env env' : StorageEnv E)
      → size < length value
      → storage_set_bytes m (some env) key mem (some value) (length value) ≡ (ok, some env')
      → CanRead m env'
      → (storage_get_bytes m (some env') key (some buf) (some size)).0
        ≡ record { rc = err_toobig; buf = some buf; len = some (length value) }
  get-set_bytes_toobig mem key value buf size env env' small h can =
      bytes_after_set mem key value buf size env env' h can ∙ ground arith

  raw_after_set_oid :
      (mem : Bool) (key : Option Bytes) (ws : List ℕ) (env env' : StorageEnv E)
      → storage_set_oid m (some env) key mem (some ws) (length ws) ≡ (ok, some env')
      → CanRead m env'
      → txn_get_raw m (begin_read_txn m env').1 key ≡ got (encode_header type_oid ++ oid_payload ws)
  unfolding storage_set_oid txn_set_oid_impl
  raw_after_set_oid false key ws env env' h can =
      cc ((in_write_txn_commits m L (λ txn. (err_io, txn)) env env' (λ t e. refl) h).2.0)
  raw_after_set_oid true key ws env env' h can =
      read_after_put m L key (encode_header type_oid ++ oid_payload ws) env env'
        (rw (take-length ws) at h) can

  -- After a successful storage_set_oid of 32-bit sub-identifiers, storage_get_oid with a capacity
  -- that is not smaller returns them at the front of the array, leaves the rest of it alone and
  -- sets the count, if it gets a read transaction. The database meets LMDB's laws.
  pub get-set_oid :
      (mem : Bool) (key : Option Bytes) (ws old : List ℕ) (count : ℕ) (env env' : StorageEnv E)
      → All IsWord ws
      → length ws ≤ count
      → storage_set_oid m (some env) key mem (some ws) (length ws) ≡ (ok, some env')
      → CanRead m env'
      → (storage_get_oid m (some env') key (some old) (some count)).0
        ≡ record { rc = ok; buf = some (ws ++ drop (length ws) old); len = some (length ws) }
  unfolding storage_get_oid txn_get_oid_impl
  get-set_oid mem key ws old count env env' words fits h can =
      in_read_txn_lem m L (unsized (some old) (some count))
        (λ txn. txn_get_oid_impl m txn key (some old) (some count)) env' can
      ∙ rw (raw_after_set_oid mem key ws env env' h can)
          (ap (copy_out (some old) count) (oid_read ws words) ∙ ground arith)
