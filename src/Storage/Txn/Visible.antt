-- ===== src/Storage/Txn/Visible.antt =====
-- What an explicit transaction of src/storage_lmdb.c shows while it is open, and what it leaves behind.
use agentx_subagent.Prelude.{
  ◌≡◌, ◌∙◌, sym, ap, false, Bool-cases, Option, some, Bytes, same_refl, ◌++◌, inl, inr, arith,
}
use agentx_subagent.Prelude.Int.{ℤ, IsInt32, to_uint32}
use agentx_subagent.Storage.Types.{StorageRc, ok, type_int32}
use agentx_subagent.Storage.Lmdb.{Lmdb, LmdbLaws}
use agentx_subagent.Storage.Codec.{encode_header, put_u32le}
use agentx_subagent.Storage.Access.{store_out, txn_put_raw, txn_set_int_impl, txn_get_int_impl}
use agentx_subagent.Storage.Env.Writes.{put_raw_lem}
use agentx_subagent.Storage.Env.Reads.{txn_get_raw_found}
use agentx_subagent.Storage.RoundTrip.{int_read}
use agentx_subagent.Storage.Txn.{StorageTxn, storage_txn_get_int, storage_txn_set_int}

module _ {E T C : Type 0} (m : Lmdb E T C) (L : LmdbLaws m) where
  stored :
      (put : StorageRc × T) (txn' : StorageTxn T)
      → ◌≡◌ {A = StorageRc × Option (StorageTxn T)}
          (put.0, some (record { txn = put.1; readonly = false }))
          (ok, some txn')
      → (put.0 ≡ ok) × (put.1 ≡ txn'.txn)
  stored (rc, t) txn' h = (cc, cc)

  -- After a successful storage_txn_set_int of an int32_t, storage_txn_get_int of the same key in
  -- the same transaction, not yet committed, returns that value. The database meets LMDB's laws.
  pub txn_get-set_int :
      (key : Option Bytes) (z old : ℤ) (txn txn' : StorageTxn T)
      → IsInt32 z
      → storage_txn_set_int m (some txn) key z ≡ (ok, some txn')
      → storage_txn_get_int m (some txn') key (some old) ≡ (ok, some z)
  unfolding storage_txn_set_int storage_txn_get_int txn_set_int_impl txn_get_int_impl
  txn_get-set_int key z old txn txn' fits h = elim (Bool-cases txn.readonly) [
    | inl ro ↦ absurd (ground (arith, h, ro))
    | inr writable ↦
        let value : Bytes = encode_header type_int32 ++ put_u32le (to_uint32 z) in
        let put = txn_put_raw m txn.txn key value in
        let set : ◌≡◌ {A = StorageRc × Option (StorageTxn T)}
            (put.0, some (record { txn = put.1; readonly = false })) (ok, some txn') =
          (rw writable at h) in
        let (done, new) = stored put txn' set in
        let (k, valid, puts) = put_raw_lem m L txn.txn key value done in
        let view : L.txn_view txn'.txn k ≡ some value =
          ap (λ t. L.txn_view t k) (sym new) ∙ puts k ∙ ground (arith, same_refl k) in
        rw (txn_get_raw_found m L txn'.txn key k value valid view)
          (ap (store_out old) (int_read z fits))
  ]
