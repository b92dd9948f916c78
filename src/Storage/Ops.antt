-- ===== src/Storage/Ops.antt =====
-- The public calls of src/storage_lmdb.c that read or write one value in a transaction of their own.
pub mod Calls
use agentx_subagent.Prelude.{ℕ, Bool, Option, none, some, List, Bytes}
use agentx_subagent.Prelude.Int.{ℤ}
use agentx_subagent.Storage.Types.{StorageRc}
use agentx_subagent.Storage.Lmdb.{Lmdb}
use agentx_subagent.Storage.Access.{
  txn_get_int_impl, txn_set_int_impl, txn_get_uint_impl, txn_set_uint_impl, txn_get_u64_impl,
  txn_set_u64_impl,
}
use agentx_subagent.Storage.Access.Blobs.{
  Sized, txn_get_bytes_impl, txn_set_bytes_impl, txn_get_oid_impl, txn_set_oid_impl,
  txn_delete_impl, txn_exists_impl, txn_type_of_impl,
}
use agentx_subagent.Storage.Env.{StorageEnv, in_write_txn, in_read_txn}

-- Nothing was read: the caller's variables are as they were.
abbrev pub untouched : {A : Type 0} → Option A → StorageRc → StorageRc × Option A
untouched out rc = (rc, out)

abbrev pub unsized : {A : Type 0} → Option (List A) → Option ℕ → StorageRc → Sized A
unsized buf len rc = record { rc = rc; buf = buf; len = len }

module _ {E T C : Type 0} (m : Lmdb E T C) (env : Option (StorageEnv E)) (key : Option Bytes) where
  unfoldable pub storage_get_int : Option ℤ → (StorageRc × Option ℤ) × Option (StorageEnv E)
  storage_get_int out = in_read_txn m (untouched out) (λ txn. txn_get_int_impl m txn key out) env

  unfoldable pub storage_set_int : ℤ → StorageRc × Option (StorageEnv E)
  storage_set_int val = in_write_txn m (λ txn. txn_set_int_impl m txn key val) env

  unfoldable pub storage_get_uint : Option ℕ → (StorageRc × Option ℕ) × Option (StorageEnv E)
  storage_get_uint out = in_read_txn m (untouched out) (λ txn. txn_get_uint_impl m txn key out) env

  unfoldable pub storage_set_uint : ℕ → StorageRc × Option (StorageEnv E)
  storage_set_uint val = in_write_txn m (λ txn. txn_set_uint_impl m txn key val) env

  unfoldable pub storage_get_u64 : Option ℕ → (StorageRc × Option ℕ) × Option (StorageEnv E)
  storage_get_u64 out = in_read_txn m (untouched out) (λ txn. txn_get_u64_impl m txn key out) env

  unfoldable pub storage_set_u64 : ℕ → StorageRc × Option (StorageEnv E)
  storage_set_u64 val = in_write_txn m (λ txn. txn_set_u64_impl m txn key val) env

  unfoldable pub storage_get_bytes : Option (List ℕ) → Option ℕ → Sized ℕ × Option (StorageEnv E)
  storage_get_bytes buf len =
      in_read_txn m (unsized buf len) (λ txn. txn_get_bytes_impl m txn key buf len) env

  unfoldable pub storage_set_bytes :
      (mem : Bool) → Option (List ℕ) → ℕ → StorageRc × Option (StorageEnv E)
  storage_set_bytes mem buf len =
      in_write_txn m (λ txn. txn_set_bytes_impl m mem txn key buf len) env

  unfoldable pub storage_get_oid : Option (List ℕ) → Option ℕ → Sized ℕ × Option (StorageEnv E)
  storage_get_oid subids count =
      in_read_txn m (unsized subids count) (λ txn. txn_get_oid_impl m txn key subids count) env

  unfoldable pub storage_set_oid :
      (mem : Bool) → Option (List ℕ) → ℕ → StorageRc × Option (StorageEnv E)
  storage_set_oid mem subids count =
      in_write_txn m (λ txn. txn_set_oid_impl m mem txn key subids count) env

  unfoldable pub storage_delete : StorageRc × Option (StorageEnv E)
  storage_delete = in_write_txn m (λ txn. txn_delete_impl m txn key) env

  unfoldable pub storage_exists : StorageRc × Option (StorageEnv E)
  storage_exists = in_read_txn m (λ rc. rc) (λ txn. txn_exists_impl m txn key) env

  unfoldable pub storage_type_of : Option ℕ → (StorageRc × Option ℕ) × Option (StorageEnv E)
  storage_type_of out = in_read_txn m (untouched out) (λ txn. txn_type_of_impl m txn key out) env
