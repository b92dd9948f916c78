-- ===== src/Storage/Txn.antt =====
-- Explicit transactions, storage_env_sync and storage_env_is_readonly of src/storage_lmdb.c.
pub mod Visible
pub mod Session
use agentx_subagent.Prelude.{
  ℕ, Bool, true, false, not, ◌&&◌, Option, none, some, Bytes, if◌then◌else◌,
}
use agentx_subagent.Prelude.Int.{ℤ}
use agentx_subagent.Storage.Types.{StorageRc, ok, err_inval, err_io, err_readonly}
use agentx_subagent.Storage.Lmdb.{Lmdb}
use agentx_subagent.Storage.Codec.{map_mdb_rc}
use agentx_subagent.Storage.Access.{
  txn_get_int_impl, txn_set_int_impl, txn_get_uint_impl, txn_set_uint_impl, txn_get_u64_impl,
  txn_set_u64_impl,
}
use agentx_subagent.Storage.Access.Blobs.{
  Sized, txn_get_bytes_impl, txn_set_bytes_impl, txn_delete_impl,
}
use agentx_subagent.Storage.Env.{StorageEnv}

-- struct storage_txn; its environment pointer is read only for the dbi.
pub record StorageTxn (T : Type 0) : Type 0 where
  pub txn : T
  pub readonly : Bool

module _ {E T C : Type 0} (m : Lmdb E T C) where
  -- What is left of storage_txn_begin once mdb_txn_begin has answered; `mem` says whether calloc
  -- succeeds.
  abbrev pub begun :
      (mem : Bool)
      → StorageEnv E
      → Bool
      → StorageRc × T × E
      → (StorageRc × Option (StorageTxn T)) × Option (StorageEnv E)
  begun true env ro (ok, txn, e) =
      ((ok, some (record { txn = txn; readonly = ro })), some (record env { env = e }))
  begun false env ro (ok, txn, e) = ((err_io, none), some (record env { env = m.txn_abort txn e }))
  begun mem env ro (rc, txn, e) = ((rc, none), some (record env { env = e }))

  -- `out` says whether the out pointer is not NULL.
  unfoldable pub storage_txn_begin :
      (mem : Bool)
      → Option (StorageEnv E)
      → Bool
      → (out : Bool) → (StorageRc × Option (StorageTxn T)) × Option (StorageEnv E)
  storage_txn_begin mem none ro out = ((err_inval, none), none)
  storage_txn_begin mem (some env) ro false = ((err_inval, none), some env)
  storage_txn_begin mem (some env) ro true =
      if not ro && env.readonly
      then ((err_readonly, none), some env)
      else let (rc, txn, e) = m.txn_begin ro env.env in begun mem env ro (map_mdb_rc rc, txn, e)

  unfoldable pub storage_txn_commit : Option (StorageTxn T) → E → StorageRc × E
  storage_txn_commit none e = (err_inval, e)
  storage_txn_commit (some txn) e = let (rc, e') = m.txn_commit txn.txn e in (map_mdb_rc rc, e')

  unfoldable pub storage_txn_abort : Option (StorageTxn T) → E → E
  storage_txn_abort none e = e
  storage_txn_abort (some txn) e = m.txn_abort txn.txn e

  -- The common body of the writing calls: the NULL test, the read-only test, the helper.
  abbrev pub on_writable :
      (T → StorageRc × T) → Option (StorageTxn T) → StorageRc × Option (StorageTxn T)
  on_writable impl none = (err_inval, none)
  on_writable impl (some txn) =
      if txn.readonly
      then (err_readonly, some txn)
      else let (rc, t) = impl txn.txn in (rc, some (record txn { txn = t }))

  unfoldable pub storage_txn_get_int :
      Option (StorageTxn T) → Option Bytes → Option ℤ → StorageRc × Option ℤ
  storage_txn_get_int none key out = (err_inval, out)
  storage_txn_get_int (some txn) key out = txn_get_int_impl m txn.txn key out

  unfoldable pub storage_txn_set_int :
      Option (StorageTxn T) → Option Bytes → ℤ → StorageRc × Option (StorageTxn T)
  storage_txn_set_int txn key val = on_writable (λ t. txn_set_int_impl m t key val) txn

  unfoldable pub storage_txn_get_uint :
      Option (StorageTxn T) → Option Bytes → Option ℕ → StorageRc × Option ℕ
  storage_txn_get_uint none key out = (err_inval, out)
  storage_txn_get_uint (some txn) key out = txn_get_uint_impl m txn.txn key out

  unfoldable pub storage_txn_set_uint :
      Option (StorageTxn T) → Option Bytes → ℕ → StorageRc × Option (StorageTxn T)
  storage_txn_set_uint txn key val = on_writable (λ t. txn_set_uint_impl m t key val) txn

  unfoldable pub storage_txn_get_u64 :
      Option (StorageTxn T) → Option Bytes → Option ℕ → StorageRc × Option ℕ
  storage_txn_get_u64 none key out = (err_inval, out)
  storage_txn_get_u64 (some txn) key out = txn_get_u64_impl m txn.txn key out

  unfoldable pub storage_txn_set_u64 :
      Option (StorageTxn T) → Option Bytes → ℕ → StorageRc × Option (StorageTxn T)
  storage_txn_set_u64 txn key val = on_writable (λ t. txn_set_u64_impl m t key val) txn

  unfoldable pub storage_txn_get_bytes :
      Option (StorageTxn T) → Option Bytes → Option Bytes → Option ℕ → Sized ℕ
  storage_txn_get_bytes none key buf len = record { rc = err_inval; buf = buf; len = len }
  storage_txn_get_bytes (some txn) key buf len = txn_get_bytes_impl m txn.txn key buf len

  unfoldable pub storage_txn_set_bytes :
      (mem : Bool)
      → Option (StorageTxn T)
      → Option Bytes
      → Option Bytes
      → ℕ
      → StorageRc × Option (StorageTxn T)
  storage_txn_set_bytes mem txn key buf len =
      on_writable (λ t. txn_set_bytes_impl m mem t key buf len) txn

  unfoldable pub storage_txn_delete :
      Option (StorageTxn T) → Option Bytes → StorageRc × Option (StorageTxn T)
  storage_txn_delete txn key = on_writable (λ t. txn_delete_impl m t key) txn

  unfoldable pub storage_env_is_readonly : Option (StorageEnv E) → Bool
  storage_env_is_readonly none = false
  storage_env_is_readonly (some env) = env.readonly

  unfoldable pub storage_env_sync : Option (StorageEnv E) → Bool → StorageRc × Option (StorageEnv E)
  storage_env_sync none force = (err_inval, none)
  storage_env_sync (some env) force =
      if env.readonly
      then (ok, some env)
      else let (rc, e) = m.env_sync force env.env in (map_mdb_rc rc, some (record env { env = e }))
