-- ===== src/Storage/Env.antt =====
-- Environment handles, their transactions, and the calls of src/storage_lmdb.c that open a
-- transaction of their own. `none` is a NULL handle. A call returns the state of the environment
-- that it leaves behind.
pub mod Writes
pub mod Reads
use agentx_subagent.Prelude.{
  ℕ, Bool, true, false, not, ◌&&◌, Option, none, some, ◌+◌, ◌*◌, Bytes, if◌then◌else◌, List,
}
use agentx_subagent.Prelude.Int.{ℤ}
use agentx_subagent.Storage.Types.{StorageRc, ok, err_inval, err_io, err_readonly}
use agentx_subagent.Storage.Lmdb.{Lmdb, MdbRc, success, Stat}
use agentx_subagent.Storage.Codec.{Res, got, fail, map_mdb_rc}
use agentx_subagent.Storage.Access.{
  txn_get_int_impl, txn_set_int_impl, txn_get_uint_impl, txn_set_uint_impl, txn_get_u64_impl,
  txn_set_u64_impl,
}
use agentx_subagent.Storage.Access.Blobs.{
  Sized, txn_get_bytes_impl, txn_set_bytes_impl, txn_get_oid_impl, txn_set_oid_impl,
  txn_delete_impl, txn_exists_impl, txn_type_of_impl,
}

-- struct storage_env; the one unnamed dbi is part of `E`.
pub record StorageEnv (E : Type 0) : Type 0 where
  pub env : E
  pub flags : ℕ
  pub readonly : Bool

abbrev opened : {T : Type 0} → StorageRc → T → Res T
opened ok txn = got txn
opened rc txn = fail rc

module _ {E T C : Type 0} (m : Lmdb E T C) where
  unfoldable pub begin_read_txn : StorageEnv E → StorageRc × T × E
  begin_read_txn env = let (rc, txn, e) = m.txn_begin true env.env in (map_mdb_rc rc, txn, e)

  -- The read-only test precedes the call, and then there is no transaction.
  unfoldable pub begin_write_txn : StorageEnv E → Res T × E
  begin_write_txn env =
      if env.readonly
      then (fail err_readonly, env.env)
      else let (rc, txn, e) = m.txn_begin false env.env in (opened (map_mdb_rc rc) txn, e)

  unfoldable pub commit_write_txn : T → E → StorageRc × E
  commit_write_txn txn e = let (rc, e') = m.txn_commit txn e in (map_mdb_rc rc, e')

  -- `if (rc != STORAGE_OK) { mdb_txn_abort(txn); return rc; } return commit_write_txn(txn);`
  abbrev pub commit_or_abort : StorageEnv E → E → StorageRc × T → StorageRc × Option (StorageEnv E)
  commit_or_abort env e (ok, txn) =
      let (rc, e') = commit_write_txn txn e in (rc, some (record env { env = e' }))
  commit_or_abort env e (rc, txn) = (rc, some (record env { env = m.txn_abort txn e }))

  abbrev pub if_opened :
      (T → StorageRc × T) → StorageEnv E → Res T × E → StorageRc × Option (StorageEnv E)
  if_opened impl env (fail rc, e) = (rc, some (record env { env = e }))
  if_opened impl env (got txn, e) = commit_or_abort env e (impl txn)

  -- The common body of the writing calls, over the helper that each of them names.
  unfoldable pub in_write_txn :
      (T → StorageRc × T) → Option (StorageEnv E) → StorageRc × Option (StorageEnv E)
  in_write_txn impl none = (err_inval, none)
  in_write_txn impl (some env) = if_opened impl env (begin_write_txn env)

  abbrev pub if_begun :
      {A : Type 0}
      → (StorageRc → A)
      → (T → A)
      → StorageEnv E
      → StorageRc × T × E
      → A × Option (StorageEnv E)
  if_begun failed impl env (ok, txn, e) = (impl txn, some (record env { env = m.txn_abort txn e }))
  if_begun failed impl env (rc, txn, e) = (failed rc, some (record env { env = e }))

  -- The common body of the reading calls; `failed` is what they return before they read.
  unfoldable pub in_read_txn :
      {A : Type 0} → (StorageRc → A) → (T → A) → Option (StorageEnv E) → A × Option (StorageEnv E)
  in_read_txn failed impl none = (failed err_inval, none)
  in_read_txn failed impl (some env) = if_begun failed impl env (begin_read_txn env)
