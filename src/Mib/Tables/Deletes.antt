-- ===== src/Mib/Tables/Deletes.antt =====
-- A storage_delete that answers NOTFOUND, which the handlers of src/generated/demo_config_table.c take for
-- success.
use agentx_subagent.Prelude.{◌≡◌, ◌≢◌, refl, sym, ◌∙◌, ap, false, Option, none, some, Bytes, arith}
use agentx_subagent.Storage.Types.{StorageRc, ok, err_notfound}
use agentx_subagent.Storage.Lmdb.{Lmdb, LmdbLaws, NotFoundLaws, MdbRc, notfound}
use agentx_subagent.Storage.Codec.{Res, got, fail, map_mdb_rc, validate_key}
use agentx_subagent.Storage.Access.Blobs.{txn_delete_impl}
use agentx_subagent.Storage.Env.{
  StorageEnv, begin_write_txn, commit_write_txn, commit_or_abort, in_write_txn,
}
use agentx_subagent.Storage.Env.Writes.{begin_write_lem}
use agentx_subagent.Storage.Envs.{Envs, EnvRef, env_at}
use agentx_subagent.Storage.Ops.{storage_delete}
use agentx_subagent.Storage.Ops.Calls.{delete, perform}
use agentx_subagent.Mib.Values.{store}
use agentx_subagent.Mib.Values.Effects.{db, view_of}

map-notfound : (rc : MdbRc) → map_mdb_rc rc ≡ err_notfound → rc ≡ notfound
unfolding map_mdb_rc
map-notfound rc h = ground arith

module _ {E T C : Type 0} (m : Lmdb E T C) (L : LmdbLaws m) (K : NotFoundLaws m L) where
  begin-ne-notfound : (env : StorageEnv E) (e : E) → begin_write_txn m env ≢ (fail err_notfound, e)
  unfolding begin_write_txn map_mdb_rc
  begin-ne-notfound env e h =
      ground (arith, h, K.begin_other false env.env, map-notfound (m.txn_begin false env.env).0)

  commit-ne-notfound : (txn : T) (e : E) → (commit_write_txn m txn e).0 ≢ err_notfound
  unfolding commit_write_txn
  commit-ne-notfound txn e h = K.commit_other txn e (map-notfound (m.txn_commit txn e).0 h)

  finish_notfound :
      (env : StorageEnv E) (e : E) (r : StorageRc × T)
      → (commit_or_abort m env e r).0 ≡ err_notfound
      → r.0 ≡ err_notfound
  finish_notfound env e (ok, txn) h = absurd (commit-ne-notfound txn e h)
  finish_notfound env e (_, txn) h = h

  deleted_notfound :
      (txn : T) (key : Bytes)
      → validate_key (some key) ≡ got key
      → (txn_delete_impl m txn (some key)).0 ≡ err_notfound
      → L.txn_view txn key ≡ none
  unfolding txn_delete_impl
  deleted_notfound txn key valid h =
      K.del_notfound txn key (map-notfound (m.del txn key).0 (rw valid at h))

  delete_notfound :
      (env : StorageEnv E) (key : Bytes)
      → validate_key (some key) ≡ got key
      → (storage_delete m (some env) (some key)).0 ≡ err_notfound
      → L.env_view env.env key ≡ none
  unfolding storage_delete in_write_txn
  delete_notfound env key valid h = by_begin (begin_write_txn m env) refl
    where
      by_begin : (r : Res T × E) → begin_write_txn m env ≡ r → L.env_view env.env key ≡ none
      by_begin (fail rc, e) b =
          absurd (begin-ne-notfound env e (b ∙ ap (λ c. (fail c, e)) (rw b at h)))
      by_begin (got txn, e) b =
          sym (begin_write_lem m L env txn e b key).0
          ∙ deleted_notfound txn key valid (finish_notfound env e _ (rw b at h))

  -- The key was not there.
  pub store_delete-notfound :
      (ref : EnvRef) (key : Bytes) (envs : Envs E)
      → validate_key (some key) ≡ got key
      → (store m ref key delete envs).0 ≡ err_notfound
      → db m L envs ref key ≡ none
  unfolding store perform
  store_delete-notfound ref key envs valid h = by_env (env_at ref envs) refl
    where
      by_env : (o : Option (StorageEnv E)) → env_at ref envs ≡ o → view_of m L o key ≡ none
      by_env none e = refl
      by_env (some env) e = delete_notfound env key valid (rw e at h)
