-- ===== src/Storage/Iter.antt =====
-- Prefix iteration, storage_env_stat and storage_strerror of src/storage_lmdb.c.
pub mod Keys
pub mod Scan
use agentx_subagent.Prelude.{
  ℕ, ◌+◌, ◌*◌, ◌%◌, ◌^◌, Bool, true, false, not, ◌&&◌, ◌||◌, Option, none, some, List, [], ◌∷◌,
  Bytes, text, same, length, take, ltb, ◌==◌, if◌then◌else◌,
}
use agentx_subagent.Storage.Types.{
  StorageRc, ok, err_notfound, err_type, err_inval, err_toobig, err_full, err_busy, err_io,
  err_readonly, key_max,
}
use agentx_subagent.Storage.Lmdb.{Lmdb, MdbRc, success, CursorOp, first, next, set_range, Stat}
use agentx_subagent.Storage.Codec.{map_mdb_rc}
use agentx_subagent.Storage.Env.{StorageEnv, begin_read_txn, in_read_txn}

-- struct storage_iter
pub record StorageIter (T C : Type 0) : Type 0 where
  pub txn : T
  pub cursor : C
  pub prefix : Bytes
  pub started : Bool
  pub exhausted : Bool

-- strlen of a string that may be NULL
abbrev pub string_of : Option Bytes → Bytes
string_of none = []
string_of (some s) = s

-- `mv_size < prefix_len || memcmp(mv_data, prefix, prefix_len) != 0`, the second half read only
-- where the first fails
unfoldable pub lacks_prefix : Bytes → Bytes → Bool
lacks_prefix prefix key =
    ltb (length key) (length prefix) || not (same (take (length prefix) key) prefix)

module _ {E T C : Type 0} (m : Lmdb E T C) where
  abbrev cursor_opened :
      StorageEnv E
      → Bytes
      → T
      → E
      → MdbRc × C
      → (StorageRc × Option (StorageIter T C)) × Option (StorageEnv E)
  cursor_opened env prefix txn e (success, cursor) = (
    (
      ok,
      some (record {
        txn = txn;
        cursor = cursor;
        prefix = prefix;
        started = false;
        exhausted = false;
      }),
    ),
    some (record env { env = e }),
  )
  cursor_opened env prefix txn e (rc, cursor) =
      ((map_mdb_rc rc, none), some (record env { env = m.txn_abort txn e }))

  abbrev iter_begun :
      StorageEnv E
      → Bytes
      → StorageRc × T × E
      → (StorageRc × Option (StorageIter T C)) × Option (StorageEnv E)
  iter_begun env prefix (ok, txn, e) = cursor_opened env prefix txn e (m.cursor_open txn)
  iter_begun env prefix (rc, txn, e) = ((rc, none), some (record env { env = e }))

  -- `out` says whether the out pointer is not NULL, `mem` whether calloc succeeds.
  unfoldable pub storage_iter_open :
      (mem : Bool)
      → Option (StorageEnv E)
      → Option Bytes
      → (out : Bool) → (StorageRc × Option (StorageIter T C)) × Option (StorageEnv E)
  storage_iter_open mem none prefix out = ((err_inval, none), none)
  storage_iter_open mem (some env) prefix false = ((err_inval, none), some env)
  storage_iter_open mem (some env) prefix true =
      if ltb key_max (length (string_of prefix))
      then ((err_toobig, none), some env)
      else if not mem
      then ((err_io, none), some env)
      else iter_begun env (string_of prefix) (begin_read_txn m env)

  -- The cursor operation of a call.
  abbrev pub step_op : StorageIter T C → CursorOp
  step_op it =
      if it.started then next else if length it.prefix == 0 then first else set_range it.prefix

  -- What mdb_cursor_get answered, for an iterator that is marked as started.
  abbrev pub advanced :
      StorageIter T C → MdbRc × Bytes × C → (StorageRc × Option Bytes) × StorageIter T C
  advanced it (success, key, c) =
      if not (length it.prefix == 0) && lacks_prefix it.prefix key
      then ((err_notfound, none), record it { cursor = c; exhausted = true })
      else ((ok, some key), record it { cursor = c })
  advanced it (MdbRc.notfound, key, c) =
      ((map_mdb_rc MdbRc.notfound, none), record it { cursor = c; exhausted = true })
  advanced it (rc, key, c) = ((map_mdb_rc rc, none), record it { cursor = c })

  -- The key that *key and *keylen get; `none` leaves them as they are.
  unfoldable pub iter_next : StorageIter T C → (StorageRc × Option Bytes) × StorageIter T C
  unfolding lacks_prefix map_mdb_rc
  iter_next it =
      if it.exhausted
      then ((err_notfound, none), it)
      else advanced (record it { started = true }) (m.cursor_get (step_op it) it.cursor)

  -- `out` says whether both out pointers are not NULL.
  unfoldable pub storage_iter_next :
      Option (StorageIter T C)
      → (out : Bool) → (StorageRc × Option Bytes) × Option (StorageIter T C)
  storage_iter_next none out = ((err_inval, none), none)
  storage_iter_next (some it) false = ((err_inval, none), some it)
  storage_iter_next (some it) true = let (r, it') = iter_next it in (r, some it')

  unfoldable pub storage_iter_close : Option (StorageIter T C) → E → E
  storage_iter_close none e = e
  storage_iter_close (some it) e = m.txn_abort (m.cursor_close it.cursor it.txn) e

  abbrev pub stat_out : MdbRc × Stat → StorageRc × Option (ℕ × ℕ)
  stat_out (success, s) =
      let pages = (s.ms_branch_pages + s.ms_leaf_pages + s.ms_overflow_pages) % 2 ^ 64 in
      (ok, some (s.ms_entries, pages * s.ms_psize % 2 ^ 64))
  stat_out (rc, s) = (map_mdb_rc rc, none)

  abbrev pub no_stat : StorageRc → StorageRc × Option (ℕ × ℕ)
  no_stat rc = (rc, none)

  -- What *entries and *bytes_used get, where these are not NULL.
  unfoldable pub storage_env_stat :
      Option (StorageEnv E) → (StorageRc × Option (ℕ × ℕ)) × Option (StorageEnv E)
  storage_env_stat env = in_read_txn m no_stat (λ txn. stat_out (m.stat txn)) env

unfoldable pub storage_strerror : StorageRc → Bytes
storage_strerror ok = text "ok"
storage_strerror err_notfound = text "key not found"
storage_strerror err_type = text "type mismatch"
storage_strerror err_inval = text "invalid argument"
storage_strerror err_toobig = text "buffer or key too big"
storage_strerror err_full = text "map or transaction full"
storage_strerror err_busy = text "writer lock contended"
storage_strerror err_io = text "i/o error"
storage_strerror err_readonly = text "read-only environment"
