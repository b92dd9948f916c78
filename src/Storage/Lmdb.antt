-- ===== src/Storage/Lmdb.antt =====
-- The part of LMDB that src/storage_lmdb.c calls, as an interface, and what its documentation
-- promises of it. `E` is the state of an MDB_env, `T` of an MDB_txn and `C` of an MDB_cursor.
use agentx_subagent.Prelude.{
  ℕ, ◌<◌, ◌≤◌, ◌+◌, ◌-◌, ◌≡◌, ◌≢◌, Bool, true, false, Option, none, some, Bytes, same, length,
  if◌then◌else◌,
}

-- The return codes that map_mdb_rc tells apart; `other` is any other non-zero int.
pub data MdbRc : Type 0 where
  success notfound map_full txn_full einval eacces eagain ebusy : MdbRc
  other : ℕ → MdbRc

-- The operations of mdb_cursor_get that the iterator uses: MDB_FIRST, MDB_NEXT, MDB_SET_RANGE.
pub data CursorOp : Type 0 where
  first next : CursorOp
  set_range : Bytes → CursorOp

pub record Stat : Type 0 where
  pub ms_psize : ℕ
  pub ms_branch_pages : ℕ
  pub ms_leaf_pages : ℕ
  pub ms_overflow_pages : ℕ
  pub ms_entries : ℕ

-- One field for each function of lmdb.h. What it writes through a pointer comes back beside the
-- return code, and means something only where the code is `success`.
pub record Lmdb (E T C : Type 0) : Type 0 where
  pub txn_begin : Bool → E → MdbRc × T × E
  pub txn_commit : T → E → MdbRc × E
  pub txn_abort : T → E → E
  pub get : T → Bytes → MdbRc × Bytes
  pub put : T → Bytes → Bytes → MdbRc × T
  pub del : T → Bytes → MdbRc × T
  pub env_sync : Bool → E → MdbRc × E
  pub stat : T → MdbRc × Stat
  pub cursor_open : T → MdbRc × C
  pub cursor_get : CursorOp → C → MdbRc × Bytes × C
  pub cursor_close : C → T → T

-- LMDB takes keys of 1 to 511 bytes.
abbrev pub IsMdbKey : Bytes → Type 0
IsMdbKey k = (0 < length k) × (length k ≤ 511)

-- The database as a map from keys to values: the committed one, and the one that a transaction sees.
pub record LmdbLaws {E T C : Type 0} (m : Lmdb E T C) : Type 0 where
  pub env_view : E → Bytes → Option Bytes
  pub txn_view : T → Bytes → Option Bytes
  -- a transaction starts from the committed database, and starting one commits nothing
  pub begin_snapshot :
      (ro : Bool) (e : E) (k : Bytes)
      → (m.txn_begin ro e).0 ≡ success
      → txn_view (m.txn_begin ro e).1 k ≡ env_view e k
  pub begin_keeps : (ro : Bool) (e : E) (k : Bytes) → env_view (m.txn_begin ro e).2 k ≡ env_view e k
  pub get_found :
      (t : T) (k v : Bytes) → IsMdbKey k → txn_view t k ≡ some v → m.get t k ≡ (success, v)
  pub get_missing :
      (t : T) (k : Bytes) → IsMdbKey k → txn_view t k ≡ none → (m.get t k).0 ≡ notfound
  pub put_stores :
      (t : T) (k v j : Bytes)
      → (m.put t k v).0 ≡ success
      → txn_view (m.put t k v).1 j ≡ (if same k j then some v else txn_view t j)
  pub del_removes :
      (t : T) (k j : Bytes)
      → (m.del t k).0 ≡ success
      → txn_view (m.del t k).1 j ≡ (if same k j then none else txn_view t j)
  pub del_missing :
      (t : T) (k : Bytes) → IsMdbKey k → txn_view t k ≡ none → (m.del t k).0 ≡ notfound
  -- `writing t e`: `t` is the write transaction that is in progress in `e`
  pub writing : T → E → Bool
  pub begin_writing :
      (e : E)
      → (m.txn_begin false e).0 ≡ success
      → writing (m.txn_begin false e).1 (m.txn_begin false e).2 ≡ true
  pub put_writing : (t : T) (k v : Bytes) (e : E) → writing (m.put t k v).1 e ≡ writing t e
  pub del_writing : (t : T) (k : Bytes) (e : E) → writing (m.del t k).1 e ≡ writing t e
  -- the commit of a write transaction publishes all of it or, when it fails, nothing; an abort
  -- publishes nothing
  pub commit_publishes :
      (t : T) (e : E) (k : Bytes)
      → writing t e ≡ true
      → (m.txn_commit t e).0 ≡ success
      → env_view (m.txn_commit t e).1 k ≡ txn_view t k
  pub commit_fails :
      (t : T) (e : E) (k : Bytes)
      → (m.txn_commit t e).0 ≢ success
      → env_view (m.txn_commit t e).1 k ≡ env_view e k
  pub abort_keeps : (t : T) (e : E) (k : Bytes) → env_view (m.txn_abort t e) k ≡ env_view e k

-- MDB_NOTFOUND is what LMDB answers to a lookup or a delete of a key that is not there, and to nothing
-- else.
pub record NotFoundLaws {E T C : Type 0} (m : Lmdb E T C) (L : LmdbLaws m) : Type 0 where
  pub begin_other : (ro : Bool) (e : E) → (m.txn_begin ro e).0 ≢ notfound
  pub commit_other : (t : T) (e : E) → (m.txn_commit t e).0 ≢ notfound
  pub del_notfound : (t : T) (k : Bytes) → (m.del t k).0 ≡ notfound → L.txn_view t k ≡ none

-- How many transactions of an environment are not ended yet: mdb_txn_begin starts one only where it
-- succeeds, and mdb_txn_abort and mdb_txn_commit, whether it succeeds or not, end one.
pub record TxnLaws {E T C : Type 0} (m : Lmdb E T C) : Type 0 where
  pub open_txns : E → ℕ
  pub begin_opens :
      (ro : Bool) (e : E)
      → (m.txn_begin ro e).0 ≡ success
      → open_txns (m.txn_begin ro e).2 ≡ open_txns e + 1
  pub begin_refused :
      (ro : Bool) (e : E)
      → (m.txn_begin ro e).0 ≢ success
      → open_txns (m.txn_begin ro e).2 ≡ open_txns e
  pub commit_ends : (t : T) (e : E) → open_txns (m.txn_commit t e).1 ≡ open_txns e - 1
  pub abort_ends : (t : T) (e : E) → open_txns (m.txn_abort t e) ≡ open_txns e - 1
