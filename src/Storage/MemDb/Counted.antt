-- ===== src/Storage/MemDb/Counted.antt =====
-- The database in memory together with the number of its open transactions. It models no code: the
-- concrete runs of src/main.c use it.
use agentx_subagent.Prelude.{true, ℕ, ◌+◌, ◌-◌, ◌≡◌, refl, Bytes}
use agentx_subagent.Storage.Lmdb.{Lmdb, LmdbLaws, TxnLaws, success}
use agentx_subagent.Storage.MemDb.{Entries, MemCursor, find, mem_lmdb}
use agentx_subagent.Storage.MemDb.Laws.{mem_laws}

pub record Counted : Type 0 where
  pub entries : Entries
  pub open_txns : ℕ

unfoldable pub counted_lmdb : Lmdb Counted Entries MemCursor
unfolding mem_lmdb
counted_lmdb = record {
  txn_begin = λ ro e. (success, e.entries, record e { open_txns = e.open_txns + 1 });
  txn_commit = λ t e. (success, record { entries = t; open_txns = e.open_txns - 1 });
  txn_abort = λ t e. record e { open_txns = e.open_txns - 1 };
  get = mem_lmdb.get;
  put = mem_lmdb.put;
  del = mem_lmdb.del;
  env_sync = λ force e. (success, e);
  stat = mem_lmdb.stat;
  cursor_open = mem_lmdb.cursor_open;
  cursor_get = mem_lmdb.cursor_get;
  cursor_close = mem_lmdb.cursor_close;
}

pub counted_laws : LmdbLaws counted_lmdb
unfolding counted_lmdb mem_lmdb mem_laws
counted_laws = record {
  env_view = λ e k. find k e.entries;
  txn_view = λ t k. find k t;
  begin_snapshot = λ ro e k h. refl;
  begin_keeps = λ ro e k. refl;
  get_found = mem_laws.get_found;
  get_missing = mem_laws.get_missing;
  put_stores = mem_laws.put_stores;
  del_removes = mem_laws.del_removes;
  del_missing = mem_laws.del_missing;
  writing = λ t e. true;
  begin_writing = λ e h. refl;
  put_writing = λ t k v e. refl;
  del_writing = λ t k e. refl;
  commit_publishes = λ t e k w h. refl;
  commit_fails = λ t e k h. absurd (h refl);
  abort_keeps = λ t e k. refl;
}

unfoldable pub counted_txns : TxnLaws counted_lmdb
unfolding counted_lmdb
counted_txns = record {
  open_txns = λ e. e.open_txns;
  begin_opens = λ ro e h. refl;
  begin_refused = λ ro e h. absurd (h refl);
  commit_ends = λ t e. refl;
  abort_ends = λ t e. refl;
}

pub counted_view : (e : Counted) (k : Bytes) → counted_laws.env_view e k ≡ find k e.entries
unfolding counted_laws
counted_view e k = refl
