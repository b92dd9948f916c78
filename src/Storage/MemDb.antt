-- ===== src/Storage/MemDb.antt =====
-- A database in memory that meets what is assumed of LMDB. It models no code: the concrete runs of
-- src/storage_lmdb.c and src/table_rows.c use it.
pub mod Laws
pub mod Counted
use agentx_subagent.Prelude.{
  ℕ, ◌≡◌, refl, Bool, true, false, Option, none, some, List, [], ◌∷◌, ◌++◌, Bytes, same,
  if◌then◌else◌, length,
}
use agentx_subagent.Storage.Lmdb.{
  Lmdb, MdbRc, success, notfound, CursorOp, first, next, set_range, Stat,
}
use agentx_subagent.Storage.Iter.Keys.{bytes_lt, from_key}

-- The newest entry of a key counts.
abbrev pub Entries : Type 0
Entries = List (Bytes × Bytes)

pub record MemCursor : Type 0 where
  pub all : List Bytes
  pub rest : List Bytes

unfoldable pub find : Bytes → Entries → Option Bytes
find k [] = none
find k ((j, v) ∷ es) = let rest = find k es in if same j k then some v else rest

unfoldable pub without : Bytes → Entries → Entries
without k [] = []
without k ((j, v) ∷ es) = let rest = without k es in if same j k then rest else (j, v) ∷ rest

unfoldable pub insert_key : Bytes → List Bytes → List Bytes
insert_key x [] = x ∷ []
insert_key x (k ∷ ks) =
    let rest = insert_key x ks in
    if bytes_lt x k then x ∷ k ∷ ks else if bytes_lt k x then k ∷ rest else k ∷ ks

unfoldable pub sorted_keys : Entries → List Bytes
unfolding insert_key bytes_lt
sorted_keys [] = []
sorted_keys ((k, v) ∷ es) = insert_key k (sorted_keys es)

abbrev found_value : Option Bytes → MdbRc × Bytes
found_value none = (notfound, [])
found_value (some v) = (success, v)

abbrev removed : Bytes → Entries → Option Bytes → MdbRc × Entries
removed k t none = (notfound, t)
removed k t (some v) = (success, without k t)

abbrev moved : List Bytes → List Bytes → MdbRc × Bytes × MemCursor
moved all [] = (notfound, [], record { all = all; rest = [] })
moved all (k ∷ ks) = (success, k, record { all = all; rest = ks })

abbrev cursor_move : CursorOp → MemCursor → MdbRc × Bytes × MemCursor
cursor_move first c = moved c.all c.all
cursor_move next c = moved c.all c.rest
cursor_move (set_range p) c = moved c.all (from_key p c.all)

unfoldable pub mem_lmdb : Lmdb Entries Entries MemCursor
unfolding find without sorted_keys from_key
mem_lmdb = record {
  txn_begin = λ ro e. (success, e, e);
  txn_commit = λ t e. (success, t);
  txn_abort = λ t e. e;
  get = λ t k. found_value (find k t);
  put = λ t k v. (success, (k, v) ∷ t);
  del = λ t k. removed k t (find k t);
  env_sync = λ force e. (success, e);
  stat = λ t. (
    success,
    record {
      ms_psize = 4096;
      ms_branch_pages = 0;
      ms_leaf_pages = 1;
      ms_overflow_pages = 0;
      ms_entries = length (sorted_keys t);
    },
  );
  cursor_open = λ t. (success, record { all = sorted_keys t; rest = sorted_keys t });
  cursor_get = cursor_move;
  cursor_close = λ c t. t;
}
