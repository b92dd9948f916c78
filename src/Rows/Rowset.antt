-- ===== src/Rows/Rowset.antt =====
-- Rowsets of src/table_rows.c: the rows of a table, found by a scan for each column.
pub mod Sorted
pub mod Load
pub mod Union
pub mod Total
use Prim.Native.Nat.{Ordering}
use agentx_subagent.Prelude.{
  ℕ, zero, suc, ◌+◌, ◌*◌, ◌<◌, Bool, true, false, not, ◌&&◌, ◌||◌, Option, none, some, List, [],
  ◌∷◌, ◌++◌, Bytes, length, get_elem?, drop, ltb, leb, ◌==◌, if◌then◌else◌,
}
use agentx_subagent.Storage.Types.{
  StorageRc, ok, err_notfound, err_inval, err_toobig, err_io, key_max,
}
use agentx_subagent.Storage.Lmdb.{Lmdb}
use agentx_subagent.Storage.Codec.{Res, got, fail}
use agentx_subagent.Storage.Env.{StorageEnv}
use agentx_subagent.Storage.Iter.{StorageIter, iter_next, storage_iter_open, storage_iter_close}
use agentx_subagent.Storage.Envs.{Envs, EnvRef, null, config, cache, env_at, set_env}
use agentx_subagent.Rows.Instance.{TableInstance, table_instance_parse, table_instance_compare}

-- struct table_rowset; `rows` is the front of the array that `count` covers.
pub record TableRowset : Type 0 where
  pub rows : List TableInstance
  pub capacity : ℕ
  pub skipped : ℕ

-- calloc's zeroed set
abbrev pub empty_rowset : TableRowset
empty_rowset = record { rows = []; capacity = 0; skipped = 0 }

pub record TableColumnRef : Type 0 where
  pub env : EnvRef
  pub column : Option Bytes

-- `mem n` says whether realloc to `n` rows succeeds.
unfoldable pub rowset_push : (ℕ → Bool) → TableRowset → TableInstance → StorageRc × TableRowset
rowset_push mem rs inst =
    if length rs.rows == rs.capacity
    then (let next = if rs.capacity == 0 then 16 else rs.capacity * 2 in
        if not (mem next)
        then (err_io, rs)
        else (ok, record rs { rows = rs.rows ++ (inst ∷ []); capacity = next }))
    else (ok, record rs { rows = rs.rows ++ (inst ∷ []) })

-- A key whose instance is not canonical is counted, any other becomes a row.
unfoldable pub take_key : (ℕ → Bool) → ℕ → Bytes → TableRowset → StorageRc × TableRowset
take_key mem prefix_len key rs = elim (table_instance_parse (some (drop prefix_len key)) true) [
  | fail rc ↦ (ok, record rs { skipped = suc rs.skipped })
  | got inst ↦ rowset_push mem rs inst
]

-- How a round of the loop in rowset_load_column ends: by the next round, or by leaving the loop.
pub data Round (I : Type 0) : Type 0 where
  again : I → TableRowset → Round I
  leave : StorageRc → I → TableRowset → Round I

module _ {E T C : Type 0} (m : Lmdb E T C) (mem : ℕ → Bool) where
  abbrev pub stored : StorageIter T C → StorageRc × TableRowset → Round (StorageIter T C)
  stored it (ok, rs) = again it rs
  stored it (rc, rs) = leave rc it rs

  -- A successful storage_iter_next has set *key.
  abbrev pub keyed :
      ℕ → TableRowset → (StorageRc × Option Bytes) × StorageIter T C → Round (StorageIter T C)
  keyed prefix_len rs ((ok, some key), it) = stored it (take_key mem prefix_len key rs)
  keyed prefix_len rs ((ok, none), it) = leave ok it rs
  keyed prefix_len rs ((err_notfound, key), it) = leave ok it rs
  keyed prefix_len rs ((rc, key), it) = leave rc it rs

  -- `for (;;)` of rowset_load_column, for at most `fuel` rounds; `none` means that these were too
  -- few.
  unfoldable pub load_loop :
      ℕ → ℕ → StorageIter T C → TableRowset → Option (StorageRc × StorageIter T C × TableRowset)
  load_loop zero prefix_len it rs = none
  load_loop (suc fuel) prefix_len it rs = elim (keyed prefix_len rs (iter_next m it)) [
    | again it' rs' ↦ load_loop fuel prefix_len it' rs'
    | leave rc it' rs' ↦ some (rc, it', rs')
  ]

  -- storage_iter_close; an iterator that was opened has an environment.
  abbrev pub closed :
      EnvRef
      → Envs E
      → Option (StorageEnv E)
      → Option (StorageRc × StorageIter T C × TableRowset)
      → Option (StorageRc × Envs E × TableRowset)
  closed ref envs none none = none
  closed ref envs none (some (rc, it, rs)) = some (rc, envs, rs)
  closed ref envs (some env) none = none
  closed ref envs (some env) (some (rc, it, rs)) = some (
    rc,
    set_env ref (some (record env { env = storage_iter_close m (some it) env.env })) envs,
    rs,
  )

  abbrev pub scanned :
      ℕ
      → ℕ
      → EnvRef
      → Envs E
      → TableRowset
      → (StorageRc × Option (StorageIter T C)) × Option (StorageEnv E)
      → Option (StorageRc × Envs E × TableRowset)
  scanned fuel prefix_len ref envs rs ((ok, some it), env) =
      closed ref envs env (load_loop fuel prefix_len it rs)
  scanned fuel prefix_len ref envs rs ((rc, it), env) = some (rc, set_env ref env envs, rs)

  -- The prefix buffer holds STORAGE_KEY_MAX + 2 bytes; `calloc` says whether the iterator could be
  -- allocated.
  abbrev pub load_prefix :
      (calloc : Bool)
      → ℕ
      → EnvRef
      → Bytes
      → Envs E
      → TableRowset
      → Option (StorageRc × Envs E × TableRowset)
  load_prefix calloc fuel ref prefix envs rs =
      if leb (key_max + 2) (length prefix)
      then some (err_toobig, envs, rs)
      else scanned fuel (length prefix) ref envs rs
          (storage_iter_open m calloc (env_at ref envs) (some prefix) true)

  abbrev load_named :
      (calloc : Bool)
      → ℕ
      → EnvRef
      → Option (StorageEnv E)
      → Option Bytes
      → Envs E
      → TableRowset
      → Option (StorageRc × Envs E × TableRowset)
  load_named calloc fuel ref none column envs rs = some (err_inval, envs, rs)
  load_named calloc fuel ref (some env) none envs rs = some (err_inval, envs, rs)
  load_named calloc fuel ref (some env) (some []) envs rs = some (err_inval, envs, rs)
  load_named calloc fuel ref (some env) (some (c ∷ cs)) envs rs =
      load_prefix calloc fuel ref ((c ∷ cs) ++ (b'.' ∷ [])) envs rs

  unfoldable pub rowset_load_column :
      (calloc : Bool)
      → ℕ
      → TableColumnRef
      → Envs E
      → TableRowset
      → Option (StorageRc × Envs E × TableRowset)
  rowset_load_column calloc fuel col envs rs =
      load_named calloc fuel col.env (env_at col.env envs) col.column envs rs

-- qsort by compare_instances. Instances that compare equal are equal, so any sort has this result.
unfoldable pub insert_row : TableInstance → List TableInstance → List TableInstance
insert_row x [] = x ∷ []
insert_row x (y ∷ ys) =
    let deeper = y ∷ insert_row x ys in
    elim (table_instance_compare x y) [ Ordering.gt ↦ deeper | _ ↦ x ∷ y ∷ ys ]

unfoldable pub sort_rows : List TableInstance → List TableInstance
sort_rows [] = []
sort_rows (x ∷ xs) = insert_row x (sort_rows xs)

-- The de-duplication pass behind rows[unique - 1], which is `last`.
unfoldable pub unique_from : TableInstance → List TableInstance → List TableInstance
unique_from last [] = last ∷ []
unique_from last (x ∷ xs) =
    let dropped = unique_from last xs in
    let kept = last ∷ unique_from x xs in
    elim (table_instance_compare x last) [ Ordering.eq ↦ dropped | _ ↦ kept ]

unfoldable pub unique_rows : List TableInstance → List TableInstance
unique_rows [] = []
unique_rows (x ∷ xs) = unique_from x xs

unfoldable pub sort_unique : List TableInstance → List TableInstance
sort_unique rows = if ltb 1 (length rows) then unique_rows (sort_rows rows) else rows

-- Allocation: `rowset` is the calloc of the set, `iters col` that of the column's iterator, `rows n`
-- the realloc to `n` rows.
pub record Memory : Type 0 where
  pub rowset : Bool
  pub iters : TableColumnRef → Bool
  pub rows : ℕ → Bool

-- `if (rc != STORAGE_OK) { table_rowset_free(rs); return rc; }`, then the columns that are left
abbrev pub next_column :
    {E : Type 0}
    → Option (StorageRc × Envs E × TableRowset)
    → (Envs E → TableRowset → Option (StorageRc × Envs E × TableRowset))
    → Option (StorageRc × Envs E × TableRowset)
next_column none others = none
next_column (some (ok, envs, rs)) others = others envs rs
next_column (some (rc, envs, rs)) others = some (rc, envs, rs)

module _ {E T C : Type 0} (m : Lmdb E T C) (mem : Memory) (fuel : ℕ) where
  -- The loop over the columns stops at the first that fails.
  unfoldable pub load_columns :
      List TableColumnRef → Envs E → TableRowset → Option (StorageRc × Envs E × TableRowset)
  load_columns [] envs rs = some (ok, envs, rs)
  load_columns (col ∷ cols) envs rs =
      next_column (rowset_load_column m mem.rows (mem.iters col) fuel col envs rs)
        (λ envs' rs'. load_columns cols envs' rs')

  abbrev loaded :
      Option (StorageRc × Envs E × TableRowset) → Option ((StorageRc × Option TableRowset) × Envs E)
  loaded none = none
  loaded (some (ok, envs, rs)) = some ((ok, some (record rs { rows = sort_unique rs.rows })), envs)
  loaded (some (rc, envs, rs)) = some ((rc, none), envs)

  -- `columns` is none for NULL; `out` says whether the out pointer is not NULL.
  unfoldable pub table_rowset_load :
      Option (List TableColumnRef)
      → (out : Bool) → Envs E
      → Option ((StorageRc × Option TableRowset) × Envs E)
  table_rowset_load none out envs = some ((err_inval, none), envs)
  table_rowset_load (some columns) out envs =
      if length columns == 0 || not out
      then some ((err_inval, none), envs)
      else if not mem.rowset
      then some ((err_io, none), envs)
      else loaded (load_columns columns envs empty_rowset)

unfoldable pub table_rowset_count : Option TableRowset → ℕ
table_rowset_count none = 0
table_rowset_count (some rs) = length rs.rows

unfoldable pub table_rowset_at : Option TableRowset → ℕ → Option TableInstance
table_rowset_at none index = none
table_rowset_at (some rs) index =
    if leb (length rs.rows) index then none else get_elem? rs.rows index

unfoldable pub table_rowset_skipped : Option TableRowset → ℕ
table_rowset_skipped none = 0
table_rowset_skipped (some rs) = rs.skipped
