-- ===== src/Rows/Rowset/Union.antt =====
-- table_rowset_load of src/table_rows.c as a whole: the rows are the sorted union of the columns' scans.
use agentx_subagent.Prelude.{
  ℕ, ◌≡◌, ◌≢◌, refl, ◌∙◌, ap, Bool, true, Option, none, some, List, [], ◌∷◌, ◌++◌, append_assoc,
  append-nil, Bytes, length, arith,
}
use agentx_subagent.Storage.Types.{StorageRc, ok}
use agentx_subagent.Storage.Lmdb.{Lmdb}
use agentx_subagent.Storage.Env.{StorageEnv, begin_read_txn}
use agentx_subagent.Storage.Envs.{Envs, EnvRef, env_at}
use agentx_subagent.Storage.Iter.{StorageIter, storage_iter_open}
use agentx_subagent.Storage.Iter.Keys.{CursorLaws, with_prefix}
use agentx_subagent.Storage.Iter.Scan.{upcoming, upcoming-iter_open, iter_open-ne}
use agentx_subagent.Rows.Instance.{TableInstance}
use agentx_subagent.Rows.Rowset.{
  TableRowset, empty_rowset, TableColumnRef, load_loop, load_prefix, load_named, scanned, closed,
  rowset_load_column, load_columns, next_column, loaded, table_rowset_load, Memory, sort_unique,
}
use agentx_subagent.Rows.Rowset.Sorted.{
  IsStrictlySorted, contains, sort_unique-IsStrictlySorted, contains-sort_unique,
}
use agentx_subagent.Rows.Rowset.Load.{rows_of, Collects, load_loop_ok}

module _ {E T C : Type 0} (m : Lmdb E T C) (L : CursorLaws m) where
  -- The rows that a column's cells name in the database that its environment shows to a reader.
  abbrev pub ScannedColumn : TableColumnRef → Envs E → List TableInstance → Type 0
  ScannedColumn col envs rows =
      (name : Bytes) × (env : StorageEnv E) × (col.column ≡ some name)
      × (env_at col.env envs ≡ some env)
      × (rows
          ≡ rows_of (length (name ++ (b'.' ∷ [])))
              (with_prefix (name ++ (b'.' ∷ [])) (L.keys (begin_read_txn m env).1)))

  module _ (mem : ℕ → Bool) (room : (n : ℕ) → mem n ≡ true) where
    loop_lem :
        (fuel n : ℕ) (ref : EnvRef) (envs envs' : Envs E) (env : Option (StorageEnv E))
        (it : StorageIter T C) (rs rs' : TableRowset)
        (l : Option (StorageRc × StorageIter T C × TableRowset))
        → load_loop m mem fuel n it rs ≡ l
        → closed m mem ref envs env l ≡ some (ok, envs', rs')
        → Collects n (upcoming m L it) rs rs'
    loop_lem fuel n ref envs envs' none it rs rs' none e h = cc
    loop_lem fuel n ref envs envs' none it rs rs' (some (rc, it', rs'')) e h =
        load_loop_ok m L mem room fuel n it rs it' rs' (e ∙ ground (arith, h))
    loop_lem fuel n ref envs envs' (some env) it rs rs' none e h = cc
    loop_lem fuel n ref envs envs' (some env) it rs rs' (some (rc, it', rs'')) e h =
        load_loop_ok m L mem room fuel n it rs it' rs' (e ∙ ground (arith, h))

    abbrev ScannedIter :
        ℕ → StorageRc × Option (StorageIter T C) → TableRowset → TableRowset → Type 0
    ScannedIter n r rs rs' =
        (it : StorageIter T C) × (r ≡ (ok, some it)) × Collects n (upcoming m L it) rs rs'

    scan_lem :
        (fuel n : ℕ) (ref : EnvRef) (envs envs' : Envs E)
        (r : (StorageRc × Option (StorageIter T C)) × Option (StorageEnv E)) (rs rs' : TableRowset)
        → r.0 ≢ (ok, none)
        → scanned m mem fuel n ref envs rs r ≡ some (ok, envs', rs')
        → ScannedIter n r.0 rs rs'
    scan_lem fuel n ref envs envs' ((ok, some it), env) rs rs' ne h = (
      it,
      refl,
      loop_lem fuel n ref envs envs' env it rs rs' (load_loop m mem fuel n it rs) refl h,
    )
    scan_lem fuel n ref envs envs' ((ok, none), env) rs rs' ne h = absurd (ne refl)
    scan_lem fuel n ref envs envs' ((_, it), env) rs rs' ne h = absurd (ground (arith, h))

    abbrev Adds : TableColumnRef → Envs E → TableRowset → TableRowset → Type 0
    Adds col envs rs rs' =
        (rows : List TableInstance) × (rs'.rows ≡ rs.rows ++ rows) × ScannedColumn col envs rows

    prefix_lem :
        (calloc : Bool) (fuel : ℕ) (ref : EnvRef) (name : Bytes) (envs envs' : Envs E)
        (env : StorageEnv E) (rs rs' : TableRowset)
        → env_at ref envs ≡ some env
        → load_prefix m mem calloc fuel ref (name ++ (b'.' ∷ [])) envs rs ≡ some (ok, envs', rs')
        → Adds (record { env = ref; column = some name }) envs rs rs'
    prefix_lem calloc fuel ref name envs envs' env rs rs' at h =
        let prefix : Bytes = name ++ (b'.' ∷ []) in
        let opened = storage_iter_open m calloc (some env) (some prefix) true in
        let scan : scanned m mem fuel (length prefix) ref envs rs opened ≡ some (ok, envs', rs') =
          ground (arith, at) in
        let (it, is, collects) =
          scan_lem fuel (length prefix) ref envs envs' opened rs rs'
            (iter_open-ne m calloc (some env) (some prefix)) scan in
        let range =
          upcoming-iter_open m L calloc env (some prefix) it opened.1
            (ap (λ (r : StorageRc × Option (StorageIter T C)). (r, opened.1)) is) in
        (
          rows_of (length prefix) (upcoming m L it),
          collects.0,
          (name, env, refl, at, ap (rows_of (length prefix)) range),
        )

    named_lem :
        (calloc : Bool) (fuel : ℕ) (ref : EnvRef) (env : Option (StorageEnv E))
        (column : Option Bytes) (envs envs' : Envs E) (rs rs' : TableRowset)
        → env_at ref envs ≡ env
        → load_named m mem calloc fuel ref env column envs rs ≡ some (ok, envs', rs')
        → Adds (record { env = ref; column = column }) envs rs rs'
    named_lem calloc fuel ref none column envs envs' rs rs' at h = absurd (ground (arith, h))
    named_lem calloc fuel ref (some env) none envs envs' rs rs' at h = absurd (ground (arith, h))
    named_lem calloc fuel ref (some env) (some []) envs envs' rs rs' at h =
        absurd (ground (arith, h))
    named_lem calloc fuel ref (some env) (some (c ∷ cs)) envs envs' rs rs' at h =
        prefix_lem calloc fuel ref (c ∷ cs) envs envs' env rs rs' at h

    -- A column that loads adds the rows that its cells name, in the order of its keys.
    pub rowset_load_column_lem :
        (calloc : Bool) (fuel : ℕ) (col : TableColumnRef) (envs envs' : Envs E)
        (rs rs' : TableRowset)
        → rowset_load_column m mem calloc fuel col envs rs ≡ some (ok, envs', rs')
        → Adds col envs rs rs'
    unfolding rowset_load_column
    rowset_load_column_lem calloc fuel col envs envs' rs rs' h =
        named_lem calloc fuel col.env (env_at col.env envs) col.column envs envs' rs rs' refl h

  next_column_lem :
      (r : Option (StorageRc × Envs E × TableRowset))
      (others : Envs E → TableRowset → Option (StorageRc × Envs E × TableRowset)) (envs' : Envs E)
      (rs' : TableRowset)
      → next_column r others ≡ some (ok, envs', rs')
      → (envs'' : Envs E) × (rs'' : TableRowset) × (r ≡ some (ok, envs'', rs''))
        × (others envs'' rs'' ≡ some (ok, envs', rs'))
  next_column_lem none others envs' rs' h = absurd (ground (arith, h))
  next_column_lem (some (ok, envs'', rs'')) others envs' rs' h = (envs'', rs'', refl, h)
  next_column_lem (some (_, envs'', rs'')) others envs' rs' h = absurd (ground (arith, h))

  module _ (mem : Memory) (room : (n : ℕ) → mem.rows n ≡ true) (fuel : ℕ) where
    -- The rows of the columns one after the other; each column is read after the ones before it.
    abbrev pub Scanned : List TableColumnRef → Envs E → List TableInstance → Type 0
    Scanned [] envs rows = rows ≡ []
    Scanned (col ∷ cols) envs rows =
        (here : List TableInstance) × (there : List TableInstance) × (envs' : Envs E)
        × (before : TableRowset) × (after : TableRowset) × (rowset_load_column m mem.rows
              (mem.iters col) fuel col envs before
            ≡ some (ok, envs', after))
        × (rows ≡ here ++ there)
        × ScannedColumn col envs here
        × Scanned cols envs' there

    columns_step :
        (col : TableColumnRef) (cols : List TableColumnRef) (envs envs' : Envs E)
        (rs rs' : TableRowset)
        → load_columns m mem fuel (col ∷ cols) envs rs ≡ some (ok, envs', rs')
        → (envs'' : Envs E) × (rs'' : TableRowset) × (rowset_load_column m mem.rows
              (mem.iters col)
              fuel
              col
              envs
              rs
            ≡ some (ok, envs'', rs''))
          × (load_columns m mem fuel cols envs'' rs'' ≡ some (ok, envs', rs'))
    unfolding load_columns
    columns_step col cols envs envs' rs rs' h =
        next_column_lem (rowset_load_column m mem.rows (mem.iters col) fuel col envs rs)
          (λ e r. load_columns m mem fuel cols e r) envs' rs' h

    columns_lem :
        (cols : List TableColumnRef) (envs envs' : Envs E) (rs rs' : TableRowset)
        → load_columns m mem fuel cols envs rs ≡ some (ok, envs', rs')
        → (rows : List TableInstance) × (rs'.rows ≡ rs.rows ++ rows) × Scanned cols envs rows
    columns_lem [] envs envs' rs rs' h =
        ([], unfold load_columns in ground (arith, append-nil rs.rows), refl)
    columns_lem (col ∷ cols) envs envs' rs rs' h =
        let (envs'', rs'', first_col, others) = columns_step col cols envs envs' rs rs' h in
        let (here, added, column) =
          rowset_load_column_lem mem.rows room (mem.iters col) fuel col envs envs'' rs rs''
            first_col in
        let (there, added', columns) = columns_lem cols envs'' envs' rs'' rs' others in
        (
          here ++ there,
          added' ∙ ap (λ r. r ++ there) added ∙ append_assoc rs.rows here there,
          (here, there, envs'', rs, rs'', first_col, refl, column, columns),
        )

    loaded_lem :
        (l : Option (StorageRc × Envs E × TableRowset)) (envs' : Envs E) (rs : TableRowset)
        → loaded m mem fuel l ≡ some ((ok, some rs), envs')
        → (all : TableRowset) × (l ≡ some (ok, envs', all)) × (rs.rows ≡ sort_unique all.rows)
    loaded_lem none envs' rs h = absurd (ground (arith, h))
    loaded_lem (some (ok, envs, all)) envs' rs h = (all, ground (arith, h), ground (arith, h))
    loaded_lem (some (_, envs, all)) envs' rs h = absurd (ground (arith, h))

    -- If table_rowset_load succeeds and the reallocations do, its rows are strictly ascending,
    -- and they are exactly the instances that the canonical keys of the columns name: each column
    -- is scanned in the database that its environment shows a read transaction when its turn
    -- comes. The cursors meet LMDB's laws.
    pub table_rowset_load_lem :
        (columns : List TableColumnRef) (envs envs' : Envs E) (rs : TableRowset)
        → table_rowset_load m mem fuel (some columns) true envs ≡ some ((ok, some rs), envs')
        → (rows : List TableInstance) × Scanned columns envs rows
          × IsStrictlySorted rs.rows
          × ((z : TableInstance) → contains z rs.rows ≡ contains z rows)
    unfolding table_rowset_load
    table_rowset_load_lem columns envs envs' rs h =
        let done : loaded m mem fuel (load_columns m mem fuel columns envs empty_rowset)
            ≡ some ((ok, some rs), envs') =
          ground (arith, h) in
        let (all, loads, sorted) =
          loaded_lem (load_columns m mem fuel columns envs empty_rowset) envs' rs done in
        let (rows, added, scans) = columns_lem columns envs envs' empty_rowset all loads in
        (
          rows,
          scans,
          rw sorted (sort_unique-IsStrictlySorted all.rows),
          λ z. rw sorted (contains-sort_unique z all.rows ∙ ap (contains z) added),
        )
