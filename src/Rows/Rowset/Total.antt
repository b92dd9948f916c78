-- ===== src/Rows/Rowset/Total.antt =====
-- table_rowset_load of src/table_rows.c always ends: each round of its scans uses up a key.
use agentx_subagent.Prelude.{
  ℕ, zero, suc, ◌+◌, ◌<◌, ◌≤◌, ◌≡◌, ◌≢◌, ◌⊎◌, refl, ap, subst, Bool, true, Option, none, some, List,
  [], ◌∷◌, ◌++◌, Bytes, length, List-cases, leb, arith, Bool-cases, inl, inr,
}
use agentx_subagent.Storage.Types.{StorageRc, ok, key_max}
use agentx_subagent.Storage.Lmdb.{Lmdb}
use agentx_subagent.Storage.Env.{StorageEnv, begin_read_txn}
use agentx_subagent.Storage.Envs.{Envs, EnvRef, env_at}
use agentx_subagent.Storage.Iter.{StorageIter, iter_next, storage_iter_open, string_of}
use agentx_subagent.Storage.Iter.Keys.{CursorLaws, with_prefix}
use agentx_subagent.Storage.Iter.Scan.{upcoming, upcoming-iter_open, Yields, iter_next_lem}
use agentx_subagent.Rows.Rowset.{
  TableRowset, empty_rowset, TableColumnRef, Round, again, leave, take_key, keyed, stored,
  load_loop, load_named, scanned, closed, rowset_load_column, load_columns, next_column, loaded,
  table_rowset_load, Memory,
}

length-with_prefix : (p : Bytes) (ks : List Bytes) → length (with_prefix p ks) ≤ length ks
unfolding with_prefix
length-with_prefix p [] = omega arith
length-with_prefix p (k ∷ ks) = ground (arith, length-with_prefix p ks)

module _ {E T C : Type 0} (m : Lmdb E T C) (L : CursorLaws m) (mem : ℕ → Bool) where
  -- The next round follows a call that yielded a key.
  again_inv :
      (n : ℕ) (rs rs' : TableRowset) (r : (StorageRc × Option Bytes) × StorageIter T C)
      (it' : StorageIter T C)
      → keyed m mem n rs r ≡ again it' rs'
      → (it' ≡ r.1) × ((k : Bytes) × (r.0 ≡ (ok, some k)))
  again_inv n rs rs' ((ok, some k), it) it' h = (by_store (take_key mem n k rs) h, (k, refl))
    where
      by_store : (s : StorageRc × TableRowset) → stored m mem it s ≡ again it' rs' → it' ≡ it
      by_store (ok, rs'') g = ground (arith, g)
      by_store (_, rs'') g = cc
  again_inv n rs rs' ((ok, none), it) it' h = absurd (ground (arith, h))
  again_inv n rs rs' ((_, k), it) it' h = absurd (ground (arith, h))

  shorter :
      (it : StorageIter T C) (k : Bytes)
      → (iter_next m it).0 ≡ (ok, some k)
      → length (upcoming m L (iter_next m it).1) < length (upcoming m L it)
  shorter it k h = elim (List-cases (upcoming m L it)) [
    | inl e ↦
        let step = subst (λ ks. Yields m L ks (iter_next m it)) e (iter_next_lem m L it) in
        absurd (ground (arith, h, step.0))
    | inr (j, ks, e) ↦
        let step = subst (λ ks. Yields m L ks (iter_next m it)) e (iter_next_lem m L it) in
        rw (e, step.1) (omega arith)
  ]

  round_cases :
      (r : Round (StorageIter T C))
      → ((it : StorageIter T C) × (rs : TableRowset) × (r ≡ again it rs))
        ⊎ ((rc : StorageRc) × (it : StorageIter T C) × (rs : TableRowset) × (r ≡ leave rc it rs))
  round_cases (again it rs) = inl (it, rs, refl)
  round_cases (leave rc it rs) = inr (rc, it, rs, refl)

  load_again_ne :
      (fuel n : ℕ) (it : StorageIter T C) (rs : TableRowset) {it' : StorageIter T C}
      {rs' : TableRowset}
      → keyed m mem n rs (iter_next m it) ≡ again it' rs'
      → load_loop m mem fuel n it' rs' ≢ none
      → load_loop m mem (suc fuel) n it rs ≢ none
  unfolding load_loop
  load_again_ne fuel n it rs e ne = rw (e, load_loop) ne

  load_leave_ne :
      (fuel n : ℕ) (it : StorageIter T C) (rs : TableRowset) {rc : StorageRc}
      {it' : StorageIter T C} {rs' : TableRowset}
      → keyed m mem n rs (iter_next m it) ≡ leave rc it' rs'
      → load_loop m mem (suc fuel) n it rs ≢ none
  unfolding load_loop
  load_leave_ne fuel n it rs e = rw (e, load_loop) (λ p. cc)

  load_loop_total :
      (fuel n : ℕ) (it : StorageIter T C) (rs : TableRowset)
      → length (upcoming m L it) < fuel
      → load_loop m mem fuel n it rs ≢ none
  load_loop_total zero n it rs h = absurd (omega arith)
  load_loop_total (suc fuel) n it rs h = elim (round_cases (keyed m mem n rs (iter_next m it))) [
    | inl (it', rs', e) ↦
        let (moved, (k, yielded)) = again_inv n rs rs' (iter_next m it) it' e in
        load_again_ne fuel n it rs e
          (load_loop_total fuel n it' rs' (rw moved (omega (arith, shorter it k yielded))))
    | inr (rc, it', rs', e) ↦ load_leave_ne fuel n it rs e
  ]

  closed_total :
      (ref : EnvRef) (envs : Envs E) (env : Option (StorageEnv E))
      (l : Option (StorageRc × StorageIter T C × TableRowset))
      → l ≢ none
      → closed m mem ref envs env l ≢ none
  closed_total ref envs none none ne = λ p. ne refl
  closed_total ref envs none (some (rc, it, rs)) ne = λ p. cc
  closed_total ref envs (some env) none ne = λ p. ne refl
  closed_total ref envs (some env) (some (rc, it, rs)) ne = λ p. cc

  scanned_total :
      (fuel n : ℕ) (ref : EnvRef) (envs : Envs E)
      (r : (StorageRc × Option (StorageIter T C)) × Option (StorageEnv E)) (rs : TableRowset)
      → ((it : StorageIter T C) → r.0 ≡ (ok, some it) → length (upcoming m L it) < fuel)
      → scanned m mem fuel n ref envs rs r ≢ none
  scanned_total fuel n ref envs ((ok, some it), env) rs enough =
      closed_total ref envs env (load_loop m mem fuel n it rs)
        (load_loop_total fuel n it rs (enough it refl))
  scanned_total fuel n ref envs ((ok, none), env) rs enough = λ p. cc
  scanned_total fuel n ref envs ((_, it), env) rs enough = λ p. cc

  opened_few :
      (calloc : Bool) (fuel : ℕ) (env : StorageEnv E) (prefix : Option Bytes) (it : StorageIter T C)
      → ((t : T) → length (L.keys t) < fuel)
      → (storage_iter_open m calloc (some env) prefix true).0 ≡ (ok, some it)
      → length (upcoming m L it) < fuel
  opened_few calloc fuel env prefix it enough is =
      let opened = storage_iter_open m calloc (some env) prefix true in
      let range =
        upcoming-iter_open m L calloc env prefix it opened.1
          (ap (λ (r : StorageRc × Option (StorageIter T C)). (r, opened.1)) is) in
      rw range (
        omega (
          arith,
          enough (begin_read_txn m env).1,
          length-with_prefix (string_of prefix) (L.keys (begin_read_txn m env).1),
        ))

  named_total :
      (calloc : Bool) (fuel : ℕ) (ref : EnvRef) (env : Option (StorageEnv E))
      (column : Option Bytes) (envs : Envs E) (rs : TableRowset)
      → ((t : T) → length (L.keys t) < fuel)
      → env_at ref envs ≡ env
      → load_named m mem calloc fuel ref env column envs rs ≢ none
  named_total calloc fuel ref none column envs rs enough at = λ p. cc
  named_total calloc fuel ref (some env) none envs rs enough at = λ p. cc
  named_total calloc fuel ref (some env) (some []) envs rs enough at = λ p. cc
  named_total calloc fuel ref (some env) (some (c ∷ cs)) envs rs enough at =
      let prefix : Bytes = (c ∷ cs) ++ (b'.' ∷ []) in
      elim (Bool-cases (leb (key_max + 2) (length prefix))) [
        | inl long ↦ rw long (λ p. cc)
        | inr short ↦
            rw (short, at)
              (scanned_total fuel (length prefix) ref envs
                (storage_iter_open m calloc (some env) (some prefix) true) rs
                (λ it. opened_few calloc fuel env (some prefix) it enough))
      ]

module _ {E T C : Type 0} (m : Lmdb E T C) (L : CursorLaws m) (mem : Memory) (fuel : ℕ) where
  next_column_total :
      (r : Option (StorageRc × Envs E × TableRowset))
      (others : Envs E → TableRowset → Option (StorageRc × Envs E × TableRowset))
      → r ≢ none
      → ((envs : Envs E) (rs : TableRowset) → others envs rs ≢ none)
      → next_column r others ≢ none
  next_column_total none others ne total = ne
  next_column_total (some (ok, envs, rs)) others ne total = total envs rs
  next_column_total (some (_, envs, rs)) others ne total = λ p. cc

  columns_total :
      (cols : List TableColumnRef) (envs : Envs E) (rs : TableRowset)
      → ((t : T) → length (L.keys t) < fuel)
      → load_columns m mem fuel cols envs rs ≢ none
  unfolding load_columns rowset_load_column
  columns_total [] envs rs enough = λ p. cc
  columns_total (col ∷ cols) envs rs enough =
      next_column_total _ (λ e r. load_columns m mem fuel cols e r)
        (named_total m L mem.rows (mem.iters col) fuel col.env (env_at col.env envs) col.column envs
          rs enough refl)
        (λ e r. columns_total cols e r enough)

  loaded_total :
      (l : Option (StorageRc × Envs E × TableRowset)) → l ≢ none → loaded m mem fuel l ≢ none
  loaded_total none ne = λ p. ne refl
  loaded_total (some (ok, envs, rs)) ne = λ p. cc
  loaded_total (some (_, envs, rs)) ne = λ p. cc

  -- With more rounds than any transaction has keys, table_rowset_load returns, with a set or with
  -- an error, for any arguments and any failure of memory. The cursors meet LMDB's laws.
  pub table_rowset_load_total :
      (columns : Option (List TableColumnRef)) (out : Bool) (envs : Envs E)
      → ((t : T) → length (L.keys t) < fuel)
      → table_rowset_load m mem fuel columns out envs ≢ none
  unfolding table_rowset_load
  table_rowset_load_total none out envs enough = λ p. cc
  table_rowset_load_total (some columns) out envs enough = ground (
    arith,
    loaded_total (load_columns m mem fuel columns envs empty_rowset)
        (columns_total columns envs empty_rowset enough),
  )
