-- ===== src/Mib/Rows/Walk.antt =====
-- What Net-SNMP's table iterator sees of a table of src/generated/demo_config_table.c or
-- demo_status_table.c when it asks for one row after the other.
use agentx_subagent.Prelude.{
  ℕ, zero, suc, ◌<◌, ◌≡◌, refl, sym, subst, ◌∙◌, ap, true, Option, none, some, List, [], ◌∷◌,
  length, get_elem?, drop, length-drop, arith,
}
use agentx_subagent.Storage.Types.{ok}
use agentx_subagent.Storage.Lmdb.{Lmdb}
use agentx_subagent.Storage.Envs.{Envs}
use agentx_subagent.Rows.Instance.{TableInstance}
use agentx_subagent.Rows.Rowset.{
  Memory, TableColumnRef, TableRowset, table_rowset_load, table_rowset_count, table_rowset_at,
}
use agentx_subagent.Rows.Oid.{table_instance_to_indexes}
use agentx_subagent.Mib.Rows.{
  Loop, Step, next_loop, advanced, get_next_data_point, get_first_data_point,
}

module _ {ℓ} {A : Type ℓ} where
  drop_more :
      (n : ℕ) (xs : List A) (y : A) (ys : List A)
      → drop n xs ≡ y ∷ ys
      → (get_elem? xs n ≡ some y) × (drop (suc n) xs ≡ ys) × (n < length xs)
  drop_more zero [] y ys h = cc
  drop_more zero (x ∷ xs) y ys h = (cc, cc, omega arith)
  drop_more (suc n) [] y ys h = cc
  drop_more (suc n) (x ∷ xs) y ys h =
      let (a, b, c) = drop_more n xs y ys h in (a, b, omega (arith, c))

module _ {V : Type 0} (parse : List ℕ → V → Option V) (build : V → Option (List ℕ))
    (template : V) where
  abbrev indexes_of : TableInstance → Option V
  indexes_of inst = table_instance_to_indexes parse build (some inst) (some template)

  abbrev kept : Option V → List V → List V
  kept none vs = vs
  kept (some v) vs = v ∷ vs

  -- The index varbinds of the rows that fit the index syntax, in the order of the rows.
  abbrev pub row_indexes : List TableInstance → List V
  row_indexes [] = []
  row_indexes (inst ∷ rows) = kept (indexes_of inst) (row_indexes rows)

  -- The rows that a walk is still to look at.
  abbrev left_of : Loop → List TableInstance
  left_of loop = drop loop.next loop.rows.rows

  -- The end of the walk, or the next row that fits, and the rows behind it.
  data Next (xs : List TableInstance) (step : Step V) : Type 0 where
    ended : row_indexes xs ≡ [] → step.indexes ≡ none → Next xs step
    found :
        (v : V) (loop : Loop)
        → row_indexes xs ≡ v ∷ row_indexes (left_of loop)
        → length (left_of loop) < length xs
        → step.loop_context ≡ some loop
        → step.indexes ≡ some v
        → Next xs step

  at_row :
      (loop : Loop) (x : TableInstance) (xs : List TableInstance)
      → left_of loop ≡ x ∷ xs
      → (table_rowset_at (some loop.rows) loop.next ≡ some x)
        × (left_of (advanced parse build loop) ≡ xs)
  unfolding table_rowset_at
  at_row loop x xs h =
      let (here, behind, inside) = drop_more loop.next loop.rows.rows x xs h in
      (ground (arith, here, inside), behind)

  abbrev row_at : Loop → Option V
  row_at loop =
      table_instance_to_indexes parse build (table_rowset_at (some loop.rows) loop.next)
        (some template)

  next_skip :
      (n : ℕ) (loop : Loop)
      → row_at loop ≡ none
      → next_loop parse build (suc n) loop template
        ≡ next_loop parse build n (advanced parse build loop) template
  unfolding next_loop
  next_skip n loop h = rw (h, next_loop)

  next_take :
      (n : ℕ) (loop : Loop) (v : V)
      → row_at loop ≡ some v
      → next_loop parse build (suc n) loop template
        ≡ record { loop_context = some (advanced parse build loop); indexes = some v }
  unfolding next_loop
  next_take n loop v h = rw (h, next_loop)

  next_end :
      (loop : Loop)
      → next_loop parse build 0 loop template ≡ record { loop_context = some loop; indexes = none }
  unfolding next_loop
  next_end loop = refl

  later-Next :
      (x : TableInstance) (xs : List TableInstance) (step : Step V)
      → indexes_of x ≡ none
      → Next xs step
      → Next (x ∷ xs) step
  later-Next x xs step e (ended none_left done) =
      ended (ap (λ o. kept o (row_indexes xs)) e ∙ none_left) done
  later-Next x xs step e (found v loop rows shorter context shown) =
      found v loop (ap (λ o. kept o (row_indexes xs)) e ∙ rows) (omega (arith, shorter)) context
        shown

  next_loop-Next :
      (xs : List TableInstance) (loop : Loop)
      → left_of loop ≡ xs
      → Next xs (next_loop parse build (length xs) loop template)
  next_loop-Next [] loop h = ended refl (ap (λ st. st.indexes) (next_end loop))
  next_loop-Next (x ∷ xs) loop h =
      let (here, behind) = at_row loop x xs h in
      by_row (next_loop-Next xs (advanced parse build loop) behind)
        (ap (λ o. table_instance_to_indexes parse build o (some template)) here) behind
        (indexes_of x) refl
    where
      by_row :
          Next xs (next_loop parse build (length xs) (advanced parse build loop) template)
          → row_at loop ≡ indexes_of x
          → left_of (advanced parse build loop) ≡ xs
          → (o : Option V) → indexes_of x ≡ o
          → Next (x ∷ xs) (next_loop parse build (length (x ∷ xs)) loop template)
      by_row later here behind none e =
          subst (Next (x ∷ xs)) (sym (next_skip (length xs) loop (here ∙ e)))
            (later-Next x xs _ e later)
      by_row later here behind (some v) e =
          subst (Next (x ∷ xs)) (sym (next_take (length xs) loop v (here ∙ e))) (
            found v (advanced parse build loop)
              (ap (λ o. kept o (row_indexes xs)) e ∙ ap (λ ys. v ∷ row_indexes ys) (sym behind))
              (rw behind (omega arith)) refl refl)

  get_next_data_point-Next :
      (loop : Loop) → Next (left_of loop) (get_next_data_point parse build (some loop) template)
  unfolding get_next_data_point table_rowset_count
  get_next_data_point-Next loop =
      subst (λ n. Next (left_of loop) (next_loop parse build n loop template))
        (length-drop loop.next loop.rows.rows) (next_loop-Next (left_of loop) loop refl)

  -- The iterator asks for the next row until there is none, at most `n` times.
  pub collect : ℕ → Step V → List V
  collect zero step = []
  collect (suc n) step = elim step.indexes [
    | none ↦ []
    | some v ↦ v ∷ collect n (get_next_data_point parse build step.loop_context template)
  ]

  collect_end : (n : ℕ) (step : Step V) → step.indexes ≡ none → collect n step ≡ []
  unfolding collect
  collect_end zero step h = refl
  collect_end (suc n) step h = rw h

  collect_more :
      (n : ℕ) (step : Step V) (v : V) (loop : Loop)
      → step.indexes ≡ some v
      → step.loop_context ≡ some loop
      → collect (suc n) step ≡ v ∷ collect n (get_next_data_point parse build (some loop) template)
  unfolding collect
  collect_more n step v loop h k = rw (h, k)

  collect-Next :
      (n : ℕ) (xs : List TableInstance) (step : Step V)
      → length xs < n
      → Next xs step
      → collect n step ≡ row_indexes xs
  collect-Next zero xs step h next = absurd (omega (arith, h))
  collect-Next (suc n) xs step h (ended none_left done) =
      collect_end (suc n) step done ∙ sym none_left
  collect-Next (suc n) xs step h (found v loop rows shorter context shown) =
      collect_more n step v loop shown context
      ∙ ap (λ vs. v ∷ vs)
          (collect-Next n (left_of loop) _ (omega (arith, h, shorter))
            (get_next_data_point-Next loop))
      ∙ sym rows

  -- If table_rowset_load gives a set of rows and the loop state can be allocated, then asking for
  -- the first data point and then for the next one until there is none yields the index varbinds
  -- of exactly those rows of the set that fit the index syntax, each once and in the order of the
  -- set. The number of calls allowed is larger than the set.
  pub collect-first :
      {E T C : Type 0} (m : Lmdb E T C) (memory : Memory) (fuel n : ℕ) (refs : List TableColumnRef)
      (last_skipped skipped : ℕ) (envs after : Envs E) (rows : TableRowset) (step : Step V)
      → table_rowset_load m memory fuel (some refs) true envs ≡ some ((ok, some rows), after)
      → get_first_data_point parse build m memory fuel true refs template last_skipped envs
        ≡ some ((step, skipped), after)
      → length rows.rows < n
      → collect n step ≡ row_indexes rows.rows
  unfolding get_first_data_point
  collect-first m memory fuel n refs last_skipped skipped envs after rows step loads first enough =
      collect-Next n rows.rows step enough (
        subst (Next rows.rows) (ground (arith, loads, first))
          (get_next_data_point-Next (record { rows = rows; next = 0 })))
