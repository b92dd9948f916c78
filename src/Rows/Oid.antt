-- ===== src/Rows/Oid.antt =====
-- src/table_oid.c: row instances as the index varbinds of a table request, and back.
use agentx_subagent.Prelude.{
  ℕ, ◌≡◌, ◌<◌, ◌≤◌, refl, ◌==◌, ◌||◌, Bool, true, not, Option, none, some, List, [], ◌∷◌, length,
  ltb, All, if◌then◌else◌, arith,
}
use agentx_subagent.Rows.Instance.{TableInstance, subid_max}
use agentx_subagent.Rows.Instance.Parse.{IsSubid}

-- The loop that narrows each sub-identifier to 32 bits; none where one does not fit.
unfoldable pub narrowed : List ℕ → Option (List ℕ)
narrowed [] = some []
narrowed (s ∷ ss) =
    let rest = narrowed ss in
    if ltb 0xFFFFFFFF s then none else elim rest [ none ↦ none | some ts ↦ some (s ∷ ts) ]

-- `V` is a varbind list, `parse` Net-SNMP's parse_oid_indexes and `build` its build_oid_noalloc into
-- an array of TABLE_ROW_SUBID_MAX; none is an SNMP error.
module _ {V : Type 0} (parse : List ℕ → V → Option V) (build : V → Option (List ℕ)) where
  -- The return value -1 is none.
  unfoldable pub table_instance_to_indexes : Option TableInstance → Option V → Option V
  table_instance_to_indexes none put_index_data = none
  table_instance_to_indexes (some inst) none = none
  table_instance_to_indexes (some inst) (some put_index_data) =
      if (length inst == 0) || ltb subid_max (length inst) then none else parse inst put_index_data

  abbrev pub checked : Option (List ℕ) → Option TableInstance
  checked none = none
  checked (some subids) =
      if (length subids == 0) || ltb subid_max (length subids) then none else narrowed subids

  -- `indexes` is none where the request has none; `out` says whether the out pointer is not NULL.
  unfoldable pub table_instance_from_indexes : Option V → (out : Bool) → Option TableInstance
  table_instance_from_indexes none out = none
  table_instance_from_indexes (some indexes) out = if not out then none else checked (build indexes)

narrowed-All : (ss : List ℕ) → All IsSubid ss → narrowed ss ≡ some ss
unfolding narrowed
narrowed-All [] fits = refl
narrowed-All (s ∷ ss) fits = ground (arith, narrowed-All ss fits.1)

narrowed-eq-some : (ss ts : List ℕ) → narrowed ss ≡ some ts → (ss ≡ ts) × All IsSubid ss
unfolding narrowed
narrowed-eq-some [] ts h = (ground (arith, h), tt)
narrowed-eq-some (s ∷ ss) ts h = by_rest (narrowed-eq-some ss) (narrowed ss) refl
  where
    by_rest :
        ((us : List ℕ) → narrowed ss ≡ some us → (ss ≡ us) × All IsSubid ss)
        → (o : Option (List ℕ)) → narrowed ss ≡ o
        → (s ∷ ss ≡ ts) × All IsSubid (s ∷ ss)
    by_rest later none e = absurd (ground (arith, h, e))
    by_rest later (some us) e =
        let (same, fits) = later us e in (ground (arith, h, e, same), (ground (arith, h, e), fits))

module _ {V : Type 0} (parse : List ℕ → V → Option V) (build : V → Option (List ℕ)) where
  -- Let Net-SNMP build from the index varbinds that it has made of at most 128 sub-identifiers
  -- the same sub-identifiers again. If table_instance_to_indexes turns an instance of 32-bit
  -- sub-identifiers into index varbinds, then table_instance_from_indexes recovers the instance
  -- from them.
  pub from-to_indexes :
      (inst : TableInstance) (template indexes : V)
      → All IsSubid inst
      → ((subids : List ℕ) (v v' : V)
          → length subids ≤ subid_max
          → parse subids v ≡ some v'
          → build v' ≡ some subids)
      → table_instance_to_indexes parse build (some inst) (some template) ≡ some indexes
      → table_instance_from_indexes parse build (some indexes) true ≡ some inst
  unfolding table_instance_to_indexes table_instance_from_indexes
  from-to_indexes inst template indexes fits codec h =
      let short : length inst ≤ subid_max = ground (arith, h) in
      let parsed : parse inst template ≡ some indexes = ground (arith, h) in
      let built = codec inst template indexes short parsed in
      rw (built) (ground (arith, h, narrowed-All inst fits))

  -- An instance that table_instance_from_indexes returns has exactly the sub-identifiers that
  -- Net-SNMP built from the varbinds, each below 2^32, and 1 to 128 of them.
  pub table_instance_from_indexes-eq-some :
      (indexes : V) (inst : TableInstance)
      → table_instance_from_indexes parse build (some indexes) true ≡ some inst
      → (build indexes ≡ some inst)
        × All IsSubid inst
        × (0 < length inst)
        × (length inst ≤ subid_max)
  unfolding table_instance_from_indexes
  table_instance_from_indexes-eq-some indexes inst h = by_build (build indexes) refl
    where
      by_build :
          (o : Option (List ℕ))
          → build indexes ≡ o
          → (build indexes ≡ some inst)
            × All IsSubid inst
            × (0 < length inst)
            × (length inst ≤ subid_max)
      by_build none e = absurd (ground (arith, h, e))
      by_build (some subids) e =
          let narrow : narrowed subids ≡ some inst = ground (arith, h, e) in
          let (same, fits) = narrowed-eq-some subids inst narrow in
          let sized : (0 < length subids) × (length subids ≤ subid_max) =
            (ground (arith, h, e), ground (arith, h, e)) in
          rw⁻¹ same (e, fits, sized.0, sized.1)
