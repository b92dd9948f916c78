-- ===== src/Rows/Rowset/Load.antt =====
-- What a column's scan in src/table_rows.c collects: rowset_load_column's loop over the keys.
use agentx_subagent.Prelude.{
  ℕ, zero, suc, ◌+◌, ◌*◌, ◌<◌, ◌≡◌, ◌⊎◌, refl, sym, ◌∙◌, ap, subst, Bool, true, Option, none, some,
  List, [], ◌∷◌, ◌++◌, append_assoc, append-nil, Bytes, length, drop, List-cases, arith, inl, inr,
}
use agentx_subagent.Storage.Types.{StorageRc, ok, err_notfound}
use agentx_subagent.Storage.Lmdb.{Lmdb}
use agentx_subagent.Storage.Codec.{Res, got, fail}
use agentx_subagent.Storage.Iter.{StorageIter, iter_next}
use agentx_subagent.Storage.Iter.Keys.{CursorLaws}
use agentx_subagent.Storage.Iter.Scan.{upcoming, Yields, iter_next_lem}
use agentx_subagent.Rows.Instance.{TableInstance, table_instance_parse}
use agentx_subagent.Rows.Rowset.{TableRowset, rowset_push, take_key, keyed, load_loop, again, leave}

-- The instances of the keys that are canonical, in the order of the keys, and how many are not.
abbrev instance_of : ℕ → Bytes → Res TableInstance
instance_of prefix_len key = table_instance_parse (some (drop prefix_len key)) true

unfoldable pub rows_of : ℕ → List Bytes → List TableInstance
rows_of prefix_len [] = []
rows_of prefix_len (k ∷ ks) =
    let rest = rows_of prefix_len ks in
    elim (instance_of prefix_len k) [ got inst ↦ inst ∷ rest | fail rc ↦ rest ]

unfoldable pub skips_of : ℕ → List Bytes → ℕ
skips_of prefix_len [] = 0
skips_of prefix_len (k ∷ ks) =
    let rest = skips_of prefix_len ks in
    elim (instance_of prefix_len k) [ got inst ↦ rest | fail rc ↦ suc rest ]

module _ (n : ℕ) (k : Bytes) (ks : List Bytes) where
  rows_of_got :
      (inst : TableInstance) → instance_of n k ≡ got inst → rows_of n (k ∷ ks) ≡ inst ∷ rows_of n ks
  unfolding rows_of
  rows_of_got inst e = rw (e, rows_of)

  rows_of_fail : (rc : StorageRc) → instance_of n k ≡ fail rc → rows_of n (k ∷ ks) ≡ rows_of n ks
  unfolding rows_of
  rows_of_fail rc e = rw (e, rows_of)

  skips_of_got :
      (inst : TableInstance) → instance_of n k ≡ got inst → skips_of n (k ∷ ks) ≡ skips_of n ks
  unfolding skips_of
  skips_of_got inst e = rw (e, skips_of)

  skips_of_fail :
      (rc : StorageRc) → instance_of n k ≡ fail rc → skips_of n (k ∷ ks) ≡ suc (skips_of n ks)
  unfolding skips_of
  skips_of_fail rc e = rw (e, skips_of)

Res-cases : {A : Type 0} (r : Res A) → ((a : A) × (r ≡ got a)) ⊎ ((rc : StorageRc) × (r ≡ fail rc))
Res-cases (got a) = inl (a, refl)
Res-cases (fail rc) = inr (rc, refl)

rows_of-nil : (n : ℕ) → rows_of n [] ≡ []
unfolding rows_of
rows_of-nil n = refl

skips_of-nil : (n : ℕ) → skips_of n [] ≡ 0
unfolding skips_of
skips_of-nil n = refl

rows_of-cons :
    (n : ℕ) (k : Bytes) (ks : List Bytes) → rows_of n (k ∷ ks) ≡ rows_of n (k ∷ []) ++ rows_of n ks
rows_of-cons n k ks = elim (Res-cases (instance_of n k)) [
  | inl (inst, e) ↦ rw (rows_of_got n k ks inst e, rows_of_got n k [] inst e, rows_of-nil)
  | inr (rc, e) ↦ rw (rows_of_fail n k ks rc e, rows_of_fail n k [] rc e, rows_of-nil)
]

skips_of-cons :
    (n : ℕ) (k : Bytes) (ks : List Bytes)
    → skips_of n (k ∷ ks) ≡ skips_of n (k ∷ []) + skips_of n ks
skips_of-cons n k ks = elim (Res-cases (instance_of n k)) [
  | inl (inst, e) ↦
      omega (arith, skips_of_got n k ks inst e, skips_of_got n k [] inst e, skips_of-nil n)
  | inr (rc, e) ↦
      omega (arith, skips_of_fail n k ks rc e, skips_of_fail n k [] rc e, skips_of-nil n)
]

-- What `new` has that `old` had not: the rows and the skips of `ks`.
abbrev pub Collects : ℕ → List Bytes → TableRowset → TableRowset → Type 0
Collects n ks old new =
    (new.rows ≡ old.rows ++ rows_of n ks) × (new.skipped ≡ old.skipped + skips_of n ks)

Collects-nil : (n : ℕ) (rs : TableRowset) → Collects n [] rs rs
Collects-nil n rs = (rw (rows_of-nil, append-nil), omega (arith, skips_of-nil n))

Collects-cons :
    (n : ℕ) (k : Bytes) (ks : List Bytes) (a b c : TableRowset)
    → Collects n (k ∷ []) a b
    → Collects n ks b c
    → Collects n (k ∷ ks) a c
Collects-cons n k ks a b c (rows, skips) (rows', skips') = (
  rows'
      ∙ ap (λ r. r ++ rows_of n ks) rows
      ∙ append_assoc a.rows (rows_of n (k ∷ [])) (rows_of n ks)
      ∙ ap (λ r. a.rows ++ r) (sym (rows_of-cons n k ks)),
  omega (arith, skips_of-cons n k ks),
)

module _ (mem : ℕ → Bool) (room : (n : ℕ) → mem n ≡ true) where
  rowset_push_lem :
      (rs : TableRowset) (inst : TableInstance)
      → ((rowset_push mem rs inst).0 ≡ ok)
        × ((rowset_push mem rs inst).1.rows ≡ rs.rows ++ (inst ∷ []))
        × ((rowset_push mem rs inst).1.skipped ≡ rs.skipped)
  unfolding rowset_push
  rowset_push_lem rs inst = ground (arith, room 16, room (rs.capacity * 2))

  take_key_got :
      (n : ℕ) (key : Bytes) (rs : TableRowset) (inst : TableInstance)
      → instance_of n key ≡ got inst
      → take_key mem n key rs ≡ rowset_push mem rs inst
  unfolding take_key
  take_key_got n key rs inst e = rw (e, take_key)

  take_key_fail :
      (n : ℕ) (key : Bytes) (rs : TableRowset) (rc : StorageRc)
      → instance_of n key ≡ fail rc
      → take_key mem n key rs ≡ (ok, record rs { skipped = suc rs.skipped })
  unfolding take_key
  take_key_fail n key rs rc e = rw (e, take_key)

  take_key_lem :
      (n : ℕ) (key : Bytes) (rs : TableRowset)
      → ((take_key mem n key rs).0 ≡ ok) × Collects n (key ∷ []) rs (take_key mem n key rs).1
  take_key_lem n key rs = elim (Res-cases (instance_of n key)) [
    | inl (inst, e) ↦
        let (done, rows, skips) = rowset_push_lem rs inst in
        rw (take_key_got n key rs inst e, rows_of_got n key [] inst e, rows_of-nil)
          (done, (rows, omega (arith, skips, skips_of_got n key [] inst e, skips_of-nil n)))
    | inr (rc, e) ↦
        rw (take_key_fail n key rs rc e, rows_of_fail n key [] rc e, rows_of-nil)
          (
            refl,
            (sym (append-nil rs.rows), omega (arith, skips_of_fail n key [] rc e, skips_of-nil n)),
          )
  ]

module _ {E T C : Type 0} (m : Lmdb E T C) (L : CursorLaws m) (mem : ℕ → Bool) where
  keyed_end :
      (n : ℕ) (rs : TableRowset) (r : (StorageRc × Option Bytes) × StorageIter T C)
      → r.0 ≡ (err_notfound, none)
      → keyed m mem n rs r ≡ leave ok r.1 rs
  keyed_end n rs ((err_notfound, none), it) h = refl
  keyed_end n rs ((err_notfound, some k), it) h = cc
  keyed_end n rs ((_, _), it) h = cc

  keyed_next :
      (n : ℕ) (rs : TableRowset) (r : (StorageRc × Option Bytes) × StorageIter T C) (k : Bytes)
      → r.0 ≡ (ok, some k)
      → (take_key mem n k rs).0 ≡ ok
      → keyed m mem n rs r ≡ again r.1 (take_key mem n k rs).1
  keyed_next n rs ((ok, some j), it) k h taken = ground (arith, h, taken)
  keyed_next n rs ((ok, none), it) k h taken = cc
  keyed_next n rs ((_, _), it) k h taken = cc

  load_leave :
      (fuel n : ℕ) (it : StorageIter T C) (rs : TableRowset) {rc : StorageRc}
      {it' : StorageIter T C} {rs' : TableRowset}
      → keyed m mem n rs (iter_next m it) ≡ leave rc it' rs'
      → load_loop m mem (suc fuel) n it rs ≡ some (rc, it', rs')
  unfolding load_loop
  load_leave fuel n it rs e = rw (e, load_loop)

  load_again :
      (fuel n : ℕ) (it : StorageIter T C) (rs : TableRowset) {it' : StorageIter T C}
      {rs' : TableRowset}
      → keyed m mem n rs (iter_next m it) ≡ again it' rs'
      → load_loop m mem (suc fuel) n it rs ≡ load_loop m mem fuel n it' rs'
  unfolding load_loop
  load_again fuel n it rs e = rw (e, load_loop)

  -- The loop ends without an error, and has collected the keys `ks`.
  abbrev pub Loads :
      ℕ → List Bytes → TableRowset → Option (StorageRc × StorageIter T C × TableRowset) → Type 0
  Loads n ks rs result =
      (it' : StorageIter T C) × (rs' : TableRowset) × (result ≡ some (ok, it', rs'))
      × Collects n ks rs rs'

  -- If memory suffices and there are more rounds than keys to come, the loop of
  -- rowset_load_column ends with OK: it has appended the instances of all canonical keys to come,
  -- in order, and counted all the others as skipped. The cursors meet LMDB's laws.
  pub load_loop_lem :
      (room : (n : ℕ) → mem n ≡ true) (fuel n : ℕ) (it : StorageIter T C) (rs : TableRowset)
      (ks : List Bytes)
      → upcoming m L it ≡ ks
      → length ks < fuel
      → Loads n ks rs (load_loop m mem fuel n it rs)
  load_loop_lem room zero n it rs ks e h = absurd (omega arith)
  load_loop_lem room (suc fuel) n it rs [] e h =
      let step = subst (λ ks. Yields m L ks (iter_next m it)) e (iter_next_lem m L it) in
      (
        (iter_next m it).1,
        rs,
        load_leave fuel n it rs (keyed_end n rs (iter_next m it) step.0),
        Collects-nil n rs,
      )
  load_loop_lem room (suc fuel) n it rs (k ∷ ks) e h =
      let step = subst (λ ks. Yields m L ks (iter_next m it)) e (iter_next_lem m L it) in
      let (taken, collects) = take_key_lem mem room n k rs in
      let (it', rs', loaded, more) =
        load_loop_lem room fuel n (iter_next m it).1 (take_key mem n k rs).1 ks step.1
          (omega arith) in
      (
        it',
        rs',
        load_again fuel n it rs (keyed_next n rs (iter_next m it) k step.0 taken) ∙ loaded,
        Collects-cons n k ks rs (take_key mem n k rs).1 rs' collects more,
      )

  -- A loop that ended without an error has collected every key of the range, whatever its rounds.
  pub load_loop_ok :
      (room : (n : ℕ) → mem n ≡ true) (fuel n : ℕ) (it : StorageIter T C) (rs : TableRowset)
      (it' : StorageIter T C) (rs' : TableRowset)
      → load_loop m mem fuel n it rs ≡ some (ok, it', rs')
      → Collects n (upcoming m L it) rs rs'
  load_loop_ok room zero n it rs it' rs' h = unfold load_loop in cc
  load_loop_ok room (suc fuel) n it rs it' rs' h = elim (List-cases (upcoming m L it)) [
    | inl e ↦
        let step = subst (λ ks. Yields m L ks (iter_next m it)) e (iter_next_lem m L it) in
        let left = load_leave fuel n it rs (keyed_end n rs (iter_next m it) step.0) in
        let same_set : rs ≡ rs' = cc in rw e (subst (Collects n [] rs) same_set (Collects-nil n rs))
    | inr (k, ks, e) ↦
        let step = subst (λ ks. Yields m L ks (iter_next m it)) e (iter_next_lem m L it) in
        let (taken, collects) = take_key_lem mem room n k rs in
        let on = load_again fuel n it rs (keyed_next n rs (iter_next m it) k step.0 taken) in
        let more =
          load_loop_ok room fuel n (iter_next m it).1 (take_key mem n k rs).1 it' rs'
            (sym on ∙ h) in
        rw e (
          Collects-cons n k ks rs (take_key mem n k rs).1 rs' collects
            (subst (λ ks. Collects n ks (take_key mem n k rs).1 rs') step.1 more))
  ]
