-- ===== src/Rows/Rowset/Sorted.antt =====
-- The sort and the de-duplication pass of table_rowset_load in src/table_rows.c.
use Prim.Native.Nat.{Ordering}
use agentx_subagent.Prelude.{
  ◌≡◌, ◌≢◌, refl, ◌∙◌, ap, subst, ◌⊎◌, Bool, false, ◌||◌, List, [], ◌∷◌, length, ltb, same, All,
  arith, Bool-cases, inl, inr,
}
use agentx_subagent.Rows.Instance.{TableInstance, table_instance_compare}
use agentx_subagent.Rows.Instance.Order.{compare_flip, compare-eq→eq, compare_trans}
use agentx_subagent.Rows.Rowset.{insert_row, sort_rows, unique_from, unique_rows, sort_unique}

abbrev pub Before : TableInstance → TableInstance → Type 0
Before a b = table_instance_compare a b ≡ Ordering.lt

abbrev NotAfter : TableInstance → TableInstance → Type 0
NotAfter a b = table_instance_compare a b ≢ Ordering.gt

-- Each row is before all that follow it, so no row occurs twice.
abbrev pub IsStrictlySorted : List TableInstance → Type 0
IsStrictlySorted [] = Unit
IsStrictlySorted (x ∷ xs) = All (Before x) xs × IsStrictlySorted xs

abbrev IsSorted : List TableInstance → Type 0
IsSorted [] = Unit
IsSorted (x ∷ xs) = All (NotAfter x) xs × IsSorted xs

abbrev pub contains : TableInstance → List TableInstance → Bool
contains z [] = false
contains z (x ∷ xs) = same z x || contains z xs

NotAfter-trans : (a b c : TableInstance) → NotAfter a b → NotAfter b c → NotAfter a c
NotAfter-trans a b c h k = ground (arith, compare_trans a b c, compare-eq→eq a b, compare-eq→eq b c)

NotAfter-flip : (a b : TableInstance) → table_instance_compare a b ≡ Ordering.gt → NotAfter b a
NotAfter-flip a b h = ground (arith, compare_flip a b)

All-NotAfter :
    (a b : TableInstance) (xs : List TableInstance)
    → NotAfter a b
    → All (NotAfter b) xs
    → All (NotAfter a) xs
All-NotAfter a b [] h hs = tt
All-NotAfter a b (x ∷ xs) h hs = (NotAfter-trans a b x h hs.0, All-NotAfter a b xs h hs.1)

after_cases : (o : Ordering) → (o ≡ Ordering.gt) ⊎ (o ≢ Ordering.gt)
after_cases Ordering.lt = inr (λ e. cc)
after_cases Ordering.eq = inr (λ e. cc)
after_cases Ordering.gt = inl refl

equal_cases : (o : Ordering) → (o ≡ Ordering.eq) ⊎ (o ≢ Ordering.eq)
equal_cases Ordering.lt = inr (λ e. cc)
equal_cases Ordering.eq = inl refl
equal_cases Ordering.gt = inr (λ e. cc)

insert_behind :
    (x y : TableInstance) (ys : List TableInstance)
    → table_instance_compare x y ≡ Ordering.gt
    → insert_row x (y ∷ ys) ≡ y ∷ insert_row x ys
unfolding insert_row
insert_behind x y ys h = rw (h, insert_row)

insert_here :
    (x y : TableInstance) (ys : List TableInstance)
    → NotAfter x y
    → insert_row x (y ∷ ys) ≡ x ∷ y ∷ ys
unfolding insert_row
insert_here x y ys h = ground (arith, h)

insert-All :
    (a x : TableInstance) (ys : List TableInstance)
    → NotAfter a x
    → All (NotAfter a) ys
    → All (NotAfter a) (insert_row x ys)
insert-All a x [] h hs = unfold insert_row in (h, tt)
insert-All a x (y ∷ ys) h hs =
    let rest = insert-All a x ys h hs.1 in
    elim (after_cases (table_instance_compare x y)) [
      | inl after ↦ rw (insert_behind x y ys after) (hs.0, rest)
      | inr before ↦ rw (insert_here x y ys before) (h, hs)
    ]

insert-IsSorted :
    (x : TableInstance) (ys : List TableInstance) → IsSorted ys → IsSorted (insert_row x ys)
insert-IsSorted x [] h = unfold insert_row in (tt, tt)
insert-IsSorted x (y ∷ ys) h =
    let rest = insert-IsSorted x ys h.1 in
    elim (after_cases (table_instance_compare x y)) [
      | inl after ↦
          rw (insert_behind x y ys after) (insert-All y x ys (NotAfter-flip x y after) h.0, rest)
      | inr before ↦ rw (insert_here x y ys before) ((before, All-NotAfter x y ys before h.0), h)
    ]

sort-IsSorted : (xs : List TableInstance) → IsSorted (sort_rows xs)
unfolding sort_rows
sort-IsSorted [] = tt
sort-IsSorted (x ∷ xs) = insert-IsSorted x (sort_rows xs) (sort-IsSorted xs)

contains-insert :
    (z x : TableInstance) (ys : List TableInstance)
    → contains z (insert_row x ys) ≡ (same z x || contains z ys)
contains-insert z x [] = unfold insert_row in refl
contains-insert z x (y ∷ ys) =
    let rest = contains-insert z x ys in
    elim (after_cases (table_instance_compare x y)) [
      | inl after ↦ rw (insert_behind x y ys after) (ground (arith, rest))
      | inr before ↦ rw (insert_here x y ys before)
    ]

contains-sort :
    (z : TableInstance) (xs : List TableInstance) → contains z (sort_rows xs) ≡ contains z xs
unfolding sort_rows
contains-sort z [] = refl
contains-sort z (x ∷ xs) =
    contains-insert z x (sort_rows xs) ∙ ap (λ b. same z x || b) (contains-sort z xs)

unique_dropped :
    (last x : TableInstance) (xs : List TableInstance)
    → table_instance_compare x last ≡ Ordering.eq
    → unique_from last (x ∷ xs) ≡ unique_from last xs
unfolding unique_from
unique_dropped last x xs h = rw (h, unique_from)

unique_kept :
    (last x : TableInstance) (xs : List TableInstance)
    → table_instance_compare x last ≢ Ordering.eq
    → unique_from last (x ∷ xs) ≡ last ∷ unique_from x xs
unfolding unique_from
unique_kept last x xs h = ground (arith, h)

contains_unique :
    (z last : TableInstance) (xs : List TableInstance)
    → contains z (unique_from last xs) ≡ (same z last || contains z xs)
contains_unique z last [] = unfold unique_from in refl
contains_unique z last (x ∷ xs) =
    let dropped = contains_unique z last xs in
    let kept = contains_unique z x xs in
    elim (equal_cases (table_instance_compare x last)) [
      | inl e ↦ rw (unique_dropped last x xs e) (ground (arith, dropped, compare-eq→eq x last e))
      | inr ne ↦ rw (unique_kept last x xs ne) (ground (arith, kept))
    ]

-- a row that is not after another and differs from it is before it
Before-of-ne :
    (a b : TableInstance) → NotAfter a b → table_instance_compare b a ≢ Ordering.eq → Before a b
Before-of-ne a b h ne = ground (arith, compare_flip a b)

unique-All-Before :
    (a last : TableInstance) (xs : List TableInstance)
    → Before a last
    → IsSorted (last ∷ xs)
    → All (Before a) (unique_from last xs)
unique-All-Before a last [] h order = unfold unique_from in (h, tt)
unique-All-Before a last (x ∷ xs) h order =
    let dropped = unique-All-Before a last xs h (order.0.1, order.1.1) in
    let kept = λ (before : Before last x).
      unique-All-Before a x xs (compare_trans a last x h before) order.1 in
    elim (equal_cases (table_instance_compare x last)) [
      | inl e ↦ rw (unique_dropped last x xs e) dropped
      | inr ne ↦ rw (unique_kept last x xs ne) (h, kept (Before-of-ne last x order.0.0 ne))
    ]

unique-IsStrictlySorted :
    (last : TableInstance) (xs : List TableInstance)
    → IsSorted (last ∷ xs)
    → IsStrictlySorted (unique_from last xs)
unique-IsStrictlySorted last [] order = unfold unique_from in (tt, tt)
unique-IsStrictlySorted last (x ∷ xs) order =
    let dropped = unique-IsStrictlySorted last xs (order.0.1, order.1.1) in
    let kept = unique-IsStrictlySorted x xs order.1 in
    elim (equal_cases (table_instance_compare x last)) [
      | inl e ↦ rw (unique_dropped last x xs e) dropped
      | inr ne ↦
          rw (unique_kept last x xs ne)
            (unique-All-Before last x xs (Before-of-ne last x order.0.0 ne) order.1, kept)
    ]

unique_rows-IsStrictlySorted :
    (xs : List TableInstance) → IsSorted xs → IsStrictlySorted (unique_rows xs)
unfolding unique_rows
unique_rows-IsStrictlySorted [] h = tt
unique_rows-IsStrictlySorted (x ∷ xs) h = unique-IsStrictlySorted x xs h

contains-unique_rows :
    (z : TableInstance) (xs : List TableInstance) → contains z (unique_rows xs) ≡ contains z xs
unfolding unique_rows
contains-unique_rows z [] = refl
contains-unique_rows z (x ∷ xs) = contains_unique z x xs

-- The sorting and de-duplication at the end of table_rowset_load leave the rows in strictly
-- ascending order, whatever they were.
pub sort_unique-IsStrictlySorted : (rows : List TableInstance) → IsStrictlySorted (sort_unique rows)
unfolding sort_unique
sort_unique-IsStrictlySorted [] = tt
sort_unique-IsStrictlySorted (x ∷ []) = (tt, tt)
sort_unique-IsStrictlySorted (x ∷ y ∷ ys) =
    subst IsStrictlySorted (ground arith)
      (unique_rows-IsStrictlySorted (sort_rows (x ∷ y ∷ ys)) (sort-IsSorted (x ∷ y ∷ ys)))

-- The sorting and de-duplication at the end of table_rowset_load keep exactly the instances that
-- were there.
pub contains-sort_unique :
    (z : TableInstance) (rows : List TableInstance)
    → contains z (sort_unique rows) ≡ contains z rows
unfolding sort_unique
contains-sort_unique z rows = elim (Bool-cases (ltb 1 (length rows))) [
  | inl many ↦ rw many (contains-unique_rows z (sort_rows rows) ∙ contains-sort z rows)
  | inr few ↦ rw few
]
