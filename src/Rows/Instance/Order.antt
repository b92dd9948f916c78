-- ===== src/Rows/Instance/Order.antt =====
-- table_instance_compare of src/table_rows.c is a total order on instances.
use Prim.Native.Nat.{Ordering}
use agentx_subagent.Prelude.{ℕ, ◌≡◌, refl, [], ◌∷◌, ◌++◌, arith}
use agentx_subagent.Rows.Instance.{TableInstance, table_instance_compare}

-- the opposite sign
abbrev pub flip : Ordering → Ordering
flip Ordering.lt = Ordering.gt
flip Ordering.eq = Ordering.eq
flip Ordering.gt = Ordering.lt

pub compare_flip :
    (a b : TableInstance) → table_instance_compare b a ≡ flip (table_instance_compare a b)
unfolding table_instance_compare
compare_flip [] [] = refl
compare_flip [] (y ∷ b) = refl
compare_flip (x ∷ a) [] = refl
compare_flip (x ∷ a) (y ∷ b) = ground (arith, compare_flip a b)

-- Only equal instances compare equal.
pub compare-eq→eq : (a b : TableInstance) → table_instance_compare a b ≡ Ordering.eq → a ≡ b
unfolding table_instance_compare
compare-eq→eq [] [] h = refl
compare-eq→eq [] (y ∷ b) h = cc
compare-eq→eq (x ∷ a) [] h = cc
compare-eq→eq (x ∷ a) (y ∷ b) h = ground (arith, compare-eq→eq a b)

pub compare_refl : (a : TableInstance) → table_instance_compare a a ≡ Ordering.eq
unfolding table_instance_compare
compare_refl [] = refl
compare_refl (x ∷ a) = ground (arith, compare_refl a)

-- If one instance compares below a second and that below a third, the first compares below the
-- third.
pub compare_trans :
    (a b c : TableInstance)
    → table_instance_compare a b ≡ Ordering.lt
    → table_instance_compare b c ≡ Ordering.lt
    → table_instance_compare a c ≡ Ordering.lt
unfolding table_instance_compare
compare_trans [] [] c h k = cc
compare_trans [] (y ∷ b) [] h k = cc
compare_trans [] (y ∷ b) (z ∷ c) h k = refl
compare_trans (x ∷ a) [] c h k = cc
compare_trans (x ∷ a) (y ∷ b) [] h k = cc
compare_trans (x ∷ a) (y ∷ b) (z ∷ c) h k = ground (arith, compare_trans a b c)

-- A proper prefix comes before the longer instance.
pub compare_prefix :
    (a : TableInstance) (v : ℕ) (more : TableInstance)
    → table_instance_compare a (a ++ (v ∷ more)) ≡ Ordering.lt
unfolding table_instance_compare
compare_prefix [] v more = refl
compare_prefix (x ∷ a) v more = ground (arith, compare_prefix a v more)
