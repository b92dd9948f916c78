-- ===== src/Storage/Iter/Keys.antt =====
-- The order of LMDB's keys, what its cursors promise, and why a prefix range is contiguous.
use agentx_subagent.Prelude.{
  ℕ, ◌≡◌, refl, sym, ◌∙◌, ap, Bool, true, false, List, [], ◌∷◌, Bytes, All, ltb, ◌==◌,
  if◌then◌else◌, arith, Bool-cases, inl, inr,
}
use agentx_subagent.Storage.Lmdb.{Lmdb, success, notfound, CursorOp, first, next, set_range}
use agentx_subagent.Storage.Iter.{lacks_prefix}

-- memcmp order, and a proper prefix before the longer key
unfoldable pub bytes_lt : Bytes → Bytes → Bool
bytes_lt [] [] = false
bytes_lt [] (y ∷ ys) = true
bytes_lt (x ∷ xs) [] = false
bytes_lt (x ∷ xs) (y ∷ ys) = let rest = bytes_lt xs ys in if x == y then rest else ltb x y

abbrev pub IsAscending : List Bytes → Type 0
IsAscending [] = Unit
IsAscending (k ∷ ks) = All (λ j. bytes_lt k j ≡ true) ks × IsAscending ks

-- The keys from the first that is not below `p`: where MDB_SET_RANGE puts the cursor.
unfoldable pub from_key : Bytes → List Bytes → List Bytes
from_key p [] = []
from_key p (k ∷ ks) = let more = from_key p ks in if bytes_lt k p then more else k ∷ ks

module _ {C : Type 0} (all rest : C → List Bytes) where
  -- The keys from the one that an operation moves to.
  abbrev pub target : CursorOp → C → List Bytes
  target first c = all c
  target next c = rest c
  target (set_range p) c = from_key p (all c)

-- A cursor walks the keys of its transaction in ascending order: `all` of them, of which `rest` lie
-- behind its position.
pub record CursorLaws {E T C : Type 0} (m : Lmdb E T C) : Type 0 where
  pub keys : T → List Bytes
  pub all : C → List Bytes
  pub rest : C → List Bytes
  pub ascending : (t : T) → IsAscending (keys t)
  pub opened : (t : T) → (m.cursor_open t).0 ≡ success → all (m.cursor_open t).1 ≡ keys t
  pub found :
      (op : CursorOp) (c : C) (k : Bytes) (ks : List Bytes)
      → target all rest op c ≡ k ∷ ks
      → ((m.cursor_get op c).0 ≡ success)
        × ((m.cursor_get op c).1 ≡ k)
        × (rest (m.cursor_get op c).2 ≡ ks)
  pub ended : (op : CursorOp) (c : C) → target all rest op c ≡ [] → (m.cursor_get op c).0 ≡ notfound

-- The keys with a prefix: those of a whole list, and those before the first without it.
unfoldable pub with_prefix : Bytes → List Bytes → List Bytes
with_prefix p [] = []
with_prefix p (k ∷ ks) = let kept = with_prefix p ks in if lacks_prefix p k then kept else k ∷ kept

unfoldable pub while_prefix : Bytes → List Bytes → List Bytes
while_prefix p [] = []
while_prefix p (k ∷ ks) = let kept = while_prefix p ks in if lacks_prefix p k then [] else k ∷ kept

lacks_prefix-cons :
    (x y : ℕ) (p k : Bytes)
    → lacks_prefix (x ∷ p) (y ∷ k) ≡ (if x == y then lacks_prefix p k else true)
unfolding lacks_prefix
lacks_prefix-cons x y p k = ground arith

-- A key below the prefix does not have it.
lacks-below : (p k : Bytes) → bytes_lt k p ≡ true → lacks_prefix p k ≡ true
unfolding bytes_lt
lacks-below [] [] h = cc
lacks-below [] (y ∷ k) h = cc
lacks-below (x ∷ p) [] h = unfold lacks_prefix in ground arith
lacks-below (x ∷ p) (y ∷ k) h = rw lacks_prefix-cons (ground (arith, lacks-below p k))

-- Between two keys that are not below the prefix, the second having it, the first has it too.
lacks-between :
    (p k j : Bytes)
    → bytes_lt k p ≡ false
    → bytes_lt k j ≡ true
    → lacks_prefix p k ≡ true
    → lacks_prefix p j ≡ true
unfolding bytes_lt
lacks-between [] k j above lt h = unfold lacks_prefix in ground arith
lacks-between (x ∷ p) [] j above lt h = cc
lacks-between (x ∷ p) (y ∷ k) [] above lt h = cc
lacks-between (x ∷ p) (y ∷ k) (z ∷ j) above lt h =
    rw lacks_prefix-cons (ground (arith, lacks_prefix-cons x y p k, lacks-between p k j))

with_prefix-none :
    (p k : Bytes) (ks : List Bytes)
    → bytes_lt k p ≡ false
    → lacks_prefix p k ≡ true
    → All (λ j. bytes_lt k j ≡ true) ks
    → with_prefix p ks ≡ []
unfolding with_prefix
with_prefix-none p k [] above lacks after = refl
with_prefix-none p k (j ∷ ks) above lacks after =
    rw (lacks-between p k j above after.0 lacks) (with_prefix-none p k ks above lacks after.1)

above-lt : (k j p : Bytes) → bytes_lt k j ≡ true → bytes_lt k p ≡ false → bytes_lt j p ≡ false
unfolding bytes_lt
above-lt [] [] p lt above = cc
above-lt [] (y ∷ j) [] lt above = refl
above-lt [] (y ∷ j) (z ∷ p) lt above = cc
above-lt (x ∷ k) [] p lt above = cc
above-lt (x ∷ k) (y ∷ j) [] lt above = refl
above-lt (x ∷ k) (y ∷ j) (z ∷ p) lt above = ground (arith, above-lt k j p)

while-eq-with_prefix :
    (p k : Bytes) (ks : List Bytes)
    → bytes_lt k p ≡ false
    → IsAscending (k ∷ ks)
    → while_prefix p (k ∷ ks) ≡ with_prefix p (k ∷ ks)
unfolding while_prefix with_prefix
while-eq-with_prefix p k [] above order = ground arith
while-eq-with_prefix p k (j ∷ ks) above order = elim (Bool-cases (lacks_prefix p k)) [
  | inl lacks ↦ rw lacks (sym (with_prefix-none p k (j ∷ ks) above lacks order.0))
  | inr has ↦
      rw has
        (ap (λ t. k ∷ t) (while-eq-with_prefix p j ks (above-lt k j p order.0.0 above) order.1))
]

-- The keys with a prefix are those from the first that is not below it up to the first without it.
pub while-from_key :
    (p : Bytes) (ks : List Bytes)
    → IsAscending ks
    → while_prefix p (from_key p ks) ≡ with_prefix p ks
unfolding from_key
while-from_key p [] order = unfold while_prefix with_prefix in refl
while-from_key p (k ∷ ks) order = elim (Bool-cases (bytes_lt k p)) [
  | inl below ↦ rw below (while-from_key p ks order.1 ∙ dropped below)
  | inr above ↦ rw above (while-eq-with_prefix p k ks above order)
]
  where
    dropped : bytes_lt k p ≡ true → with_prefix p ks ≡ with_prefix p (k ∷ ks)
    dropped below = unfold with_prefix in rw (lacks-below p k below)

lacks-nil : (k : Bytes) → lacks_prefix [] k ≡ false
unfolding lacks_prefix
lacks-nil k = ground arith

-- With the empty prefix every key is kept.
pub while-nil : (ks : List Bytes) → while_prefix [] ks ≡ with_prefix [] ks
unfolding while_prefix with_prefix
while-nil [] = refl
while-nil (k ∷ ks) = rw lacks-nil (ap (λ t. k ∷ t) (while-nil ks))

pub bytes_lt_trans :
    (i j k : Bytes) → bytes_lt i j ≡ true → bytes_lt j k ≡ true → bytes_lt i k ≡ true
unfolding bytes_lt
bytes_lt_trans [] [] k a b = cc
bytes_lt_trans [] (y ∷ j) [] a b = cc
bytes_lt_trans [] (y ∷ j) (z ∷ k) a b = refl
bytes_lt_trans (x ∷ i) [] k a b = cc
bytes_lt_trans (x ∷ i) (y ∷ j) [] a b = cc
bytes_lt_trans (x ∷ i) (y ∷ j) (z ∷ k) a b = ground (arith, bytes_lt_trans i j k)
