-- ===== src/Storage/Iter/Scan.antt =====
-- A storage_iter_t of src/storage_lmdb.c yields the keys with its prefix, each once and in order.
use agentx_subagent.Prelude.{
  ◌≡◌, ◌≢◌, refl, sym, ◌∙◌, ap, subst, Bool, true, false, not, ◌&&◌, Option, none, some, List, [],
  ◌∷◌, Bytes, length, ltb, ◌==◌, if◌then◌else◌, arith, Bool-cases, inl, inr,
}
use agentx_subagent.Storage.Types.{StorageRc, ok, err_notfound, err_io, key_max}
use agentx_subagent.Storage.Lmdb.{Lmdb, MdbRc, success, notfound}
use agentx_subagent.Storage.Codec.{map_mdb_rc}
use agentx_subagent.Storage.Env.{StorageEnv, begin_read_txn}
use agentx_subagent.Storage.Iter.{
  StorageIter, lacks_prefix, step_op, advanced, iter_next, storage_iter_open, string_of, iter_begun,
  cursor_opened,
}
use agentx_subagent.Storage.Iter.Keys.{
  CursorLaws, target, from_key, with_prefix, while_prefix, while-from_key, while-nil,
}

module _ {E T C : Type 0} (m : Lmdb E T C) (L : CursorLaws m) where
  -- The keys from the one that the next call moves to, whether or not they have the prefix.
  abbrev ahead : StorageIter T C → List Bytes
  ahead it = target L.all L.rest (step_op m it) it.cursor

  -- The keys that the iterator has still to yield.
  unfoldable pub upcoming : StorageIter T C → List Bytes
  upcoming it = if it.exhausted then [] else while_prefix it.prefix (ahead it)

  -- the answer to a call, and what is to come after it
  abbrev pub Yields : List Bytes → (StorageRc × Option Bytes) × StorageIter T C → Type 0
  Yields [] r = (r.0 ≡ (err_notfound, none)) × (upcoming r.1 ≡ [])
  Yields (k ∷ ks) r = (r.0 ≡ (ok, some k)) × (upcoming r.1 ≡ ks)

  advanced_end :
      (it : StorageIter T C) (r : MdbRc × Bytes × C) → r.0 ≡ notfound → Yields [] (advanced m it r)
  unfolding upcoming map_mdb_rc
  advanced_end it (notfound, key, c) h = (refl, refl)
  advanced_end it (success, key, c) h = cc
  advanced_end it (_, key, c) h = cc

  prefix_test : (p k : Bytes) → (not (length p == 0) && lacks_prefix p k) ≡ lacks_prefix p k
  unfolding lacks_prefix
  prefix_test [] k = ground arith
  prefix_test (x ∷ p) k = ground arith

  -- The cursor stands on `k`, with `ks` behind it.
  advanced_found :
      (it : StorageIter T C) (r : MdbRc × Bytes × C) (k : Bytes) (ks : List Bytes)
      → it.started ≡ true
      → it.exhausted ≡ false
      → r.0 ≡ success
      → r.1 ≡ k
      → L.rest r.2 ≡ ks
      → Yields (while_prefix it.prefix (k ∷ ks)) (advanced m it r)
  unfolding upcoming while_prefix
  advanced_found it (success, key, c) k ks on going h at_k behind =
      rw (prefix_test it.prefix key, ← at_k)
        (elim (Bool-cases (lacks_prefix it.prefix key)) [
          | inl lacks ↦ rw lacks (refl, refl)
          | inr has ↦ rw has (refl, rw (on, going, behind))
        ])
  advanced_found it (_, key, c) k ks on going h at_k behind = cc

  Yields-if :
      (b : Bool) (ks : List Bytes) (q r : (StorageRc × Option Bytes) × StorageIter T C)
      → (b ≡ true → Yields [] q)
      → (b ≡ false → Yields ks r)
      → Yields (if b then [] else ks) (if b then q else r)
  Yields-if true ks q r over more = over refl
  Yields-if false ks q r over more = more refl

  -- If keys are still to come, storage_iter_next yields the first of them and leaves the others
  -- to come; if none is, it answers NOTFOUND and none is to come afterwards either. The cursors
  -- meet LMDB's laws.
  pub iter_next_lem : (it : StorageIter T C) → Yields (upcoming it) (iter_next m it)
  unfolding iter_next upcoming
  iter_next_lem it =
      Yields-if it.exhausted _ _ _ (λ over. (refl, rw over)) (by_ahead (ahead it) refl)
    where
      moved : MdbRc × Bytes × C
      moved = m.cursor_get (step_op m it) it.cursor

      by_ahead :
          (xs : List Bytes)
          → ahead it ≡ xs
          → it.exhausted ≡ false
          → Yields
              (while_prefix it.prefix (ahead it))
              (advanced m (record it { started = true }) moved)
      by_ahead [] e going = rw e (
          unfold while_prefix in
          advanced_end (record it { started = true }) moved (L.ended (step_op m it) it.cursor e))
      by_ahead (k ∷ ks) e going =
          let (rc, key, behind) = L.found (step_op m it) it.cursor k ks e in
          rw e (advanced_found (record it { started = true }) moved k ks refl going rc key behind)

  abbrev fresh : T → C → Bytes → StorageIter T C
  fresh txn c p = record { txn = txn; cursor = c; prefix = p; started = false; exhausted = false }

  upcoming-fresh :
      (txn : T) (c : C) (p : Bytes)
      → L.all c ≡ L.keys txn
      → upcoming (fresh txn c p) ≡ with_prefix p (L.keys txn)
  unfolding upcoming
  upcoming-fresh txn c [] h = rw h (while-nil (L.keys txn))
  upcoming-fresh txn c (x ∷ p) h = ground (
    arith,
    ap (λ (ks : List Bytes). while_prefix (x ∷ p) (from_key (x ∷ p) ks)) h,
    while-from_key (x ∷ p) (L.keys txn) (L.ascending txn),
  )

  opened_lem :
      (env : StorageEnv E) (p : Bytes) (txn : T) (e : E) (r : MdbRc × C)
      → r ≡ m.cursor_open txn
      → (it : StorageIter T C) (env' : Option (StorageEnv E))
      → cursor_opened m env p txn e r ≡ ((ok, some it), env')
      → upcoming it ≡ with_prefix p (L.keys txn)
  unfolding map_mdb_rc
  opened_lem env p txn e (success, c) at it env' h =
      let same_it : fresh txn c p ≡ it = cc in
      subst (λ i. upcoming i ≡ with_prefix p (L.keys txn)) same_it
        (upcoming-fresh txn c p (
          ap (λ (r : MdbRc × C). L.all r.1) at
          ∙ L.opened txn (ap (λ (r : MdbRc × C). r.0) (sym at))))
  opened_lem env p txn e (_, c) at it env' h = cc

  -- If storage_iter_open succeeds on an environment, then the keys that the iterator is still to
  -- yield are the keys of its transaction that have the prefix, in ascending order. The cursors
  -- meet LMDB's laws.
  pub upcoming-iter_open :
      (mem : Bool) (env : StorageEnv E) (prefix : Option Bytes) (it : StorageIter T C)
      (env' : Option (StorageEnv E))
      → storage_iter_open m mem (some env) prefix true ≡ ((ok, some it), env')
      → upcoming it ≡ with_prefix (string_of prefix) (L.keys (begin_read_txn m env).1)
  unfolding storage_iter_open
  upcoming-iter_open mem env prefix it env' h =
      elim (Bool-cases (ltb key_max (length (string_of prefix)))) [
        | inl long ↦ cc (rw long at h)
        | inr short ↦ by_mem mem (rw short at h)
      ]
    where
      by_begin :
          (r : StorageRc × T × E)
          → iter_begun m env (string_of prefix) r ≡ ((ok, some it), env')
          → upcoming it ≡ with_prefix (string_of prefix) (L.keys r.1)
      by_begin (ok, txn, e) g =
          opened_lem env (string_of prefix) txn e (m.cursor_open txn) refl it env' g
      by_begin (_, txn, e) g = cc

      by_mem :
          (b : Bool)
          → (if not b
              then ((err_io, none), some env)
              else iter_begun m env (string_of prefix) (begin_read_txn m env))
            ≡ ((ok, some it), env')
          → upcoming it ≡ with_prefix (string_of prefix) (L.keys (begin_read_txn m env).1)
      by_mem true g = by_begin (begin_read_txn m env) g
      by_mem false g = cc

module _ {E T C : Type 0} (m : Lmdb E T C) where
  begun-ne :
      (env : StorageEnv E) (p : Bytes) (r : StorageRc × T × E)
      → (iter_begun m env p r).0 ≢ (ok, none)
  unfolding map_mdb_rc
  begun-ne env p (ok, txn, e) = opened-ne (m.cursor_open txn)
    where
      opened-ne : (c : MdbRc × C) → (cursor_opened m env p txn e c).0 ≢ (ok, none)
      opened-ne (success, c) = λ h. cc
      opened-ne (_, c) = λ h. cc
  begun-ne env p (_, txn, e) = λ h. cc

  -- Success comes with an iterator.
  pub iter_open-ne :
      (mem : Bool) (env : Option (StorageEnv E)) (prefix : Option Bytes)
      → (storage_iter_open m mem env prefix true).0 ≢ (ok, none)
  unfolding storage_iter_open
  iter_open-ne mem none prefix = λ h. cc
  iter_open-ne mem (some env) prefix =
      ground (arith, begun-ne env (string_of prefix) (begin_read_txn m env))
