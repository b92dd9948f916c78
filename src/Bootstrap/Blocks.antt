-- ===== src/Bootstrap/Blocks.antt =====
-- src/generated/storage_bootstrap.c: the blocks work on the one transaction that is open, on every
-- path.
use agentx_subagent.Prelude.{
  ◌≡◌, refl, ◌∙◌, ap, Bool, true, false, ◌||◌, Bool-cases, inl, inr, Option, some, List, [], ◌∷◌,
  Bytes, if◌then◌else◌,
}
use agentx_subagent.Storage.Types.{StorageRc, ok, err_readonly}
use agentx_subagent.Storage.Lmdb.{Lmdb}
use agentx_subagent.Storage.Codec.{Res, got, fail}
use agentx_subagent.Storage.Txn.{StorageTxn, on_writable}
use agentx_subagent.Mib.Values.{Cell, set_call}
use agentx_subagent.Bootstrap.{
  Seed, Memory, set_default, seed_key, seed_one, next_seed, seed_all, probe, is_notfound,
}
use agentx_subagent.Bootstrap.Seeds.{set_default-helper}
use agentx_subagent.Storage.Ops.Calls.{WriteCall, helper}

-- `P` is what the storage calls keep of a transaction.
module _ {E T C : Type 0} (m : Lmdb E T C) (mem : Memory) (P : T → Type 0)
    (kept : (c : WriteCall) (key : Bytes) (t : T) → P t → P (helper m c (some key) t).1) where
  -- The transaction of a seeding is there until it is committed or aborted.
  abbrev pub IsOpen : StorageRc × Option (StorageTxn T) → Type 0
  IsOpen r = (txn : StorageTxn T) × (r.1 ≡ some txn) × P txn.txn

  on_writable-IsOpen :
      (impl : T → StorageRc × T) (txn : StorageTxn T)
      → P txn.txn
      → P (impl txn.txn).1
      → IsOpen (on_writable m impl (some txn))
  on_writable-IsOpen impl txn before after = by_mode txn.readonly
    where
      by_mode :
          (ro : Bool)
          → IsOpen (
              if ro
              then (err_readonly, some txn)
              else ((impl txn.txn).0, some (record txn { txn = (impl txn.txn).1 })))
      by_mode true = (txn, refl, before)
      by_mode false = (record txn { txn = (impl txn.txn).1 }, refl, after)

  set_default-IsOpen :
      (value : Cell) (txn : StorageTxn T) (key : Bytes)
      → P txn.txn
      → IsOpen (set_default m mem value (some txn) key)
  set_default-IsOpen value txn key p =
      let c = set_call (mem.buffer key) value in
      let (after, e, q) = on_writable-IsOpen (helper m c (some key)) txn p (kept c key txn.txn p) in
      (after, ap (λ r. r.1) (set_default-helper m mem value (some txn) key) ∙ e, q)

  seed_one-IsOpen :
      (overwrite : Bool) (value : Cell) (key : Res Bytes) (txn : StorageTxn T)
      → P txn.txn
      → IsOpen (seed_one m mem overwrite value key (some txn))
  unfolding seed_key
  seed_one-IsOpen overwrite value (fail rc) txn p = (txn, refl, p)
  seed_one-IsOpen overwrite value (got key) txn p =
      elim (Bool-cases (overwrite || is_notfound (probe m mem value (some txn) key))) [
        | inl writes ↦ rw writes (set_default-IsOpen value txn key p)
        | inr keeps ↦ rw keeps (txn, refl, p)
      ]

  next_seed-IsOpen :
      (r : StorageRc × Option (StorageTxn T))
      (others : Option (StorageTxn T) → StorageRc × Option (StorageTxn T))
      → IsOpen r
      → ((txn : StorageTxn T) → P txn.txn → IsOpen (others (some txn)))
      → IsOpen (next_seed r others)
  next_seed-IsOpen (ok, o) others (txn, e, p) later = rw e (later txn p)
  next_seed-IsOpen (_, o) others (txn, e, p) later = (txn, e, p)

  pub seed_all-IsOpen :
      (overwrite : Bool) (seeds : List Seed) (txn : StorageTxn T)
      → P txn.txn
      → IsOpen (seed_all m mem overwrite seeds (some txn))
  unfolding seed_all
  seed_all-IsOpen overwrite [] txn p = (txn, refl, p)
  seed_all-IsOpen overwrite (seed ∷ seeds) txn p =
      next_seed-IsOpen (seed_one m mem overwrite seed.value seed.key (some txn))
        (λ txn'. seed_all m mem overwrite seeds txn')
        (seed_one-IsOpen overwrite seed.value seed.key txn p) (seed_all-IsOpen overwrite seeds)
