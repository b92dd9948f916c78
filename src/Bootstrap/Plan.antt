-- ===== src/Bootstrap/Plan.antt =====
-- What the blocks of src/generated/storage_bootstrap.c plan for the database, taken together.
pub mod Keys
pub mod Outcome
use agentx_subagent.Prelude.{
  ℕ, ◌≡◌, ◌≢◌, refl, sym, ◌∙◌, ap, subst, Bool, true, false, ◌||◌, ◌&&◌, Option, none, some, List,
  [], ◌∷◌, Bytes, same, same→eq, arith, if◌then◌else◌, Bool-cases, Option-cases, inl, inr,
}
use agentx_subagent.Storage.Types.{StorageRc, ok}
use agentx_subagent.Storage.Lmdb.{Lmdb, LmdbLaws}
use agentx_subagent.Storage.Codec.{Res, got, fail, validate_key}
use agentx_subagent.Storage.Txn.{StorageTxn}
use agentx_subagent.Mib.Values.{Cell, encoding}
use agentx_subagent.Bootstrap.{Seed, Memory, next_seed, seed_one, seed_all}
use agentx_subagent.Bootstrap.Seeds.{is_none, filled, Leads, seed_key-Leads}

abbrev pub or_else : Option Bytes → Option Bytes → Option Bytes
or_else none other = other
or_else (some v) other = some v

abbrev default_at : Res Bytes → Cell → Bytes → Option Bytes
default_at (got key) value j = if same key j then some (encoding value) else none
default_at (fail rc) value j = none

-- The bytes that the first block of a key stores.
unfoldable pub default_of : List Seed → Bytes → Option Bytes
default_of [] j = none
default_of (seed ∷ seeds) j = or_else (default_at seed.key seed.value j) (default_of seeds j)

-- What is at a key in the end: the default wins, or what was there does.
abbrev pub planned : (overwrite : Bool) → Option Bytes → Option Bytes → Option Bytes
planned true default before = or_else default before
planned false default before = or_else before default

-- The key of every block is built, storage_lmdb.c takes it, and no later block has it too.
pub data Seeded : List Seed → Type 0 where
  done : Seeded []
  next :
      {seed : Seed} {seeds : List Seed} (key : Bytes)
      → seed.key ≡ got key
      → validate_key (some key) ≡ got key
      → default_of seeds key ≡ none
      → Seeded seeds
      → Seeded (seed ∷ seeds)

unplanned : (overwrite : Bool) (before : Option Bytes) → planned overwrite none before ≡ before
unplanned true before = refl
unplanned false none = refl
unplanned false (some v) = refl

-- A block and then the plan of the others is the plan of them all.
planned-filled :
    (overwrite : Bool) (key j : Bytes) (value : Cell) (others : Bytes → Option Bytes)
    (view : Bytes → Option Bytes)
    → others key ≡ none
    → planned overwrite (others j) (filled overwrite key value view j)
      ≡ planned overwrite (or_else (default_at (got key) value j) (others j)) (view j)
planned-filled overwrite key j value others view free = elim (Bool-cases (same key j)) [
  | inl same_key ↦
      rw (same_key, sym (same→eq key j same_key)) (settled overwrite (others key) (view key) free)
  | inr other ↦ rw other (elsewhere overwrite)
]
  where
    settled :
        (b : Bool) (o before : Option Bytes)
        → o ≡ none
        → planned b o (if (b || is_none before) && true then some (encoding value) else before)
          ≡ planned b (some (encoding value)) before
    settled true o before e = rw e refl
    settled false o none e = refl
    settled false o (some w) e = refl

    elsewhere :
        (b : Bool)
        → planned b
            (others j)
            (if (b || is_none (view key)) && false then some (encoding value) else view j)
          ≡ planned b (others j) (view j)
    elsewhere b = ground arith

next_seed-eq-ok :
    {T : Type 0} (r : StorageRc × Option (StorageTxn T))
    (others : Option (StorageTxn T) → StorageRc × Option (StorageTxn T))
    → (next_seed r others).0 ≡ ok
    → (r.0 ≡ ok) × (next_seed r others ≡ others r.1)
next_seed-eq-ok (ok, txn) others h = (refl, refl)
next_seed-eq-ok (rc, txn) others h = cc

module _ {E T C : Type 0} (m : Lmdb E T C) (L : LmdbLaws m) (mem : Memory) where
  seed_one-Leads :
      (overwrite : Bool) (value : Cell) (r : Res Bytes) (key : Bytes) (view : Bytes → Option Bytes)
      (txn : StorageTxn T)
      → r ≡ got key
      → validate_key (some key) ≡ got key
      → txn.readonly ≡ false
      → ((j : Bytes) → L.txn_view txn.txn j ≡ view j)
      → (seed_one m mem overwrite value r (some txn)).0 ≡ ok
      → Leads m L mem
          (filled overwrite key value view)
          (seed_one m mem overwrite value r (some txn)).1
  seed_one-Leads overwrite value r key view txn e valid writable sees h =
      subst
        (λ r.
          (seed_one m mem overwrite value r (some txn)).0 ≡ ok
          → Leads m L mem (filled overwrite key value view)
              (seed_one m mem overwrite value r (some txn)).1)
        (sym e) (seed_key-Leads m L mem overwrite value key view txn writable sees valid) h

  -- All the blocks: what the transaction holds when each of them has reported success.
  pub seed_all-Leads :
      (overwrite : Bool) (seeds : List Seed) (view : Bytes → Option Bytes) (txn : StorageTxn T)
      → Seeded seeds
      → txn.readonly ≡ false
      → ((j : Bytes) → L.txn_view txn.txn j ≡ view j)
      → (seed_all m mem overwrite seeds (some txn)).0 ≡ ok
      → Leads m L mem
          (λ j. planned overwrite (default_of seeds j) (view j))
          (seed_all m mem overwrite seeds (some txn)).1
  unfolding seed_all default_of
  seed_all-Leads overwrite [] view txn plain writable sees h =
      (txn, refl, writable, λ j. sees j ∙ sym (unplanned overwrite (view j)))
  seed_all-Leads overwrite (seed ∷ seeds) view txn (next key e valid free plain) writable sees h =
      let (first, rest) =
        next_seed-eq-ok (seed_one m mem overwrite seed.value seed.key (some txn))
          (λ txn'. seed_all m mem overwrite seeds txn') h in
      let (txn', e', w, leaves) =
        seed_one-Leads overwrite seed.value seed.key key view txn e valid writable sees first in
      let run : seed_all m mem overwrite (seed ∷ seeds) (some txn)
          ≡ seed_all m mem overwrite seeds (some txn') =
        rest ∙ ap (λ t. seed_all m mem overwrite seeds t) e' in
      let (last, e'', w', holds) =
        seed_all-Leads overwrite seeds (filled overwrite key seed.value view) txn' plain w leaves
          (sym (ap (λ r. r.0) run) ∙ h) in
      (
        last,
        ap (λ r. r.1) run ∙ e'',
        w',
        λ j.
            holds j
            ∙ planned-filled overwrite key j seed.value (λ i. default_of seeds i) view free
            ∙ ap
                (λ r.
                  planned overwrite (or_else (default_at r seed.value j) (default_of seeds j))
                    (view j))
                (sym e),
      )
