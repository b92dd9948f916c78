-- ===== src/Bootstrap/Seeds.antt =====
-- What one block of src/generated/storage_bootstrap.c does to the open transaction.
use agentx_subagent.Prelude.{
  ℕ, ◌≡◌, ◌≢◌, refl, sym, ◌∙◌, ap, Bool, true, false, ◌||◌, ◌&&◌, Option, none, some, Bytes, same,
  arith, if◌then◌else◌, Bool-cases, Option-cases, inl, inr,
}
use agentx_subagent.Storage.Types.{StorageRc, ok, err_notfound}
use agentx_subagent.Storage.Lmdb.{Lmdb, LmdbLaws}
use agentx_subagent.Storage.Codec.{Res, got, fail, validate_key, decode_header, ◌>>=◌}
use agentx_subagent.Storage.Access.{at_least, store_out, txn_get_int_impl, txn_get_uint_impl}
use agentx_subagent.Storage.Access.Blobs.{copy_out, txn_get_bytes_impl}
use agentx_subagent.Storage.Env.Reads.{txn_get_raw_found, txn_get_raw_missing}
use agentx_subagent.Storage.Ops.Calls.{helper, helper-Leaves}
use agentx_subagent.Storage.Txn.{
  StorageTxn, on_writable, storage_txn_get_int, storage_txn_set_int, storage_txn_get_uint,
  storage_txn_set_uint, storage_txn_get_bytes, storage_txn_set_bytes,
}
use agentx_subagent.Mib.Values.{Cell, int, uint, octets, encoding, set_call}
use agentx_subagent.Mib.Scalars.Phases.{stored-set_call}
use agentx_subagent.Bootstrap.{Memory, is_notfound, probe, set_default, seed_key}

-- Decoding a value that is there never ends in NOTFOUND.
decode-ne-notfound : (raw : Bytes) (type : ℕ) → decode_header raw type ≢ fail err_notfound
unfolding decode_header
decode-ne-notfound raw type h = ground (arith, h)

int_code :
    {A : Type 0} (n : ℕ) (f : Bytes → A) (old : A) (r : Res Bytes)
    → r ≢ fail err_notfound
    → is_notfound (store_out old (do payload ← r; payload ← at_least n payload; got (f payload))).0
      ≡ false
int_code n f old (got payload) h = ground arith
int_code n f old (fail err_notfound) h = absurd (h refl)
int_code n f old (fail rc) h = ground arith

bytes_code :
    (buf : Option Bytes) (size : ℕ) (r : Res Bytes)
    → r ≢ fail err_notfound
    → is_notfound (copy_out buf size r).rc ≡ false
bytes_code buf size (got payload) h = ground arith
bytes_code buf size (fail err_notfound) h = absurd (h refl)
bytes_code buf size (fail rc) h = ground arith

abbrev pub is_none : Option Bytes → Bool
is_none none = true
is_none (some v) = false

-- What a block makes of the database that the transaction sees.
abbrev pub filled :
    (overwrite : Bool) → Bytes → Cell → (Bytes → Option Bytes) → Bytes → Option Bytes
filled overwrite key value view j =
    if (overwrite || is_none (view key)) && same key j then some (encoding value) else view j

module _ {E T C : Type 0} (m : Lmdb E T C) (mem : Memory) where
  -- What writes a default is the helper of its type.
  pub set_default-helper :
      (value : Cell) (txn : Option (StorageTxn T)) (key : Bytes)
      → set_default m mem value txn key
        ≡ on_writable m (helper m (set_call (mem.buffer key) value) (some key)) txn
  unfolding set_default helper storage_txn_set_int storage_txn_set_uint storage_txn_set_bytes
  set_default-helper (int v) txn key = refl
  set_default-helper (uint v) txn key = refl
  set_default-helper (octets buf len) txn key = refl

module _ {E T C : Type 0} (m : Lmdb E T C) (L : LmdbLaws m) (mem : Memory) where
  probe_missing :
      (value : Cell) (txn : StorageTxn T) (key : Bytes)
      → validate_key (some key) ≡ got key
      → L.txn_view txn.txn key ≡ none
      → is_notfound (probe m mem value (some txn) key) ≡ true
  unfolding probe storage_txn_get_int storage_txn_get_uint storage_txn_get_bytes txn_get_int_impl
      txn_get_uint_impl txn_get_bytes_impl
  probe_missing (int v) txn key valid h =
      rw (txn_get_raw_missing m L txn.txn (some key) key valid h, is_notfound) refl
  probe_missing (uint v) txn key valid h =
      rw (txn_get_raw_missing m L txn.txn (some key) key valid h, is_notfound) refl
  probe_missing (octets buf len) txn key valid h =
      rw (txn_get_raw_missing m L txn.txn (some key) key valid h, is_notfound) refl

  probe_found :
      (value : Cell) (txn : StorageTxn T) (key raw : Bytes)
      → validate_key (some key) ≡ got key
      → L.txn_view txn.txn key ≡ some raw
      → is_notfound (probe m mem value (some txn) key) ≡ false
  unfolding probe storage_txn_get_int storage_txn_get_uint storage_txn_get_bytes txn_get_int_impl
      txn_get_uint_impl txn_get_bytes_impl
  probe_found (int v) txn key raw valid h =
      rw (txn_get_raw_found m L txn.txn (some key) key raw valid h, is_notfound)
        (int_code 4 _ _ (decode_header raw _) (decode-ne-notfound raw _))
  probe_found (uint v) txn key raw valid h =
      rw (txn_get_raw_found m L txn.txn (some key) key raw valid h, is_notfound)
        (int_code 4 _ _ (decode_header raw _) (decode-ne-notfound raw _))
  probe_found (octets buf len) txn key raw valid h =
      rw (txn_get_raw_found m L txn.txn (some key) key raw valid h, is_notfound)
        (bytes_code _ _ (decode_header raw _) (decode-ne-notfound raw _))

  -- The probe finds out whether the key is there.
  probe_lem :
      (value : Cell) (txn : StorageTxn T) (key : Bytes)
      → validate_key (some key) ≡ got key
      → is_notfound (probe m mem value (some txn) key) ≡ is_none (L.txn_view txn.txn key)
  probe_lem value txn key valid = elim (Option-cases (L.txn_view txn.txn key)) [
    | inl h ↦ probe_missing value txn key valid h ∙ sym (ap is_none h)
    | inr (raw, h) ↦ probe_found value txn key raw valid h ∙ sym (ap is_none h)
  ]

  -- A writable transaction stays one, and holds `view` afterwards.
  abbrev pub Leads : (Bytes → Option Bytes) → Option (StorageTxn T) → Type 0
  Leads view after =
      (txn : StorageTxn T) × (after ≡ some txn)
      × (txn.readonly ≡ false)
      × ((j : Bytes) → L.txn_view txn.txn j ≡ view j)

  on_writable_open :
      (impl : T → StorageRc × T) (txn : StorageTxn T)
      → txn.readonly ≡ false
      → on_writable m impl (some txn)
        ≡ ((impl txn.txn).0, some (record { txn = (impl txn.txn).1; readonly = false }))
  on_writable_open impl txn writable = rw writable refl

  set_default-Leads :
      (value : Cell) (key : Bytes) (txn : StorageTxn T)
      → txn.readonly ≡ false
      → validate_key (some key) ≡ got key
      → (set_default m mem value (some txn) key).0 ≡ ok
      → Leads
          (λ j. if same key j then some (encoding value) else L.txn_view txn.txn j)
          (set_default m mem value (some txn) key).1
  set_default-Leads value key txn writable valid h =
      let impl = helper m (set_call (mem.buffer key) value) (some key) in
      let step =
        set_default-helper m mem value (some txn) key ∙ on_writable_open impl txn writable in
      let (k, e, leaves) =
        helper-Leaves m L (set_call (mem.buffer key) value) (some key) txn.txn (rw step at h) in
      let here : k ≡ key = cc in
      (
        record { txn = (impl txn.txn).1; readonly = false },
        ap (λ r. r.1) step,
        refl,
        λ j. leaves j ∙ rw (here, stored-set_call (mem.buffer key) value) refl,
      )

  -- A block that reports success has filled in its key.
  pub seed_key-Leads :
      (overwrite : Bool) (value : Cell) (key : Bytes) (view : Bytes → Option Bytes)
      (txn : StorageTxn T)
      → txn.readonly ≡ false
      → ((j : Bytes) → L.txn_view txn.txn j ≡ view j)
      → validate_key (some key) ≡ got key
      → (seed_key m mem overwrite value key (some txn)).0 ≡ ok
      → Leads (filled overwrite key value view) (seed_key m mem overwrite value key (some txn)).1
  unfolding seed_key
  seed_key-Leads overwrite value key view txn writable sees valid h =
      let agree : overwrite || is_notfound (probe m mem value (some txn) key)
          ≡ overwrite || is_none (view key) =
        ap (λ b. overwrite || b) (probe_lem value txn key valid ∙ ap is_none (sees key)) in
      elim (Bool-cases (overwrite || is_notfound (probe m mem value (some txn) key))) [
        | inl writes ↦
            let (txn', e, w, leaves) =
              set_default-Leads value key txn writable valid (rw writes at h) in
            (txn', rw writes e, w, λ j. leaves j ∙ rw (sym agree ∙ writes, sees j) refl)
        | inr keeps ↦ (txn, rw keeps refl, writable, λ j. sees j ∙ rw (sym agree ∙ keeps) refl)
      ]
