-- ===== src/Storage/Txn/Session.antt =====
-- A whole explicit transaction of src/storage_lmdb.c: begin, some writing calls, and commit or abort.
use agentx_subagent.Prelude.{
  ℕ, ◌≡◌, ◌≢◌, refl, ◌∙◌, sym, ap, Bool, true, false, not, ◌&&◌, Bool-cases, Option, none, some,
  List, [], ◌∷◌, Bytes, same, inl, inr, arith, if◌then◌else◌,
}
use agentx_subagent.Prelude.Int.{ℤ}
use agentx_subagent.Storage.Types.{StorageRc, ok}
use agentx_subagent.Storage.Lmdb.{Lmdb, LmdbLaws}
use agentx_subagent.Storage.Codec.{map_mdb_rc}
use agentx_subagent.Storage.Codec.Words.{map_mdb_rc-eq-ok, validate_key-eq-got}
use agentx_subagent.Storage.Env.{StorageEnv}
use agentx_subagent.Storage.Ops.Calls.{
  WriteCall, set_int, set_uint, set_u64, set_bytes, delete, stored, helper, helper-Leaves,
  helper-writing,
}
use agentx_subagent.Storage.Txn.{
  StorageTxn, begun, on_writable, storage_txn_begin, storage_txn_commit, storage_txn_abort,
  storage_txn_set_int, storage_txn_set_uint, storage_txn_set_u64, storage_txn_set_bytes,
  storage_txn_delete,
}

-- The writing calls of a transaction.
pub data TxnCall : Type 0 where
  write_int : ℤ → TxnCall
  write_uint write_u64 : ℕ → TxnCall
  write_bytes : (mem : Bool) → Option Bytes → ℕ → TxnCall
  remove : TxnCall

-- The call of src/storage_lmdb.c that does the same in a transaction of its own.
abbrev pub alone : TxnCall → WriteCall
alone (write_int val) = set_int val
alone (write_uint val) = set_uint val
alone (write_u64 val) = set_u64 val
alone (write_bytes mem buf len) = set_bytes mem buf len
alone remove = delete

abbrev is_key : Option Bytes → Bytes → Bool
is_key none j = false
is_key (some k) j = same k j

-- A database after some calls: the latest one at a key counts.
abbrev pub after : List (Option Bytes × TxnCall) → (Bytes → Option Bytes) → Bytes → Option Bytes
after [] view = view
after ((key, c) ∷ calls) view = after calls (λ j. if is_key key j then stored (alone c) else view j)

abbrev and_then :
    {T : Type 0}
    → StorageRc × Option (StorageTxn T)
    → (Option (StorageTxn T) → StorageRc × Option (StorageTxn T))
    → StorageRc × Option (StorageTxn T)
and_then (ok, txn) others = others txn
and_then (rc, txn) others = (rc, txn)

module _ {E T C : Type 0} (m : Lmdb E T C) where
  unfoldable pub run_call :
      TxnCall → Option Bytes → Option (StorageTxn T) → StorageRc × Option (StorageTxn T)
  run_call (write_int val) key txn = storage_txn_set_int m txn key val
  run_call (write_uint val) key txn = storage_txn_set_uint m txn key val
  run_call (write_u64 val) key txn = storage_txn_set_u64 m txn key val
  run_call (write_bytes mem buf len) key txn = storage_txn_set_bytes m mem txn key buf len
  run_call remove key txn = storage_txn_delete m txn key

  -- The calls one after the other, up to the first that reports an error.
  unfoldable pub run_all :
      List (Option Bytes × TxnCall) → Option (StorageTxn T) → StorageRc × Option (StorageTxn T)
  run_all [] txn = (ok, txn)
  run_all ((key, c) ∷ calls) txn = and_then (run_call c key txn) (λ txn'. run_all calls txn')

  run_call-helper :
      (c : TxnCall) (key : Option Bytes) (txn : Option (StorageTxn T))
      → run_call c key txn ≡ on_writable m (helper m (alone c) key) txn
  unfolding run_call helper storage_txn_set_int storage_txn_set_uint storage_txn_set_u64
      storage_txn_set_bytes storage_txn_delete
  run_call-helper (write_int val) key txn = refl
  run_call-helper (write_uint val) key txn = refl
  run_call-helper (write_u64 val) key txn = refl
  run_call-helper (write_bytes mem buf len) key txn = refl
  run_call-helper remove key txn = refl

  on_writable-eq-ok :
      (impl : T → StorageRc × T) (txn : StorageTxn T)
      → (on_writable m impl (some txn)).0 ≡ ok
      → (txn.readonly ≡ false)
        × ((impl txn.txn).0 ≡ ok)
        × ((on_writable m impl (some txn)).1
            ≡ some (record { txn = (impl txn.txn).1; readonly = false }))
  on_writable-eq-ok impl txn h = elim (Bool-cases txn.readonly) [
    | inl ro ↦ absurd (ground (arith, h, ro))
    | inr writable ↦ (writable, (rw writable at h), rw writable refl)
  ]

  and_then-eq-ok :
      (r : StorageRc × Option (StorageTxn T))
      (others : Option (StorageTxn T) → StorageRc × Option (StorageTxn T)) (txn' : StorageTxn T)
      → and_then r others ≡ (ok, some txn')
      → (r.0 ≡ ok) × (others r.1 ≡ (ok, some txn'))
  and_then-eq-ok (ok, txn) others txn' h = (refl, h)
  and_then-eq-ok (_, txn) others txn' h = absurd (ground (arith, h))

module _ {E T C : Type 0} (m : Lmdb E T C) (L : LmdbLaws m) where
  -- One call that succeeds in a transaction.
  run_call_lem :
      (c : TxnCall) (key : Option Bytes) (view : Bytes → Option Bytes) (txn : StorageTxn T)
      → ((j : Bytes) → L.txn_view txn.txn j ≡ view j)
      → (run_call m c key (some txn)).0 ≡ ok
      → (next : StorageTxn T) × ((run_call m c key (some txn)).1 ≡ some next)
        × (txn.readonly ≡ false)
        × ((j : Bytes)
            → L.txn_view next.txn j ≡ (if is_key key j then stored (alone c) else view j))
        × ((e : E) → L.writing next.txn e ≡ L.writing txn.txn e)
  run_call_lem c key view txn sees h =
      let step = run_call-helper m c key (some txn) in
      let (writable, done, is) =
        on_writable-eq-ok m (helper m (alone c) key) txn (sym (ap (λ r. r.0) step) ∙ h) in
      let (k, valid, leaves) = helper-Leaves m L (alone c) key txn.txn done in
      (
        record { txn = (helper m (alone c) key txn.txn).1; readonly = false },
        ap (λ r. r.1) step ∙ is,
        writable,
        λ j. leaves j ∙ rw (validate_key-eq-got key k valid, sees j) refl,
        helper-writing m L (alone c) key txn.txn,
      )

  run_all_lem :
      (calls : List (Option Bytes × TxnCall)) (view : Bytes → Option Bytes)
      (txn txn' : StorageTxn T)
      → ((j : Bytes) → L.txn_view txn.txn j ≡ view j)
      → run_all m calls (some txn) ≡ (ok, some txn')
      → ((j : Bytes) → L.txn_view txn'.txn j ≡ after calls view j)
        × ((e : E) → L.writing txn'.txn e ≡ L.writing txn.txn e)
  unfolding run_all
  run_all_lem [] view txn txn' sees h =
      let here : txn' ≡ txn = cc in
      (
        λ j. ap (λ (x : StorageTxn T). L.txn_view x.txn j) here ∙ sees j,
        λ e. ap (λ (x : StorageTxn T). L.writing x.txn e) here,
      )
  run_all_lem ((key, c) ∷ calls) view txn txn' sees h =
      let (good, rest) =
        and_then-eq-ok m (run_call m c key (some txn)) (λ t. run_all m calls t) txn' h in
      let (next, is, writable, leaves, same) = run_call_lem c key view txn sees good in
      let (holds, kept) =
        run_all_lem calls _ next txn' leaves (sym (ap (run_all m calls) is) ∙ rest) in
      (holds, λ e. kept e ∙ same e)

  begun_lem :
      (mem : Bool) (env : StorageEnv E) (ro : Bool) (r : StorageRc × T × E) (txn : StorageTxn T)
      (env' : StorageEnv E)
      → begun m mem env ro r ≡ ((ok, some txn), some env')
      → (r.0 ≡ ok) × (txn ≡ record { txn = r.1; readonly = ro }) × (env'.env ≡ r.2)
  begun_lem true env ro (ok, t, e) txn env' h = (refl, cc, cc)
  begun_lem false env ro (ok, t, e) txn env' h = cc
  begun_lem mem env ro (_, t, e) txn env' h = cc

  -- A storage_txn_begin that succeeds.
  storage_txn_begin-eq-ok :
      (mem ro : Bool) (env env' : StorageEnv E) (txn : StorageTxn T)
      → storage_txn_begin m mem (some env) ro true ≡ ((ok, some txn), some env')
      → (txn.readonly ≡ ro)
        × (not ro && env.readonly ≡ false)
        × ((j : Bytes) → L.txn_view txn.txn j ≡ L.env_view env.env j)
        × ((j : Bytes) → L.env_view env'.env j ≡ L.env_view env.env j)
        × (ro ≡ false → L.writing txn.txn env'.env ≡ true)
  unfolding storage_txn_begin
  storage_txn_begin-eq-ok mem ro env env' txn h = elim (Bool-cases (not ro && env.readonly)) [
    | inl refused ↦ absurd (ground (arith, h, refused))
    | inr granted ↦
        let (good, is, e) = begun_lem mem env ro _ txn env' (rw granted at h) in
        (
          ap (λ x. x.readonly) is,
          granted,
          λ j.
              ap (λ (x : StorageTxn T). L.txn_view x.txn j) is
              ∙ L.begin_snapshot ro env.env j (map_mdb_rc-eq-ok _ good),
          λ j. ap (λ x. L.env_view x j) e ∙ L.begin_keeps ro env.env j,
          λ writes.
              ap (λ (x : StorageTxn T). L.writing x.txn env'.env) is
              ∙ ap (λ x. L.writing (m.txn_begin ro env.env).1 x) e
              ∙ rw (writes) (L.begin_writing env.env (map_mdb_rc-eq-ok _ (rw writes at good))),
        )
  ]

  -- Let storage_txn_begin succeed and one or more storage_txn_set_* and storage_txn_delete calls
  -- in its transaction, one after the other, all report OK. Then the transaction was not asked
  -- for read-only and the handle is not read-only. If storage_txn_commit reports OK, each key
  -- holds what the latest call at it wrote, or nothing after a delete, and a key of no call holds
  -- what it held before the begin. If storage_txn_commit reports an error, or the transaction is
  -- aborted instead, every key holds what it held before the begin. The database meets LMDB's
  -- laws.
  pub storage_txn_lem :
      (mem ro : Bool) (env env' : StorageEnv E) (txn txn' : StorageTxn T)
      (call : Option Bytes × TxnCall) (calls : List (Option Bytes × TxnCall))
      → storage_txn_begin m mem (some env) ro true ≡ ((ok, some txn), some env')
      → run_all m (call ∷ calls) (some txn) ≡ (ok, some txn')
      → (ro ≡ false)
        × (env.readonly ≡ false)
        × ((storage_txn_commit m (some txn') env'.env).0 ≡ ok
            → (j : Bytes)
            → L.env_view (storage_txn_commit m (some txn') env'.env).1 j
              ≡ after (call ∷ calls) (L.env_view env.env) j)
        × ((storage_txn_commit m (some txn') env'.env).0 ≢ ok
            → (j : Bytes)
            → L.env_view (storage_txn_commit m (some txn') env'.env).1 j ≡ L.env_view env.env j)
        × ((j : Bytes)
            → L.env_view (storage_txn_abort m (some txn') env'.env) j ≡ L.env_view env.env j)
  unfolding storage_txn_abort storage_txn_commit map_mdb_rc run_all
  storage_txn_lem mem ro env env' txn txn' (key, c) calls begins runs =
      let (mode, granted, sees, keeps, writes) =
        storage_txn_begin-eq-ok mem ro env env' txn begins in
      let (good, rest) =
        and_then-eq-ok m (run_call m c key (some txn)) (λ t. run_all m calls t) txn' runs in
      let (next, is, writable, leaves, same) =
        run_call_lem c key (L.env_view env.env) txn sees good in
      let asked : ro ≡ false = sym mode ∙ writable in
      let (holds, kept) = run_all_lem ((key, c) ∷ calls) (L.env_view env.env) txn txn' sees runs in
      (
        asked,
        ground (arith, granted, asked),
        λ commits j.
            L.commit_publishes txn'.txn env'.env j (kept env'.env ∙ writes asked)
              (map_mdb_rc-eq-ok _ commits)
            ∙ holds j,
        λ fails j. L.commit_fails txn'.txn env'.env j (λ s. fails (rw s refl)) ∙ keeps j,
        λ j. L.abort_keeps txn'.txn env'.env j ∙ keeps j,
      )
