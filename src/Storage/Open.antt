-- ===== src/Storage/Open.antt =====
-- storage_env_open and storage_env_close of src/storage_lmdb.c, and the LMDB handles they hold.
use agentx_subagent.Prelude.{
  ℕ, ◌+◌, ◌-◌, ◌*◌, ◌/◌, ◌%◌, ◌≡◌, refl, ap, ◌∙◌, ◌==◌, Bool, true, false, not, ◌&&◌, Bool-cases,
  inl, inr, Option, none, some, Bytes, if◌then◌else◌, arith,
}
use agentx_subagent.Storage.Types.{StorageRc, ok, err_inval, err_io}
use agentx_subagent.Storage.Lmdb.{MdbRc, success}
use agentx_subagent.Storage.Codec.{map_mdb_rc}
use agentx_subagent.Storage.Env.{StorageEnv}

-- flags & STORAGE_ENV_NOSYNC, STORAGE_ENV_READONLY and STORAGE_ENV_NOSUBDIR
abbrev pub is_nosync : ℕ → Bool
is_nosync flags = flags % 2 == 1

abbrev pub is_readonly : ℕ → Bool
is_readonly flags = flags / 2 % 2 == 1

abbrev pub is_nosubdir : ℕ → Bool
is_nosubdir flags = flags / 4 % 2 == 1

-- mdb_flags: MDB_NOSYNC, MDB_RDONLY and MDB_NOSUBDIR
pub record MdbFlags : Type 0 where
  pub nosync : Bool
  pub rdonly : Bool
  pub nosubdir : Bool

abbrev pub mdb_flags : ℕ → MdbFlags
mdb_flags flags = record {
  nosync = is_nosync flags;
  rdonly = is_readonly flags;
  nosubdir = is_nosubdir flags;
}

-- What the calls answer. `mkdir` is true where it succeeds or the directory exists; `opened` is the
-- environment that mdb_env_open opens.
pub record OpenCalls (E : Type 0) : Type 0 where
  pub mkdir : Bool
  pub env_create : MdbRc
  pub set_mapsize : ℕ → MdbRc
  pub set_maxreaders : ℕ → MdbRc
  pub env_open : MdbFlags → MdbRc
  pub txn_begin : (rdonly : Bool) → MdbRc
  pub dbi_open : (create : Bool) → MdbRc
  pub txn_commit : MdbRc
  pub calloc : Bool
  pub opened : E

-- The MDB_env and MDB_txn handles of opens that are not yet released. The transactions of other calls
-- are counted by the environment itself, in Storage/Lmdb's TxnLaws.
pub record Handles : Type 0 where
  pub envs : ℕ
  pub txns : ℕ

abbrev pub env_created : Handles → Handles
env_created h = record h { envs = h.envs + 1 }

abbrev pub env_closed : Handles → Handles
env_closed h = record h { envs = h.envs - 1 }

abbrev pub txn_started : Handles → Handles
txn_started h = record h { txns = h.txns + 1 }

-- mdb_txn_abort, and mdb_txn_commit whether it succeeds or not
abbrev pub txn_ended : Handles → Handles
txn_ended h = record h { txns = h.txns - 1 }

-- STORAGE_DEFAULT_MAPSIZE
abbrev pub default_mapsize : ℕ
default_mapsize = 64 * 1024 * 1024

abbrev pub Opening : Type 0 → Type 0
Opening E = (StorageRc × Option (StorageEnv E)) × Handles

again : (n : ℕ) → n + 1 - 1 ≡ n
again n = omega arith

pub closed_again : (h : Handles) → env_closed (env_created h) ≡ h
closed_again h = rw (again h.envs) refl

ended_again : (h : Handles) → txn_ended (txn_started h) ≡ h
ended_again h = rw (again h.txns) refl

module _ {E : Type 0} where
  -- `if (rc != MDB_SUCCESS) { ...; return map_mdb_rc(rc); }`, where the clean-up leaves `h`
  abbrev pub on_success : MdbRc → Handles → Opening E → Opening E
  on_success success h next = next
  on_success rc h next = ((map_mdb_rc rc, none), h)

  -- From the calloc on.
  abbrev pub allocated : OpenCalls E → ℕ → Handles → Opening E
  allocated calls flags h = if not calls.calloc then ((err_io, none), env_closed h) else (
    (ok, some (record { env = calls.opened; flags = flags; readonly = is_readonly flags })),
    h,
  )

  -- The end of the transaction in which the dbi is opened: aborted if read-only, else committed.
  abbrev pub dbi_opened : OpenCalls E → ℕ → Handles → Opening E
  dbi_opened calls flags h =
      if is_readonly flags
      then allocated calls flags (txn_ended h)
      else on_success calls.txn_commit (env_closed (txn_ended h))
          (allocated calls flags (txn_ended h))

  abbrev pub created : OpenCalls E → ℕ → ℕ → Handles → Opening E
  created calls mapsize flags h =
      on_success (calls.set_mapsize (if mapsize == 0 then default_mapsize else mapsize))
        (env_closed h)
        (on_success (calls.set_maxreaders 126) (env_closed h) (
          on_success (calls.env_open (mdb_flags flags)) (env_closed h) (
            on_success (calls.txn_begin (is_readonly flags)) (env_closed h) (
              on_success (calls.dbi_open (not (is_readonly flags)))
                (env_closed (txn_ended (txn_started h)))
                (dbi_opened calls flags (txn_started h))))))

  -- `out` says whether the out pointer is not NULL.
  unfoldable pub storage_env_open :
      OpenCalls E → (path : Option Bytes) → ℕ → ℕ → (out : Bool) → Handles → Opening E
  storage_env_open calls none mapsize flags out h = ((err_inval, none), h)
  storage_env_open calls (some path) mapsize flags out h =
      if not out
      then ((err_inval, none), h)
      else if not (is_nosubdir flags) && not calls.mkdir
      then ((err_io, none), h)
      else on_success calls.env_create h (created calls mapsize flags (env_created h))

  unfoldable pub storage_env_close : Option (StorageEnv E) → Handles → Handles
  storage_env_close none h = h
  storage_env_close (some env) h = env_closed h

  -- What an open may leave behind, given the flags and the database.
  abbrev pub LeavesOpen : E → ℕ → Handles → Opening E → Type 0
  LeavesOpen opened flags h ((rc, none), h') = h' ≡ h
  LeavesOpen opened flags h ((rc, some env), h') =
      (rc ≡ ok)
      × (h' ≡ env_created h)
      × (env.flags ≡ flags)
      × (env.readonly ≡ is_readonly flags)
      × (env.env ≡ opened)

  on_success_lem :
      (opened : E) (flags : ℕ) (h h' : Handles) (rc : MdbRc) (next : Opening E)
      → h' ≡ h
      → LeavesOpen opened flags h next
      → LeavesOpen opened flags h (on_success rc h' next)
  on_success_lem opened flags h h' success next same after = after
  on_success_lem opened flags h h' _ next same after = same

  open_allocated :
      (calls : OpenCalls E) (flags : ℕ) (h h' : Handles)
      → h' ≡ env_created h
      → LeavesOpen calls.opened flags h (allocated calls flags h')
  open_allocated calls flags h h' e = elim (Bool-cases calls.calloc) [
    | inl got ↦ rw got (refl, e, refl, refl, refl)
    | inr out ↦ rw out (ap env_closed e ∙ closed_again h)
  ]

  LeavesOpen-if :
      (opened : E) (b : Bool) (flags : ℕ) (h : Handles) (q r : Opening E)
      → LeavesOpen opened flags h q
      → LeavesOpen opened flags h r
      → LeavesOpen opened flags h (if b then q else r)
  LeavesOpen-if opened true flags h q r hq hr = hq
  LeavesOpen-if opened false flags h q r hq hr = hr

  open_dbi :
      (calls : OpenCalls E) (flags : ℕ) (h : Handles)
      → LeavesOpen calls.opened flags h (dbi_opened calls flags (txn_started (env_created h)))
  open_dbi calls flags h =
      let ended = ended_again (env_created h) in
      let h' = txn_ended (txn_started (env_created h)) in
      LeavesOpen-if calls.opened (is_readonly flags) flags h (allocated calls flags h')
        (on_success calls.txn_commit (env_closed h') (allocated calls flags h'))
        (open_allocated calls flags h h' ended)
        (on_success_lem calls.opened flags h (env_closed h') calls.txn_commit
          (allocated calls flags h') (ap env_closed ended ∙ closed_again h)
          (open_allocated calls flags h h' ended))

  open_created :
      (calls : OpenCalls E) (mapsize flags : ℕ) (h : Handles)
      → LeavesOpen calls.opened flags h (created calls mapsize flags (env_created h))
  open_created calls mapsize flags h =
      let shut = closed_again h in
      on_success_lem calls.opened flags h _ (calls.set_mapsize _) _ shut (
        on_success_lem calls.opened flags h _ (calls.set_maxreaders 126) _ shut (
          on_success_lem calls.opened flags h _ (calls.env_open (mdb_flags flags)) _ shut (
            on_success_lem calls.opened flags h _ (calls.txn_begin (is_readonly flags)) _ shut (
              on_success_lem calls.opened flags h _ (calls.dbi_open (not (is_readonly flags))) _
                (ap env_closed (ended_again (env_created h)) ∙ shut) (open_dbi calls flags h)))))

  -- Whatever its calls answer, a storage_env_open that returns no handle leaves as many MDB_env
  -- and MDB_txn handles unreleased as before, and one that returns a handle returns OK, leaves
  -- one more MDB_env and no more MDB_txn, and the handle has the flags and is read-only exactly
  -- if STORAGE_ENV_READONLY is among them.
  pub storage_env_open_lem :
      (calls : OpenCalls E) (path : Option Bytes) (mapsize flags : ℕ) (out : Bool) (h : Handles)
      → LeavesOpen calls.opened flags h (storage_env_open calls path mapsize flags out h)
  unfolding storage_env_open
  storage_env_open_lem calls none mapsize flags out h = refl
  storage_env_open_lem calls (some path) mapsize flags out h =
      let go : Opening E =
        on_success calls.env_create h (created calls mapsize flags (env_created h)) in
      LeavesOpen-if calls.opened (not out) flags h ((err_inval, none), h)
        (if not (is_nosubdir flags) && not calls.mkdir then ((err_io, none), h) else go) refl
        (LeavesOpen-if calls.opened (not (is_nosubdir flags) && not calls.mkdir) flags h
          ((err_io, none), h) go refl
          (on_success_lem calls.opened flags h h calls.env_create
            (created calls mapsize flags (env_created h)) refl
            (open_created calls mapsize flags h)))
