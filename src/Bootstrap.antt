-- ===== src/Bootstrap.antt =====
-- src/generated/storage_bootstrap.c: the defaults that are written at start-up.
pub mod Seeds
pub mod Blocks
pub mod Plan
pub mod Transactions
use agentx_subagent.Prelude.{
  ℕ, zero, suc, ◌+◌, Bool, true, false, ◌||◌, not, Option, none, some, List, [], ◌∷◌, ◌++◌, Bytes,
  text, length, replicate, map, if◌then◌else◌,
}
use agentx_subagent.Prelude.Int.{ℤ, pos}
use agentx_subagent.Storage.Types.{StorageRc, ok, err_notfound}
use agentx_subagent.Storage.Lmdb.{Lmdb}
use agentx_subagent.Storage.Codec.{Res, got, fail}
use agentx_subagent.Storage.Env.{StorageEnv}
use agentx_subagent.Storage.Txn.{
  StorageTxn, storage_txn_begin, storage_txn_commit, storage_txn_abort, storage_txn_get_int,
  storage_txn_set_int, storage_txn_get_uint, storage_txn_set_uint, storage_txn_get_bytes,
  storage_txn_set_bytes,
}
use agentx_subagent.Rows.Instance.{table_cell_key}
use agentx_subagent.Mib.Modes.{StorageMode, persistent, volatile, storage_modes, table_rows}
use agentx_subagent.Mib.Values.{Cell, int, uint, octets}

-- One block: the key, which table_cell_key may fail to build, and the default.
pub record Seed : Type 0 where
  pub key : Res Bytes
  pub value : Cell

abbrev seed_scalar : Bytes → Cell → List Seed
seed_scalar key value = record { key = got key; value = value } ∷ []

-- `for (uint32_t row = 1; row <= TABLE_ROWS_...; row++)`, from `row` on with `left` rounds left
abbrev seed_rows : Bytes → Cell → ℕ → ℕ → List Seed
seed_rows column value row zero = []
seed_rows column value row (suc left) =
    record { key = table_cell_key (some column) (some (row ∷ [])) true 256; value = value }
    ∷ seed_rows column value (row + 1) left

abbrev seed_column : Bytes → Cell → List Seed
seed_column column value = seed_rows column value 1 table_rows

-- `#if STORAGE_MODE_x == STORAGE_MODE_VOLATILE`, and the same with STORAGE_MODE_PERSISTENT
abbrev if_volatile : StorageMode → List Seed → List Seed
if_volatile volatile seeds = seeds
if_volatile persistent seeds = []

abbrev if_persistent : StorageMode → List Seed → List Seed
if_persistent persistent seeds = seeds
if_persistent volatile seeds = []

abbrev string_value : Bytes → Cell
string_value s = octets s (length s)

-- The read-write scalars, whichever environment they live in.
abbrev seed_device_name : List Seed
seed_device_name = seed_scalar (text "deviceName") (string_value (text "agentx-demo"))

abbrev seed_temp_threshold : List Seed
seed_temp_threshold = seed_scalar (text "tempThresholdMilliC") (int (pos 70000))

abbrev seed_admin_status : List Seed
seed_admin_status = seed_scalar (text "adminStatusExt") (int (pos 1))

abbrev seed_sample_interval : List Seed
seed_sample_interval = seed_scalar (text "sampleIntervalSec") (uint 60)

unfoldable pub cache_config_scalars : List Seed
cache_config_scalars =
    if_volatile storage_modes.device_name seed_device_name
    ++ (if_volatile storage_modes.temp_threshold_milli_c seed_temp_threshold
        ++ (if_volatile storage_modes.admin_status_ext seed_admin_status
            ++ if_volatile storage_modes.sample_interval_sec seed_sample_interval))

unfoldable pub cache_status_scalars : List Seed
cache_status_scalars =
    seed_scalar (text "cpuTempMilliC") (int (pos 0))
    ++ (seed_scalar (text "sampleCount") (uint 0)
        ++ (seed_scalar (text "lastUpdateEpoch") (uint 0)
            ++ seed_scalar (text "statusText") (string_value (text "initialising"))))

abbrev seed_port_descr : List Seed
seed_port_descr = seed_column (text "portDescr") (string_value (text "port"))

abbrev seed_port_admin_status : List Seed
seed_port_admin_status = seed_column (text "portAdminStatus") (int (pos 1))

abbrev seed_port_alarm_threshold : List Seed
seed_port_alarm_threshold = seed_column (text "portAlarmThresholdMilliC") (int (pos 80000))

unfoldable pub cache_port_columns : List Seed
cache_port_columns =
    if_volatile storage_modes.port_descr seed_port_descr
    ++ (if_volatile storage_modes.port_admin_status seed_port_admin_status
        ++ if_volatile storage_modes.port_alarm_threshold_milli_c seed_port_alarm_threshold)

unfoldable pub config_scalars : List Seed
config_scalars =
    if_persistent storage_modes.device_name seed_device_name
    ++ (if_persistent storage_modes.temp_threshold_milli_c seed_temp_threshold
        ++ (if_persistent storage_modes.admin_status_ext seed_admin_status
            ++ if_persistent storage_modes.sample_interval_sec seed_sample_interval))

unfoldable pub config_port_columns : List Seed
config_port_columns =
    if_persistent storage_modes.port_descr seed_port_descr
    ++ (if_persistent storage_modes.port_admin_status seed_port_admin_status
        ++ if_persistent storage_modes.port_alarm_threshold_milli_c seed_port_alarm_threshold)

unfoldable pub cache_seeds : List Seed
cache_seeds = cache_config_scalars ++ (cache_status_scalars ++ cache_port_columns)

unfoldable pub config_seeds : List Seed
config_seeds = config_scalars ++ config_port_columns

abbrev pub is_notfound : StorageRc → Bool
is_notfound err_notfound = true
is_notfound rc = false

-- Allocation: `txn` is the calloc of the transaction, `buffer key` the malloc of a byte string's value.
pub record Memory : Type 0 where
  pub txn : Bool
  pub buffer : Bytes → Bool

-- `if (rc != STORAGE_OK) { ...; return rc; }`, else the blocks that are left.
abbrev pub next_seed :
    {T : Type 0}
    → StorageRc × Option (StorageTxn T)
    → (Option (StorageTxn T) → StorageRc × Option (StorageTxn T))
    → StorageRc × Option (StorageTxn T)
next_seed (ok, txn) others = others txn
next_seed (rc, txn) others = (rc, txn)

module _ {E T C : Type 0} (m : Lmdb E T C) (mem : Memory) where
  -- The storage_txn_get_* call of the value's type; a byte string is probed with one byte of room.
  unfoldable pub probe : Cell → Option (StorageTxn T) → Bytes → StorageRc
  probe (int v) txn key = (storage_txn_get_int m txn (some key) (some (pos 0))).0
  probe (uint v) txn key = (storage_txn_get_uint m txn (some key) (some 0)).0
  probe (octets buf len) txn key =
      (storage_txn_get_bytes m txn (some key) (some (replicate 1 0)) (some 1)).rc

  unfoldable pub set_default :
      Cell → Option (StorageTxn T) → Bytes → StorageRc × Option (StorageTxn T)
  set_default (int v) txn key = storage_txn_set_int m txn (some key) v
  set_default (uint v) txn key = storage_txn_set_uint m txn (some key) v
  set_default (octets buf len) txn key =
      storage_txn_set_bytes m (mem.buffer key) txn (some key) (some buf) len

  unfoldable pub seed_key :
      (overwrite : Bool) → Cell → Bytes → Option (StorageTxn T) → StorageRc × Option (StorageTxn T)
  seed_key overwrite value key txn =
      if overwrite || is_notfound (probe value txn key)
      then set_default value txn key
      else (ok, txn)

  abbrev pub seed_one :
      (overwrite : Bool)
      → Cell
      → Res Bytes
      → Option (StorageTxn T)
      → StorageRc × Option (StorageTxn T)
  seed_one overwrite value (fail rc) txn = (rc, txn)
  seed_one overwrite value (got key) txn = seed_key overwrite value key txn

  unfoldable pub seed_all :
      (overwrite : Bool) → List Seed → Option (StorageTxn T) → StorageRc × Option (StorageTxn T)
  seed_all overwrite [] txn = (ok, txn)
  seed_all overwrite (seed ∷ seeds) txn =
      next_seed (seed_one overwrite seed.value seed.key txn) (λ txn'. seed_all overwrite seeds txn')

  abbrev pub finish :
      StorageEnv E → StorageRc × Option (StorageTxn T) → StorageRc × Option (StorageEnv E)
  finish env (ok, txn) =
      let (rc, e) = storage_txn_commit m txn env.env in (rc, some (record env { env = e }))
  finish env (rc, txn) = (rc, some (record env { env = storage_txn_abort m txn env.env }))

  abbrev pub if_begun :
      (overwrite : Bool)
      → List Seed
      → (StorageRc × Option (StorageTxn T)) × Option (StorageEnv E)
      → StorageRc × Option (StorageEnv E)
  if_begun overwrite seeds ((ok, txn), some env) = finish env (seed_all overwrite seeds txn)
  if_begun overwrite seeds ((rc, txn), env) = (rc, env)

  unfoldable pub bootstrap :
      (overwrite : Bool) → List Seed → Option (StorageEnv E) → StorageRc × Option (StorageEnv E)
  bootstrap overwrite seeds env =
      if_begun overwrite seeds (storage_txn_begin m mem.txn env false true)

  unfoldable pub cache_bootstrap_defaults :
      Option (StorageEnv E) → (overwrite : Bool) → StorageRc × Option (StorageEnv E)
  cache_bootstrap_defaults cache overwrite = bootstrap overwrite cache_seeds cache

  -- The same blocks, which never overwrite.
  unfoldable pub config_bootstrap_defaults :
      Option (StorageEnv E) → StorageRc × Option (StorageEnv E)
  config_bootstrap_defaults config = bootstrap false config_seeds config
