-- ===== src/Mib/Values.antt =====
-- The value of an object in the generated code: a C variable of the object's type, and the storage
-- calls that fill it and that write it.
pub mod Effects
pub mod Reads
use agentx_subagent.Prelude.{ℕ, Bool, Option, none, some, Bytes, ◌++◌, replicate, take}
use agentx_subagent.Prelude.Int.{ℤ, pos, to_uint32}
use agentx_subagent.Storage.Types.{StorageRc, type_int32, type_uint32, type_bytes}
use agentx_subagent.Storage.Lmdb.{Lmdb}
use agentx_subagent.Storage.Codec.{encode_header, put_u32le}
use agentx_subagent.Storage.Access.Blobs.{Sized}
use agentx_subagent.Storage.Env.{StorageEnv}
use agentx_subagent.Storage.Envs.{Envs, EnvRef, env_at, set_env}
use agentx_subagent.Storage.Ops.{storage_get_int, storage_get_uint, storage_get_bytes}
use agentx_subagent.Storage.Ops.Calls.{WriteCall, set_int, set_uint, set_bytes, perform}

-- int32_t, uint32_t, or a buffer with the number of its bytes that count.
pub data Cell : Type 0 where
  int : ℤ → Cell
  uint : ℕ → Cell
  octets : Bytes → ℕ → Cell

-- What an object holds; `octet_string n` is read into a buffer of n bytes.
pub data Syntax : Type 0 where
  integer32 unsigned32 : Syntax
  octet_string : ℕ → Syntax

-- storage_set_int, storage_set_uint or storage_set_bytes; `mem` says whether the last can allocate.
abbrev pub set_call : (mem : Bool) → Cell → WriteCall
set_call mem (int v) = set_int v
set_call mem (uint v) = set_uint v
set_call mem (octets buf len) = set_bytes mem (some buf) len

-- What these calls store.
abbrev pub encoding : Cell → Bytes
encoding (int v) = encode_header type_int32 ++ put_u32le (to_uint32 v)
encoding (uint v) = encode_header type_uint32 ++ put_u32le v
encoding (octets buf len) = encode_header type_bytes ++ take len buf

-- The variable behind an out pointer that is not NULL.
abbrev int_var : Option ℤ → Cell
int_var none = int (pos 0)
int_var (some v) = int v

abbrev uint_var : Option ℕ → Cell
uint_var none = uint 0
uint_var (some v) = uint v

abbrev octets_var : Option Bytes → Option ℕ → Cell
octets_var (some buf) (some len) = octets buf len
octets_var buf len = octets (replicate 0 0) 0

module _ {E T C : Type 0} (m : Lmdb E T C) where
  -- `T val; rc = storage_get_*(env, key, &val);` with the code and the variable afterwards. Memory
  -- that is not initialised is taken to be zero; no caller looks at it where the call fails.
  unfoldable pub get_call :
      Syntax → Option (StorageEnv E) → Bytes → (StorageRc × Cell) × Option (StorageEnv E)
  get_call integer32 env key =
      let (r, env') = storage_get_int m env (some key) (some (pos 0)) in ((r.0, int_var r.1), env')
  get_call unsigned32 env key =
      let (r, env') = storage_get_uint m env (some key) (some 0) in ((r.0, uint_var r.1), env')
  get_call (octet_string n) env key =
      let (r, env') = storage_get_bytes m env (some key) (some (replicate n 0)) (some n) in
      ((r.rc, octets_var r.buf r.len), env')

  -- A call on one of the two environments.
  abbrev pub at_env :
      {A : Type 0}
      → EnvRef
      → (Option (StorageEnv E) → A × Option (StorageEnv E))
      → Envs E
      → A × Envs E
  at_env ref f envs = let (a, env) = f (env_at ref envs) in (a, set_env ref env envs)

  unfoldable pub fetch : EnvRef → Bytes → Syntax → Envs E → (StorageRc × Cell) × Envs E
  fetch ref key syntax envs = at_env ref (λ env. get_call syntax env key) envs

  unfoldable pub store : EnvRef → Bytes → WriteCall → Envs E → StorageRc × Envs E
  store ref key call envs = at_env ref (λ env. perform m call env (some key)) envs
