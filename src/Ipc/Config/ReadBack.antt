-- ===== src/Ipc/Config/ReadBack.antt =====
-- What handle_read_config of src/ipc_server.c answers after a write that handle_write_config confirmed.
use agentx_subagent.Prelude.{
  ◌≡◌, refl, sym, ap, ◌∙◌, ◌==◌, Bool, Option, some, [], Bytes, length, take-append, drop,
  replicate, arith, if◌then◌else◌,
}
use agentx_subagent.Prelude.Int.{pos}
use agentx_subagent.Storage.Types as S
use agentx_subagent.Storage.Types.{StorageRc}
use agentx_subagent.Storage.Lmdb.{Lmdb, LmdbLaws}
use agentx_subagent.Storage.Env.{StorageEnv}
use agentx_subagent.Storage.Env.Reads.{CanRead}
use agentx_subagent.Storage.Envs.{Envs, EnvRef, env_at, set_env}
use agentx_subagent.Storage.Ops.Calls.{WriteCall, perform, perform-eq-ok}
use agentx_subagent.Storage.RoundTrip.{get-set_int, get-set_uint}
use agentx_subagent.Storage.RoundTrip.Blobs.{get-set_bytes}
use agentx_subagent.Ipc.Types.{
  ok, value_type_int32, value_type_uint32, Value, WriteConfigRequest, ReadConfigResponse,
}
use agentx_subagent.Ipc.Config.{handle_write_config, read_object, handle_read_config}
use agentx_subagent.Ipc.Objects.{
  device_name, temp_threshold, admin_status_ext, sample_interval_sec, find_config_object,
  storage_rc_to_status,
}
use agentx_subagent.Ipc.Config.Writes.{
  Accepts, a_device_name, a_temp_threshold, an_admin_status_ext, a_sample_interval, refused,
  carried_out, handle_write_config_lem,
}

-- A value with the one field that its type selects, the others zero.
abbrev pub selected : Value → Value
selected v =
    if v.type == value_type_int32
    then record {
      type = v.type;
      int32_val = v.int32_val;
      uint32_val = 0;
      uint64_val = 0;
      bytes_val = [];
    }
    else if v.type == value_type_uint32
    then record {
      type = v.type;
      int32_val = pos 0;
      uint32_val = v.uint32_val;
      uint64_val = 0;
      bytes_val = [];
    }
    else record {
      type = v.type;
      int32_val = pos 0;
      uint32_val = 0;
      uint64_val = 0;
      bytes_val = v.bytes_val;
    }

abbrev pub answered : Value → ReadConfigResponse
answered v = record { status = ok; value = some v; message = [] }

status_ok : (rc : StorageRc) → storage_rc_to_status rc ≡ ok → rc ≡ S.ok
unfolding storage_rc_to_status
status_ok S.ok h = refl
status_ok S.err_notfound h = cc
status_ok S.err_type h = cc
status_ok S.err_inval h = cc
status_ok S.err_toobig h = cc
status_ok S.err_full h = cc
status_ok S.err_busy h = cc
status_ok S.err_io h = cc
status_ok S.err_readonly h = cc

-- Both environments grant read transactions.
abbrev pub CanReadBoth : {E T C : Type 0} (m : Lmdb E T C) → Envs E → Type 0
CanReadBoth m envs =
    (ref : EnvRef) (env : StorageEnv _) → env_at ref envs ≡ some env → CanRead m env

module _ {E T C : Type 0} (m : Lmdb E T C) (L : LmdbLaws m) (mem : Bool) where
  read_back :
      (key : Bytes) (v : Value) (ref : EnvRef) (call : WriteCall) (envs : Envs E)
      (env env' : StorageEnv E)
      → Accepts mem key v ref call
      → perform m call (some env) (some key) ≡ (S.ok, some env')
      → CanRead m env'
      → (handle_read_config m (record { key = key }) (set_env ref (some env') envs)).0
        ≡ answered (selected v)
  unfolding handle_read_config find_config_object perform read_object
  read_back key _ ref call envs env env' (a_temp_threshold v typed low high) h can =
      rw
        (
          get-set_int m L (some temp_threshold.name) v.int32_val (pos 0) env env' (ground arith) h
              can,
          typed,
        )
        refl
  read_back key _ ref call envs env env' (an_admin_status_ext v typed low high) h can =
      rw
        (
          get-set_int m L (some admin_status_ext.name) v.int32_val (pos 0) env env' (ground arith) h
              can,
          typed,
        )
        refl
  read_back key _ ref call envs env env' (a_sample_interval v typed low high) h can =
      rw
        (
          get-set_uint m L (some sample_interval_sec.name) v.uint32_val 0 env env' (omega arith) h
              can,
          typed,
        )
        refl
  read_back key _ ref call envs env env' (a_device_name v typed fits) h can =
      rw
        (
          get-set_bytes m L mem (some device_name.name) v.bytes_val (replicate 256 0) 256 env env'
              (omega arith) h can,
          typed,
          take-append v.bytes_val (drop (length v.bytes_val) (replicate 256 0)),
        )
        refl

  env_at-set_env :
      (key : Bytes) (v : Value) (ref : EnvRef) (call : WriteCall) (envs : Envs E)
      (env : Option (StorageEnv E))
      → Accepts mem key v ref call
      → env_at ref (set_env ref env envs) ≡ env
  env_at-set_env key _ ref call envs env (a_temp_threshold v typed low high) = refl
  env_at-set_env key _ ref call envs env (an_admin_status_ext v typed low high) = refl
  env_at-set_env key _ ref call envs env (a_sample_interval v typed low high) = refl
  env_at-set_env key _ ref call envs env (a_device_name v typed fits) = refl

  -- If a write request is answered with STATUS_OK, and the environments it leaves grant read
  -- transactions, then reading the same key answers STATUS_OK with the written value: its type
  -- and the one field that the type selects. The database meets LMDB's laws.
  pub read_after_write :
      (req : WriteConfigRequest) (envs : Envs E)
      → (handle_write_config m mem req envs).0.status ≡ ok
      → CanReadBoth m (handle_write_config m mem req envs).1
      → (v : Value) × (req.value ≡ some v)
        × ((handle_read_config m
              (record { key = req.key })
              (handle_write_config m mem req envs).1).0
            ≡ answered (selected v))
  read_after_write req envs good can = elim (handle_write_config_lem m mem req envs) [
    | refused h kept ↦ absurd (ground (arith, good))
    | carried_out v ref call given accepts status after ↦
        let (before, env', here, done) =
          perform-eq-ok m call (env_at ref envs) (some req.key) (status_ok _ (sym status ∙ good)) in
        let stored : (handle_write_config m mem req envs).1 ≡ set_env ref (some env') envs =
          after ∙ ap (λ r. set_env ref r.1 envs) done in
        let readable =
          can ref env'
            (ap (env_at ref) stored ∙ env_at-set_env req.key v ref call envs (some env') accepts) in
        (
          v,
          given,
          rw stored
              (read_back req.key v ref call envs before env' accepts (rw here at done) readable),
        )
  ]
