-- ===== src/Ipc/Config/Writes.antt =====
-- Which requests handle_write_config of src/ipc_server.c carries out, and what is read back after one.
use agentx_subagent.Prelude.{
  ◌≤◌, ◌≡◌, refl, ap, ◌∙◌, ◌==◌, ==_iff, Bool, true, false, Bool-cases, Option, All, subst, none,
  some, List, [], ◌∷◌, Bytes, same, same→eq, length, inl, inr, ◌⊎◌, arith, if◌then◌else◌,
}
use agentx_subagent.Prelude.Int.{pos, negsuc, ◌≤ℤ◌}
use agentx_subagent.Storage.Types as S
use agentx_subagent.Storage.Types.{StorageRc}
use agentx_subagent.Storage.Lmdb.{Lmdb}
use agentx_subagent.Storage.Env.{StorageEnv}
use agentx_subagent.Storage.Envs.{Envs, EnvRef, config, cache, env_at, set_env}
use agentx_subagent.Storage.Ops.Calls.{WriteCall, set_int, set_uint, set_bytes, perform}
use agentx_subagent.Ipc.Types.{
  type_mismatch, invalid, value_type_int32, value_type_uint32, value_type_bytes, Value,
  WriteConfigRequest, WriteConfigResponse,
}
use agentx_subagent.Ipc.Config.{
  reject, finish_write, write_object, write_found, handle_write_config,
}
use agentx_subagent.Ipc.Objects.{
  ConfigObject, device_name, temp_threshold, admin_status_ext, sample_interval_sec, config_objects,
  find_object, find_config_object, storage_rc_to_status,
}

-- The four objects that may be written, each with the values it takes.
pub data Accepts (mem : Bool) : Bytes → Value → EnvRef → WriteCall → Type 0 where
  a_device_name :
      (v : Value)
      → v.type ≡ value_type_bytes
      → length v.bytes_val ≤ 63
      → Accepts mem device_name.name v config
          (set_bytes mem (some v.bytes_val) (length v.bytes_val))
  a_temp_threshold :
      (v : Value)
      → v.type ≡ value_type_int32
      → negsuc 39999 ≤ℤ v.int32_val
      → v.int32_val ≤ℤ pos 125000
      → Accepts mem temp_threshold.name v cache (set_int v.int32_val)
  an_admin_status_ext :
      (v : Value)
      → v.type ≡ value_type_int32
      → pos 1 ≤ℤ v.int32_val
      → v.int32_val ≤ℤ pos 3
      → Accepts mem admin_status_ext.name v config (set_int v.int32_val)
  a_sample_interval :
      (v : Value)
      → v.type ≡ value_type_uint32
      → 1 ≤ v.uint32_val
      → v.uint32_val ≤ 86400
      → Accepts mem sample_interval_sec.name v config (set_uint v.uint32_val)

some_inj : {a b : ConfigObject} → some a ≡ some b → a ≡ b
some_inj h = cc

abbrev pub IsKnown : ConfigObject → Type 0
IsKnown obj =
    (obj ≡ device_name)
    ⊎ (obj ≡ temp_threshold)
    ⊎ (obj ≡ admin_status_ext)
    ⊎ (obj ≡ sample_interval_sec)

find_object_lem :
    (os : List ConfigObject) (key : Bytes) (obj : ConfigObject)
    → All IsKnown os
    → find_object os key ≡ some obj
    → (obj.name ≡ key) × IsKnown obj
find_object_lem [] key obj known h = absurd (ground arith)
find_object_lem (o ∷ os) key obj known h = elim (Bool-cases (same o.name key)) [
  | inl named ↦
      let e : some o ≡ some obj = (rw named at h) in
      rw⁻¹ (some_inj e) (same→eq o.name key named, known.0)
  | inr other ↦ find_object_lem os key obj known.1 (rw other at h)
]

-- What the lookup finds is one of the four objects and has the name that was asked for.
pub find_config_object_lem :
    (key : Bytes) (obj : ConfigObject)
    → find_config_object key ≡ some obj
    → (obj.name ≡ key) × IsKnown obj
unfolding find_config_object
find_config_object_lem key obj h =
    find_object_lem config_objects key obj
      (inl refl, (inr (inl refl), (inr (inr (inl refl)), (inr (inr (inr refl)), tt)))) h

module _ {E T C : Type 0} (m : Lmdb E T C) (mem : Bool) where
  -- A write request is refused and changes nothing, or it is one of those that `Accepts` lists and the
  -- storage call is made on the environment of the object.
  pub data WriteCase (key : Bytes) (value : Option Value) (envs : Envs E)
      (r : WriteConfigResponse × Envs E) : Type 0 where
    refused :
        (r.0.status ≡ invalid) ⊎ (r.0.status ≡ type_mismatch)
        → r.1 ≡ envs
        → WriteCase key value envs r
    carried_out :
        (v : Value) (ref : EnvRef) (call : WriteCall)
        → value ≡ some v
        → Accepts mem key v ref call
        → r.0.status ≡ storage_rc_to_status (perform m call (env_at ref envs) (some key)).0
        → r.1 ≡ set_env ref (perform m call (env_at ref envs) (some key)).1 envs
        → WriteCase key value envs r

  finish_status :
      (obj : ConfigObject) (envs : Envs E) (r : StorageRc × Option (StorageEnv E))
      → (finish_write m obj envs r).0.status ≡ storage_rc_to_status r.0
  unfolding storage_rc_to_status
  finish_status obj envs (S.ok, env) = refl
  finish_status obj envs (S.err_notfound, env) = refl
  finish_status obj envs (S.err_type, env) = refl
  finish_status obj envs (S.err_inval, env) = refl
  finish_status obj envs (S.err_toobig, env) = refl
  finish_status obj envs (S.err_full, env) = refl
  finish_status obj envs (S.err_busy, env) = refl
  finish_status obj envs (S.err_io, env) = refl
  finish_status obj envs (S.err_readonly, env) = refl

  finish_envs :
      (obj : ConfigObject) (envs : Envs E) (r : StorageRc × Option (StorageEnv E))
      → (finish_write m obj envs r).1 ≡ set_env obj.env r.1 envs
  finish_envs obj envs (S.ok, env) = refl
  finish_envs obj envs (rc, env) = refl

  -- The range test and the storage call of one object.
  settle :
      (obj : ConfigObject) (v : Value) (call : WriteCall) (out : Bool) (message : Bytes)
      (envs : Envs E)
      → (out ≡ false → Accepts mem obj.name v obj.env call)
      → WriteCase obj.name (some v) envs (
          if out
          then reject m invalid message envs
          else finish_write m obj envs (perform m call (env_at obj.env envs) (some obj.name)))
  settle obj v call true message envs h = refused (inl refl) refl
  settle obj v call false message envs h =
      carried_out v obj.env call refl (h refl) (finish_status obj envs _) (finish_envs obj envs _)

  -- The object is one of the table and the value has its type.
  object_case :
      (obj : ConfigObject) (v : Value) (envs : Envs E)
      → IsKnown obj
      → v.type ≡ obj.type
      → WriteCase obj.name (some v) envs (write_object m mem obj v envs)
  unfolding write_object perform
  object_case obj v envs (inl e) typed = rw e (
      settle device_name v (set_bytes mem (some v.bytes_val) (length v.bytes_val)) _ _ envs
        (λ fits. a_device_name v (typed ∙ ap (λ o. o.type) e) (ground arith)))
  object_case obj v envs (inr (inl e)) typed = rw e (
      settle temp_threshold v (set_int v.int32_val) _ _ envs
        (λ fits. a_temp_threshold v (typed ∙ ap (λ o. o.type) e) (ground arith) (ground arith)))
  object_case obj v envs (inr (inr (inl e))) typed = rw e (
      settle admin_status_ext v (set_int v.int32_val) _ _ envs
        (λ fits. an_admin_status_ext v (typed ∙ ap (λ o. o.type) e) (ground arith) (ground arith)))
  object_case obj v envs (inr (inr (inr e))) typed = rw e (
      settle sample_interval_sec v (set_uint v.uint32_val) _ _ envs
        (λ fits. a_sample_interval v (typed ∙ ap (λ o. o.type) e) (ground arith) (ground arith)))

  -- Every write request meets one of two cases. It is refused with STATUS_INVALID or
  -- STATUS_TYPE_MISMATCH and both environments stay as they were. Or its key and value are one of
  -- the four kinds that Accepts lists (known key, right type, value in range), the status is that
  -- of the typed storage call on the key in the environment of that object, and that call is all
  -- that changes.
  pub handle_write_config_lem :
      (req : WriteConfigRequest) (envs : Envs E)
      → WriteCase req.key req.value envs (handle_write_config m mem req envs)
  unfolding handle_write_config find_config_object
  handle_write_config_lem req envs = by_object (find_config_object req.key) refl
    where
      by_value :
          (obj : ConfigObject) (value : Option Value)
          → IsKnown obj
          → WriteCase obj.name value envs (write_found m mem req.key (some obj) value envs)
      by_value obj none known = refused (inl refl) refl
      by_value obj (some v) known = elim (Bool-cases (v.type == obj.type)) [
        | inl typed ↦ rw typed (object_case obj v envs known ((==_iff v.type obj.type).0 typed))
        | inr other ↦ rw other (refused (inr refl) refl)
      ]

      by_object :
          (o : Option ConfigObject)
          → find_config_object req.key ≡ o
          → WriteCase req.key req.value envs (write_found m mem req.key o req.value envs)
      by_object none e = refused (inl refl) refl
      by_object (some obj) e =
          let (named, known) = find_config_object_lem req.key obj e in
          subst
            (λ k. WriteCase k req.value envs (write_found m mem req.key (some obj) req.value envs))
            named (by_value obj req.value known)
