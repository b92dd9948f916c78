-- ===== src/Mib/Scalars/Accepts.antt =====
-- What the handlers of src/generated/demo_config.c accept, beside what src/ipc_server.c accepts.
use agentx_subagent.Prelude.{
  true, ◌≡◌, refl, sym, ap, ◌∙◌, Bool, false, not, leb, some, if◌then◌else◌, arith, ℕ,
}
use agentx_subagent.Prelude.Int.{ℤ, pos, negsuc}
use agentx_subagent.Storage.Lmdb.{Lmdb}
use agentx_subagent.DemoTrap.{Agent}
use agentx_subagent.Ipc.Objects as O
use agentx_subagent.Ipc.Objects.{ConfigObject, find_config_object, out_of_range}
use agentx_subagent.Mib.Values.{Cell}
use agentx_subagent.Mib.Snmp.{
  is_error, set_reserve1, SnmpErr, no_error, wrong_type, wrong_length, wrong_value, Snmp, SnmpLaws,
}
use agentx_subagent.Mib.Scalars.{
  is_admin_status, is_milli_c, is_interval, reserve1_integer, reserve1_octets, handle_device_name,
  handle_temp_threshold_milli_c, handle_admin_status_ext, handle_sample_interval_sec,
}
use agentx_subagent.Mib.Scalars.Registry.{
  Scalar, device_name, temp_threshold_milli_c, admin_status_ext, sample_interval_sec, key_of,
  asn_of, ref_of, handle,
}

-- The entry of the allowlist of the request server for the object.
abbrev pub object_of : Scalar → ConfigObject
object_of device_name = O.device_name
object_of temp_threshold_milli_c = O.temp_threshold
object_of admin_status_ext = O.admin_status_ext
object_of sample_interval_sec = O.sample_interval_sec

-- The error for a value of the right type that is not legal.
abbrev pub refusal_of : Scalar → SnmpErr
refusal_of device_name = wrong_length
refusal_of temp_threshold_milli_c = wrong_value
refusal_of admin_status_ext = wrong_value
refusal_of sample_interval_sec = wrong_value

refusal_of-is_error : (sc : Scalar) → is_error (refusal_of sc) ≡ true
refusal_of-is_error device_name = refl
refusal_of-is_error temp_threshold_milli_c = refl
refusal_of-is_error admin_status_ext = refl
refusal_of-is_error sample_interval_sec = refl

len_legal : (n : ℕ) → leb n 63 ≡ not (out_of_range O.device_name (pos n))
len_legal n = ground arith

milli_c_legal : (v : ℤ) → is_milli_c v ≡ not (out_of_range O.temp_threshold v)
milli_c_legal (pos n) = ground arith
milli_c_legal (negsuc n) = ground arith

admin_status_legal : (v : ℤ) → is_admin_status v ≡ not (out_of_range O.admin_status_ext v)
admin_status_legal (pos n) = ground arith
admin_status_legal (negsuc n) = ground arith

interval_legal : (v : ℤ) → is_interval v ≡ not (out_of_range O.sample_interval_sec v)
interval_legal (pos n) = ground arith
interval_legal (negsuc n) = ground arith

module _ {Q : Type 0} (s : Snmp Q Cell) where
  -- The number that a bound is put on.
  abbrev pub bounded : Scalar → Q → ℤ
  bounded device_name q = pos (s.val_len q)
  bounded sc q = s.integer q

  abbrev pub checked : Scalar → Q → Q
  checked sc q =
      if not (s.check_vb_type q (asn_of sc))
      then s.set_request_error wrong_type q
      else if out_of_range (object_of sc) (bounded sc q)
      then s.set_request_error (refusal_of sc) q
      else q

module _ {E T C Q : Type 0} (m : Lmdb E T C) (s : Snmp Q Cell) where
  -- MODE_SET_RESERVE1 of a scalar's handler changes no database and reports wrongType for a value
  -- of another type, wrongLength or wrongValue exactly where the request server's allowlist has
  -- the value out of range, and nothing else; and the allowlist has the object under the same
  -- key, in the same environment.
  pub reserve1-allowlist :
      (sc : Scalar) (mem : Bool) (q : Q) (agent : Agent E)
      → (handle m s sc mem set_reserve1 q agent ≡ (no_error, checked s sc q, agent))
        × (find_config_object (key_of sc) ≡ some (object_of sc))
        × ((object_of sc).env ≡ ref_of sc)
  unfolding handle_device_name handle_temp_threshold_milli_c handle_admin_status_ext
      handle_sample_interval_sec reserve1_integer reserve1_octets find_config_object
  reserve1-allowlist device_name mem q agent =
      (rw (len_legal (s.val_len q)) (ground arith), refl, refl)
  reserve1-allowlist temp_threshold_milli_c mem q agent =
      (rw (milli_c_legal (s.integer q)) (ground arith), refl, refl)
  reserve1-allowlist admin_status_ext mem q agent =
      (rw (admin_status_legal (s.integer q)) (ground arith), refl, refl)
  reserve1-allowlist sample_interval_sec mem q agent =
      (rw (interval_legal (s.integer q)) (ground arith), refl, refl)

module _ {E T C Q : Type 0} (m : Lmdb E T C) (s : Snmp Q Cell) (N : SnmpLaws s) where
  checked_ok :
      (sc : Scalar) (q : Q)
      → N.failed (checked s sc q) ≡ false
      → (checked s sc q ≡ q) × (out_of_range (object_of sc) (bounded s sc q) ≡ false)
  checked_ok sc q h = ground (
    arith,
    N.error_fails wrong_type q refl,
    N.error_fails (refusal_of sc) q (refusal_of-is_error sc),
  )

  -- A RESERVE1 that reports no error has changed nothing, and the value is in range.
  pub reserve1_passed :
      (sc : Scalar) (mem : Bool) (q : Q) (agent : Agent E)
      → N.failed (handle m s sc mem set_reserve1 q agent).1 ≡ false
      → (handle m s sc mem set_reserve1 q agent ≡ (no_error, q, agent))
        × (out_of_range (object_of sc) (bounded s sc q) ≡ false)
  reserve1_passed sc mem q agent h =
      let e = (reserve1-allowlist m s sc mem q agent).0 in
      let (same, legal) = checked_ok sc q (sym (ap (λ r. N.failed r.1) e) ∙ h) in
      (e ∙ ap (λ x. (no_error, x, agent)) same, legal)
