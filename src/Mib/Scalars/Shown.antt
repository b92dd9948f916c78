-- ===== src/Mib/Scalars/Shown.antt =====
-- What GET of the handlers of src/generated/demo_config.c answers with.
use agentx_subagent.Prelude.{
  ℕ, ◌≤◌, ◌<◌, ◌^◌, ◌≡◌, refl, sym, ◌∙◌, ap, Bool, false, Bytes, take, drop, length, length-take,
  replicate, take-append, ◌++◌, arith,
}
use agentx_subagent.Prelude.Int.{ℤ, pos, negsuc, IsInt32, to_uint32, to_int32-to_uint32}
use agentx_subagent.Storage.Types.{ok}
use agentx_subagent.Storage.Lmdb.{Lmdb}
use agentx_subagent.DemoTrap.{Agent}
use agentx_subagent.Ipc.Objects.{out_of_range}
use agentx_subagent.Mib.Values.{Cell}
use agentx_subagent.Mib.Values.Reads.{Fits, reread}
use agentx_subagent.Mib.Snmp.{get, set_commit, no_error, Snmp, SnmpLaws, asn_octet_str}
use agentx_subagent.Mib.Scalars.{
  on_envs, requested, answer, get_scalar, handle_device_name, handle_temp_threshold_milli_c,
  handle_admin_status_ext, handle_sample_interval_sec,
}
use agentx_subagent.Mib.Scalars.Registry.{
  Scalar, device_name, temp_threshold_milli_c, admin_status_ext, sample_interval_sec, key_of,
  undo_name_of, ref_of, syntax_of, asn_of, handle,
}
use agentx_subagent.Mib.Scalars.Accepts.{object_of, bounded}

int_exact : (v : ℤ) → out_of_range (object_of temp_threshold_milli_c) v ≡ false → IsInt32 v
int_exact (pos n) h = (omega arith, ground arith)
int_exact (negsuc n) h = (ground arith, omega arith)

status_exact : (v : ℤ) → out_of_range (object_of admin_status_ext) v ≡ false → IsInt32 v
status_exact (pos n) h = (omega arith, ground arith)
status_exact (negsuc n) h = (ground arith, omega arith)

interval_exact :
    (v : ℤ)
    → out_of_range (object_of sample_interval_sec) v ≡ false
    → (pos (to_uint32 v) ≡ v) × (to_uint32 v < 2 ^ 32)
interval_exact (pos n) h = (ground arith, ground arith)
interval_exact (negsuc n) h = absurd (ground arith)

take-take : (n : ℕ) (xs rest : Bytes) → n ≤ length xs → take n (take n xs ++ rest) ≡ take n xs
take-take n xs rest h =
    ap (λ k. take k (take n xs ++ rest)) (sym (length-take n xs h)) ∙ take-append (take n xs) rest

module _ {Q : Type 0} (s : Snmp Q Cell) where
  -- What a GET writes into its varbind `q'` after `q` has been set.
  abbrev pub shown : Scalar → Q → Q → Q
  shown device_name q q' = s.set_var_value asn_octet_str (take (s.val_len q) (s.string q)) q'
  shown sc q q' = s.set_var_integer (asn_of sc) (s.integer q) q'

  -- A value in range fits the object, and is shown as it was sent.
  pub answer-requested :
      (N : SnmpLaws s) (sc : Scalar) (q q' : Q)
      → out_of_range (object_of sc) (bounded s sc q) ≡ false
      → Fits (syntax_of sc) (requested s (syntax_of sc) q)
        × (answer s (asn_of sc) (ok, reread (syntax_of sc) (requested s (syntax_of sc) q)) q'
            ≡ shown sc q q')
  answer-requested N device_name q q' h = (
    (ground arith, N.val_len-le q),
    ap (λ b. s.set_var_value asn_octet_str b q')
        (take-take (s.val_len q) (s.string q) (drop (s.val_len q) (replicate 64 0))
          (N.val_len-le q)),
  )
  answer-requested N temp_threshold_milli_c q q' h =
      let fits = int_exact (s.integer q) h in
      let exact = to_int32-to_uint32 (s.integer q) fits in
      (rw exact fits, ap (λ v. s.set_var_integer (asn_of temp_threshold_milli_c) v q') exact)
  answer-requested N admin_status_ext q q' h =
      let fits = status_exact (s.integer q) h in
      let exact = to_int32-to_uint32 (s.integer q) fits in
      (rw exact fits, ap (λ v. s.set_var_integer (asn_of admin_status_ext) v q') exact)
  answer-requested N sample_interval_sec q q' h =
      let (exact, fits) = interval_exact (s.integer q) h in
      (fits, ap (λ v. s.set_var_integer (asn_of sample_interval_sec) v q') exact)

module _ {E T C Q : Type 0} (m : Lmdb E T C) (s : Snmp Q Cell) where
  pub handle_get :
      (sc : Scalar) (mem : Bool) (q : Q) (agent : Agent E)
      → handle m s sc mem get q agent
        ≡ on_envs m s agent
            (get_scalar m s (ref_of sc) (key_of sc) (syntax_of sc) (asn_of sc) q agent.envs)
  unfolding handle_device_name handle_temp_threshold_milli_c handle_admin_status_ext
      handle_sample_interval_sec
  handle_get device_name mem q agent = refl
  handle_get temp_threshold_milli_c mem q agent = refl
  handle_get admin_status_ext mem q agent = refl
  handle_get sample_interval_sec mem q agent = refl

  pub handle_commit :
      (sc : Scalar) (mem : Bool) (q : Q) (agent : Agent E)
      → handle m s sc mem set_commit q agent
        ≡ (no_error, s.remove_list_data (undo_name_of sc) q, agent)
  unfolding handle_device_name handle_temp_threshold_milli_c handle_admin_status_ext
      handle_sample_interval_sec
  handle_commit device_name mem q agent = refl
  handle_commit temp_threshold_milli_c mem q agent = refl
  handle_commit admin_status_ext mem q agent = refl
  handle_commit sample_interval_sec mem q agent = refl
