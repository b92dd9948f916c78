-- ===== src/Mib/Scalars/Commits.antt =====
-- A SET that goes through: RESERVE1, RESERVE2, ACTION and COMMIT of the handlers of
-- src/generated/demo_config.c, and a GET afterwards.
use agentx_subagent.Prelude.{
  ◌≡◌, refl, sym, subst, ◌∙◌, ap, Bool, true, false, [], ◌∷◌, Option, some, Bytes, same, arith,
}
use agentx_subagent.Prelude.Int.{to_uint32, to_int32}
use agentx_subagent.Storage.Types.{StorageRc, ok, err_notfound}
use agentx_subagent.Storage.Lmdb.{Lmdb, LmdbLaws}
use agentx_subagent.Storage.Env.{StorageEnv}
use agentx_subagent.Storage.Env.Reads.{CanRead}
use agentx_subagent.Storage.Envs.{Envs, EnvRef, config, cache, env_at}
use agentx_subagent.DemoTrap.{Agent}
use agentx_subagent.Ipc.Objects.{out_of_range}
use agentx_subagent.Mib.Values.{
  Cell, int, uint, Syntax, integer32, unsigned32, octet_string, encoding, fetch,
}
use agentx_subagent.Mib.Values.Effects.{Unchanged, Sets, db, fetch-Unchanged, view_of}
use agentx_subagent.Mib.Snmp.{
  Mode, get, set_reserve1, set_reserve2, set_action, set_commit, commit_failed,
  resource_unavailable, Snmp, SnmpLaws,
}
use agentx_subagent.Mib.Scalars.{stashed, requested, reserve2_scalar, answer}
use agentx_subagent.Mib.Scalars.Registry.{
  Scalar, device_name, temp_threshold_milli_c, admin_status_ext, sample_interval_sec, key_of,
  undo_name_of, ref_of, syntax_of, asn_of, handle, run, Passes,
}
use agentx_subagent.Mib.Scalars.Phases.{
  Written, done, not_done, handle_reserve2, handle_action-Written,
}
use agentx_subagent.Mib.Scalars.Held.{Held, fetch_found}
use agentx_subagent.Mib.Scalars.Accepts.{object_of, bounded, reserve1_passed}
use agentx_subagent.Mib.Scalars.Shown.{shown, answer-requested, handle_get, handle_commit}

module _ {E T C Q : Type 0} (m : Lmdb E T C) (L : LmdbLaws m) (s : Snmp Q Cell)
    (N : SnmpLaws s) where
  -- A RESERVE2 that reports no error has stashed something and changed no value.
  stashed_passed :
      (name : Bytes) (r : StorageRc × Cell) (q : Q)
      → N.failed (stashed m s name r q) ≡ false
      → (u : Cell) × (stashed m s name r q ≡ s.add_list_data name u q)
  stashed_passed name (ok, prev) q h = (_, refl)
  stashed_passed name (err_notfound, prev) q h = (_, refl)
  stashed_passed name (_, prev) q h =
      absurd (ground (arith, N.error_fails resource_unavailable q refl))

  reserve2_scalar_passed :
      (mem : Bool) (ref : EnvRef) (key name : Bytes) (syntax : Syntax) (q : Q) (envs : Envs E)
      → let r = reserve2_scalar m s mem ref key name syntax q envs in
        N.failed r.0 ≡ false
        → (u : Cell) × (r.0 ≡ s.add_list_data name u q) × Unchanged m L envs r.1
  unfolding reserve2_scalar
  reserve2_scalar_passed false ref key name syntax q envs h =
      absurd (ground (arith, N.error_fails resource_unavailable q refl))
  reserve2_scalar_passed true ref key name syntax q envs h =
      let (u, e) = stashed_passed name (fetch m ref key syntax envs).0 q h in
      (u, e, fetch-Unchanged m L ref key syntax envs)

  -- A stash does not change what is requested.
  requested_kept :
      (syntax : Syntax) (name : Bytes) (u : Cell) (q : Q)
      → requested s syntax (s.add_list_data name u q) ≡ requested s syntax q
  requested_kept integer32 name u q =
      ap (λ v. int (to_int32 (to_uint32 v))) (N.integer-add_list_data name u q)
  requested_kept unsigned32 name u q =
      ap (λ v. uint (to_uint32 v)) (N.integer-add_list_data name u q)
  requested_kept (octet_string n) name u q =
      rw (N.string-add_list_data name u q, N.val_len-add_list_data name u q)

  Written-passed :
      (ref : EnvRef) (key : Bytes) (cell : Cell) (q q' : Q) (a b : Envs E)
      → Written m L s ref key cell commit_failed q a q' b
      → N.failed q' ≡ false
      → Sets m L ref key (some (encoding cell)) a b
  Written-passed ref key cell q q' a b (done sets) h = sets
  Written-passed ref key cell q q' a b (not_done same) h =
      absurd (ground (arith, N.error_fails commit_failed q refl))

  Sets-after :
      (ref : EnvRef) (key : Bytes) (value : Option Bytes) (a b c : Envs E)
      → Unchanged m L a b
      → Sets m L ref key value b c
      → Sets m L ref key value a c
  Sets-after ref key value a b c kept sets r j = ground (arith, kept r j, sets r j)

  -- What the four phases leave.
  abbrev pub after_set : Scalar → (Mode → Bool) → Q → Agent E → Agent E
  after_set sc mem q agent =
      (run m s sc mem (set_reserve1 ∷ set_reserve2 ∷ set_action ∷ set_commit ∷ []) q agent).1

  Sets-at :
      (sc : Scalar) (value : Option Bytes) (a b : Envs E)
      → Sets m L (ref_of sc) (key_of sc) value a b
      → db m L b (ref_of sc) (key_of sc) ≡ value
  Sets-at device_name value a b sets = sets config (key_of device_name)
  Sets-at temp_threshold_milli_c value a b sets = sets cache (key_of temp_threshold_milli_c)
  Sets-at admin_status_ext value a b sets = sets config (key_of admin_status_ext)
  Sets-at sample_interval_sec value a b sets = sets config (key_of sample_interval_sec)

  from_reserve2 :
      (sc : Scalar) (mem mem' mem'' : Bool) (q : Q) (agent : Agent E)
      → let reserved = handle m s sc mem set_reserve2 q agent in
        let acted = handle m s sc mem' set_action reserved.1 reserved.2 in
        N.failed reserved.1 ≡ false
        → N.failed acted.1 ≡ false
        → Sets m L
            (ref_of sc)
            (key_of sc)
            (some (encoding (requested s (syntax_of sc) q)))
            agent.envs
            (handle m s sc mem'' set_commit acted.1 acted.2).2.envs
  from_reserve2 sc mem mem' mem'' q agent reserves acts =
      let reserved = handle m s sc mem set_reserve2 q agent in
      let acted = handle m s sc mem' set_action reserved.1 reserved.2 in
      let e = handle_reserve2 m s sc mem q agent in
      let (u, stash, kept) =
        reserve2_scalar_passed mem (ref_of sc) (key_of sc) (undo_name_of sc) (syntax_of sc) q
          agent.envs (sym (ap (λ r. N.failed r.1) e) ∙ reserves) in
      let asks : requested s (syntax_of sc) reserved.1 ≡ requested s (syntax_of sc) q =
        ap (requested s (syntax_of sc)) (ap (λ r. r.1) e ∙ stash)
        ∙ requested_kept (syntax_of sc) (undo_name_of sc) u q in
      let start : Unchanged m L agent.envs reserved.2.envs =
        λ r j. ap (λ p. db m L p.2.envs r j) e ∙ kept r j in
      let sets =
        Written-passed (ref_of sc) (key_of sc) _ reserved.1 acted.1 reserved.2.envs acted.2.envs
          (handle_action-Written m L s sc mem' reserved.1 reserved.2) acts in
      subst
        (λ r.
          Sets m L (ref_of sc) (key_of sc) (some (encoding (requested s (syntax_of sc) q)))
            agent.envs r.2.envs)
        (sym (handle_commit m s sc mem'' acted.1 acted.2))
        (Sets-after (ref_of sc) (key_of sc) _ agent.envs reserved.2.envs acted.2.envs start (
          subst
            (λ c. Sets m L (ref_of sc) (key_of sc) (some (encoding c)) reserved.2.envs acted.2.envs)
            asks sets))

  passed-Sets :
      (sc : Scalar) (mem : Mode → Bool) (q : Q) (agent : Agent E)
      → Passes m s N sc mem (set_reserve1 ∷ set_reserve2 ∷ set_action ∷ []) q agent
      → (out_of_range (object_of sc) (bounded s sc q) ≡ false)
        × Sets m L
            (ref_of sc)
            (key_of sc)
            (some (encoding (requested s (syntax_of sc) q)))
            agent.envs
            (after_set sc mem q agent).envs
  passed-Sets sc mem q agent (checks, (reserves, (acts, _))) =
      let (same, legal) = reserve1_passed m s N sc (mem set_reserve1) q agent checks in
      (
        legal,
        subst
            (λ x.
              Sets m L (ref_of sc) (key_of sc) (some (encoding (requested s (syntax_of sc) q)))
                agent.envs
                (run m s sc mem (set_reserve2 ∷ set_action ∷ set_commit ∷ []) x.1 x.2).1.envs)
            (sym same)
            (from_reserve2 sc (mem set_reserve2) (mem set_action) (mem set_commit) q agent
              (rw same at reserves) (rw same at acts)),
      )

  -- If RESERVE1, RESERVE2 and ACTION of a scalar's handler report no error, then after COMMIT the
  -- object's key holds the encoding of the requested value, all else in both databases is as it
  -- was, and a GET through the handler answers with that value, if the object's database grants a
  -- read transaction. LMDB's and Net-SNMP's laws hold.
  pub handle_get-set :
      (sc : Scalar) (mem : Mode → Bool) (q q' : Q) (agent after : Agent E) (env : StorageEnv E)
      → Passes m s N sc mem (set_reserve1 ∷ set_reserve2 ∷ set_action ∷ []) q agent
      → after_set sc mem q agent ≡ after
      → env_at (ref_of sc) after.envs ≡ some env
      → CanRead m env
      → Sets m L
          (ref_of sc)
          (key_of sc)
          (some (encoding (requested s (syntax_of sc) q)))
          agent.envs
          after.envs
        × ((handle m s sc (mem get) get q' after).1 ≡ shown s sc q q')
  handle_get-set sc mem q q' agent after env passes ends there can =
      let (legal, sets) = passed-Sets sc mem q agent passes in
      let sets' =
        subst
          (λ a.
            Sets m L (ref_of sc) (key_of sc) (some (encoding (requested s (syntax_of sc) q)))
              agent.envs a.envs)
          ends sets in
      let (fits, shows) = answer-requested s N sc q q' legal in
      let holds : Held m L s sc after.envs env (some (encoding (requested s (syntax_of sc) q))) = (
        there,
        can,
        ap (λ o. view_of m L o (key_of sc)) (sym there) ∙ Sets-at sc _ agent.envs after.envs sets',
      ) in
      (
        sets',
        ap (λ r. r.1) (handle_get m s sc (mem get) q' after)
            ∙ ap (λ r. answer s (asn_of sc) r q')
                (fetch_found m L s sc (requested s (syntax_of sc) q) after.envs env fits holds)
            ∙ shows,
      )
