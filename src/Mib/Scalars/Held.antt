-- ===== src/Mib/Scalars/Held.antt =====
-- What RESERVE2 of the handlers of src/generated/demo_config.c reads and stashes, and what their UNDO
-- makes of the stash.
use agentx_subagent.Prelude.{◌≡◌, refl, ◌∙◌, ap, Bool, true, Option, none, some, [], Bytes}
use agentx_subagent.Prelude.Int.{pos}
use agentx_subagent.Storage.Types.{ok, err_notfound}
use agentx_subagent.Storage.Lmdb.{Lmdb, LmdbLaws}
use agentx_subagent.Storage.Codec.{validate_key, got}
use agentx_subagent.Storage.Env.{StorageEnv}
use agentx_subagent.Storage.Env.Reads.{CanRead}
use agentx_subagent.Storage.Envs.{Envs, config, cache, env_at}
use agentx_subagent.DemoTrap.{Agent}
use agentx_subagent.Mib.Values.{Cell, int, uint, octets, encoding, fetch}
use agentx_subagent.Mib.Values.Effects.{Sets, db, view_of}
use agentx_subagent.Mib.Values.Reads.{Fits, reread, blank, get_call_found, get_call_missing}
use agentx_subagent.Mib.Snmp.{set_reserve2, set_undo, Snmp}
use agentx_subagent.Mib.Scalars.{on_envs, zeroed, reserve2_scalar, undo_with, undo_scalar}
use agentx_subagent.Mib.Scalars.Registry.{
  Scalar, device_name, temp_threshold_milli_c, admin_status_ext, sample_interval_sec, key_of,
  undo_name_of, ref_of, syntax_of, handle,
}
use agentx_subagent.Mib.Scalars.Phases.{handle_reserve2, handle_undo}

pub key_of_valid : (sc : Scalar) → validate_key (some (key_of sc)) ≡ got (key_of sc)
unfolding validate_key
key_of_valid device_name = refl
key_of_valid temp_threshold_milli_c = refl
key_of_valid admin_status_ext = refl
key_of_valid sample_interval_sec = refl

-- The value of an object whose bytes are all zero.
abbrev pub zero_of : Scalar → Cell
zero_of device_name = octets [] 0
zero_of temp_threshold_milli_c = int (pos 0)
zero_of admin_status_ext = int (pos 0)
zero_of sample_interval_sec = uint 0

module _ {E T C Q : Type 0} (m : Lmdb E T C) (L : LmdbLaws m) (s : Snmp Q Cell) where
  -- The object's database is open, grants a read transaction, and holds `value` for the object.
  abbrev pub Held : Scalar → Envs E → StorageEnv E → Option Bytes → Type 0
  Held sc envs env value =
      (env_at (ref_of sc) envs ≡ some env)
      × CanRead m env
      × (L.env_view env.env (key_of sc) ≡ value)

  pub db-Held :
      (sc : Scalar) (envs : Envs E) (env : StorageEnv E) (value : Option Bytes)
      → Held sc envs env value
      → db m L envs (ref_of sc) (key_of sc) ≡ value
  db-Held sc envs env value h = ap (λ o. view_of m L o (key_of sc)) h.0 ∙ h.2

  pub fetch_found :
      (sc : Scalar) (cell : Cell) (envs : Envs E) (env : StorageEnv E)
      → Fits (syntax_of sc) cell
      → Held sc envs env (some (encoding cell))
      → (fetch m (ref_of sc) (key_of sc) (syntax_of sc) envs).0 ≡ (ok, reread (syntax_of sc) cell)
  unfolding fetch
  fetch_found sc cell envs env fits h =
      rw (h.0)
        (get_call_found m L env (key_of sc) (syntax_of sc) cell fits (h.1, key_of_valid sc, h.2))

  pub fetch_missing :
      (sc : Scalar) (envs : Envs E) (env : StorageEnv E)
      → Held sc envs env none
      → (fetch m (ref_of sc) (key_of sc) (syntax_of sc) envs).0
        ≡ (err_notfound, blank (syntax_of sc))
  unfolding fetch
  fetch_missing sc envs env h =
      rw (h.0) (get_call_missing m L env (key_of sc) (syntax_of sc) (h.1, key_of_valid sc, h.2))

  -- What RESERVE2 leaves where it stashes `prev`.
  abbrev pub Stashes : Scalar → Cell → Q → Agent E → Type 0
  Stashes sc prev q agent =
      handle m s sc true set_reserve2 q agent
      ≡ on_envs m s agent (
        s.add_list_data (undo_name_of sc) prev q,
        (fetch m (ref_of sc) (key_of sc) (syntax_of sc) agent.envs).1,
      )

  pub Stashes-found :
      (sc : Scalar) (cell : Cell) (q : Q) (agent : Agent E) (env : StorageEnv E)
      → Fits (syntax_of sc) cell
      → Held sc agent.envs env (some (encoding cell))
      → Stashes sc (reread (syntax_of sc) cell) q agent
  unfolding reserve2_scalar
  Stashes-found sc cell q agent env fits h =
      handle_reserve2 m s sc true q agent ∙ rw (fetch_found sc cell agent.envs env fits h)

  pub Stashes-missing :
      (sc : Scalar) (q : Q) (agent : Agent E) (env : StorageEnv E)
      → Held sc agent.envs env none
      → Stashes sc (zeroed (blank (syntax_of sc))) q agent
  unfolding reserve2_scalar
  Stashes-missing sc q agent env h =
      handle_reserve2 m s sc true q agent ∙ rw (fetch_missing sc agent.envs env h)

  pub Sets-zero :
      (sc : Scalar) (b c : Envs E)
      → Sets m L (ref_of sc) (key_of sc) (some (encoding (zeroed (blank (syntax_of sc))))) b c
      → db m L c (ref_of sc) (key_of sc) ≡ some (encoding (zero_of sc))
  Sets-zero device_name b c sets = sets config (key_of device_name)
  Sets-zero temp_threshold_milli_c b c sets = sets cache (key_of temp_threshold_milli_c)
  Sets-zero admin_status_ext b c sets = sets config (key_of admin_status_ext)
  Sets-zero sample_interval_sec b c sets = sets config (key_of sample_interval_sec)

  pub undo_lem :
      (sc : Scalar) (mem : Bool) (prev : Cell) (q : Q) (agent : Agent E)
      → s.get_list_data (undo_name_of sc) q ≡ some prev
      → let r = undo_with m s mem (ref_of sc) (key_of sc) (some prev) q agent.envs in
        handle m s sc mem set_undo q agent
        ≡ on_envs m s agent (s.remove_list_data (undo_name_of sc) r.0, r.1)
  unfolding undo_scalar
  undo_lem sc mem prev q agent h = handle_undo m s sc mem q agent ∙ rw h
