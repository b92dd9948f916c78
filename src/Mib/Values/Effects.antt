-- ===== src/Mib/Values/Effects.antt =====
-- What the storage calls of the generated code do to the committed databases of the environments.
use agentx_subagent.Prelude.{
  ◌≡◌, ◌≢◌, refl, ◌∙◌, ap, Bool, true, false, ◌&&◌, Option, none, some, Bytes, same, same→eq, arith,
  if◌then◌else◌,
}
use agentx_subagent.Storage.Types.{StorageRc, ok}
use agentx_subagent.Storage.Lmdb.{Lmdb, LmdbLaws}
use agentx_subagent.Storage.Env.{StorageEnv, begin_read_txn, in_read_txn, if_begun}
use agentx_subagent.Storage.Envs.{Envs, EnvRef, null, config, cache, env_at, set_env}
use agentx_subagent.Storage.Ops.{storage_get_int, storage_get_uint, storage_get_bytes}
use agentx_subagent.Storage.Ops.Calls.{
  WriteCall, perform, perform-eq-ok, perform_atomic, perform_stores, perform_handle, perform_null,
  pair_of, stored,
}
use agentx_subagent.Mib.Values.{Syntax, integer32, unsigned32, octet_string, get_call, fetch, store}

abbrev pub same_env : EnvRef → EnvRef → Bool
same_env config config = true
same_env cache cache = true
same_env a b = false

pub same_env→eq : (a b : EnvRef) → same_env a b ≡ true → a ≡ b
same_env→eq null b h = cc
same_env→eq config null h = cc
same_env→eq config config h = refl
same_env→eq config cache h = cc
same_env→eq cache null h = cc
same_env→eq cache config h = cc
same_env→eq cache cache h = refl

module _ {E T C : Type 0} (m : Lmdb E T C) (L : LmdbLaws m) where
  -- The committed database behind a handle; a NULL handle has none.
  abbrev pub view_of : Option (StorageEnv E) → Bytes → Option Bytes
  view_of none j = none
  view_of (some env) j = L.env_view env.env j

  abbrev pub db : Envs E → EnvRef → Bytes → Option Bytes
  db envs ref j = view_of (env_at ref envs) j

  -- Both databases hold what they held.
  abbrev pub Unchanged : Envs E → Envs E → Type 0
  Unchanged before after = (ref : EnvRef) (j : Bytes) → db after ref j ≡ db before ref j

  -- One key of one database holds `value`, or nothing for `none`; all else is as it was.
  abbrev pub Sets : EnvRef → Bytes → Option Bytes → Envs E → Envs E → Type 0
  Sets ref key value before after =
      (r : EnvRef) (j : Bytes)
      → db after r j ≡ (if same_env ref r && same key j then value else db before r j)

  begun_view :
      {A : Type 0} (failed : StorageRc → A) (impl : T → A) (env : StorageEnv E)
      (r : StorageRc × T × E) (j : Bytes)
      → L.env_view r.2 j ≡ L.env_view env.env j
      → view_of (if_begun m failed impl env r).1 j ≡ L.env_view env.env j
  begun_view failed impl env (ok, txn, e) j h = L.abort_keeps txn e j ∙ h
  begun_view failed impl env (_, txn, e) j h = h

  pub in_read_txn_view :
      {A : Type 0} (failed : StorageRc → A) (impl : T → A) (env : Option (StorageEnv E)) (j : Bytes)
      → view_of (in_read_txn m failed impl env).1 j ≡ view_of env j
  unfolding in_read_txn begin_read_txn
  in_read_txn_view failed impl none j = refl
  in_read_txn_view failed impl (some env) j =
      begun_view failed impl env _ j (L.begin_keeps true env.env j)

  pub get_call_view :
      (syntax : Syntax) (env : Option (StorageEnv E)) (key j : Bytes)
      → view_of (get_call m syntax env key).1 j ≡ view_of env j
  unfolding get_call storage_get_int storage_get_uint storage_get_bytes
  get_call_view integer32 env key j = in_read_txn_view _ _ env j
  get_call_view unsigned32 env key j = in_read_txn_view _ _ env j
  get_call_view (octet_string n) env key j = in_read_txn_view _ _ env j

  set_env_view :
      (ref r : EnvRef) (env : Option (StorageEnv E)) (envs : Envs E) (j : Bytes)
      → view_of env j ≡ db envs ref j
      → db (set_env ref env envs) r j ≡ db envs r j
  set_env_view null r env envs j h = refl
  set_env_view config null env envs j h = refl
  set_env_view config config env envs j h = h
  set_env_view config cache env envs j h = refl
  set_env_view cache null env envs j h = refl
  set_env_view cache config env envs j h = refl
  set_env_view cache cache env envs j h = h

  -- A read leaves both databases alone.
  pub fetch-Unchanged :
      (ref : EnvRef) (key : Bytes) (syntax : Syntax) (envs : Envs E)
      → Unchanged envs (fetch m ref key syntax envs).1
  unfolding fetch
  fetch-Unchanged ref key syntax envs r j =
      set_env_view ref r _ envs j (get_call_view syntax (env_at ref envs) key j)

  set_env_sets :
      (ref r : EnvRef) (env : Option (StorageEnv E)) (envs : Envs E) (key j : Bytes)
      (value : Option Bytes)
      → env_at ref envs ≢ none
      → view_of env j ≡ (if same key j then value else db envs ref j)
      → db (set_env ref env envs) r j
        ≡ (if same_env ref r && same key j then value else db envs r j)
  set_env_sets null r env envs key j value there h = absurd (there refl)
  set_env_sets config null env envs key j value there h = refl
  set_env_sets config config env envs key j value there h = h
  set_env_sets config cache env envs key j value there h = refl
  set_env_sets cache null env envs key j value there h = refl
  set_env_sets cache config env envs key j value there h = refl
  set_env_sets cache cache env envs key j value there h = h

  perform_view_failed :
      (call : WriteCall) (env : Option (StorageEnv E)) (key j : Bytes)
      → (perform m call env (some key)).0 ≢ ok
      → view_of (perform m call env (some key)).1 j ≡ view_of env j
  perform_view_failed call none key j h = ap (λ r. view_of r.1 j) (perform_null m call (some key))
  perform_view_failed call (some env) key j h =
      let (env', e) = perform_handle m call env (some key) in
      ap (λ o. view_of o j) e
      ∙ perform_atomic m L call env env' (some key) (perform m call (some env) (some key)).0
          (pair_of refl e) h j

  perform_view :
      (call : WriteCall) (env : Option (StorageEnv E)) (key j : Bytes)
      → (perform m call env (some key)).0 ≡ ok
      → (env ≢ none)
        × (view_of (perform m call env (some key)).1 j
            ≡ (if same key j then stored call else view_of env j))
  perform_view call env key j h =
      let (before, after, there, e) = perform-eq-ok m call env (some key) h in
      let (k, named, leaves) = perform_stores m L call before after (some key) (rw there at e) in
      (rw there (ground arith), ap (λ r. view_of r.1 j) e ∙ ground (arith, leaves j, named, there))

  -- A write that fails leaves both databases alone, one that succeeds sets its key.
  pub store-Unchanged :
      (ref : EnvRef) (key : Bytes) (call : WriteCall) (envs : Envs E)
      → (store m ref key call envs).0 ≢ ok
      → Unchanged envs (store m ref key call envs).1
  unfolding store
  store-Unchanged ref key call envs h r j =
      set_env_view ref r _ envs j (perform_view_failed call (env_at ref envs) key j h)

  pub store-Sets :
      (ref : EnvRef) (key : Bytes) (call : WriteCall) (envs : Envs E)
      → (store m ref key call envs).0 ≡ ok
      → Sets ref key (stored call) envs (store m ref key call envs).1
  unfolding store
  store-Sets ref key call envs h r j =
      let (there, view) = perform_view call (env_at ref envs) key j h in
      set_env_sets ref r _ envs key j (stored call) there view

  -- Setting a key back to what it held restores everything.
  pub Sets-back :
      (ref : EnvRef) (key : Bytes) (value : Option Bytes) (envs envs' envs'' : Envs E)
      → Sets ref key value envs envs'
      → Sets ref key (db envs ref key) envs' envs''
      → Unchanged envs envs''
  Sets-back ref key value envs envs' envs'' there back r j =
      ground (arith, there r j, back r j, same→eq key j, same_env→eq ref r)

  pub Sets-same :
      (ref : EnvRef) (key : Bytes) (envs envs' envs'' : Envs E)
      → Unchanged envs envs'
      → Sets ref key (db envs ref key) envs' envs''
      → Unchanged envs envs''
  Sets-same ref key envs envs' envs'' kept back r j =
      ground (arith, kept r j, back r j, same→eq key j, same_env→eq ref r)
