-- ===== src/Mib/Values/Reads.antt =====
-- What a read of the generated code returns, by what the database holds.
use agentx_subagent.Prelude.{
  ℕ, ◌<◌, ◌≤◌, ◌^◌, ◌≡◌, refl, sym, ◌∙◌, ap, ◌⊎◌, inl, inr, Option, none, some, Bytes, ◌++◌, length,
  length-take, take, take-append, drop, replicate, arith,
}
use agentx_subagent.Prelude.Int.{ℤ, pos, IsInt32}
use agentx_subagent.Storage.Types.{StorageRc, ok, err_notfound, err_inval, type_bytes}
use agentx_subagent.Storage.Lmdb.{Lmdb, LmdbLaws}
use agentx_subagent.Storage.Codec.{got, fail, validate_key, encode_header}
use agentx_subagent.Storage.Codec.Words.{decode-encode_header}
use agentx_subagent.Storage.Access.{store_out, txn_get_raw, txn_get_int_impl, txn_get_uint_impl}
use agentx_subagent.Storage.Access.Blobs.{txn_get_bytes_impl}
use agentx_subagent.Storage.Env.{StorageEnv, begin_read_txn, in_read_txn}
use agentx_subagent.Storage.Env.Reads.{
  CanRead, in_read_txn_lem, read_found, txn_get_raw_missing, begin_read_lem,
}
use agentx_subagent.Storage.Envs.{Envs, EnvRef, env_at}
use agentx_subagent.Storage.Ops.{
  storage_get_int, storage_get_uint, storage_get_bytes, untouched, unsized,
}
use agentx_subagent.Storage.RoundTrip.{int_read, uint_read}
use agentx_subagent.Mib.Values.{
  Cell, int, uint, octets, Syntax, integer32, unsigned32, octet_string, encoding, get_call, fetch,
}
use agentx_subagent.Mib.Values.Effects.{view_of, db}

-- The cell is one of the object's type, and fits its buffer.
abbrev pub Fits : Syntax → Cell → Type 0
Fits integer32 (int v) = IsInt32 v
Fits unsigned32 (uint v) = v < 2 ^ 32
Fits (octet_string n) (octets buf len) = (len ≤ n) × (len ≤ length buf)
Fits syntax cell = ⊥

-- The variable that a cell is read into: a buffer keeps what lies behind the value.
abbrev pub reread : Syntax → Cell → Cell
reread (octet_string n) (octets buf len) = octets (take len buf ++ drop len (replicate n 0)) len
reread syntax cell = cell

-- The variable where nothing is found.
abbrev pub blank : Syntax → Cell
blank integer32 = int (pos 0)
blank unsigned32 = uint 0
blank (octet_string n) = octets (replicate n 0) n

pub encoding-reread :
    (syntax : Syntax) (cell : Cell)
    → Fits syntax cell
    → encoding (reread syntax cell) ≡ encoding cell
encoding-reread integer32 (int v) fits = refl
encoding-reread integer32 (uint v) fits = elim fits [ ]
encoding-reread integer32 (octets buf len) fits = elim fits [ ]
encoding-reread unsigned32 (int v) fits = elim fits [ ]
encoding-reread unsigned32 (octets buf len) fits = elim fits [ ]
encoding-reread (octet_string n) (int v) fits = elim fits [ ]
encoding-reread (octet_string n) (uint v) fits = elim fits [ ]
encoding-reread unsigned32 (uint v) fits = refl
encoding-reread (octet_string n) (octets buf len) fits =
    ap (λ (b : Bytes). encode_header type_bytes ++ b)
      (ap (λ k. take k (take len buf ++ drop len (replicate n 0)))
          (sym (length-take len buf fits.1))
        ∙ take-append (take len buf) (drop len (replicate n 0)))

module _ {E T C : Type 0} (m : Lmdb E T C) (L : LmdbLaws m) (env : StorageEnv E) (key : Bytes) where
  abbrev pub Holds : Option Bytes → Type 0
  Holds value =
      CanRead m env × (validate_key (some key) ≡ got key) × (L.env_view env.env key ≡ value)

  held :
      (value : Bytes)
      → Holds (some value)
      → txn_get_raw m (begin_read_txn m env).1 (some key) ≡ got value
  held value h = read_found m L env (some key) key value h.0 h.1 h.2

  missing : Holds none → txn_get_raw m (begin_read_txn m env).1 (some key) ≡ fail err_notfound
  missing h =
      txn_get_raw_missing m L (begin_read_txn m env).1 (some key) key h.1
        (begin_read_lem m L env key h.0 ∙ h.2)

  int_found :
      (v : ℤ)
      → IsInt32 v
      → Holds (some (encoding (int v)))
      → (storage_get_int m (some env) (some key) (some (pos 0))).0 ≡ (ok, some v)
  unfolding storage_get_int txn_get_int_impl
  int_found v fits h =
      in_read_txn_lem m L (untouched (some (pos 0)))
        (λ txn. txn_get_int_impl m txn (some key) (some (pos 0))) env h.0
      ∙ rw (held (encoding (int v)) h) (ap (store_out (pos 0)) (int_read v fits))

  uint_found :
      (v : ℕ)
      → v < 2 ^ 32
      → Holds (some (encoding (uint v)))
      → (storage_get_uint m (some env) (some key) (some 0)).0 ≡ (ok, some v)
  unfolding storage_get_uint txn_get_uint_impl
  uint_found v fits h =
      in_read_txn_lem m L (untouched (some 0)) (λ txn. txn_get_uint_impl m txn (some key) (some 0))
        env h.0
      ∙ rw (held (encoding (uint v)) h) (ap (store_out 0) (uint_read v fits))

  octets_found :
      (n : ℕ) (value : Bytes)
      → length value ≤ n
      → Holds (some (encode_header type_bytes ++ value))
      → (storage_get_bytes m (some env) (some key) (some (replicate n 0)) (some n)).0 ≡ record {
        rc = ok;
        buf = some (value ++ drop (length value) (replicate n 0));
        len = some (length value);
      }
  unfolding storage_get_bytes txn_get_bytes_impl
  octets_found n value fits h =
      in_read_txn_lem m L (unsized (some (replicate n 0)) (some n))
        (λ txn. txn_get_bytes_impl m txn (some key) (some (replicate n 0)) (some n)) env h.0
      ∙ rw
          (
            held (encode_header type_bytes ++ value) h,
            decode-encode_header type_bytes value (omega arith),
          )
          (ground arith)

  int_missing :
      Holds none
      → (storage_get_int m (some env) (some key) (some (pos 0))).0 ≡ (err_notfound, some (pos 0))
  unfolding storage_get_int txn_get_int_impl
  int_missing h =
      in_read_txn_lem m L (untouched (some (pos 0)))
        (λ txn. txn_get_int_impl m txn (some key) (some (pos 0))) env h.0
      ∙ rw (missing h)

  uint_missing :
      Holds none → (storage_get_uint m (some env) (some key) (some 0)).0 ≡ (err_notfound, some 0)
  unfolding storage_get_uint txn_get_uint_impl
  uint_missing h =
      in_read_txn_lem m L (untouched (some 0)) (λ txn. txn_get_uint_impl m txn (some key) (some 0))
        env h.0
      ∙ rw (missing h)

  octets_missing :
      (n : ℕ)
      → Holds none
      → (storage_get_bytes m (some env) (some key) (some (replicate n 0)) (some n)).0
        ≡ record { rc = err_notfound; buf = some (replicate n 0); len = some n }
  unfolding storage_get_bytes txn_get_bytes_impl
  octets_missing n h =
      in_read_txn_lem m L (unsized (some (replicate n 0)) (some n))
        (λ txn. txn_get_bytes_impl m txn (some key) (some (replicate n 0)) (some n)) env h.0
      ∙ rw (missing h)

  pub get_call_found :
      (syntax : Syntax) (cell : Cell)
      → Fits syntax cell
      → Holds (some (encoding cell))
      → (get_call m syntax (some env) key).0 ≡ (ok, reread syntax cell)
  unfolding get_call
  get_call_found integer32 (int v) fits h = rw (int_found v fits h)
  get_call_found unsigned32 (uint v) fits h = rw (uint_found v fits h)
  get_call_found (octet_string n) (octets buf len) fits h =
      let len_eq : length (take len buf) ≡ len = length-take len buf fits.1 in
      rw (octets_found n (take len buf) (rw len_eq fits.0) h, len_eq)
  get_call_found integer32 (uint v) fits h = elim fits [ ]
  get_call_found integer32 (octets buf len) fits h = elim fits [ ]
  get_call_found unsigned32 (int v) fits h = elim fits [ ]
  get_call_found unsigned32 (octets buf len) fits h = elim fits [ ]
  get_call_found (octet_string n) (int v) fits h = elim fits [ ]
  get_call_found (octet_string n) (uint v) fits h = elim fits [ ]

  pub get_call_missing :
      (syntax : Syntax)
      → Holds none
      → (get_call m syntax (some env) key).0 ≡ (err_notfound, blank syntax)
  unfolding get_call
  get_call_missing integer32 h = rw (int_missing h)
  get_call_missing unsigned32 h = rw (uint_missing h)
  get_call_missing (octet_string n) h = rw (octets_missing n h)

-- Nothing is stored, or a value of the type.
abbrev pub Typed : Syntax → Option Bytes → Type 0
Typed syntax o = (o ≡ none) ⊎ ((cell : Cell) × Fits syntax cell × (o ≡ some (encoding cell)))

pub Typed-same : (syntax : Syntax) {o o' : Option Bytes} → o' ≡ o → Typed syntax o → Typed syntax o'
Typed-same syntax e (inl empty) = inl (e ∙ empty)
Typed-same syntax e (inr (cell, fits, full)) = inr (cell, fits, e ∙ full)

-- A read of a typed key: the handle is NULL, or the value is read, or there is none.
abbrev pub ReadAs : Syntax → Option Bytes → StorageRc × Cell → Type 0
ReadAs syntax o r =
    (r.0 ≡ err_inval)
    ⊎ (((cell : Cell) × (r ≡ (ok, cell)) × (o ≡ some (encoding cell)))
        ⊎ ((r ≡ (err_notfound, blank syntax)) × (o ≡ none)))

module _ {E T C : Type 0} (m : Lmdb E T C) (L : LmdbLaws m) where
  get_call-ReadAs :
      (syntax : Syntax) (env : Option (StorageEnv E)) (key : Bytes)
      → ((e : StorageEnv E) → CanRead m e)
      → validate_key (some key) ≡ got key
      → Typed syntax (view_of m L env key)
      → ReadAs syntax (view_of m L env key) (get_call m syntax env key).0
  unfolding get_call storage_get_int storage_get_uint storage_get_bytes in_read_txn
  get_call-ReadAs integer32 none key reads valid typed = inl refl
  get_call-ReadAs unsigned32 none key reads valid typed = inl refl
  get_call-ReadAs (octet_string n) none key reads valid typed = inl refl
  get_call-ReadAs syntax (some env) key reads valid (inl empty) =
      inr (inr (get_call_missing m L env key syntax (reads env, valid, empty), empty))
  get_call-ReadAs syntax (some env) key reads valid (inr (cell, fits, full)) = inr (
      inl (
        reread syntax cell,
        get_call_found m L env key syntax cell fits (reads env, valid, full),
        full ∙ ap some (sym (encoding-reread syntax cell fits)),
      ))

  pub fetch-ReadAs :
      (ref : EnvRef) (key : Bytes) (syntax : Syntax) (envs : Envs E)
      → ((e : StorageEnv E) → CanRead m e)
      → validate_key (some key) ≡ got key
      → Typed syntax (db m L envs ref key)
      → ReadAs syntax (db m L envs ref key) (fetch m ref key syntax envs).0
  unfolding fetch
  fetch-ReadAs ref key syntax envs = get_call-ReadAs syntax (env_at ref envs) key
