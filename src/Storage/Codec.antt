-- ===== src/Storage/Codec.antt =====
-- The little-endian helpers, map_mdb_rc, validate_key and the value header of src/storage_lmdb.c.
pub mod Words
use agentx_subagent.Prelude.{
  ℕ, zero, suc, ◌+◌, ◌*◌, ◌/◌, ◌%◌, ◌^◌, Option, none, some, List, [], ◌∷◌, Bytes, length, get_or,
  drop, ltb, ◌==◌, if◌then◌else◌,
}
use agentx_subagent.Storage.Types.{
  StorageRc, ok, err_notfound, err_type, err_inval, err_toobig, err_full, err_busy, err_io,
  err_readonly, value_header_len, key_max,
}
use agentx_subagent.Storage.Lmdb.{
  MdbRc, success, notfound, map_full, txn_full, einval, eacces, eagain, ebusy, other,
}

-- What a helper hands to its caller: the value behind its out pointer, or the code it returns.
pub data Res {ℓ} (A : Type ℓ) : Type ℓ where
  got : A → Res A
  fail : StorageRc → Res A

infixl 5 ◌>>=◌
abbrev pub ◌>>=◌ {ℓ κ} : {A : Type ℓ} {B : Type κ} → Res A → (A → Res B) → Res B
got a >>= f = f a
fail rc >>= f = fail rc

-- (v >> k) & 0xFF is `v / 2 ^ k % 2 ^ 8`.
unfoldable pub put_u32le : ℕ → Bytes
put_u32le v = v % 2 ^ 8 ∷ v / 2 ^ 8 % 2 ^ 8 ∷ v / 2 ^ 16 % 2 ^ 8 ∷ v / 2 ^ 24 % 2 ^ 8 ∷ []

-- The four shifted bytes have no bit in common, so `|` adds them.
unfoldable pub get_u32le : Bytes → ℕ
get_u32le p = get_or p 0 0 + get_or p 1 0 * 2 ^ 8 + get_or p 2 0 * 2 ^ 16 + get_or p 3 0 * 2 ^ 24

-- `n` rounds are left; each writes the low byte and shifts.
put_u64le_loop : ℕ → ℕ → Bytes
put_u64le_loop zero v = []
put_u64le_loop (suc n) v = v % 2 ^ 8 ∷ put_u64le_loop n (v / 2 ^ 8)

unfoldable pub put_u64le : ℕ → Bytes
unfolding put_u64le_loop
put_u64le v = put_u64le_loop 8 v

-- The loop runs from i = n - 1 down to 0; `v << 8` wraps at 64 bits and has no bit in common with p[i].
get_u64le_loop : ℕ → ℕ → Bytes → ℕ
get_u64le_loop zero v p = v
get_u64le_loop (suc i) v p = get_u64le_loop i (v * 2 ^ 8 % 2 ^ 64 + get_or p i 0) p

unfoldable pub get_u64le : Bytes → ℕ
unfolding get_u64le_loop
get_u64le p = get_u64le_loop 8 0 p

unfoldable pub map_mdb_rc : MdbRc → StorageRc
map_mdb_rc success = ok
map_mdb_rc notfound = err_notfound
map_mdb_rc map_full = err_full
map_mdb_rc txn_full = err_full
map_mdb_rc einval = err_inval
map_mdb_rc eacces = err_readonly
map_mdb_rc eagain = err_busy
map_mdb_rc ebusy = err_busy
map_mdb_rc (other n) = err_io

-- The key that the MDB_val takes: the string, whose length is its strlen.
unfoldable pub validate_key : Option Bytes → Res Bytes
validate_key none = fail err_inval
validate_key (some key) =
    if length key == 0
    then fail err_inval
    else if ltb key_max (length key)
    then fail err_toobig
    else got key

unfoldable pub encode_header : ℕ → Bytes
encode_header type = type % 2 ^ 8 ∷ 0 ∷ 0 ∷ 0 ∷ []

-- The payload, behind the four header bytes; the reserved bytes are not looked at.
unfoldable pub decode_header : Bytes → ℕ → Res Bytes
decode_header bytes expected_type =
    if ltb (length bytes) value_header_len
    then fail err_inval
    else if get_or bytes 0 0 == expected_type
    then got (drop value_header_len bytes)
    else fail err_type
