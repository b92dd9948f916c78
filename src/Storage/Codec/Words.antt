-- ===== src/Storage/Codec/Words.antt =====
-- The little-endian helpers of src/storage_lmdb.c are inverse to each other, and a header reads back.
use agentx_subagent.Prelude.{
  ℕ, ◌^◌, ◌<◌, ◌≡◌, ◌≢◌, refl, ◌++◌, Bytes, length, arith, Option, none, some,
}
use agentx_subagent.Storage.Types.{StorageRc, ok, err_type}
use agentx_subagent.Storage.Lmdb.{MdbRc, success, IsMdbKey}
use agentx_subagent.Storage.Codec.{
  got, fail, put_u32le, get_u32le, put_u64le, get_u64le, map_mdb_rc, validate_key, encode_header,
  decode_header,
}

-- Whatever follows the four bytes does not matter.
pub get-put_u32le : (v : ℕ) (rest : Bytes) → v < 2 ^ 32 → get_u32le (put_u32le v ++ rest) ≡ v
unfolding get_u32le put_u32le
get-put_u32le v rest h = omega arith

pub get-put_u32le_self : (v : ℕ) → v < 2 ^ 32 → get_u32le (put_u32le v) ≡ v
unfolding get_u32le put_u32le
get-put_u32le_self v h = omega arith

pub length-put_u32le : (v : ℕ) → length (put_u32le v) ≡ 4
unfolding put_u32le
length-put_u32le v = refl

pub length-put_u64le : (v : ℕ) → length (put_u64le v) ≡ 8
unfolding put_u64le
length-put_u64le v = refl

pub get-put_u64le : (v : ℕ) → v < 2 ^ 64 → get_u64le (put_u64le v) ≡ v
unfolding get_u64le put_u64le
get-put_u64le v h = omega arith

pub decode-encode_header :
    (type : ℕ) (payload : Bytes)
    → type < 256
    → decode_header (encode_header type ++ payload) type ≡ got payload
unfolding decode_header encode_header
decode-encode_header type payload h = ground arith

-- A value that was written as one type is refused as any other.
pub decode-encode_header_ne :
    (type expected : ℕ) (payload : Bytes)
    → type < 256
    → type ≢ expected
    → decode_header (encode_header type ++ payload) expected ≡ fail err_type
unfolding decode_header encode_header
decode-encode_header_ne type expected payload h ne = ground arith

pub map_mdb_rc-eq-ok : (rc : MdbRc) → map_mdb_rc rc ≡ ok → rc ≡ success
unfolding map_mdb_rc
map_mdb_rc-eq-ok success h = refl
map_mdb_rc-eq-ok _ h = cc

pub validate_key_valid : (key : Option Bytes) (k : Bytes) → validate_key key ≡ got k → IsMdbKey k
unfolding validate_key
validate_key_valid none k h = cc
validate_key_valid (some s) k h = ground arith

pub validate_key-eq-got : (key : Option Bytes) (k : Bytes) → validate_key key ≡ got k → key ≡ some k
unfolding validate_key
validate_key-eq-got none k h = cc
validate_key-eq-got (some s) k h = ground arith

pub validate_key-ne-ok :
    (key : Option Bytes) (rc : StorageRc) → validate_key key ≡ fail rc → rc ≢ ok
unfolding validate_key
validate_key-ne-ok none rc h = ground arith
validate_key-ne-ok (some s) rc h = ground arith
