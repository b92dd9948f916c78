-- ===== src/Storage/Types.antt =====
-- The enumerations and constants of include/storage_lmdb.h.
use agentx_subagent.Prelude.{ℕ}

-- STORAGE_OK is `ok`, STORAGE_ERR_NOTFOUND is `err_notfound`, and so on.
pub data StorageRc : Type 0 where
  ok err_notfound err_type err_inval err_toobig err_full err_busy err_io err_readonly : StorageRc

-- The tags of storage_type_t, as numbers: a stored tag is whatever byte the value starts with.
abbrev pub type_int32 : ℕ
type_int32 = 1

abbrev pub type_uint32 : ℕ
type_uint32 = 2

abbrev pub type_uint64 : ℕ
type_uint64 = 3

abbrev pub type_bytes : ℕ
type_bytes = 4

abbrev pub type_oid : ℕ
type_oid = 5

-- STORAGE_VALUE_HEADER_LEN
abbrev pub value_header_len : ℕ
value_header_len = 4

-- STORAGE_KEY_MAX
abbrev pub key_max : ℕ
key_max = 255
