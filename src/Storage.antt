-- ===== src/Storage.antt =====
-- src/storage_lmdb.c and include/storage_lmdb.h
pub mod Types
pub mod Lmdb
pub mod Codec
pub mod Access
pub mod Env
pub mod Open
pub mod Envs
pub mod Ops
pub mod Txn
pub mod Iter
pub mod RoundTrip
pub mod MemDb
