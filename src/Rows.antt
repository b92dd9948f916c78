-- ===== src/Rows.antt =====
-- src/table_rows.c and include/table_rows.h
pub mod Instance
pub mod Rowset
pub mod Oid
