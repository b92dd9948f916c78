-- ===== src/Mib.antt =====
-- The generated code that answers the master agent: src/generated/demo_config.c, demo_status.c,
-- demo_config_table.c and demo_status_table.c.
pub mod Modes
pub mod Values
pub mod Snmp
pub mod Scalars
pub mod Status
pub mod Rows
pub mod Columns
pub mod Tables
pub mod Request
