-- ===== src/Mib/Modes.antt =====
-- include/storage_mode.h and include/table_provision.h: where each read-write object lives, and how
-- many rows a table ships with.
use agentx_subagent.Prelude.{ℕ}
use agentx_subagent.Storage.Envs.{EnvRef, config, cache}

-- STORAGE_MODE_PERSISTENT and STORAGE_MODE_VOLATILE
pub data StorageMode : Type 0 where
  persistent volatile : StorageMode

-- STORAGE_MODE_<object>
pub record StorageModes : Type 0 where
  pub device_name : StorageMode
  pub temp_threshold_milli_c : StorageMode
  pub admin_status_ext : StorageMode
  pub sample_interval_sec : StorageMode
  pub port_descr : StorageMode
  pub port_admin_status : StorageMode
  pub port_alarm_threshold_milli_c : StorageMode

abbrev pub storage_modes : StorageModes
storage_modes = record {
  device_name = persistent;
  temp_threshold_milli_c = volatile;
  admin_status_ext = persistent;
  sample_interval_sec = persistent;
  port_descr = persistent;
  port_admin_status = persistent;
  port_alarm_threshold_milli_c = volatile;
}

-- `#if STORAGE_MODE_x == STORAGE_MODE_PERSISTENT env = config_env; #else env = cache_env; #endif`
abbrev pub env_of : StorageMode → EnvRef
env_of persistent = config
env_of volatile = cache

-- TABLE_ROWS_portConfigTable
abbrev pub table_rows : ℕ
table_rows = 4
