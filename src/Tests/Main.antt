-- ===== src/Tests/Main.antt =====
-- Runs of src/main.c on databases in memory.
use agentx_subagent.Rows.Instance.{
  table_cell_key, table_instance_format, format_loop, decimal, digits,
}
use agentx_subagent.Storage.Access.Blobs.{txn_get_bytes_impl, txn_set_bytes_impl}
use agentx_subagent.Storage.Access.{
  txn_get_int_impl, txn_set_int_impl, txn_get_uint_impl, txn_set_uint_impl, txn_get_raw,
  txn_put_raw,
}
use agentx_subagent.Storage.Txn.{
  storage_txn_begin, storage_txn_commit, storage_txn_get_int, storage_txn_set_int,
  storage_txn_get_uint, storage_txn_set_uint, storage_txn_get_bytes, storage_txn_set_bytes,
}
use agentx_subagent.Bootstrap.{
  config_bootstrap_defaults, cache_bootstrap_defaults, bootstrap, seed_all, seed_key, probe,
  set_default, config_seeds, config_scalars, config_port_columns, cache_seeds, cache_config_scalars,
  cache_status_scalars, cache_port_columns,
}
use agentx_subagent.Storage.Iter.{storage_env_stat}
use agentx_subagent.Storage.Codec.{
  map_mdb_rc, validate_key, decode_header, encode_header, get_u32le, put_u32le,
}
use agentx_subagent.Prelude.{
  false, Bool, ◌≡◌, refl, true, none, some, [], ◌∷◌, text, replicate, Bytes,
}
use agentx_subagent.Prelude.Int.{pos}
use agentx_subagent.Storage.Lmdb.{success}
use agentx_subagent.Storage.MemDb.{mem_lmdb, find}
use agentx_subagent.Storage.MemDb.Counted.{
  Counted, counted_lmdb, counted_laws, counted_txns, counted_view,
}
use agentx_subagent.Storage.Open.{OpenCalls, Handles, storage_env_open}
use agentx_subagent.Ipc.Connection.{free_client}
use agentx_subagent.Ipc.Server.Dispatch.{Server, ipc_server_fill_fdset}
use agentx_subagent.DemoTrap.{Agent, clear}
use agentx_subagent.Storage.Env.{StorageEnv, begin_read_txn, in_read_txn}
use agentx_subagent.Storage.Env.Reads.{CanRead}
use agentx_subagent.Main.{
  Process, Outside, no_envs, subagent_storage_init, subagent_storage_shutdown, select_args,
}
use agentx_subagent.Main.Initialised.{Initialised}
use agentx_subagent.Main.Settled.{Settled}
use agentx_subagent.Main.Startup.{subagent_storage_init_lem, shutdown-init}
use agentx_subagent.Main.Defaults.{start-get, get_object, status_scalar}
use agentx_subagent.Mib.Values.{Cell}
use agentx_subagent.Mib.Snmp.{asn_integer, asn_octet_str}
use agentx_subagent.Mib.Request.{Request, requests}
use agentx_subagent.Mib.Status.{status_text}
use agentx_subagent.Main.Waiting.{Watched, select_args-Watched}

abbrev opens_empty : OpenCalls Counted
opens_empty = record {
  mkdir = true;
  env_create = success;
  set_mapsize = λ n. success;
  set_maxreaders = λ n. success;
  env_open = λ flags. success;
  txn_begin = λ ro. success;
  dbi_open = λ create. success;
  txn_commit = success;
  calloc = true;
  opened = record { entries = []; open_txns = 0 };
}

-- $AGENTX_CONFIG_DB is not set.
abbrev outside : Outside Counted
outside = record {
  getenv = λ name. none;
  opens = λ path. opens_empty;
  config_memory = record { txn = true; buffer = λ key. true };
  cache_memory = record { txn = true; buffer = λ key. true };
}

abbrev no_handles : Handles
no_handles = record { envs = 0; txns = 0 }

abbrev before : Process Counted
before = record { envs = no_envs; handles = no_handles; closed = [] }

fresh : (path : Bytes) → counted_txns.open_txns (outside.opens path).opened ≡ 0
unfolding counted_txns
fresh path = refl

subagent_storage_init_lem_example :
    Initialised counted_lmdb counted_laws outside no_handles
      (text "/var/lib/agentx-subagent/config.lmdb")
      (text "/tmp/cache.lmdb")
      (subagent_storage_init counted_lmdb outside none (some (text "/tmp/cache.lmdb")) before)
    × Settled counted_lmdb counted_txns
        (subagent_storage_init counted_lmdb outside none (some (text "/tmp/cache.lmdb")) before).1
subagent_storage_init_lem_example =
    subagent_storage_init_lem counted_lmdb counted_laws counted_txns outside fresh none
      (some (text "/tmp/cache.lmdb")) no_handles

abbrev stopped : Process Counted
stopped = subagent_storage_shutdown (subagent_storage_init counted_lmdb outside none none before).1

shutdown-init_example :
    (stopped.envs ≡ no_envs)
    × (stopped.handles ≡ no_handles)
    × Settled counted_lmdb counted_txns stopped
shutdown-init_example =
    shutdown-init counted_lmdb counted_laws counted_txns outside fresh none none no_handles

-- The server listens on 5, and one client is on 7; Net-SNMP watches 3.
abbrev srv : Server Counted
srv = record {
  listen_fd = pos 5;
  sock_path = text "/run/ipc.sock";
  clients = record free_client { in_use = true; fd = pos 7 } ∷ replicate 7 free_client;
  shared = record {
    agent = record { envs = no_envs; temp_alarm_state = clear; traps = [] };
    writes = [];
    sent = [];
    closed = [];
  };
}

select_args-Watched_example :
    Watched (select_args (some srv) (pos 3 ∷ []) 4).1 (select_args (some srv) (pos 3 ∷ []) 4).0
select_args-Watched_example = select_args-Watched (some srv) (pos 3 ∷ []) 4 (refl, tt)

select_args_run : select_args (some srv) (pos 3 ∷ []) 4 ≡ (pos 7 ∷ pos 5 ∷ pos 3 ∷ [], pos 8)
unfolding select_args ipc_server_fill_fdset
select_args_run = refl

-- A first start answers statusText with initialising.
abbrev first_start : Bool × Process Counted
first_start = subagent_storage_init counted_lmdb outside none none before

abbrev answering : Agent Counted
answering = record { envs = first_start.1.envs; temp_alarm_state = clear; traps = [] }

reads : (e : StorageEnv Counted) → CanRead counted_lmdb e
unfolding counted_lmdb mem_lmdb begin_read_txn map_mdb_rc
reads e = refl

started : first_start.0 ≡ true
unfolding subagent_storage_init storage_env_open storage_env_stat in_read_txn begin_read_txn
    config_bootstrap_defaults cache_bootstrap_defaults bootstrap seed_all seed_key probe set_default
    config_seeds config_scalars config_port_columns cache_seeds cache_config_scalars
    cache_status_scalars cache_port_columns storage_txn_begin storage_txn_commit storage_txn_get_int
    storage_txn_set_int storage_txn_get_uint storage_txn_set_uint storage_txn_get_bytes
    storage_txn_set_bytes txn_get_int_impl txn_set_int_impl txn_get_uint_impl txn_set_uint_impl
    txn_get_bytes_impl txn_set_bytes_impl txn_get_raw txn_put_raw validate_key map_mdb_rc
    counted_lmdb mem_lmdb find decode_header encode_header get_u32le put_u32le table_cell_key
    table_instance_format format_loop decimal digits
started = refl

-- a GET
abbrev asks : Request Cell
asks = record {
  asn = asn_integer;
  integer = pos 0;
  string = [];
  errors = [];
  data_list = [];
  info = none;
  row = false;
}

start-get_example :
    get_object counted_lmdb counted_laws requests outside
      (status_scalar status_text)
      true
      asks
      answering
    ≡ requests.set_var_value asn_octet_str (text "initialising") asks
unfolding find
start-get_example =
    start-get counted_lmdb counted_laws requests outside (status_scalar status_text) none none
      no_handles true asks answering started refl reads (counted_view _ _)
