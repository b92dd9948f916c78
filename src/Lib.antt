-- ===== src/Lib.antt =====
-- A model of the AgentX subagent's storage, table, notification and request-server code, with its
-- properties.
--
-- The subagent keeps configuration in one LMDB environment (config) and volatile values in another
-- (cache). src/storage_lmdb.c stores typed values in them; src/table_rows.c finds the rows of a
-- table by scanning keys of the form column.instance; src/demo_trap.c compares the temperature with
-- a threshold and sends a notification; src/ipc_server.c serves requests of the telemetry
-- application on a local socket, and calls the storage and the notification for them. The generated
-- code under src/generated answers the master agent: handlers of scalars and of tables, which read and
-- write through the storage calls, and the defaults that are seeded at start-up. src/main.c opens and
-- seeds the two databases, waits for descriptors, and closes them again.
--
-- Which file models what:
--   Prelude           shared names, Boolean tests, lists over the native numbers, C's integers
--   Storage/Types     include/storage_lmdb.h: result codes and type tags
--   Storage/Lmdb      LMDB itself, which is not part of the program: a record of its functions, and
--                     the laws its documentation promises of transactions, puts and deletes, and
--                     of how many transactions are open
--   Storage/Codec     put_u32le, get_u32le, put_u64le, get_u64le, map_mdb_rc, validate_key, the
--                     value header
--   Storage/Access    txn_get_raw, txn_put_raw and the txn_*_impl helpers
--   Storage/Env, Ops  handles, and the calls that open a transaction of their own
--   Storage/Open      storage_env_open and storage_env_close
--   Storage/Envs      include/subagent_env.h: config_env and cache_env
--   Storage/Txn       storage_txn_*: explicit transactions; is_readonly and env_sync
--   Storage/Iter      storage_iter_*, storage_env_stat, storage_strerror
--   Storage/RoundTrip what is read back after a write
--   Storage/MemDb     databases in memory that meet the laws, for concrete runs
--   Rows/Instance     table_instance_format, _parse, _compare and table_cell_key
--   Rows/Rowset       table_rowset_load and the accessors
--   Rows/Oid          src/table_oid.c; Net-SNMP's index codec is a parameter
--   DemoTrap          src/demo_trap.c
--   Ipc/Types         the messages, src/generated_pb/agentx_ipc.pb.h
--   Ipc/Objects       the allowlist of config objects and the texts of answers
--   Ipc/Config        handle_write_config, handle_read_config, handle_send_trap
--   Ipc/Connection    client slots, the answers of the kernel, close_client, send_all
--   Ipc/Server        send_envelope, handle_frame, drain_frames, service_client
--   Ipc/Server/Dispatch  accept_new_clients, ipc_server_fill_fdset, ipc_server_dispatch
--   Ipc/Lifecycle     ipc_server_start and ipc_server_stop
--   Mib/Modes         include/storage_mode.h and include/table_provision.h
--   Mib/Values        the C variable of an object, and the storage calls of its type
--   Mib/Snmp          Net-SNMP, which is not part of the program: what the handlers call of a request,
--                     and what its documentation promises
--   Mib/Scalars       src/generated/demo_config.c: the four handlers, a switch on the mode each
--   Mib/Status        src/generated/demo_status.c
--   Mib/Columns, Tables  the handlers of src/generated/demo_config_table.c, demo_status_table.c
--   Mib/Rows          their row iterators
--   Mib/Request       requests that meet the laws, for concrete runs
--   Bootstrap         src/generated/storage_bootstrap.c
--   Main              src/main.c: subagent_storage_init, subagent_storage_shutdown, and the
--                     arguments of select(). The handles of the opens are counted, and each
--                     environment is kept as it was when it was closed
--   Main/Loop         the event loop, over a script of what its turns meet
--   Tests             concrete runs
--
-- How code becomes functions: a call returns the state it leaves behind next to its result. A
-- pointer is an Option, `none` being NULL; a C string is the list of its bytes before the
-- terminator; unsigned integers are natural numbers with the wrap-around written out, int32_t and
-- int64_t are integers. malloc, calloc and realloc are Boolean parameters that say whether they
-- succeed. What the kernel answers to read, write and accept is a list, one entry for each answer.
-- nanopb's pb_decode and pb_encode are parameters. A request of Net-SNMP is a state of a type that the
-- interface of Mib/Snmp works on. A buffer that the code does not initialise is taken to hold zeros.
--
-- Loops: those over a list or over the kernel's answers are structural. The loop of
-- rowset_load_column runs on fuel, for which more than the number of keys is enough; the loop of
-- drain_frames runs on the length of the buffer plus one, which is enough since a round takes at
-- least five bytes.
--
-- Not modelled: of src/main.c the options, daemonising, and the installation of signal handlers; the
-- pointers that the row iterators hand to Net-SNMP as data contexts; log output; third_party and
-- rust-app, which are another project and another language.
pub mod Prelude
pub mod Storage
pub mod Rows
pub mod DemoTrap
pub mod Ipc
pub mod Mib
pub mod Bootstrap
pub mod Main
pub mod Tests
