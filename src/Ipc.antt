-- ===== src/Ipc.antt =====
-- src/ipc_server.c: the request server that the telemetry application talks to.
pub mod Types
pub mod Objects
pub mod Config
pub mod Connection
pub mod Server
pub mod Lifecycle
