-- ===== src/Tests.antt =====
-- Concrete runs of the modelled code.
mod Storage
mod Iteration
mod Rows
mod Ipc
mod Server
mod Mib
mod Bootstrap
mod Tables
mod Main
