-- ===== src/Raft/Recovery.antt =====
-- Crash recovery: what `restore_pstate` of raft.c reads back from the lines that were written.
pub mod Restore
pub mod Durable
pub mod Handlers
pub mod Calls
