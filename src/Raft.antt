-- ===== src/Raft.antt =====
-- The Raft state machine (include/tetrish/raft.h, src/tetrish/system_programs/raft.c).
pub mod Types
pub mod Os
pub mod Boot
pub mod Election
pub mod Replication
pub mod Recovery
pub mod Events
mod Failure
pub mod Terms
pub mod Votes
pub mod Elections
pub mod Append
pub mod Commit
pub mod Replicate
pub mod Heartbeat
pub mod Cluster
mod Tests
mod Scenarios
