-- ===== src/Raft/Cluster.antt =====
-- Several servers of raft.c that exchange votes.
pub mod Calm
pub mod Network
pub mod Voters
pub mod Keeps
pub mod Elect
pub mod Answers
pub mod Run
pub mod Honest
pub mod Occurs
pub mod Safety
mod Tests
