-- ===== src/Plant.antt =====
-- The plant daemon: tetrish/system_programs/dplant.c, and the registry it shares with dkill.c.
pub mod Stats
pub mod Life
pub mod Invariant
pub mod Restart
pub mod Files
pub mod Registry
pub mod Command
mod Tests
