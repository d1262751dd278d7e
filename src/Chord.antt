-- ===== src/Chord.antt =====
-- The finger tables of the Chord ring (include/tetrish/chord.h,
-- src/tetrish/system_programs/chord.c).
pub mod Ring
pub mod Fingers
pub mod Successor
mod Tests
