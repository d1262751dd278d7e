-- ===== src/Wire.antt =====
-- The wire helpers of the secure file transfer (src/libtetrissh/common.c): integers as bytes, and
-- whole reads and writes on a socket.
pub mod Ints
pub mod Sockets
pub mod Messages
pub mod Duplex
pub mod Progress
pub mod Pipe
mod Tests
