-- ===== src/Transfer.antt =====
-- The secure file transfer: tokens and blocks (src/libtetrissh/common.c), and the client and server
-- of reference/pa2.
pub mod Openssl
pub mod Session
pub mod Blocks
pub mod Keys
pub mod Server
pub mod Client
pub mod Identity
pub mod Handshake
pub mod Delivery
pub mod Ends
pub mod Faults
mod Tests
