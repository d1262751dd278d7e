-- ===== src/Transfer/Delivery.antt =====
-- From the client's disk to the server's: what the client sends, and what the server makes of it.
pub mod Sending
pub mod Serving
pub mod Rounds
pub mod Whole
