-- ===== src/Client.antt =====
-- The client of src/client/.
pub mod Receiver
pub mod Interleaved
