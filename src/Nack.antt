-- ===== src/Nack.antt =====
-- pkg/nack: which packets a receiver asks for again.
pub mod ReceiveLog
pub mod Generator
