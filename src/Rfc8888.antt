-- ===== src/Rfc8888.antt =====
-- pkg/rfc8888: congestion control feedback by RFC 8888.
pub mod StreamLog
pub mod Recorder
