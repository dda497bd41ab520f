-- ===== src/Jitter.antt =====
-- pkg/jitterbuffer: packets in the order of their sequence numbers, handed out by a playout head.
pub mod Queue
pub mod Buffer
