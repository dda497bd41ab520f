-- ===== src/Twcc.antt =====
-- pkg/twcc: transport wide congestion control feedback.
pub mod Chunk
pub mod Feedback
pub mod ArrivalTimeMap
pub mod Recorder
