-- ===== src/Video.antt =====
-- pkg/videoframe: from RTP packets to encoded frames with their references.
pub mod Header
pub mod PacketBuffer
pub mod Samples
pub mod Frame
pub mod Unwrap
pub mod FrameIdFinder
pub mod LayerInfo
pub mod Vp8Finder
pub mod Receiver
pub mod Assembler
pub mod Stash
pub mod SeqNumFinder
