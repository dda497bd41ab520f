-- ===== src/FlexFec.antt =====
-- pkg/flexfec: forward error correction. Which media packets a repair packet covers.
pub mod BitArray
pub mod Coverage
