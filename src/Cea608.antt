-- ===== src/Cea608.antt =====
-- hls.js/src/utils/cea-608-parser.js: the decoder of line 21 captions, one module for each class.
pub mod Charset
pub mod Pen
pub mod Row
pub mod Screen
pub mod Channel
pub mod Parser
mod Tests
