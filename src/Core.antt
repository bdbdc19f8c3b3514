-- ===== src/Core.antt =====
-- The protocol core, src/lib/ludlc.c and src/lib/include/ludlc_private.h.
pub mod State
pub mod Report
pub mod Disconnect
pub mod Channel
pub mod Send
pub mod Ack
pub mod Handshake
pub mod Receive
pub mod Transmit
pub mod Init
pub mod Window
pub mod Items
pub mod Queue
pub mod Session
mod Tests
