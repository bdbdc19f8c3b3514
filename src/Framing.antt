-- ===== src/Framing.antt =====
-- The framings: how a packet becomes octets on the wire (src/lib/include/ludlc_framing.h and the codecs).
pub mod Octets
pub mod Csum
pub mod Counters
pub mod Filling
pub mod Stored
pub mod Hdlc
pub mod Raw
pub mod Cobs
pub mod Announce
pub mod Tests
