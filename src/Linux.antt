-- ===== src/Linux.antt =====
-- The port to the Linux kernel (src/lib/platform/linux): the checksums that its modules offer.
pub mod Checksums
mod Tests
