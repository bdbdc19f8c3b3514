-- ===== src/Posix.antt =====
-- The port to POSIX systems (src/lib/platform/posix): its queue of octets.
pub mod Kfifo
pub mod Threads
mod Tests
