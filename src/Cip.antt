-- ===== src/Cip.antt =====
-- The 44.1 and 48 kHz packet headers: the header handler, the transmitter's own copy of it, and the
-- receiver's packet processor.
pub mod Handler
pub mod Transmitter
pub mod Processor
pub mod Loopback
pub mod Timing
pub mod Drift
pub mod Counter
mod Tests
