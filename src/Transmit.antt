-- ===== src/Transmit.antt =====
-- The transmitter's configuration and constants (include/Isoch/core/TransmitterTypes.hpp). The
-- children model its memory (src/Isoch/core/IsochTransmitBufferManager.cpp) and the DCL program that
-- sends from it (src/Isoch/core/IsochTransmitDCLManager.cpp).
pub mod Buffers
pub mod Slots
pub mod Dcl
pub mod Updates
pub mod Cycle
pub mod Packets
pub mod Loops
pub mod Whole
pub mod Refusal
pub mod Segments
mod Tests
use fire_wire_audio.Prelude.{ℕ}

pub record TransmitterConfig : Type 0 where
  pub num_groups : ℕ
  pub packets_per_group : ℕ
  pub callback_group_interval : ℕ
  pub client_buffer_size : ℕ
  pub initial_channel : ℕ

abbrev pub transmit_cip_header_size : ℕ
transmit_cip_header_size = 8

abbrev pub transmit_isoch_header_size : ℕ
transmit_isoch_header_size = 4

abbrev pub timestamp_size : ℕ
timestamp_size = 4
