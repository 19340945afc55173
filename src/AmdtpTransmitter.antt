-- ===== src/AmdtpTransmitter.antt =====
-- src/Isoch/core/AmdtpTransmitter.cpp: the transmitter that joins the managers. This file has its state
-- and how one packet is prepared, both before the start and from a completion callback. What is written
-- to the packets' memory, what the pool, the port and the channel are told and what the client hears is
-- a list of events, in order. The managers exist together or not at all, as `setupComponents` and
-- `cleanup` leave them. The slot that a packet's audio is written to is as long as a payload, and its
-- old content does not matter.
pub mod Methods
pub mod Dma
pub mod Wire
pub mod Group
pub mod Flow
pub mod Stops
pub mod Setup
pub mod Ready
pub mod Session
pub mod Opening
pub mod Running
mod Tests
use fire_wire_audio.Prelude.{
  ℕ, zero, suc, ◌+◌, ◌*◌, ◌/◌, ◌%◌, ◌^◌, Bool, true, false, not, ◌&&◌, ◌||◌, Option, none, some,
  List, [], ◌∷◌, ◌++◌, map, leb, ltb, ◌==◌, if◌then◌else◌, replicate,
}
use fire_wire_audio.Prelude.Expected.{Expected, value, unexpected}
use fire_wire_audio.Transmit.{TransmitterConfig, transmit_cip_header_size}
use fire_wire_audio.Transmit.Buffers.{TransmitBuffers, isoch_header_ptr, cip_header_ptr}
use fire_wire_audio.Transmit.Dcl.{
  DclManager, PoolCall, VirtualRange, Outcome, completed, self_deadlock, audio_data_ptr,
}
use fire_wire_audio.Transmit.Updates.{update_dcl_packet}
use fire_wire_audio.Transport.{Transport, ChannelCall}
use fire_wire_audio.PortChannel.{PortManager}
use fire_wire_audio.PortChannel.Setup.{get_active_channel}
use fire_wire_audio.Provider.{Provider, PreparedPacketData, Filled, fill_packet_data}
use fire_wire_audio.Cip.Transmitter.{CipState, CipHeader, prepare_cip_header}

pub record Parts : Type 0 where
  pub buffers : TransmitBuffers
  pub port : PortManager
  pub dcl : DclManager
  pub transport : Transport
  pub provider : Provider

-- The rate is in hertz.
pub record AmdtpTransmitter : Type 0 where
  pub config : TransmitterConfig
  pub sample_rate : ℕ
  pub initial_speed : ℕ
  pub parts : Option Parts
  pub initialized : Bool
  pub running : Bool
  pub cip : CipState
  pub has_message_callback : Bool

pub data TransmitterMessage : Type 0 where
  stream_started stream_stopped buffer_underrun overrun_error : TransmitterMessage
  overrun_recovery_attempt overrun_recovery_failed allocate_port release_port : TransmitterMessage
  timestamp_adjust generic_error : TransmitterMessage

-- `data_length` is written in the byte order of the bus.
pub record IsochHeaderData : Type 0 where
  pub data_length : ℕ
  pub tag_channel : ℕ
  pub tcode_sy : ℕ

pub data Event : Type 0 where
  audio_written : ℕ → List ℕ → Event
  cip_written : ℕ → CipHeader → Event
  isoch_written : ℕ → IsochHeaderData → Event
  dcl_called : PoolCall → Event
  channel_called : ChannelCall → Event
  client_told : TransmitterMessage → ℕ → ℕ → Event

-- `notifyMessage` takes the state mutex; `locked` says that its caller holds it.
unfoldable pub notify_message :
    Bool → AmdtpTransmitter → TransmitterMessage → ℕ → ℕ → Outcome (List Event)
notify_message locked t message p1 p2 =
    if locked
    then self_deadlock
    else completed (if t.has_message_callback then client_told message p1 p2 ∷ [] else [])

-- Where packet `p` of group `g`, the `i`-th of all, has its headers and its audio.
pub record PacketSlot : Type 0 where
  pub isoch_header : ℕ
  pub cip_header : ℕ
  pub audio_data : ℕ

unfoldable pub packet_slot : TransmitBuffers → ℕ → ℕ → ℕ → Option PacketSlot
unfolding isoch_header_ptr cip_header_ptr audio_data_ptr
packet_slot m g p i = elim (isoch_header_ptr m g p) [
  | unexpected e ↦ none
  | value isoch ↦ elim (cip_header_ptr m g p) [
    | unexpected e ↦ none
    | value cip ↦
        if (m.client_audio_area == 0) || (m.config.client_buffer_size == 0)
        then none
        else some
            (record { isoch_header = isoch; cip_header = cip; audio_data = audio_data_ptr m i })
  ]
]

-- `fwChannel`, eight bits wide.
unfoldable pub fw_channel : TransmitterConfig → PortManager → ℕ
unfolding get_active_channel
fw_channel c port = elim (get_active_channel port) [
  | value channel ↦ channel % 2 ^ 8
  | unexpected e ↦ c.initial_channel % 2 ^ 6
]

unfoldable pub isoch_header : ℕ → ℕ → IsochHeaderData
isoch_header channel bytes = record {
  data_length = bytes % 2 ^ 16;
  tag_channel = 2 ^ 6 + channel % 2 ^ 6;
  tcode_sy = 0xA * 2 ^ 4;
}

-- What the packets change: the provider, and the state of the headers.
pub record Streams : Type 0 where
  pub provider : Provider
  pub cip : CipState

pub record Prepared : Type 0 where
  pub complete : Bool
  pub events : List Event
  pub streams : Streams

abbrev pub fill_slot : Parts → Streams → Filled
fill_slot parts s =
    fill_packet_data s.provider (some (replicate parts.buffers.audio_payload_size_per_packet 0))

abbrev pub next_header : AmdtpTransmitter → Parts → Streams → CipHeader × CipState
next_header t parts s =
    prepare_cip_header t.sample_rate parts.buffers.audio_payload_size_per_packet s.cip

abbrev pub next_streams : AmdtpTransmitter → Parts → Streams → Streams
next_streams t parts s = record {
  provider = (fill_slot parts s).provider;
  cip = (next_header t parts s).1;
}

-- The body of the loop that runs before the start.
unfoldable pub initial_packet : AmdtpTransmitter → Parts → Streams → PacketSlot → List Event
unfolding isoch_header fw_channel
initial_packet t parts s at =
    audio_written at.audio_data (fill_slot parts s).target
    ∷ cip_written at.cip_header (next_header t parts s).0
    ∷ isoch_written at.isoch_header (
        isoch_header (fw_channel t.config parts.port)
          (transmit_cip_header_size + parts.buffers.audio_payload_size_per_packet))
    ∷ []

unfoldable pub initial_packets : AmdtpTransmitter → Parts → ℕ → ℕ → Streams → Prepared
unfolding initial_packet packet_slot
initial_packets t parts zero i s = record { complete = true; events = []; streams = s }
initial_packets t parts (suc n) i s =
    let rest = initial_packets t parts n (i + 1) (next_streams t parts s) in
    elim (packet_slot parts.buffers (i / t.config.packets_per_group)
      (i % t.config.packets_per_group) i) [
        | none ↦ record { complete = false; events = []; streams = s }
        | some at ↦ record rest { events = initial_packet t parts s at ++ rest.events }
      ]

-- The ranges that a packet's DCL sends: its CIP header, and its audio unless that is silence.
unfoldable pub ranges_for : PacketSlot → PreparedPacketData → List VirtualRange
ranges_for at status =
    (at.cip_header, transmit_cip_header_size)
    ∷ (if not status.generated_silence && ltb 0 status.data_length
        then (at.audio_data, status.data_length) ∷ []
        else [])

-- The body of the loop of `handleDCLComplete`. The reply of the pool is only logged.
unfoldable pub filled_packet :
    AmdtpTransmitter → Parts → ℕ → ℕ → ℕ → Streams → PacketSlot → List Event
unfolding isoch_header fw_channel ranges_for
filled_packet t parts reply g p s at =
    let f = fill_slot parts s in
    audio_written at.audio_data f.target
    ∷ ((if f.result.generated_silence && t.has_message_callback
          then client_told buffer_underrun g p ∷ []
          else [])
        ++ (cip_written at.cip_header (next_header t parts s).0
            ∷ isoch_written at.isoch_header (
                isoch_header (fw_channel t.config parts.port)
                  (transmit_cip_header_size + f.result.data_length))
            ∷ map dcl_called (update_dcl_packet parts.dcl g p (ranges_for at f.result) reply).1))

-- A packet without its pointers is skipped.
unfoldable pub filled_packets :
    AmdtpTransmitter → Parts → (ℕ → ℕ) → ℕ → ℕ → ℕ → Streams → List Event × Streams
unfolding filled_packet packet_slot
filled_packets t parts reply g zero p s = ([], s)
filled_packets t parts reply g (suc n) p s =
    elim (packet_slot parts.buffers g p ((g * t.config.packets_per_group + p) % 2 ^ 32)) [
      | none ↦ filled_packets t parts reply g n (p + 1) s
      | some at ↦
          let (es, s') = filled_packets t parts reply g n (p + 1) (next_streams t parts s) in
          (filled_packet t parts (reply p) g p s at ++ es, s')
    ]
