-- ===== src/AmdtpTransmitter/Setup.antt =====
-- src/Isoch/core/AmdtpTransmitter.cpp: `setupComponents` and `initialize`. What the system and the
-- framework give is a record of replies. The results of the buffers', the ports' and the channel's
-- setup are dropped, as in the source.
use fire_wire_audio.Prelude.{ℕ, true, false, Option, none, some, [], if◌then◌else◌}
use fire_wire_audio.Prelude.Expected.{Expected, value, unexpected, not_ready, busy, bad_argument}
use fire_wire_audio.Transmit.{TransmitterConfig}
use fire_wire_audio.Transmit.Buffers.{TransmitBuffers, setup_transmit_buffers}
use fire_wire_audio.Transmit.Dcl.{
  DclManager, Outcome, completed, and_then, Created, create_dcl_program,
}
use fire_wire_audio.Transport.{Transport, stopped}
use fire_wire_audio.PortChannel.{PortManager, construct, InitReplies}
use fire_wire_audio.PortChannel
use fire_wire_audio.PortChannel.Setup.{SetupReplies, setup_local_port_and_channel}
use fire_wire_audio.Provider
use fire_wire_audio.AmdtpTransmitter.{AmdtpTransmitter, Parts}
use fire_wire_audio.AmdtpTransmitter.Methods.{cleaned_up}

-- The page size, the allocator, the ports' manager's replies, the DCLs and the program of the pool, and
-- what the provider's new memory holds.
pub record Framework : Type 0 where
  pub page : ℕ
  pub vm_allocate : ℕ → Option ℕ
  pub opening : InitReplies
  pub dcl_allocate : ℕ → Option ℕ
  pub program : Option ℕ
  pub ports : SetupReplies
  pub ring_fill : ℕ

abbrev pub default_config : TransmitterConfig
default_config = record {
  num_groups = 8;
  packets_per_group = 16;
  callback_group_interval = 1;
  client_buffer_size = 0;
  initial_channel = 0xFFFFFFFF;
}

-- New managers.
abbrev pub fresh_buffers : TransmitBuffers
fresh_buffers = record {
  config = default_config;
  total_packets = 0;
  audio_payload_size_per_packet = 0;
  main_buffer = none;
  total_buffer_size = 0;
  range_address = 0;
  range_length = 0;
  client_audio_area = 0;
  isoch_header_area = 0;
  cip_header_area = 0;
  timestamp_area = 0;
  client_buffer_size_aligned = 0;
  isoch_header_total_size_aligned = 0;
  cip_header_total_size_aligned = 0;
  timestamp_total_size_aligned = 0;
}

abbrev pub fresh_program : DclManager
fresh_program = record {
  config = default_config;
  has_pool = false;
  dcl_program_refs = [];
  callback_infos = [];
  first_dcl = none;
  last_dcl = none;
  program_created = false;
  has_complete_callback = false;
}

abbrev pub fresh_transport : Transport
fresh_transport = record {
  state = stopped;
  finalize_callback_called = false;
  has_finalize_callback = false;
}

-- The last steps: the port and the channel, and the callbacks.
unfoldable pub finish_components :
    TransmitterConfig
    → Framework
    → TransmitBuffers
    → PortManager
    → Created
    → Outcome (Expected Parts)
finish_components c f buffers port created = elim created.result [
  | unexpected e ↦ completed (unexpected e)
  | value handle ↦ completed (
      value (record {
        buffers = buffers;
        port =
            (setup_local_port_and_channel port (some handle)
              (buffers.range_address, buffers.range_length) f.ports).manager;
        dcl = record created.manager { has_complete_callback = true };
        transport = fresh_transport;
        provider = Provider.fresh f.ring_fill c.client_buffer_size;
      }))
]

unfoldable pub setup_components : TransmitterConfig → Framework → ℕ → Outcome (Expected Parts)
unfolding finish_components
setup_components c f nub =
    let buffers = (setup_transmit_buffers f.page f.vm_allocate fresh_buffers c).buffers in
    let port = (PortChannel.initialize (construct (some nub) true).1 f.opening).manager in
    elim port.nu_dcl_pool [
      | none ↦ completed (unexpected not_ready)
      | some pool ↦
          and_then (create_dcl_program fresh_program c true buffers f.dcl_allocate f.program)
            (finish_components c f buffers port)
    ]

unfoldable pub initialize :
    AmdtpTransmitter → Framework → Option ℕ → Outcome (Expected (Unit {0}) × AmdtpTransmitter)
unfolding setup_components cleaned_up
initialize t f interface =
    if t.initialized then completed (unexpected busy, t) else elim interface [
      | none ↦ completed (unexpected bad_argument, t)
      | some nub ↦ and_then (setup_components t.config f nub) (λ made. elim made [
        | unexpected e ↦ completed (unexpected e, cleaned_up t)
        | value parts ↦ completed (value tt, record t { parts = some parts; initialized = true })
      ])
    ]
