-- ===== src/AmdtpTransmitter/Tests.antt =====
-- A transmitter of two groups of two packets, and the theorems applied to it.
use fire_wire_audio.Prelude.{
  ℕ, ◌+◌, ◌*◌, ◌%◌, ◌^◌, ◌<◌, ◌≡◌, inl, sym, refl, replicate, true, false, Option, none, some, [],
  ◌∷◌, ◌++◌, map, arith,
}
use fire_wire_audio.Prelude.Expected.{value}
use mathlib.Core.Path.{subst}
use fire_wire_audio.Ring.Refine.{contents}
use fire_wire_audio.Provider
use fire_wire_audio.Provider.{format_am824}
use fire_wire_audio.PortChannel.{construct}
use fire_wire_audio.PortChannel
use fire_wire_audio.PortChannel.Leak.{joined}
use fire_wire_audio.Transmit.{TransmitterConfig}
use fire_wire_audio.Transmit.Slots.{IsSendable, allotted}
use fire_wire_audio.Transport
use fire_wire_audio.Transmit.Buffers.{assign_areas, lay_out}
use fire_wire_audio.Transmit.Updates.{fixup_dcl_jump_targets}
use fire_wire_audio.Transmit.Dcl.{completed, self_deadlock, DclManager}
use fire_wire_audio.Transmit.Segments.{dcls_from}
use fire_wire_audio.Transmit.Whole.{IsPool}
use fire_wire_audio.Cip.Transmitter.{initialize_cip_state}
use fire_wire_audio.AmdtpTransmitter.{AmdtpTransmitter, Parts, PacketSlot, packet_slot, fw_channel}
use fire_wire_audio.AmdtpTransmitter.Opening.{silent_header}
use fire_wire_audio.AmdtpTransmitter.Methods.{
  Returned, start_transmit, stop_transmit, handle_dcl_overrun, handle_dcl_complete, destroy,
  StopReplies, CompletionReplies,
}
use fire_wire_audio.AmdtpTransmitter.Setup.{fresh_buffers, fresh_transport, initialize}
use fire_wire_audio.AmdtpTransmitter.Dma.{Memory, memory_after, read, slot_at}
use fire_wire_audio.AmdtpTransmitter.Wire.{WirePacket, wire_packets, notices_of}
use fire_wire_audio.AmdtpTransmitter.Group.{IsStreaming}
use fire_wire_audio.AmdtpTransmitter.Flow.{
  payloads, headers, parts_after, completion_lem, others_stay,
}
use fire_wire_audio.AmdtpTransmitter.Session.{Gifts, framework, all_well}
use fire_wire_audio.AmdtpTransmitter.Running.{started_streams}
use fire_wire_audio.AmdtpTransmitter.Stops.{started_never_stops}

abbrev small : TransmitterConfig
small = record {
  num_groups = 2;
  packets_per_group = 2;
  callback_group_interval = 1;
  client_buffer_size = 256;
  initial_channel = 5;
}

abbrev unopened : AmdtpTransmitter
unopened = record {
  config = small;
  sample_rate = 44100;
  initial_speed = 2;
  parts = none;
  initialized = false;
  running = false;
  cip = initialize_cip_state;
  has_message_callback = true;
}

abbrev given : Gifts
given = record {
  page_bits = 12;
  memory = 8192;
  nub = 10;
  pool = 20;
  remote = 30;
  local = 40;
  channel = 50;
  program = 60;
  ring_fill = 0;
}

abbrev memory_given : ℕ → Option ℕ
memory_given size = some 8192

abbrev hundreds : ℕ → ℕ
hundreds i = 100 + i

abbrev dcls_given : ℕ → Option ℕ
dcls_given i = some (hundreds i)

small-IsSendable : IsSendable small
small-IsSendable = record {
  some_groups = omega arith;
  some_packets = omega arith;
  some_interval = omega arith;
  packets_in = omega arith;
  room = omega arith;
}

dcls-IsPool : IsPool small dcls_given hundreds
dcls-IsPool = record { gives = λ i h. refl; new = λ i j hi hj e. omega arith }

abbrev no_memory_yet : Memory
no_memory_yet a = 0

started_streams_example :
    (t' : AmdtpTransmitter) × (initialize unopened
        (framework given memory_given dcls_given)
        (some 10)
      ≡ completed (value tt, t'))
    × (let s = start_transmit t' (all_well 7) in
        (s.result ≡ value tt)
        × (s.transmitter.config ≡ small)
        × ((parts : Parts) × IsStreaming s.transmitter parts hundreds
            × ((at : PacketSlot) × (packet_slot parts.buffers 1 1 ((1 * 2 + 1) % 2 ^ 32) ≡ some at)
                × (read (memory_after no_memory_yet s.events) at.cip_header 8 ≡ silent_header)
                × (read (memory_after no_memory_yet s.events) at.audio_data 64 ≡ replicate 64 0))))
started_streams_example =
    started_streams given unopened memory_given dcls_given hundreds 7 no_memory_yet 1 1
      small-IsSendable (omega arith) (omega arith) refl dcls-IsPool (omega arith) refl refl
      (omega arith) (omega arith)

-- The same transmitter, for the tests that follow.
opened_and_started :
    (t' : AmdtpTransmitter) × (initialize unopened
        (framework given memory_given dcls_given)
        (some 10)
      ≡ completed (value tt, t'))
    × (let s = start_transmit t' (all_well 7) in
        (s.result ≡ value tt)
        × (s.transmitter.config ≡ small)
        × ((parts : Parts) × IsStreaming s.transmitter parts hundreds
            × ((at : PacketSlot) × (packet_slot parts.buffers 1 1 ((1 * 2 + 1) % 2 ^ 32) ≡ some at)
                × (read (memory_after no_memory_yet s.events) at.cip_header 8 ≡ silent_header)
                × (read (memory_after no_memory_yet s.events) at.audio_data 64 ≡ replicate 64 0))))
opened_and_started =
    started_streams given unopened memory_given dcls_given hundreds 7 no_memory_yet 1 1
      small-IsSendable (omega arith) (omega arith) refl dcls-IsPool (omega arith) refl refl
      (omega arith) (omega arith)

abbrev running : AmdtpTransmitter
running = (start_transmit opened_and_started.0 (all_well 7)).transmitter

abbrev running_parts : Parts
running_parts = opened_and_started.2.2.0

abbrev stopping : StopReplies
stopping = record { stops = true; arrives = λ n. true }

abbrev replies : CompletionReplies
replies = record { pool_reply = λ p. 0; port_reply = 0; stopping = stopping }

completion_lem_example :
    let f = (0 + 1) % 2 ^ 32 % running.config.num_groups in
    let k = running.config.packets_per_group in
    (c : Returned) × (handle_dcl_complete running 0 replies ≡ completed c)
    × IsStreaming c.transmitter (parts_after running running_parts) hundreds
    × (let ws = wire_packets no_memory_yet c.events in
        (map (λ (w : WirePacket). w.dcl) ws ≡ dcls_from hundreds (f * k) k)
        × (notices_of c.events ≡ dcls_from hundreds (f * k) k ∷ [])
        × (map (λ (w : WirePacket). w.header) ws
            ≡ headers running.sample_rate 64 k
                (record running.cip { first_dcl_callback_occurred = true }))
        × (payloads ws
              ++ format_am824 (contents (parts_after running running_parts).provider.audio_buffer)
            ≡ format_am824 (contents running_parts.provider.audio_buffer)))
completion_lem_example =
    completion_lem running running_parts hundreds 0 replies no_memory_yet opened_and_started.2.2.1

its_config : running.config ≡ small
its_config = opened_and_started.2.1

-- The callback for group 0 fills group 1 and leaves packet 0, of group 0.
others_stay_example :
    (c : Returned) × (handle_dcl_complete running 0 replies ≡ completed c)
    × (let last = memory_after no_memory_yet c.events in
        let slot = slot_at opened_and_started.2.2.1.areas 0 in
        (read last slot.audio_data 64 ≡ read no_memory_yet slot.audio_data 64)
        × (read last slot.cip_header 8 ≡ read no_memory_yet slot.cip_header 8))
others_stay_example =
    others_stay running running_parts hundreds 0 replies no_memory_yet 0 opened_and_started.2.2.1
      (subst (λ (c : TransmitterConfig). 0 < c.num_groups * c.packets_per_group) (sym its_config)
        (omega arith))
      (inl (
        subst (λ (c : TransmitterConfig). 0 < (0 + 1) % 2 ^ 32 % c.num_groups * c.packets_per_group)
          (sym its_config) (omega arith)))

-- A transmitter of one packet whose managers are set up.
abbrev one : TransmitterConfig
one = record small { num_groups = 1; packets_per_group = 1 }

abbrev one_dcl : DclManager
one_dcl = record {
  config = one;
  has_pool = true;
  dcl_program_refs = some 100 ∷ [];
  callback_infos = some 0 ∷ [];
  first_dcl = some 100;
  last_dcl = some 100;
  program_created = true;
  has_complete_callback = true;
}

abbrev stopped_one : AmdtpTransmitter
stopped_one = record unopened {
  config = one;
  initialized = true;
  parts = some (record {
    buffers = allotted 4096 fresh_buffers one 8192;
    port =
        joined
          (PortChannel.initialize (construct (some 10) true).1 (record {
            callback_reply = 0;
            isoch_reply = 0;
            new_pool = some 20;
            new_remote = some 30;
          })).manager
          (some 40) 50;
    dcl = one_dcl;
    transport = fresh_transport;
    provider = Provider.fresh 0 256;
  });
}

started_never_stops_example :
    let t' = (start_transmit stopped_one (all_well 7)).transmitter in
    (stop_transmit t' stopping ≡ self_deadlock)
    × (handle_dcl_overrun t' stopping ≡ self_deadlock)
    × (destroy t' stopping ≡ self_deadlock)
unfolding start_transmit PortChannel.initialize construct assign_areas lay_out
    fixup_dcl_jump_targets Transport.start
started_never_stops_example = started_never_stops stopped_one (all_well 7) stopping refl refl

-- Before the framework has negotiated a channel, the headers name channel 63, whatever is configured.
channel_before_start :
    fw_channel one
        (PortChannel.initialize (construct (some 10) true).1 (record {
          callback_reply = 0;
          isoch_reply = 0;
          new_pool = some 20;
          new_remote = some 30;
        })).manager
      % 2 ^ 6
    ≡ 63
unfolding fw_channel PortChannel.initialize construct
channel_before_start = refl
