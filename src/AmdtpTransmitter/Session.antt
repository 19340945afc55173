-- ===== src/AmdtpTransmitter/Session.antt =====
-- From `initialize` over `startTransmit` to a running stream.
use fire_wire_audio.Prelude.{
  ℕ, zero, suc, ◌+◌, ◌/◌, ◌%◌, ◌^◌, ◌<◌, ◌≡◌, refl, ap, ◌∙◌, true, false, Option, some, List, [],
  ◌∷◌, ◌++◌, map, if◌then◌else◌, arith,
}
use fire_wire_audio.Prelude.Expected.{value}
use fire_wire_audio.Prelude.Layout.{page_align-le}
use fire_wire_audio.Transmit.{TransmitterConfig}
use fire_wire_audio.Transmit.Buffers.{TransmitBuffers, release, lay_out, assign_areas}
use fire_wire_audio.Transmit.Dcl.{Building, completed, and_then, create_dcl_program}
use fire_wire_audio.Transmit.Updates.{fixup_dcl_jump_targets}
use fire_wire_audio.Transmit.Slots.{IsSendable, packets_of, setup_allots, allotted}
use fire_wire_audio.Transmit.Packets.{IsReady, IsBuilt}
use fire_wire_audio.Transmit.Whole.{IsPool, allotted-IsReady, creates}
use fire_wire_audio.Transport
use fire_wire_audio.Transport.{stopped}
use fire_wire_audio.PortChannel
use fire_wire_audio.PortChannel.{PortManager, InitReplies, construct}
use fire_wire_audio.PortChannel.Setup.{setup_local_port_and_channel}
use fire_wire_audio.PortChannel.Leak.{gives, joined, talker_accepted}
use fire_wire_audio.Provider
use fire_wire_audio.AmdtpTransmitter.{
  AmdtpTransmitter, Event, Parts, Streams, PacketSlot, packet_slot, initial_packets, next_streams,
  dcl_called, channel_called, client_told, stream_started,
}
use fire_wire_audio.AmdtpTransmitter.Methods.{StartReplies, start_program, start_transport}
use fire_wire_audio.AmdtpTransmitter.Setup.{
  Framework, fresh_buffers, fresh_program, fresh_transport, finish_components, setup_components,
  initialize,
}
use fire_wire_audio.AmdtpTransmitter.Ready.{with_callback}
use fire_wire_audio.AmdtpTransmitter.Group.{streams_after}

-- A framework that gives what it is asked for.
pub record Gifts : Type 0 where
  pub page_bits : ℕ
  pub memory : ℕ
  pub nub : ℕ
  pub pool : ℕ
  pub remote : ℕ
  pub local : ℕ
  pub channel : ℕ
  pub program : ℕ
  pub ring_fill : ℕ

abbrev pub framework : Gifts → (ℕ → Option ℕ) → (ℕ → Option ℕ) → Framework
framework x vm_allocate dcl_allocate = record {
  page = 2 ^ x.page_bits;
  vm_allocate = vm_allocate;
  opening = record {
    callback_reply = 0;
    isoch_reply = 0;
    new_pool = some x.pool;
    new_remote = some x.remote;
  };
  dcl_allocate = dcl_allocate;
  program = some x.program;
  ports = gives x.local x.channel 0;
  ring_fill = x.ring_fill;
}

-- The port manager between its two setups, and the buffers.
abbrev opened : Gifts → PortManager
opened x =
    (PortChannel.initialize (construct (some x.nub) true).1 (record {
      callback_reply = 0;
      isoch_reply = 0;
      new_pool = some x.pool;
      new_remote = some x.remote;
    })).manager

abbrev pub buffers_of : Gifts → TransmitterConfig → TransmitBuffers
buffers_of x c = allotted (2 ^ x.page_bits) fresh_buffers c x.memory

abbrev pub parts_of : Gifts → TransmitterConfig → Building → Parts
parts_of x c b = record {
  buffers = buffers_of x c;
  port = joined (opened x) (some x.local) x.channel;
  dcl = with_callback x.program b;
  transport = fresh_transport;
  provider = Provider.fresh x.ring_fill c.client_buffer_size;
}

opened-pool : (x : Gifts) → (opened x).nu_dcl_pool ≡ some x.pool
unfolding PortChannel.initialize construct
opened-pool x = refl

module _ (x : Gifts) (c : TransmitterConfig) (vm_allocate dcl_allocate : ℕ → Option ℕ) (dcl : ℕ → ℕ)
    (v : IsSendable c) (ha : 0 < x.memory) (aligned : x.memory % 4 ≡ 0)
    (got : vm_allocate
        (lay_out
          (2 ^ x.page_bits)
          (record ((release fresh_buffers).1) { config = c })).total_buffer_size
      ≡ some x.memory)
    (pool : IsPool c dcl_allocate dcl) where
  pub ready : IsReady c (buffers_of x c) dcl_allocate dcl
  ready = allotted-IsReady (2 ^ x.page_bits) x.memory fresh_buffers c dcl_allocate dcl v ha pool

  size_pos : 0 < (buffers_of x c).range_length
  unfolding assign_areas lay_out
  size_pos = omega (arith, page_align-le x.page_bits c.client_buffer_size, ready.client)

  port_made :
      (setup_local_port_and_channel
        (opened x)
        (some x.program)
        ((buffers_of x c).range_address, (buffers_of x c).range_length)
        (gives x.local x.channel 0)).manager
      ≡ joined (opened x) (some x.local) x.channel
  unfolding PortChannel.initialize construct assign_areas
  port_made =
      (talker_accepted (opened x) x.program (buffers_of x c).range_address
        (buffers_of x c).range_length x.local x.channel
        (record {
          initialized = refl;
          interface = (x.nub, refl);
          pool = (x.pool, refl);
          remote = (x.remote, refl);
        })
        (suc x.channel) ha size_pos aligned (λ e. omega arith)).1

  -- The parts after `setupComponents`.
  components_made :
      (b : Building) × (setup_components c (framework x vm_allocate dcl_allocate) x.nub
        ≡ completed (value (parts_of x c b)))
      × IsBuilt c (buffers_of x c) dcl_allocate dcl (packets_of c) b
  unfolding setup_components finish_components PortChannel.initialize construct
  components_made =
      let (b, made, built) =
        creates c (buffers_of x c) dcl_allocate dcl ready fresh_program x.program refl in
      let (fine, allot) =
        setup_allots (2 ^ x.page_bits) x.memory vm_allocate fresh_buffers c v got in
      (
        b,
        ap
              (λ (m : TransmitBuffers).
                and_then (create_dcl_program fresh_program c true m dcl_allocate (some x.program))
                  (finish_components c (framework x vm_allocate dcl_allocate) m (opened x)))
              allot
            ∙ ap
                (λ o. and_then o (
                  finish_components c (framework x vm_allocate dcl_allocate) (buffers_of x c)
                    (opened x)))
                made
            ∙ ap
                (λ (port : PortManager).
                  completed (value (record (parts_of x c b) { port = port })))
                port_made,
        built,
      )

  -- The transmitter after `initialize`.
  pub initialized_lem :
      (t : AmdtpTransmitter)
      → t.config ≡ c
      → t.initialized ≡ false
      → (b : Building) × (initialize t (framework x vm_allocate dcl_allocate) (some x.nub)
          ≡ completed (value tt, record t { parts = some (parts_of x c b); initialized = true }))
        × IsBuilt c (buffers_of x c) dcl_allocate dcl (packets_of c) b
  unfolding initialize
  initialized_lem t same new =
      let (b, made, built) = components_made in (b, ground (arith, made, new, same), built)

-- When every packet of the initial loop has its pointers, all of them are prepared.
pub packets_complete :
    (t : AmdtpTransmitter) (parts : Parts) (n i : ℕ) (s : Streams)
    → ((j : ℕ)
        → j < i + n
        → (at : PacketSlot) × (packet_slot parts.buffers
              (j / t.config.packets_per_group)
              (j % t.config.packets_per_group)
              j
            ≡ some at))
    → ((initial_packets t parts n i s).complete ≡ true)
      × ((initial_packets t parts n i s).streams ≡ streams_after t parts n s)
unfolding initial_packets
packets_complete t parts zero i s found = (refl, refl)
packets_complete t parts (suc n) i s found =
    let (at, here) = found i (omega arith) in
    rw (initial_packets, here)
      (packets_complete t parts n (i + 1) (next_streams t parts s) (λ j h. found j (omega arith)))

-- What the framework answers when the stream can start.
abbrev pub all_well : ℕ → StartReplies
all_well code = record {
  branch_reply = 0;
  notify_reply = 0;
  allocated = true;
  started = true;
  code = code;
}

pub program_runs :
    (t : AmdtpTransmitter) (parts : Parts) (events : List Event) (code l ch : ℕ)
    → (fixup_dcl_jump_targets parts.dcl true 0 0).0 ≡ value tt
    → parts.port.local_port ≡ some l
    → parts.port.isoch_channel ≡ some ch
    → parts.transport.state ≡ stopped
    → let s = start_program t parts events (all_well code) in
      (s.result ≡ value tt)
      × (s.transmitter ≡ record t {
        parts = some (record parts {
          transport = (Transport.start parts.transport true true code).transport;
        });
        running = true;
        cip = record t.cip { first_dcl_callback_occurred = false };
      })
unfolding start_program start_transport Transport.start Transport.start_from
program_runs t parts events code l ch fixed port channel still = ground arith

-- All that is told when a prepared stream starts.
pub program_tells :
    (t : AmdtpTransmitter) (parts : Parts) (events : List Event) (code l ch : ℕ)
    → (fixup_dcl_jump_targets parts.dcl true 0 0).0 ≡ value tt
    → parts.port.local_port ≡ some l
    → parts.port.isoch_channel ≡ some ch
    → parts.transport.state ≡ stopped
    → (start_program t parts events (all_well code)).events
      ≡ ((events ++ map dcl_called (fixup_dcl_jump_targets parts.dcl true 0 0).1)
          ++ map channel_called (Transport.start parts.transport true true code).calls)
        ++ (if t.has_message_callback then client_told stream_started 0 0 ∷ [] else [])
unfolding start_program start_transport Transport.start Transport.start_from
program_tells t parts events code l ch fixed port channel still = ground arith
