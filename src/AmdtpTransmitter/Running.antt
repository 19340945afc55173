-- ===== src/AmdtpTransmitter/Running.antt =====
-- A transmitter that was initialised and started streams.
use fire_wire_audio.Prelude.{
  ℕ, ◌+◌, ◌*◌, ◌/◌, ◌%◌, ◌^◌, ◌≤◌, ◌<◌, ◌≡◌, refl, ap, sym, ◌∙◌, true, false, Option, some, List,
  [], replicate, arith, if◌then◌else◌,
}
use fire_wire_audio.Prelude.Expected.{value, unexpected, from_io_return, internal_error}
use mathlib.Core.Path.{subst}
use native.Mathlib.Nat.{mod-eq_of_lt, mod-lt, div-lt_iff_lt-mul, div-add-mod'}
use fire_wire_audio.Transmit.Buffers.{release, lay_out, assign_areas}
use fire_wire_audio.Transmit.Dcl.{Building, completed}
use fire_wire_audio.Prelude.Layout.{page_align-le}
use fire_wire_audio.Transmit.Dcl.{audio_data_ptr}
use fire_wire_audio.Transmit.Slots.{IsSendable, packets_of, packet_in, pointers_inside}
use fire_wire_audio.AmdtpTransmitter.Dma.{
  Areas, AreDisjoint, slot_at, Memory, memory_after, read, read-bytes,
}
use fire_wire_audio.AmdtpTransmitter.Opening.{silent_header, first-IsSilent, loop-Opened, quiet_end}
use fire_wire_audio.Transmit.Packets.{IsReady, IsBuilt}
use fire_wire_audio.Transmit.Whole.{IsPool}
use fire_wire_audio.Transport
use fire_wire_audio.Provider
use fire_wire_audio.Cip.Transmitter.{initialize_cip_state}
use fire_wire_audio.AmdtpTransmitter.{
  AmdtpTransmitter, Parts, Streams, PacketSlot, packet_slot, initial_packets, Event,
}
use fire_wire_audio.AmdtpTransmitter.Methods.{
  Returned, start_transmit, start_with_parts, start_program, with_streams,
}
use fire_wire_audio.AmdtpTransmitter.Setup.{fresh_buffers, fresh_transport, initialize}
use fire_wire_audio.AmdtpTransmitter.Ready.{
  ready_updates, ready_notices, ready_fixup, ready_slots, areas_of, fresh-IsBalanced,
}
use fire_wire_audio.AmdtpTransmitter.Group.{IsStreaming, streams_after}
use fire_wire_audio.AmdtpTransmitter.Flow.{after-IsBalanced}
use fire_wire_audio.AmdtpTransmitter.Session.{
  Gifts, framework, buffers_of, parts_of, ready, initialized_lem, packets_complete, all_well,
  program_runs, program_tells,
}

module _ (x : Gifts) (t : AmdtpTransmitter) (vm_allocate dcl_allocate : ℕ → Option ℕ) (dcl : ℕ → ℕ)
    (v : IsSendable t.config) (ha : 0 < x.memory) (aligned : x.memory % 4 ≡ 0)
    (got : vm_allocate
        (lay_out
          (2 ^ x.page_bits)
          (record ((release fresh_buffers).1) { config = t.config })).total_buffer_size
      ≡ some x.memory)
    (pool : IsPool t.config dcl_allocate dcl) where
  all_ready : IsReady t.config (buffers_of x t.config) dcl_allocate dcl
  all_ready = ready x t.config vm_allocate dcl_allocate dcl v ha aligned got pool

  audio_place :
      (g p : ℕ)
      → g < t.config.num_groups
      → p < t.config.packets_per_group
      → let m = buffers_of x t.config in
        audio_data_ptr m (g * t.config.packets_per_group + p)
        ≡ m.client_audio_area + (g * t.config.packets_per_group + p) * 64
  unfolding assign_areas
  audio_place g p hg hp =
      (pointers_inside x.page_bits x.memory fresh_buffers t.config g p v hg hp).0

  slots_disjoint :
      AreDisjoint
        (areas_of t.config (buffers_of x t.config) dcl_allocate dcl all_ready)
        (t.config.num_groups * t.config.packets_per_group)
  unfolding assign_areas lay_out
  slots_disjoint =
      let n : ℕ = packets_of t.config in
      let count : n % 2 ^ 32 ≡ n = mod-eq_of_lt v.packets_in in
      record {
        audio_first = omega (arith, v.room, page_align-le x.page_bits t.config.client_buffer_size);
        cip_next = omega (arith, count, page_align-le x.page_bits (n % 2 ^ 32 * 8));
      }

  abbrev areas : Areas
  areas = areas_of t.config (buffers_of x t.config) dcl_allocate dcl all_ready

  -- The packet at index `j` of the initial loop.
  indexed_slot :
      (j : ℕ)
      → j < packets_of t.config
      → packet_slot
          (buffers_of x t.config)
          (j / t.config.packets_per_group)
          (j % t.config.packets_per_group)
          j
        ≡ some (slot_at areas j)
  unfolding assign_areas
  indexed_slot j h =
      let k = t.config.packets_per_group in
      let group = (div-lt_iff_lt-mul v.some_packets).1 h in
      let place = mod-lt j v.some_packets in
      let whole : j / k * k + j % k ≡ j = div-add-mod' j k in
      ap (packet_slot (buffers_of x t.config) (j / k) (j % k))
        (sym (ap (λ i. i % 2 ^ 32) whole ∙ mod-eq_of_lt (omega (arith, v.packets_in))))
      ∙ ready_slots t.config (buffers_of x t.config) dcl_allocate dcl all_ready (j / k) (j % k) ha
          (audio_place (j / k) (j % k) group place) group place
      ∙ ap (λ i. some (slot_at areas i)) whole

  -- The transmitter once it is initialised, and what the initial loop makes of its streams.
  abbrev opened : Building → AmdtpTransmitter
  opened b = record t { parts = some (parts_of x t.config b); initialized = true }

  abbrev first : Streams
  first = record {
    provider = Provider.fresh x.ring_fill t.config.client_buffer_size;
    cip = initialize_cip_state;
  }

  abbrev filled : Building → Streams
  filled b = streams_after (opened b) (parts_of x t.config b) (packets_of t.config) first

  loop_done :
      (b : Building)
      → let total = t.config.num_groups * t.config.packets_per_group % 2 ^ 32 in
        let done = initial_packets (opened b) (parts_of x t.config b) total 0 first in
        (done.complete ≡ true) × (done.streams ≡ filled b)
  loop_done b =
      let total : t.config.num_groups * t.config.packets_per_group % 2 ^ 32 ≡ packets_of t.config =
        mod-eq_of_lt v.packets_in in
      subst
        (λ n.
          let done = initial_packets (opened b) (parts_of x t.config b) n 0 first in
          (done.complete ≡ true) × (done.streams ≡ filled b))
        (sym total)
        (packets_complete (opened b) (parts_of x t.config b) (packets_of t.config) 0 first
          (λ j h. (slot_at areas j, indexed_slot j (omega arith))))

  abbrev initial_events : Building → List Event
  initial_events b =
      (initial_packets (opened b) (parts_of x t.config b)
        (t.config.num_groups * t.config.packets_per_group % 2 ^ 32) 0 first).events

  payload_64 : (b : Building) → (parts_of x t.config b).buffers.audio_payload_size_per_packet ≡ 64
  unfolding assign_areas lay_out
  payload_64 b = refl

  -- Before the start, every packet has a header without data and silence in its slot.
  initial-Opened :
      (b : Building) (m : Memory) (i : ℕ)
      → t.config.client_buffer_size ≤ 2 ^ 31
      → i < packets_of t.config
      → let last = memory_after m (initial_events b) in
        (read last (areas.cip + i * 8) 8 ≡ silent_header)
        × (read last (areas.audio + i * 64) 64 ≡ replicate 64 0)
  initial-Opened b m i small h =
      let total : t.config.num_groups * t.config.packets_per_group % 2 ^ 32 ≡ packets_of t.config =
        mod-eq_of_lt v.packets_in in
      let (header, audio) =
        loop-Opened (opened b) (parts_of x t.config b) dcl (payload_64 b) areas
          (packets_of t.config) slots_disjoint indexed_slot
          (t.config.num_groups * t.config.packets_per_group % 2 ^ 32) 0 i first m
          (omega (arith, total)) (omega arith) (omega (arith, total))
          (first-IsSilent x.ring_fill t.config.client_buffer_size small) in
      (
        read-bytes (memory_after m (initial_events b)) (areas.cip + i * 8) 8 silent_header refl
            header,
        read-bytes (memory_after m (initial_events b)) (areas.audio + i * 64) 64 (replicate 64 0)
            refl audio,
      )

  started :
      (b : Building) (code : ℕ)
      → t.running ≡ false
      → IsBuilt t.config (buffers_of x t.config) dcl_allocate dcl (packets_of t.config) b
      → (s : Returned) × (start_transmit (opened b) (all_well code) ≡ s)
        × (s.result ≡ value tt)
        × (s.transmitter ≡ record (with_streams (opened b) (parts_of x t.config b) (filled b)) {
          parts = some (record (parts_of x t.config b) {
            provider = (filled b).provider;
            transport = (Transport.start fresh_transport true true code).transport;
          });
          running = true;
          cip = record (filled b).cip { first_dcl_callback_occurred = false };
        })
        × ((m : Memory) → memory_after m s.events ≡ memory_after m (initial_events b))
  unfolding start_transmit start_with_parts
  started b code still built =
      let parts = parts_of x t.config b in
      let r = all_well code in
      let total = t.config.num_groups * t.config.packets_per_group % 2 ^ 32 in
      let loop = initial_packets (opened b) parts total 0 first in
      let (complete, streams) = loop_done b in
      let after = with_streams (opened b) parts (filled b) in
      let parts' = record parts { provider = (filled b).provider } in
      let (fine, left) =
        program_runs after parts' loop.events code x.local x.channel
          (ready_fixup t.config (buffers_of x t.config) dcl_allocate dcl all_ready x.program b
            built)
          refl refl refl in
      (
        start_program after parts' loop.events r,
        ap
              (λ q.
                if q
                then record { result = value tt; events = []; transmitter = opened b }
                else start_with_parts (opened b) parts r)
              still
            ∙ ap
                (λ q.
                  if q
                  then start_program (with_streams (opened b) parts loop.streams)
                      (record parts { provider = loop.streams.provider }) loop.events r
                  else record {
                    result = unexpected (from_io_return internal_error);
                    events = loop.events;
                    transmitter = with_streams (opened b) parts loop.streams;
                  })
                complete
            ∙ ap
                (λ (s : Streams).
                  start_program (with_streams (opened b) parts s)
                    (record parts { provider = s.provider }) loop.events r)
                streams,
        fine,
        left,
        λ m.
            ap (memory_after m) (
              program_tells after parts' loop.events code x.local x.channel
                (ready_fixup t.config (buffers_of x t.config) dcl_allocate dcl all_ready x.program b
                  built)
                refl refl refl)
            ∙ quiet_end m loop.events _ _ _,
      )

  -- The parts of the transmitter that was started.
  abbrev pub running_parts : Building → ℕ → Parts
  running_parts b code = record (parts_of x t.config b) {
    provider = (filled b).provider;
    transport = (Transport.start fresh_transport true true code).transport;
  }

  started-IsStreaming :
      (b : Building) (code : ℕ)
      → t.config.client_buffer_size ≤ 2 ^ 31
      → IsBuilt t.config (buffers_of x t.config) dcl_allocate dcl (packets_of t.config) b
      → IsStreaming
          (record (with_streams (opened b) (parts_of x t.config b) (filled b)) {
            parts = some (running_parts b code);
            running = true;
            cip = record (filled b).cip { first_dcl_callback_occurred = false };
          })
          (running_parts b code)
          dcl
  unfolding assign_areas lay_out Transport.start
  started-IsStreaming b code small built =
      let m = buffers_of x t.config in
      record {
        runs = refl;
        managed = refl;
        listens = refl;
        on_air = refl;
        port = (x.local, refl);
        some_groups = v.some_groups;
        payload = refl;
        areas = areas_of t.config m dcl_allocate dcl all_ready;
        disjoint = slots_disjoint;
        slots = λ g p hg hp.
            ready_slots t.config m dcl_allocate dcl all_ready g p ha (audio_place g p hg hp) hg hp;
        updates = ready_updates t.config m dcl_allocate dcl all_ready x.program b built;
        notices = ready_notices t.config m dcl_allocate dcl all_ready x.program b built;
        balanced =
            after-IsBalanced (opened b) (parts_of x t.config b) dcl refl (packets_of t.config) first
              (fresh-IsBalanced x.ring_fill t.config.client_buffer_size small);
      }

-- A transmitter is initialised and then started. When its configuration is sendable, with a buffer of
-- 2^31 bytes at most, and the system and the framework give what they are asked for, both succeed and
-- leave the configuration as it is. The transmitter then runs on its program: each packet has a slot
-- of its own and its DCL, its callback for completed groups is set, and the channel is running. In memory
-- the slot of packet `p` of group `g` holds a header without data, whose counter is 0, and silence.
pub started_streams :
    (x : Gifts) (t : AmdtpTransmitter) (vm_allocate dcl_allocate : ℕ → Option ℕ) (dcl : ℕ → ℕ)
    (code : ℕ) (m : Memory) (g p : ℕ)
    → IsSendable t.config
    → 0 < x.memory
    → x.memory % 4 ≡ 0
    → vm_allocate
        (lay_out
          (2 ^ x.page_bits)
          (record ((release fresh_buffers).1) { config = t.config })).total_buffer_size
      ≡ some x.memory
    → IsPool t.config dcl_allocate dcl
    → t.config.client_buffer_size ≤ 2 ^ 31
    → t.initialized ≡ false
    → t.running ≡ false
    → g < t.config.num_groups
    → p < t.config.packets_per_group
    → (t' : AmdtpTransmitter) × (initialize t (framework x vm_allocate dcl_allocate) (some x.nub)
        ≡ completed (value tt, t'))
      × (let s = start_transmit t' (all_well code) in
          (s.result ≡ value tt)
          × (s.transmitter.config ≡ t.config)
          × ((parts : Parts) × IsStreaming s.transmitter parts dcl
              × ((at : PacketSlot) × (packet_slot parts.buffers g p
                      ((g * t.config.packets_per_group + p) % 2 ^ 32)
                    ≡ some at)
                  × (read (memory_after m s.events) at.cip_header 8 ≡ silent_header)
                  × (read (memory_after m s.events) at.audio_data 64 ≡ replicate 64 0))))
unfolding assign_areas
started_streams x t vm_allocate dcl_allocate dcl code m g p v ha aligned got pool small new still hg
      hp =
    let (b, made, built) =
      initialized_lem x t.config vm_allocate dcl_allocate dcl v ha aligned got pool t refl new in
    let (s, runs, fine, left, tells) =
      started x t vm_allocate dcl_allocate dcl v ha aligned got pool b code still built in
    let streams =
      started-IsStreaming x t vm_allocate dcl_allocate dcl v ha aligned got pool b code small
        built in
    let (header, audio) =
      initial-Opened x t vm_allocate dcl_allocate dcl v ha aligned got pool b m
        (g * t.config.packets_per_group + p) small (packet_in t.config g p v hg hp).1 in
    let place = areas x t vm_allocate dcl_allocate dcl v ha aligned got pool in
    let i = g * t.config.packets_per_group + p in
    let told = ap (λ (r : Returned). memory_after m r.events) runs ∙ tells m in
    (
      record t { parts = some (parts_of x t.config b); initialized = true },
      made,
      (
        ap (λ (r : Returned). r.result) runs ∙ fine,
        ap (λ (r : Returned). r.transmitter.config) runs
            ∙ ap (λ (u : AmdtpTransmitter). u.config) left,
        (
          running_parts x t vm_allocate dcl_allocate dcl v ha aligned got pool b code,
          subst
              (λ t'.
                IsStreaming t'
                  (running_parts x t vm_allocate dcl_allocate dcl v ha aligned got pool b code) dcl)
              (sym (ap (λ (r : Returned). r.transmitter) runs ∙ left)) streams,
          (
            slot_at place i,
            ready_slots t.config (buffers_of x t.config) dcl_allocate dcl
                (all_ready x t vm_allocate dcl_allocate dcl v ha aligned got pool) g p ha
                (audio_place x t vm_allocate dcl_allocate dcl v ha aligned got pool g p hg hp) hg
                hp,
            ap (λ l. read l (place.cip + i * 8) 8) told ∙ header,
            ap (λ l. read l (place.audio + i * 64) 64) told ∙ audio,
          ),
        ),
      ),
    )
