-- ===== src/Transmit/Slots.antt =====
-- Where the transmitter's headers, payloads and timestamps lie.
use fire_wire_audio.Prelude.{
  ℕ, ◌+◌, ◌*◌, ◌%◌, ◌^◌, ◌≤◌, ◌<◌, ◌≡◌, refl, false, Option, some, arith, ◌==◌,
}
use fire_wire_audio.Prelude.Expected.{value}
use fire_wire_audio.Prelude.Layout.{page_align-le, index_bound, place_bound}
use native.Mathlib.Nat.{mod-eq_of_lt}
use fire_wire_audio.Transmit.{TransmitterConfig}
use fire_wire_audio.Transmit.Buffers.{
  TransmitBuffers, release, payload_size, lay_out, assign_areas, has_zeros, setup_transmit_buffers,
  packet_checked, packet_index, isoch_header_ptr, cip_header_ptr, group_timestamp_ptr,
}
use fire_wire_audio.Transmit.Dcl.{audio_data_ptr, PacketPointers, packet_pointers}

-- Groups, packets and callbacks there are, the count of packets fits 32 bits, and the client's buffer
-- has room for the payload of every packet, as its documentation asks.
pub record IsSendable (c : TransmitterConfig) : Type 0 where
  pub some_groups : 0 < c.num_groups
  pub some_packets : 0 < c.packets_per_group
  pub some_interval : 0 < c.callback_group_interval
  pub packets_in : c.num_groups * c.packets_per_group < 2 ^ 32
  pub room : c.num_groups * c.packets_per_group * payload_size ≤ c.client_buffer_size

-- The manager after a setup that got its memory at `a`.
abbrev pub allotted : ℕ → TransmitBuffers → TransmitterConfig → ℕ → TransmitBuffers
allotted page m c a = assign_areas (lay_out page (record ((release m).1) { config = c })) a

abbrev pub packets_of : TransmitterConfig → ℕ
packets_of c = c.num_groups * c.packets_per_group

some_packet : (c : TransmitterConfig) → IsSendable c → 1 ≤ packets_of c
some_packet c v =
    omega (arith, index_bound c.num_groups c.packets_per_group 0 0 v.some_groups v.some_packets)

sendable-has_zeros : (c : TransmitterConfig) → IsSendable c → has_zeros c ≡ false
unfolding has_zeros
sendable-has_zeros c v = ground (arith, v.some_groups, v.some_packets, v.room, some_packet c v)

pub setup_allots :
    (page a : ℕ) (vm_allocate : ℕ → Option ℕ) (m : TransmitBuffers) (c : TransmitterConfig)
    → IsSendable c
    → vm_allocate (lay_out page (record ((release m).1) { config = c })).total_buffer_size ≡ some a
    → let s = setup_transmit_buffers page vm_allocate m c in
      (s.result ≡ value tt) × (s.buffers ≡ allotted page m c a)
unfolding setup_transmit_buffers
setup_allots page a vm_allocate m c v got = rw (sendable-has_zeros c v, got) (refl, refl)

pub packet_in :
    (c : TransmitterConfig) (g p : ℕ)
    → IsSendable c
    → g < c.num_groups
    → p < c.packets_per_group
    → (packet_index c g p ≡ g * c.packets_per_group + p)
      × (g * c.packets_per_group + p < packets_of c)
unfolding packet_index
packet_in c g p v hg hp =
    let bound = index_bound c.num_groups c.packets_per_group g p hg hp in
    (mod-eq_of_lt (omega (arith, v.packets_in)), bound)

-- What packet `i`, of group `g`, uses.
abbrev pub pointers_of : TransmitBuffers → ℕ → ℕ → PacketPointers
pointers_of m i g = record {
  isoch_header = m.isoch_header_area + i * 4;
  cip_header = m.cip_header_area + i * 8;
  audio_data = audio_data_ptr m i;
  timestamp = m.timestamp_area + g * 4;
}

checked_passes :
    (m : TransmitBuffers) (a g p ptr : ℕ)
    → m.main_buffer ≡ some a
    → g < m.config.num_groups
    → p < m.config.packets_per_group
    → packet_checked m g p ptr ≡ value ptr
unfolding packet_checked
checked_passes m a g p ptr here hg hp = ground arith

timestamp_passes :
    (m : TransmitBuffers) (a g : ℕ)
    → m.main_buffer ≡ some a
    → g < m.config.num_groups
    → group_timestamp_ptr m g ≡ value (m.timestamp_area + g * 4)
unfolding group_timestamp_ptr
timestamp_passes m a g here hg = ground arith

ready_pointers :
    (m : TransmitBuffers) (a g p i : ℕ)
    → m.main_buffer ≡ some a
    → 0 < m.client_audio_area
    → g < m.config.num_groups
    → p < m.config.packets_per_group
    → packet_index m.config g p ≡ i
    → packet_pointers m i g p ≡ some (pointers_of m i g)
unfolding packet_pointers isoch_header_ptr cip_header_ptr audio_data_ptr
ready_pointers m a g p i here area hg hp index =
    let audio : (audio_data_ptr m i == 0) ≡ false = ground arith in
    rw
      (
        packet_pointers,
        isoch_header_ptr,
        cip_header_ptr,
        checked_passes m a g p (m.isoch_header_area + packet_index m.config g p * 4) here hg hp,
        checked_passes m a g p (m.cip_header_area + packet_index m.config g p * 8) here hg hp,
        timestamp_passes m a g here hg,
        audio,
        index,
      )
      refl

-- After a setup, a packet in range finds its pointers.
pub allotted_pointers :
    (page a : ℕ) (m : TransmitBuffers) (c : TransmitterConfig) (g p : ℕ)
    → IsSendable c
    → 0 < a
    → g < c.num_groups
    → p < c.packets_per_group
    → let m' = allotted page m c a in
      let i = g * c.packets_per_group + p in packet_pointers m' i g p ≡ some (pointers_of m' i g)
unfolding assign_areas lay_out
allotted_pointers page a m c g p v ha hg hp =
    ready_pointers (allotted page m c a) a g p _ refl ha hg hp (packet_in c g p v hg hp).0

pub pointers_inside :
    (k a : ℕ) (m : TransmitBuffers) (c : TransmitterConfig) (g p : ℕ)
    → IsSendable c
    → g < c.num_groups
    → p < c.packets_per_group
    → let m' = allotted (2 ^ k) m c a in
      let at = pointers_of m' (g * c.packets_per_group + p) g in
      (at.audio_data ≡ a + (g * c.packets_per_group + p) * payload_size)
      × (at.audio_data + payload_size ≤ m'.cip_header_area)
      × (m'.cip_header_area ≤ at.cip_header)
      × (at.cip_header + 8 ≤ m'.isoch_header_area)
      × (m'.isoch_header_area ≤ at.isoch_header)
      × (at.isoch_header + 4 ≤ m'.timestamp_area)
      × (m'.timestamp_area ≤ at.timestamp)
      × (at.timestamp + 4 ≤ a + m'.total_buffer_size)
unfolding assign_areas lay_out audio_data_ptr
pointers_inside k a m c g p v hg hp =
    let i : ℕ = g * c.packets_per_group + p in
    let n : ℕ = packets_of c in
    let inside = (packet_in c g p v hg hp).1 in
    let count : n % 2 ^ 32 ≡ n = mod-eq_of_lt v.packets_in in
    let whole : i * payload_size % c.client_buffer_size ≡ i * payload_size =
      mod-eq_of_lt (omega (arith, v.room, place_bound i n payload_size inside)) in
    (
      omega (arith, whole),
      omega (
        arith,
        whole,
        v.room,
        page_align-le k c.client_buffer_size,
        place_bound i n payload_size inside,
      ),
      omega arith,
      omega (arith, count, page_align-le k (n % 2 ^ 32 * 8), place_bound i n 8 inside),
      omega arith,
      omega (arith, count, page_align-le k (n % 2 ^ 32 * 4), place_bound i n 4 inside),
      omega arith,
      omega (arith, page_align-le k (c.num_groups * 4), place_bound g c.num_groups 4 hg),
    )
