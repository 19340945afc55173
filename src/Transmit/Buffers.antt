-- ===== src/Transmit/Buffers.antt =====
-- src/Isoch/core/IsochTransmitBufferManager.cpp: the memory of the transmitter, one allocation in
-- which each area starts on a page. The page size and the allocator are parameters, an address is a
-- number and a null area 0. The sums of sizes are 64 bits wide and written without a wrap; the
-- products that the source makes in 32 bits wrap.
use fire_wire_audio.Prelude.{
  ℕ, ◌+◌, ◌*◌, ◌%◌, ◌^◌, Bool, ◌||◌, Option, none, some, leb, ◌==◌, if◌then◌else◌,
}
use fire_wire_audio.Prelude.Layout.{page_align}
use fire_wire_audio.Prelude.Expected.{Expected, value, unexpected, bad_argument, no_memory}
use fire_wire_audio.Transmit.{
  TransmitterConfig, transmit_cip_header_size, transmit_isoch_header_size, timestamp_size,
}

pub record TransmitBuffers : Type 0 where
  pub config : TransmitterConfig
  pub total_packets : ℕ
  pub audio_payload_size_per_packet : ℕ
  pub main_buffer : Option ℕ
  pub total_buffer_size : ℕ
  pub range_address : ℕ
  pub range_length : ℕ
  pub client_audio_area : ℕ
  pub isoch_header_area : ℕ
  pub cip_header_area : ℕ
  pub timestamp_area : ℕ
  pub client_buffer_size_aligned : ℕ
  pub isoch_header_total_size_aligned : ℕ
  pub cip_header_total_size_aligned : ℕ
  pub timestamp_total_size_aligned : ℕ

-- The manager after `vm_deallocate`, and the address and size that were given back.
unfoldable pub release : TransmitBuffers → Option (ℕ × ℕ) × TransmitBuffers
release m = elim m.main_buffer [
  | none ↦ (none, m)
  | some a ↦ (
    some (a, m.total_buffer_size),
    record m {
      main_buffer = none;
      client_audio_area = 0;
      isoch_header_area = 0;
      cip_header_area = 0;
      timestamp_area = 0;
      total_buffer_size = 0;
      range_address = 0;
      range_length = 0;
    },
  )
]

-- Eight frames of eight bytes.
abbrev pub payload_size : ℕ
payload_size = 64

unfoldable pub lay_out : ℕ → TransmitBuffers → TransmitBuffers
unfolding page_align
lay_out page m =
    let packets = m.config.num_groups * m.config.packets_per_group % 2 ^ 32 in
    let client = page_align page m.config.client_buffer_size in
    let cip = page_align page (packets * transmit_cip_header_size) in
    let isoch = page_align page (packets * transmit_isoch_header_size) in
    let stamps = page_align page (m.config.num_groups * timestamp_size) in
    record m {
      total_packets = packets;
      audio_payload_size_per_packet = payload_size;
      client_buffer_size_aligned = client;
      cip_header_total_size_aligned = cip;
      isoch_header_total_size_aligned = isoch;
      timestamp_total_size_aligned = stamps;
      total_buffer_size = client + cip + isoch + stamps;
    }

-- The areas of a new allocation at `a`.
unfoldable pub assign_areas : TransmitBuffers → ℕ → TransmitBuffers
assign_areas m a =
    let cip = a + m.client_buffer_size_aligned in
    let isoch = cip + m.cip_header_total_size_aligned in
    record m {
      main_buffer = some a;
      client_audio_area = a;
      cip_header_area = cip;
      isoch_header_area = isoch;
      timestamp_area = isoch + m.isoch_header_total_size_aligned;
      range_address = a;
      range_length = m.total_buffer_size;
    }

unfoldable pub has_zeros : TransmitterConfig → Bool
has_zeros c = c.num_groups == 0 || c.packets_per_group == 0 || c.client_buffer_size == 0

pub record TransmitSetup : Type 0 where
  pub result : Expected (Unit {0})
  pub freed : Option (ℕ × ℕ)
  pub buffers : TransmitBuffers

unfoldable pub setup_transmit_buffers :
    ℕ → (ℕ → Option ℕ) → TransmitBuffers → TransmitterConfig → TransmitSetup
unfolding release lay_out assign_areas has_zeros
setup_transmit_buffers page vm_allocate m config =
    let (freed, clean) = release m in
    let m' = record clean { config = config } in
    let laid = lay_out page m' in
    if has_zeros config
    then record { result = unexpected bad_argument; freed = freed; buffers = m' }
    else elim (vm_allocate laid.total_buffer_size) [
      | none ↦ record { result = unexpected no_memory; freed = freed; buffers = laid }
      | some a ↦ record { result = value tt; freed = freed; buffers = assign_areas laid a }
    ]

-- The checks that the two getters of a packet share, and the index of the packet in 32 bits.
unfoldable pub packet_checked : TransmitBuffers → ℕ → ℕ → ℕ → Expected ℕ
packet_checked m g p ptr = elim m.main_buffer [
  | none ↦ unexpected bad_argument
  | some a ↦
      if leb m.config.num_groups g || leb m.config.packets_per_group p
      then unexpected bad_argument
      else value ptr
]

unfoldable pub packet_index : TransmitterConfig → ℕ → ℕ → ℕ
packet_index c g p = (g * c.packets_per_group + p) % 2 ^ 32

unfoldable pub isoch_header_ptr : TransmitBuffers → ℕ → ℕ → Expected ℕ
unfolding packet_checked packet_index
isoch_header_ptr m g p =
    packet_checked m g p
      (m.isoch_header_area + packet_index m.config g p * transmit_isoch_header_size)

unfoldable pub cip_header_ptr : TransmitBuffers → ℕ → ℕ → Expected ℕ
unfolding packet_checked packet_index
cip_header_ptr m g p =
    packet_checked m g p (m.cip_header_area + packet_index m.config g p * transmit_cip_header_size)

unfoldable pub group_timestamp_ptr : TransmitBuffers → ℕ → Expected ℕ
group_timestamp_ptr m g = elim m.main_buffer [
  | none ↦ unexpected bad_argument
  | some a ↦
      if leb m.config.num_groups g
      then unexpected bad_argument
      else value (m.timestamp_area + g * timestamp_size)
]
