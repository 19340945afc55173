-- ===== src/Receive.antt =====
-- src/Isoch/core/IsochBufferManager.cpp: the memory of the receiver, one allocation cut into areas.
-- The system's page size, a power of two, and its allocator, which returns an address or fails, are
-- parameters. An address is a number, and a null area 0. The sums of sizes stay below 2^40 and are
-- written without a wrap; the products that the source makes in 32 bits wrap.
pub mod Slots
pub mod Dcl
pub mod Program
pub mod Cycle
pub mod Whole
mod DclTests
mod Tests
use fire_wire_audio.Prelude.{
  ℕ, ◌+◌, ◌-◌, ◌*◌, ◌%◌, ◌^◌, Bool, true, false, ◌||◌, Option, none, some, leb, ◌==◌, if◌then◌else◌,
}
use fire_wire_audio.Prelude.Layout.{page_align}
use fire_wire_audio.Prelude.Expected.{
  Expected, value, unexpected, bad_argument, no_memory, not_ready,
}

pub record Config : Type 0 where
  pub num_groups : ℕ
  pub packets_per_group : ℕ
  pub packet_data_size : ℕ

pub record BufferManager : Type 0 where
  pub config : Config
  pub total_packets : ℕ
  pub main_buffer : Option ℕ
  pub total_buffer_size : ℕ
  pub range_address : ℕ
  pub range_length : ℕ
  pub isoch_header_area : ℕ
  pub cip_header_area : ℕ
  pub packet_data_area : ℕ
  pub timestamp_area : ℕ
  pub isoch_header_total_size : ℕ
  pub cip_header_total_size : ℕ
  pub packet_data_total_size : ℕ
  pub timestamp_total_size : ℕ

abbrev pub isoch_header_size : ℕ
isoch_header_size = 4

abbrev pub cip_header_size : ℕ
cip_header_size = 8

-- The manager after `vm_deallocate`, and the address and size that were given back.
unfoldable pub cleanup : BufferManager → Option (ℕ × ℕ) × BufferManager
cleanup m = elim m.main_buffer [
  | none ↦ (none, m)
  | some a ↦ (
    some (a, m.total_buffer_size),
    record m {
      main_buffer = none;
      isoch_header_area = 0;
      cip_header_area = 0;
      packet_data_area = 0;
      timestamp_area = 0;
      range_address = 0;
      range_length = 0;
      total_buffer_size = 0;
    },
  )
]

unfoldable pub calculate_buffer_layout : ℕ → BufferManager → BufferManager
unfolding page_align
calculate_buffer_layout page m =
    let packets = m.config.num_groups * m.config.packets_per_group % 2 ^ 32 in
    let isoch = packets * isoch_header_size in
    let cip = packets * cip_header_size in
    let payload = packets * m.config.packet_data_size % 2 ^ 32 in
    let stamps = packets * 4 in
    record m {
      total_packets = packets;
      isoch_header_total_size = isoch;
      cip_header_total_size = cip;
      packet_data_total_size = payload;
      timestamp_total_size = stamps;
      total_buffer_size = page_align page (isoch + cip + payload + stamps);
    }

-- The areas of a new allocation at `a`.
unfoldable pub place_areas : BufferManager → ℕ → BufferManager
place_areas m a = record m {
  main_buffer = some a;
  isoch_header_area = a;
  cip_header_area = a + m.isoch_header_total_size;
  packet_data_area = a + m.isoch_header_total_size + m.cip_header_total_size;
  timestamp_area =
      a + m.isoch_header_total_size + m.cip_header_total_size + m.packet_data_total_size;
  range_address = a;
  range_length = m.total_buffer_size;
}

unfoldable pub has_zero : Config → Bool
has_zero c = c.num_groups == 0 || c.packets_per_group == 0 || c.packet_data_size == 0

pub record Setup : Type 0 where
  pub result : Expected (Unit {0})
  pub freed : Option (ℕ × ℕ)
  pub manager : BufferManager

unfoldable pub setup_buffers : ℕ → (ℕ → Option ℕ) → BufferManager → Config → Setup
unfolding cleanup calculate_buffer_layout place_areas has_zero
setup_buffers page vm_allocate m config =
    let (freed, clean) = cleanup m in
    let m' = record clean { config = config } in
    let laid = calculate_buffer_layout page m' in
    if has_zero config
    then record { result = unexpected bad_argument; freed = freed; manager = m' }
    else elim (vm_allocate laid.total_buffer_size) [
      | none ↦ record { result = unexpected no_memory; freed = freed; manager = laid }
      | some a ↦ record { result = value tt; freed = freed; manager = place_areas laid a }
    ]

-- The checks that the getters share, and the index of a packet in 32 bits.
unfoldable pub checked : BufferManager → ℕ → ℕ → ℕ → Expected ℕ
checked m g p ptr = elim m.main_buffer [
  | none ↦ unexpected not_ready
  | some a ↦
      if leb m.config.num_groups g || leb m.config.packets_per_group p
      then unexpected bad_argument
      else value ptr
]

unfoldable pub global_packet_index : BufferManager → ℕ → ℕ → ℕ
global_packet_index m g p = (g * m.config.packets_per_group + p) % 2 ^ 32

unfoldable pub get_packet_timestamp_ptr : BufferManager → ℕ → ℕ → Expected ℕ
unfolding checked global_packet_index
get_packet_timestamp_ptr m g p = checked m g p (m.timestamp_area + global_packet_index m g p * 4)

unfoldable pub get_packet_isoch_header_ptr : BufferManager → ℕ → ℕ → Expected ℕ
unfolding checked global_packet_index
get_packet_isoch_header_ptr m g p =
    checked m g p (m.isoch_header_area + global_packet_index m g p * isoch_header_size)

unfoldable pub get_packet_cip_header_ptr : BufferManager → ℕ → ℕ → Expected ℕ
unfolding checked global_packet_index
get_packet_cip_header_ptr m g p =
    checked m g p (m.cip_header_area + global_packet_index m g p * cip_header_size)

unfoldable pub get_packet_data_ptr : BufferManager → ℕ → ℕ → Expected ℕ
unfolding checked global_packet_index
get_packet_data_ptr m g p =
    checked m g p
      (m.packet_data_area + global_packet_index m g p * m.config.packet_data_size % 2 ^ 32)

unfoldable pub get_raw_packet_slot_ptr : BufferManager → ℕ → ℕ → Expected ℕ
unfolding checked global_packet_index
get_raw_packet_slot_ptr m g p =
    checked m g p (m.isoch_header_area + global_packet_index m g p * isoch_header_size)

unfoldable pub get_total_packet_size : BufferManager → ℕ
get_total_packet_size m = isoch_header_size + cip_header_size + m.config.packet_data_size
