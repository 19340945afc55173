-- ===== src/Receive/Tests.antt =====
-- The receiver's memory on a concrete configuration, and the theorems applied.
use fire_wire_audio.Prelude.{
  ℕ, ◌+◌, ◌*◌, ◌^◌, ◌≤◌, ◌≡◌, refl, inl, Option, none, some, arith, if◌then◌else◌,
}
use fire_wire_audio.Prelude.Expected.{value, unexpected, bad_argument, no_memory, not_ready}
use fire_wire_audio.Prelude.Layout.{page_align, Within}
use fire_wire_audio.Receive.{
  Config, BufferManager, setup_buffers, get_packet_timestamp_ptr, get_packet_isoch_header_ptr,
  get_packet_cip_header_ptr, get_packet_data_ptr, calculate_buffer_layout, cleanup, has_zero,
  place_areas, checked, global_packet_index,
}
use fire_wire_audio.Receive.Slots.{IsFitting, placed, slots_inside, slots_apart, setup_fails}

abbrev usual : Config
usual = record { num_groups = 8; packets_per_group = 16; packet_data_size = 64 }

abbrev pub empty : BufferManager
empty = record {
  config = usual;
  total_packets = 0;
  main_buffer = none;
  total_buffer_size = 0;
  range_address = 0;
  range_length = 0;
  isoch_header_area = 0;
  cip_header_area = 0;
  packet_data_area = 0;
  timestamp_area = 0;
  isoch_header_total_size = 0;
  cip_header_total_size = 0;
  packet_data_total_size = 0;
  timestamp_total_size = 0;
}

-- A system whose memory starts at a million.
abbrev pub memory : ℕ → Option ℕ
memory size = some 1000000

usual-IsFitting : IsFitting usual
usual-IsFitting = omega arith

slot_of_packet :
    get_packet_data_ptr (setup_buffers 4096 memory empty usual).manager 1 2
    ≡ value (1000000 + 1536 + 18 * 64)
unfolding get_packet_data_ptr setup_buffers calculate_buffer_layout cleanup page_align has_zero
    place_areas checked global_packet_index
slot_of_packet = refl

slots_inside_example :
    Within
      (get_packet_isoch_header_ptr (setup_buffers (2 ^ 12) memory empty usual).manager 7 15)
      1000000
      4
      (setup_buffers (2 ^ 12) memory empty usual).manager.cip_header_area
    × Within
        (get_packet_cip_header_ptr (setup_buffers (2 ^ 12) memory empty usual).manager 7 15)
        (setup_buffers (2 ^ 12) memory empty usual).manager.cip_header_area
        8
        (setup_buffers (2 ^ 12) memory empty usual).manager.packet_data_area
    × Within
        (get_packet_data_ptr (setup_buffers (2 ^ 12) memory empty usual).manager 7 15)
        (setup_buffers (2 ^ 12) memory empty usual).manager.packet_data_area
        64
        (setup_buffers (2 ^ 12) memory empty usual).manager.timestamp_area
    × Within
        (get_packet_timestamp_ptr (setup_buffers (2 ^ 12) memory empty usual).manager 7 15)
        (setup_buffers (2 ^ 12) memory empty usual).manager.timestamp_area
        4
        (1000000 + (setup_buffers (2 ^ 12) memory empty usual).manager.total_buffer_size)
slots_inside_example =
    slots_inside 12 1000000 memory empty usual 7 15 usual-IsFitting refl (omega arith) (omega arith)

slots_apart_example :
    (s : ℕ) × (s' : ℕ) × (get_packet_data_ptr (placed (2 ^ 12) empty usual 1000000) 1 2 ≡ value s)
    × (get_packet_data_ptr (placed (2 ^ 12) empty usual 1000000) 2 0 ≡ value s')
    × (s + 64 ≤ s')
slots_apart_example =
    slots_apart 12 1000000 empty usual 1 2 2 0 usual-IsFitting (omega arith) (omega arith)
      (omega arith) (omega arith) (omega arith)

setup_fails_example :
    ((setup_buffers 4096 memory empty (record usual { num_groups = 0 })).result
      ≡ unexpected (if has_zero (record usual { num_groups = 0 }) then bad_argument else no_memory))
    × ((setup_buffers 4096 memory empty (record usual { num_groups = 0 })).freed ≡ none)
    × (get_packet_data_ptr
          (setup_buffers 4096 memory empty (record usual { num_groups = 0 })).manager
          0
          0
        ≡ unexpected not_ready)
    × (get_packet_timestamp_ptr
          (setup_buffers 4096 memory empty (record usual { num_groups = 0 })).manager
          0
          0
        ≡ unexpected not_ready)
unfolding has_zero
setup_fails_example = setup_fails 4096 memory empty (record usual { num_groups = 0 }) 0 0 (inl refl)
