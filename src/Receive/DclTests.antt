-- ===== src/Receive/DclTests.antt =====
-- The receiver's DCL program on two packets, and the theorem applied.
use fire_wire_audio.Prelude.{
  ℕ, zero, suc, ◌+◌, ◌*◌, ◌%◌, ◌<◌, ◌≡◌, refl, true, false, Option, none, some, [], ◌++◌, arith,
}
use fire_wire_audio.Prelude.Expected.{value}
use fire_wire_audio.Prelude.Layout.{page_align}
use fire_wire_audio.Transmit.Dcl.{completed, self_deadlock}
use fire_wire_audio.Receive.{
  Config, BufferManager, setup_buffers, get_packet_timestamp_ptr, get_packet_isoch_header_ptr,
  get_packet_cip_header_ptr, get_packet_data_ptr, calculate_buffer_layout, cleanup, has_zero,
  place_areas, checked, global_packet_index,
}
use fire_wire_audio.Receive.Tests.{empty, memory}
use fire_wire_audio.Receive.Dcl.{
  DclConfig, ReceivePointers, receive_pointers, ReceiveDcl, LaidProgram, create_receive_program,
  fixup_receive_jump,
}
use fire_wire_audio.Receive.Program.{Equips}
use fire_wire_audio.Receive.Cycle.{next_dcl, Receives}
use fire_wire_audio.Receive.Whole.{packets_cycle}

abbrev two_packets : Config
two_packets = record { num_groups = 1; packets_per_group = 2; packet_data_size = 64 }

abbrev pair : DclConfig
pair = record { num_groups = 1; packets_per_group = 2; callback_group_interval = 1 }

abbrev buffers : BufferManager
buffers = (setup_buffers 4096 memory empty two_packets).manager

abbrev receiver : ReceiveDcl
receiver = record {
  config = pair;
  has_pool = true;
  group_infos = [];
  first_dcl = none;
  last_dcl = none;
  current_segment = 0;
  program_created = false;
  has_complete_callback = true;
  has_overrun_callback = false;
}

abbrev pool : ℕ → Option ℕ
pool i = some (100 + i)

abbrev where_from : ℕ → ReceivePointers
where_from zero = record {
  isoch_header = 1000000;
  cip_header = 1000008;
  payload = 1000024;
  timestamp = 1000152;
}
where_from (suc i) = record {
  isoch_header = 1000004;
  cip_header = 1000016;
  payload = 1000088;
  timestamp = 1000156;
}

pair_found :
    (g p : ℕ) → g < 1 → p < 2 → receive_pointers buffers g p ≡ some (where_from (g * 2 + p))
unfolding get_packet_data_ptr get_packet_timestamp_ptr get_packet_isoch_header_ptr
    get_packet_cip_header_ptr setup_buffers calculate_buffer_layout cleanup page_align has_zero
    place_areas checked global_packet_index receive_pointers
pair_found zero zero hg hp = refl
pair_found zero (suc zero) hg hp = refl
pair_found zero (suc (suc p)) hg hp = absurd (omega arith)
pair_found (suc g) p hg hp = absurd (omega arith)

pair-Equips : Equips pair buffers pool where_from (λ i. 100 + i)
pair-Equips = record {
  some_groups = omega arith;
  some_packets = omega arith;
  packets_in = omega arith;
  found = pair_found;
  gives = λ i h. refl;
  new = λ i j hi hj same. omega arith;
}

packets_cycle_example :
    (r : LaidProgram) × (create_receive_program receiver buffers pool (some 7) ≡ completed r)
    × (r.result ≡ value 7)
    × (let (reply, more, d') = fixup_receive_jump r.manager true in
        (reply ≡ value tt)
        × (next_dcl (more ++ r.calls) (100 + 1) ≡ some (100 + ((1 + 1) % (1 * 2))))
        × Receives pair buffers (where_from 1) (more ++ r.calls) 1 (100 + 1))
packets_cycle_example =
    packets_cycle receiver buffers pool where_from (λ i. 100 + i) 7 1 pair-Equips refl refl
      (omega arith)

-- A pool that refuses the first DCL leaves the thread waiting for the lock it holds.
refused_pool_hangs : create_receive_program receiver buffers (λ i. none) (some 7) ≡ self_deadlock
unfolding get_packet_data_ptr get_packet_timestamp_ptr get_packet_isoch_header_ptr
    get_packet_cip_header_ptr setup_buffers calculate_buffer_layout cleanup page_align has_zero
    place_areas checked global_packet_index create_receive_program
refused_pool_hangs = refl
