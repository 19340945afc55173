-- ===== src/Transmit/Tests.antt =====
-- The transmitter's buffers and program on a concrete configuration, and the theorems applied.
use fire_wire_audio.Prelude.{
  ℕ, ◌+◌, ◌*◌, ◌≡◌, refl, true, false, Option, none, some, [], ◌∷◌, ◌++◌, arith,
}
use fire_wire_audio.Prelude.Expected.{value}
use fire_wire_audio.Transmit.{TransmitterConfig}
use fire_wire_audio.Transmit.Buffers.{TransmitBuffers, setup_transmit_buffers}
use fire_wire_audio.Transmit.Slots.{IsSendable, allotted}
use fire_wire_audio.Transmit.Dcl.{
  DclManager, Created, completed, self_deadlock, create_dcl_program, notify_modified,
}
use fire_wire_audio.Transmit.Updates.{update_dcl_packet, notify_segment_update}
use fire_wire_audio.Transmit.Cycle.{branch_of, ranges_of}
use fire_wire_audio.Transmit.Whole.{IsPool, GoesRound, program_cycles, allotted-IsReady}
use fire_wire_audio.Transmit.Refusal.{refusal_deadlocks}
use fire_wire_audio.Transmit.Segments.{dcls_from, update_and_notify}

abbrev two_by_two : TransmitterConfig
two_by_two = record {
  num_groups = 2;
  packets_per_group = 2;
  callback_group_interval = 1;
  client_buffer_size = 256;
  initial_channel = 5;
}

abbrev no_buffers : TransmitBuffers
no_buffers = record {
  config = two_by_two;
  total_packets = 0;
  audio_payload_size_per_packet = 0;
  main_buffer = none;
  total_buffer_size = 0;
  range_address = 0;
  range_length = 0;
  client_audio_area = 0;
  isoch_header_area = 0;
  cip_header_area = 0;
  timestamp_area = 0;
  client_buffer_size_aligned = 0;
  isoch_header_total_size_aligned = 0;
  cip_header_total_size_aligned = 0;
  timestamp_total_size_aligned = 0;
}

abbrev no_program : DclManager
no_program = record {
  config = two_by_two;
  has_pool = false;
  dcl_program_refs = [];
  callback_infos = [];
  first_dcl = none;
  last_dcl = none;
  program_created = false;
  has_complete_callback = false;
}

abbrev memory_at : ℕ → Option ℕ
memory_at size = some 4096

abbrev hundreds : ℕ → ℕ
hundreds i = 100 + i

abbrev pool : ℕ → Option ℕ
pool i = some (hundreds i)

two_by_two-IsSendable : IsSendable two_by_two
two_by_two-IsSendable = record {
  some_groups = omega arith;
  some_packets = omega arith;
  some_interval = omega arith;
  packets_in = omega arith;
  room = omega arith;
}

pool-IsPool : IsPool two_by_two pool hundreds
pool-IsPool = record { gives = λ i h. refl; new = λ i j hi hj e. omega arith }

program_cycles_example :
    let m' = (setup_transmit_buffers 4096 memory_at no_buffers two_by_two).buffers in
    (r : Created) × (create_dcl_program no_program two_by_two true m' pool (some 7) ≡ completed r)
    × (r.result ≡ value 7)
    × GoesRound two_by_two m' pool hundreds r 1 1
program_cycles_example =
    program_cycles 4096 4096 memory_at pool no_buffers two_by_two no_program hundreds 7 1 1
      two_by_two-IsSendable (omega arith) refl pool-IsPool refl (omega arith) (omega arith)

refusal_deadlocks_example :
    create_dcl_program no_program two_by_two true
      (allotted 4096 no_buffers two_by_two 4096)
      (λ i. none)
      (some 7)
    ≡ self_deadlock
refusal_deadlocks_example =
    refusal_deadlocks 4096 4096 (λ i. none) (some 7) no_buffers two_by_two no_program 1 0
      two_by_two-IsSendable (omega arith) refl (omega arith) (omega arith) refl

update_and_notify_example :
    (r : Created) × (create_dcl_program no_program two_by_two true
        (allotted 4096 no_buffers two_by_two 4096)
        pool
        (some 7)
      ≡ completed r)
    × (let (reply, more) = update_dcl_packet r.manager 1 0 ((9, 8) ∷ []) 0 in
        (reply ≡ value tt)
        × (ranges_of (more ++ r.calls) (hundreds (1 * 2 + 0)) ≡ (9, 8) ∷ [])
        × (ranges_of (more ++ r.calls) (hundreds 3) ≡ ranges_of r.calls (hundreds 3))
        × (branch_of (more ++ r.calls) ≡ branch_of r.calls))
    × (notify_segment_update r.manager true 1 0
        ≡ (value tt, notify_modified (dcls_from hundreds (1 * 2) 2) ∷ []))
update_and_notify_example =
    update_and_notify two_by_two (allotted 4096 no_buffers two_by_two 4096) pool hundreds no_program
      7 1 0 3 ((9, 8) ∷ [])
      (allotted-IsReady 4096 4096 no_buffers two_by_two pool hundreds two_by_two-IsSendable
        (omega arith) pool-IsPool)
      refl (omega arith) (omega arith) (omega arith) (λ e. omega arith)
