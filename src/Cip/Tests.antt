-- ===== src/Cip/Tests.antt =====
-- The packet headers on concrete states: runs, and the theorems applied.
use fire_wire_audio.Prelude.{
  ◌+◌, ◌*◌, ◌%◌, ◌^◌, ◌≤◌, ◌<◌, ◌≡◌, refl, ap, not, false, true, false, [], ◌∷◌, some, arith,
  length,
}
use fire_wire_audio.Syt.{extra, next_phase, bump, update}
use fire_wire_audio.Syt.Schedule.{due_times, schedule, next_due, due_phase, due_times-length}
use fire_wire_audio.Syt.Period.{nominal}
use fire_wire_audio.Cip.Handler.{Handler, fresh, calculate_packet_params}
use fire_wire_audio.Cip.Transmitter.{CipState, prepare_cip_header, header_bytes, sfc_of_rate}
use fire_wire_audio.Cip.Processor.{Processor, process_packet, Outcome, is_continuous, parse_cip}
use fire_wire_audio.Cip.Loopback.{IsTimed, transmitter_not_recognised, transmitter-is_continuous}
use fire_wire_audio.Cip.Timing.{
  sent_times, sent_times-schedule, sent_times-due_times, handler_times, progression, next_due_48k,
  handler_times_48k, handler_times-due_times, handler_times-schedule, handler_after,
}
use fire_wire_audio.Cip.Drift.{IsLater, transmitter_drift, handler_drift}
use fire_wire_audio.Cip.Counter.{
  handler_kinds, sent_kinds, cip_after, with_data, following, handler_counts, transmitter_counts,
}

-- A transmitter that has just sent eight blocks with counter 16 and offset 2000.
abbrev sending : CipState
sending = record {
  dbc_count = 16;
  was_no_data = false;
  syt = record { offset = 2000; phase = 3 };
  first_dcl_callback_occurred = true;
  expected_time_stamp_cycle = 0;
}

sending-IsTimed : IsTimed sending
sending-IsTimed = omega arith

-- A processor that has received that packet.
abbrev receiving : Processor
receiving = record {
  expected_dbc = 16;
  dbc_initialized = true;
  current_abs_sample_index = 24;
  sample_index_initialized = true;
  last_packet_num_data_blocks = 8;
  last_packet_was_no_data = false;
}

abbrev running : Handler
running = record fresh {
  syt_offset = 2900;
  dbc_count = 24;
  was_no_data = false;
  first_callback_occurred = true;
}

abbrev running_44k : Handler
running_44k = record running { sample_rate = 44100 }

due_from_sending : sent_times 44100 64 6 1 sending ≡ 6458 ∷ 10917 ∷ 15375 ∷ 19833 ∷ []
unfolding sent_times prepare_cip_header update bump extra next_phase sfc_of_rate
due_from_sending = refl

transmitter_not_recognised_example :
    process_packet true receiving
      (some (0 ∷ []))
      (some (header_bytes (prepare_cip_header 44100 64 sending).0))
      (some (1 ∷ 2 ∷ []))
      7
    ≡ (Outcome.ok, [], receiving)
transmitter_not_recognised_example =
    transmitter_not_recognised 44100 64 sending true receiving (0 ∷ []) (1 ∷ 2 ∷ []) 7
      sending-IsTimed

sent_times-schedule_example :
    sent_times 44100 64 6 1 sending
    ≡ schedule 1470
        (length (sent_times 44100 64 6 1 sending))
        (next_due 1470 0 sending.syt)
        (due_phase 1470 sending.syt)
sent_times-schedule_example = sent_times-schedule 44100 64 6 0 sending sending-IsTimed refl

due_times-length_example : 6 ≤ 2 * length (due_times 1470 6 1 sending.syt) + 1
due_times-length_example = due_times-length 1470 6 1 sending.syt (omega arith)

handler_times_48k_example :
    handler_times 5 1 running
    ≡ progression 4096 (length (handler_times 5 1 running)) (next_due_48k 0 running)
handler_times_48k_example = handler_times_48k 5 0 running refl refl (omega arith)

-- Of the 2960 headers more than 1470 carry data.
many_sent : 1470 + 5 < length (sent_times 44100 64 2960 1 sending)
many_sent = omega (
  arith,
  due_times-length 1470 2960 1 sending.syt (omega arith),
  ap length (sent_times-due_times 44100 64 2960 1 sending sending-IsTimed refl),
)

transmitter_drift_example :
    IsLater (sent_times 44100 64 2960 1 sending) 5 (1 * 1470) (nominal (1 * 1470) + 1 * 21)
transmitter_drift_example =
    transmitter_drift 44100 64 2960 0 1 5 sending sending-IsTimed refl (omega arith)
      (omega (arith, many_sent))

handler_times-schedule_example :
    handler_times 5 1 running_44k
    ≡ schedule 147
        (length (handler_times 5 1 running_44k))
        (next_due 147 0 (record { offset = 2900; phase = 0 }))
        (due_phase 147 (record { offset = 2900; phase = 0 }))
handler_times-schedule_example = handler_times-schedule 5 0 running_44k refl refl (omega arith)

many_handled : 147 + 5 < length (handler_times 310 1 running_44k)
many_handled = omega (
  arith,
  due_times-length 147 310 1 (record { offset = 2900; phase = 0 }) (omega arith),
  ap length (handler_times-due_times 310 1 running_44k refl refl (omega arith)),
)

handler_drift_example :
    IsLater (handler_times 310 1 running_44k) 5 (1 * 147) (nominal (1 * 147) + 1 * 3)
handler_drift_example =
    handler_drift 310 0 1 5 running_44k refl refl (omega arith) (omega arith)
      (omega (arith, many_handled))

handler_counts_example :
    (calculate_packet_params (handler_after 9 running)).0.dbc
    ≡ (24 + 8 * with_data (handler_kinds 9 running)) % 2 ^ 8
handler_counts_example = handler_counts 9 running (omega arith)

transmitter_counts_example :
    (prepare_cip_header 44100 64 (cip_after 44100 5 sending)).0.dbc
    ≡ (16 + 8 * following (not false) (sent_kinds 44100 (5 + 1) sending)) % 2 ^ 8
transmitter_counts_example = transmitter_counts 44100 5 sending sending-IsTimed

transmitter-is_continuous_example :
    is_continuous receiving (parse_cip (header_bytes (prepare_cip_header 44100 64 sending).0))
    ≡ not (prepare_cip_header 44100 64 sending).1.was_no_data
transmitter-is_continuous_example =
    transmitter-is_continuous 44100 sending receiving sending-IsTimed refl refl refl refl
