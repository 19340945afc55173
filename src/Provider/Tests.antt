-- ===== src/Provider/Tests.antt =====
-- The packet provider on a concrete session, and the theorems applied.
use fire_wire_audio.Prelude.{
  ℕ, ◌%◌, ◌^◌, ◌≡◌, refl, false, List, [], ◌∷◌, ◌++◌, some, arith, replicate,
}
use fire_wire_audio.Ring.{capacity, read_space, write_space, write, read, peek}
use fire_wire_audio.Ring.Valid.{IsValid}
use fire_wire_audio.Ring.Refine.{contents}
use fire_wire_audio.Cip.Processor.{sample_at, sign_extend_24}
use fire_wire_audio.Provider.{
  Provider, push_audio_data, push_bytes, written, is_ready_for_streaming, fill_packet_data,
  fill_bytes, fill_from, silence, pulled, refused, handle_underrun, format_am824,
}
use fire_wire_audio.Provider.Calls.{IsBalanced, drawn, fill_target}
use fire_wire_audio.Provider.Stream.{
  Call, pushes, fills, IsShort, session, taken_in, sent, session_stream,
}
use fire_wire_audio.Provider.Samples.{host_sample, format-sample_at}

-- Four bytes, 1 2 3 4, in a ring of sixteen.
abbrev holding : Provider
holding = record {
  audio_buffer = record {
    size = 16;
    buf = replicate 13 0 ++ (1 ∷ 2 ∷ 3 ∷ []);
    write_head = 1;
    read_head = 13;
  };
  is_initialized = false;
  underrun_count = 0;
  total_pushed_bytes = 104;
  total_pulled_bytes = 100;
  overflow_write_attempts = 0;
}

ring-IsValid : IsValid holding.audio_buffer
ring-IsValid = record {
  exponent = 4;
  power = refl;
  small = omega arith;
  storage = refl;
  write_in = omega arith;
  read_in = omega arith;
}

holding-IsBalanced : IsBalanced holding
holding-IsBalanced = record { ring = ring-IsValid; whole = refl; balance = refl }

abbrev eight : List ℕ
eight = 5 ∷ 6 ∷ 7 ∷ 8 ∷ 9 ∷ 10 ∷ 11 ∷ 12 ∷ []

abbrev script : List Call
script = pushes eight ∷ fills (replicate 8 0) ∷ fills (replicate 8 0) ∷ pushes (1 ∷ []) ∷ []

script-IsShort : IsShort script
unfolding IsShort
script-IsShort = (omega arith, (omega arith, (omega arith, (omega arith, tt))))

run-script : sent holding script ≡ 0x40 ∷ 3 ∷ 2 ∷ 1 ∷ 0x40 ∷ 7 ∷ 6 ∷ 5 ∷ []
unfolding sent push_audio_data push_bytes written is_ready_for_streaming fill_packet_data fill_bytes
    fill_from silence pulled refused handle_underrun format_am824 read_space write_space write read
    peek capacity
run-script = refl

session_stream_example :
    IsBalanced (session holding script)
    × (sent holding script ++ format_am824 (contents (session holding script).audio_buffer)
        ≡ format_am824 (contents holding.audio_buffer ++ taken_in holding script))
session_stream_example = session_stream script holding holding-IsBalanced script-IsShort

fill_target_example :
    (fill_packet_data holding (some (9 ∷ 9 ∷ 9 ∷ 9 ∷ []))).target ≡ format_am824 (drawn holding 4)
fill_target_example = fill_target holding (9 ∷ 9 ∷ 9 ∷ 9 ∷ []) ring-IsValid (omega arith)

sample_at_example : sample_at (format_am824 eight) 4 ≡ sign_extend_24 (host_sample eight 1 % 2 ^ 24)
sample_at_example = format-sample_at eight 1 (omega arith)
