-- ===== src/FwTime/Tests.antt =====
-- The conversions on concrete times, and the theorems applied.
use fire_wire_audio.Prelude.{ℕ, ◌+◌, ◌*◌, ◌/◌, ◌%◌, ◌^◌, ◌≤◌, ◌≡◌, refl, arith, ◌==◌, if◌then◌else◌}
use fire_wire_audio.Prelude.Int.{pos, pos_part, neg_part, ◌-ℤ◌, ◌+ℤ◌}
use fire_wire_audio.FwTime.{
  total_offsets, encoded_to_nanos, nanos_to_encoded, offsets_to_nanos, nearest, delta,
  host_ticks_to_nanos, nanos_to_host_ticks, wrap_nanos, Timebase,
}
use fire_wire_audio.FwTime.Laws.{IsEncoded, encoded_round_trip, delta_lem, host_ticks_lem}

-- 3 seconds, 100 cycles and 7 offsets; and the last offset before the wrap.
abbrev early : ℕ
early = 3 * 2 ^ 25 + 100 * 2 ^ 12 + 7

abbrev late : ℕ
late = 127 * 2 ^ 25 + 7999 * 2 ^ 12 + 3071

early-IsEncoded : IsEncoded early
early-IsEncoded = omega arith

late-IsEncoded : IsEncoded late
late-IsEncoded = omega arith

abbrev clock : Timebase
clock = record { numer = 125; denom = 3 }

early_nanos : encoded_to_nanos early ≡ 3012500284
unfolding encoded_to_nanos offsets_to_nanos
early_nanos = refl

across_the_wrap : delta early late ≡ pos 3012500325
unfolding delta nearest encoded_to_nanos offsets_to_nanos ◌-ℤ◌ ◌+ℤ◌
across_the_wrap = refl

encoded_round_trip_example :
    (total_offsets (nanos_to_encoded (encoded_to_nanos early)) ≤ total_offsets early)
    × (total_offsets early ≤ total_offsets (nanos_to_encoded (encoded_to_nanos early)) + 1)
encoded_round_trip_example = encoded_round_trip early early-IsEncoded

delta_example :
    (pos_part (delta early late) ≤ 64000000000)
    × (neg_part (delta early late) ≤ 64000000000)
    × ((encoded_to_nanos late + pos_part (delta early late)) % wrap_nanos
        ≡ (encoded_to_nanos early + neg_part (delta early late)) % wrap_nanos)
    × (delta late early ≡ pos 0 -ℤ delta early late)
delta_example = delta_lem early late early-IsEncoded late-IsEncoded

host_ticks_example :
    (host_ticks_to_nanos clock 24000 ≡ (if 3 == 0 then 0 else 24000 * 125 % 2 ^ 64 / 3))
    × (nanos_to_host_ticks clock 24000 ≡ (if 125 == 0 then 0 else 24000 * 3 % 2 ^ 64 / 125))
host_ticks_example = host_ticks_lem clock 24000
