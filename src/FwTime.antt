-- ===== src/FwTime.antt =====
-- include/Isoch/utils/TimingUtils.hpp, as it is built without FWA_USE_INT128: FireWire cycle times,
-- nanoseconds and host ticks. Masks and shifts of the fixed fields are remainders and quotients.
-- Sums and products that cannot reach 2^64 for a 32-bit input are written without the wrap.
pub mod Laws
mod Tests
use fire_wire_audio.Prelude.{ℕ, ◌+◌, ◌-◌, ◌*◌, ◌/◌, ◌%◌, ◌^◌, ◌==◌, if◌then◌else◌}
use fire_wire_audio.Prelude.Int.{ℤ, pos, negsuc, ◌-ℤ◌, ◌+ℤ◌, ltb_ℤ}

abbrev pub offsets_per_second : ℕ
offsets_per_second = 24576000

abbrev pub nanos_per_second : ℕ
nanos_per_second = 1000000000

abbrev pub wrap_nanos : ℕ
wrap_nanos = 128000000000

-- The fields of an encoded time.
abbrev pub seconds : ℕ → ℕ
seconds enc = enc / 2 ^ 25 % 2 ^ 7

abbrev pub cycles : ℕ → ℕ
cycles enc = enc / 2 ^ 12 % 2 ^ 13

abbrev pub offsets : ℕ → ℕ
offsets enc = enc % 2 ^ 12

-- The offsets that an encoded time counts.
abbrev pub total_offsets : ℕ → ℕ
total_offsets enc = seconds enc * offsets_per_second + cycles enc * 3072 + offsets enc

-- Whole seconds and the rest apart, as the source divides.
unfoldable pub offsets_to_nanos : ℕ → ℕ
offsets_to_nanos total =
    total / offsets_per_second * nanos_per_second
    + total % offsets_per_second * nanos_per_second / offsets_per_second

unfoldable pub nanos_to_offsets : ℕ → ℕ
nanos_to_offsets nanos =
    nanos / nanos_per_second * offsets_per_second
    + nanos % nanos_per_second * offsets_per_second / nanos_per_second

unfoldable pub encoded_to_nanos : ℕ → ℕ
encoded_to_nanos enc = offsets_to_nanos (total_offsets enc)

-- Seconds, cycles and offsets of a count of offsets, packed.
unfoldable pub pack : ℕ → ℕ
pack total =
    total / offsets_per_second % 2 ^ 7 * 2 ^ 25
    + total % offsets_per_second / 3072 * 2 ^ 12
    + total % offsets_per_second % 3072

unfoldable pub nanos_to_encoded : ℕ → ℕ
nanos_to_encoded nanos = pack (nanos_to_offsets (nanos % wrap_nanos))

-- The second correction is made on the result of the first.
unfoldable pub nearest : ℤ → ℤ
nearest d =
    let e = if ltb_ℤ (pos 64000000000) d then d -ℤ pos wrap_nanos else d in
    if ltb_ℤ e (pos 0 -ℤ pos 64000000000) then e +ℤ pos wrap_nanos else e

unfoldable pub delta : ℕ → ℕ → ℤ
delta a b = nearest (pos (encoded_to_nanos a) -ℤ pos (encoded_to_nanos b))

-- What the system reports of its clock.
pub record Timebase : Type 0 where
  pub numer : ℕ
  pub denom : ℕ

-- The product in two halves, each step modulo 2^64.
unfoldable pub scaled : ℕ → ℕ → ℕ → ℕ
scaled ticks by over =
    ((ticks / 2 ^ 32 * by % 2 ^ 64) * 2 ^ 32 % 2 ^ 64 + ticks % 2 ^ 32 * by % 2 ^ 64)
    % 2 ^ 64
    / over

unfoldable pub host_ticks_to_nanos : Timebase → ℕ → ℕ
unfolding scaled
host_ticks_to_nanos t ticks = if t.denom == 0 then 0 else scaled ticks t.numer t.denom

unfoldable pub nanos_to_host_ticks : Timebase → ℕ → ℕ
unfolding scaled
nanos_to_host_ticks t nanos = if t.numer == 0 then 0 else scaled nanos t.denom t.numer
