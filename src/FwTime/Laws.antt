-- ===== src/FwTime/Laws.antt =====
-- What the conversions keep, and how much they lose.
use fire_wire_audio.Prelude.{
  ℕ, ◌+◌, ◌*◌, ◌/◌, ◌%◌, ◌^◌, ◌≤◌, ◌<◌, ◌≡◌, refl, ap, arith, ◌==◌, if◌then◌else◌,
}
use native.Mathlib.Nat.{mod-eq_of_lt, div-add-mod', add-mul}
use fire_wire_audio.Prelude.Int.{pos, pos_part, neg_part, ◌-ℤ◌, ◌+ℤ◌}
use fire_wire_audio.FwTime.{
  cycles, offsets, total_offsets, encoded_to_nanos, offsets_to_nanos, nanos_to_offsets, pack,
  nanos_to_encoded, nearest, delta, Timebase, scaled, host_ticks_to_nanos, nanos_to_host_ticks,
  wrap_nanos,
}

-- An encoded time whose cycle and offset are in range, as the bus makes them.
pub record IsEncoded (enc : ℕ) : Type 0 where
  pub word : enc < 2 ^ 32
  pub cycle_in : cycles enc < 8000
  pub offset_in : offsets enc < 3072

-- Packing a count below the wrap and counting again gives the count.
pub total_offsets-pack : (n : ℕ) → n < 128 * 24576000 → total_offsets (pack n) ≡ n
unfolding pack
total_offsets-pack n h = omega arith

nanos_bound : (n : ℕ) → n < 128 * 24576000 → offsets_to_nanos n < wrap_nanos
unfolding offsets_to_nanos
nanos_bound n h = omega arith

offsets_bound : (w : ℕ) → w < wrap_nanos → nanos_to_offsets w < 128 * 24576000
unfolding nanos_to_offsets
offsets_bound w h = omega arith

-- One part of a second there and back.
part_offsets :
    (r : ℕ)
    → r < 24576000
    → let q = r * 1000000000 / 24576000 in
      (q < 1000000000) × (q * 24576000 / 1000000000 ≤ r) × (r ≤ q * 24576000 / 1000000000 + 1)
part_offsets r h = omega arith

offsets_nanos :
    (n : ℕ)
    → (nanos_to_offsets (offsets_to_nanos n) ≤ n) × (n ≤ nanos_to_offsets (offsets_to_nanos n) + 1)
unfolding nanos_to_offsets offsets_to_nanos
offsets_nanos n = omega arith

total_bound : (enc : ℕ) → IsEncoded enc → total_offsets enc < 128 * 24576000
total_bound enc v = omega arith

-- An encoded time in range, to nanoseconds and back, comes back as it was, or one offset earlier.
pub encoded_round_trip :
    (enc : ℕ)
    → IsEncoded enc
    → (total_offsets (nanos_to_encoded (encoded_to_nanos enc)) ≤ total_offsets enc)
      × (total_offsets enc ≤ total_offsets (nanos_to_encoded (encoded_to_nanos enc)) + 1)
unfolding nanos_to_encoded encoded_to_nanos
encoded_round_trip enc v =
    rw
      (
        mod-eq_of_lt (nanos_bound (total_offsets enc) (total_bound enc v)),
        total_offsets-pack (nanos_to_offsets (offsets_to_nanos (total_offsets enc)))
            (offsets_bound _ (nanos_bound (total_offsets enc) (total_bound enc v))),
      )
      (offsets_nanos (total_offsets enc))

nanos_below : (enc : ℕ) → IsEncoded enc → encoded_to_nanos enc < wrap_nanos
unfolding encoded_to_nanos
nanos_below enc v = nanos_bound (total_offsets enc) (total_bound enc v)

nearest_lem :
    (na nb : ℕ)
    → na < wrap_nanos
    → nb < wrap_nanos
    → let d = nearest (pos na -ℤ pos nb) in
      (pos_part d ≤ 64000000000)
      × (neg_part d ≤ 64000000000)
      × ((nb + pos_part d) % wrap_nanos ≡ (na + neg_part d) % wrap_nanos)
      × (nearest (pos nb -ℤ pos na) ≡ pos 0 -ℤ d)
unfolding nearest ◌-ℤ◌ ◌+ℤ◌
nearest_lem na nb ha hb = ground arith

-- The difference of two encoded times in range is at most 64 seconds either way, leads from the
-- second to the first around the wrap of 128 seconds, and is the opposite of the difference in
-- the other order.
pub delta_lem :
    (a b : ℕ)
    → IsEncoded a
    → IsEncoded b
    → let d = delta a b in
      (pos_part d ≤ 64000000000)
      × (neg_part d ≤ 64000000000)
      × ((encoded_to_nanos b + pos_part d) % wrap_nanos
          ≡ (encoded_to_nanos a + neg_part d) % wrap_nanos)
      × (delta b a ≡ pos 0 -ℤ d)
unfolding delta
delta_lem a b va vb =
    nearest_lem (encoded_to_nanos a) (encoded_to_nanos b) (nanos_below a va) (nanos_below b vb)

halves_mod :
    (p q : ℕ) → ((p % 2 ^ 64) * 2 ^ 32 % 2 ^ 64 + q % 2 ^ 64) % 2 ^ 64 ≡ (p * 2 ^ 32 + q) % 2 ^ 64
halves_mod p q = omega arith

halves_product : (ticks by : ℕ) → ticks / 2 ^ 32 * by * 2 ^ 32 + ticks % 2 ^ 32 * by ≡ ticks * by
halves_product ticks by = omega (
  arith,
  add-mul (ticks / 2 ^ 32 * 2 ^ 32) (ticks % 2 ^ 32) by,
  ap (λ n. n * by) (div-add-mod' ticks (2 ^ 32)),
)

-- The split multiplication is the product modulo 2^64, divided: it loses exactly what one 64-bit
-- multiplication would lose.
pub scaled_lem : (ticks by over : ℕ) → scaled ticks by over ≡ ticks * by % 2 ^ 64 / over
unfolding scaled
scaled_lem ticks by over =
    rw (halves_mod (ticks / 2 ^ 32 * by) (ticks % 2 ^ 32 * by), halves_product ticks by)

-- Both host conversions multiply modulo 2^64 and divide, as one 64-bit multiplication would, and
-- give zero without a time base.
pub host_ticks_lem :
    (t : Timebase) (x : ℕ)
    → (host_ticks_to_nanos t x ≡ (if t.denom == 0 then 0 else x * t.numer % 2 ^ 64 / t.denom))
      × (nanos_to_host_ticks t x ≡ (if t.numer == 0 then 0 else x * t.denom % 2 ^ 64 / t.numer))
unfolding host_ticks_to_nanos nanos_to_host_ticks
host_ticks_lem t x = rw (scaled_lem x t.numer t.denom, scaled_lem x t.denom t.numer) (refl, refl)
