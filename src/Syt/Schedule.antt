-- ===== src/Syt/Schedule.antt =====
-- When data packets are presented. A data packet sent in cycle i with offset o is due at tick
-- 3072 i + o of the bus clock.
use fire_wire_audio.Prelude.{
  ℕ, zero, suc, ◌+◌, ◌*◌, ◌≤◌, ◌<◌, ◌≡◌, refl, List, [], ◌∷◌, arith, ltb, if◌then◌else◌, length,
}
use fire_wire_audio.Syt.{Syt, ticks_per_cycle, base_ticks_44k, extra, next_phase, bump, update}

-- The ticks at which the data packets of `n` calls are due, the first call in cycle `i`.
unfoldable pub due_times : ℕ → ℕ → ℕ → Syt → List ℕ
due_times reset zero i s = []
due_times reset (suc n) i s =
    let t = update reset s in
    let rest = due_times reset n (i + 1) t in
    if ltb t.offset ticks_per_cycle then (ticks_per_cycle * i + t.offset) ∷ rest else rest

-- The specification: one packet after another, 4458 ticks and the extra tick of the phase apart.
unfoldable pub schedule : ℕ → ℕ → ℕ → ℕ → List ℕ
schedule reset zero t p = []
schedule reset (suc c) t p =
    t ∷ schedule reset c (t + ticks_per_cycle + base_ticks_44k + extra reset p) (next_phase reset p)

-- When the packet after the one of cycle `i` is due, and in which phase that leaves the clock.
unfoldable pub next_due : ℕ → ℕ → Syt → ℕ
next_due reset i s =
    if ltb s.offset ticks_per_cycle
    then ticks_per_cycle * i + s.offset + ticks_per_cycle + base_ticks_44k + extra reset s.phase
    else ticks_per_cycle * i + s.offset

unfoldable pub due_phase : ℕ → Syt → ℕ
due_phase reset s = if ltb s.offset ticks_per_cycle then next_phase reset s.phase else s.phase

pub extra-le : (reset p : ℕ) → extra reset p ≤ 1
unfolding extra
extra-le reset p = ground arith

pub update_bound : (reset : ℕ) (s : Syt) → s.offset < 6144 → (update reset s).offset < 6144
unfolding update bump
update_bound reset s h = ground (arith, extra-le reset s.phase)

-- The calls follow the schedule: whatever the state, the data packets that come out are due one
-- after another exactly as the schedule says, with no packet left out and none sent twice.
pub due_times-schedule :
    (reset n i : ℕ) (s : Syt)
    → s.offset < 6144
    → due_times reset n (i + 1) s
      ≡ schedule reset
          (length (due_times reset n (i + 1) s))
          (next_due reset i s)
          (due_phase reset s)
unfolding due_times schedule next_due due_phase update bump
due_times-schedule reset zero i s h = refl
due_times-schedule reset (suc n) i s h = ground (
  arith,
  extra-le reset s.phase,
  due_times-schedule reset n (i + 1) (update reset s) (update_bound reset s h),
)

due_times-many :
    (reset n i : ℕ) (s : Syt)
    → s.offset < 6144
    → n ≤ 2 * length (due_times reset n i s) + (if ltb s.offset ticks_per_cycle then 1 else 0)
unfolding due_times update bump
due_times-many reset zero i s h = omega arith
due_times-many reset (suc n) i s h = ground (
  arith,
  extra-le reset s.phase,
  due_times-many reset n (i + 1) (update reset s) (update_bound reset s h),
)

-- Of any two calls in a row one sends data: `n` calls send at least (n - 1) / 2 data packets.
pub due_times-length :
    (reset n i : ℕ) (s : Syt) → s.offset < 6144 → n ≤ 2 * length (due_times reset n i s) + 1
due_times-length reset n i s h = ground (arith, due_times-many reset n i s h)
