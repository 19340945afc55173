-- ===== src/Syt/Period.antt =====
-- How long a whole round of phases takes, from wherever it starts.
use fire_wire_audio.Prelude.{
  ℕ, ◌/◌, zero, suc, ◌+◌, ◌-◌, ◌*◌, ◌<◌, ◌≡◌, refl, ◌∙◌, ap, some, arith, get_elem?,
}
use fire_wire_audio.Syt.{ticks_per_cycle, base_ticks_44k, extra, next_phase}
use fire_wire_audio.Syt.Schedule.{schedule}

-- The ticks from one entry of the schedule to the one that is `c` places further on.
unfoldable pub elapsed : ℕ → ℕ → ℕ → ℕ
elapsed reset zero p = 0
elapsed reset (suc c) p =
    ticks_per_cycle + base_ticks_44k + extra reset p + elapsed reset c (next_phase reset p)

-- The phase after `c` packets.
unfoldable pub phase_after : ℕ → ℕ → ℕ → ℕ
phase_after reset zero p = p
phase_after reset (suc c) p = phase_after reset c (next_phase reset p)

-- The k-th entry of a schedule stands `elapsed` ticks after the first.
pub schedule-elapsed :
    (reset n t p k : ℕ) → k < n → get_elem? (schedule reset n t p) k ≡ some (t + elapsed reset k p)
unfolding schedule elapsed
schedule-elapsed reset zero t p k h = absurd (omega arith)
schedule-elapsed reset (suc n) t p zero h = ap some (omega arith)
schedule-elapsed reset (suc n) t p (suc k) h =
    schedule-elapsed reset n _ (next_phase reset p) k (omega arith) ∙ ap some (omega arith)

pub elapsed-add :
    (reset a b n p : ℕ)
    → n ≡ a + b
    → elapsed reset n p ≡ elapsed reset a p + elapsed reset b (phase_after reset a p)
unfolding elapsed phase_after
elapsed-add reset zero b n p e =
    let same : n ≡ b = omega arith in omega (arith, ap (λ k. elapsed reset k p) same)
elapsed-add reset (suc a) b zero p e = absurd (omega arith)
elapsed-add reset (suc a) b (suc n) p e =
    omega (arith, elapsed-add reset a b n (next_phase reset p) (omega arith))

phase_after-lt : (reset c p : ℕ) → p + c < reset → phase_after reset c p ≡ p + c
unfolding phase_after next_phase
phase_after-lt reset zero p h = omega arith
phase_after-lt reset (suc c) p h = ground (arith, phase_after-lt reset c (p + 1))

phase_after-turn : (reset c p : ℕ) → p + suc c ≡ reset → phase_after reset (suc c) p ≡ 0
unfolding phase_after next_phase
phase_after-turn reset zero p h = ground arith
phase_after-turn reset (suc c) p h = ground (arith, phase_after-turn reset c (p + 1))

reached : (reset p : ℕ) → p < reset → phase_after reset p 0 ≡ p
reached reset p h = omega (arith, phase_after-lt reset p 0 (omega arith))

turned : (reset p : ℕ) → p < reset → phase_after reset (reset - p) p ≡ 0
turned reset p h =
    ap (λ k. phase_after reset k p) (omega arith)
    ∙ phase_after-turn reset (reset - p - 1) p (omega arith)

none_elapsed : (reset p : ℕ) → elapsed reset 0 p ≡ 0
unfolding elapsed
none_elapsed reset p = refl

-- A round of phases takes as long from any phase as from phase 0.
elapsed_round : (reset p : ℕ) → p < reset → elapsed reset reset p ≡ elapsed reset reset 0
elapsed_round reset p h = omega (
  arith,
  elapsed-add reset (reset - p) p reset p (omega arith),
  elapsed-add reset p (reset - p) reset 0 (omega arith),
  ap (elapsed reset p) (turned reset p h),
  ap (elapsed reset (reset - p)) (reached reset p h),
)

pub transmitter_round : elapsed 1470 1470 0 ≡ 6553621
unfolding elapsed extra next_phase
transmitter_round = refl

pub handler_round : elapsed 147 147 0 ≡ 655363
unfolding elapsed extra next_phase
handler_round = refl

-- After a round of phases the phase is what it was.
phase_after-add :
    (reset a b n p : ℕ)
    → n ≡ a + b
    → phase_after reset n p ≡ phase_after reset b (phase_after reset a p)
unfolding phase_after
phase_after-add reset zero b n p e =
    let same : n ≡ b = omega arith in ap (λ k. phase_after reset k p) same
phase_after-add reset (suc a) b zero p e = absurd (omega arith)
phase_after-add reset (suc a) b (suc n) p e =
    phase_after-add reset a b n (next_phase reset p) (omega arith)

phase_after_round : (reset p : ℕ) → p < reset → phase_after reset reset p ≡ p
phase_after_round reset p h =
    phase_after-add reset (reset - p) p reset p (omega arith)
    ∙ ap (phase_after reset p) (turned reset p h)
    ∙ reached reset p h

elapsed_rounds :
    (reset round p m n : ℕ)
    → p < reset
    → elapsed reset reset 0 ≡ round
    → n ≡ m * reset
    → elapsed reset n p ≡ m * round
elapsed_rounds reset round p zero n h e q =
    let same : n ≡ 0 = omega arith in
    omega (arith, ap (λ k. elapsed reset k p) same, none_elapsed reset p)
elapsed_rounds reset round p (suc m) n h e q = omega (
  arith,
  elapsed-add reset reset (m * reset) n p (omega arith),
  ap (elapsed reset (m * reset)) (phase_after_round reset p h),
  elapsed_round reset p h,
  elapsed_rounds reset round p m (m * reset) h e refl,
)

-- The ticks that `packets` packets of 8 frames last at exactly 44100 frames a second, at 8000
-- cycles of 3072 ticks a second.
unfoldable pub nominal : ℕ → ℕ
nominal packets = packets * 8 * (3072 * 8000) / 44100

phase_after_in : (reset c p : ℕ) → p < reset → phase_after reset c p < reset
unfolding phase_after next_phase
phase_after_in reset zero p h = h
phase_after_in reset (suc c) p h = phase_after_in reset c (next_phase reset p) (ground arith)

-- Two entries of a schedule that are whole rounds apart.
pub schedule_rounds :
    (reset round n t p m k : ℕ)
    → p < reset
    → elapsed reset reset 0 ≡ round
    → k + m * reset < n
    → (get_elem? (schedule reset n t p) k ≡ some (t + elapsed reset k p))
      × (get_elem? (schedule reset n t p) (k + m * reset)
          ≡ some (t + elapsed reset k p + m * round))
schedule_rounds reset round n t p m k h e inside =
    let apart : elapsed reset (k + m * reset) p ≡ elapsed reset k p + m * round =
      elapsed-add reset k (m * reset) (k + m * reset) p refl
      ∙ ap (λ x. elapsed reset k p + x)
          (elapsed_rounds reset round (phase_after reset k p) m (m * reset)
            (phase_after_in reset k p h) e refl) in
    (
      schedule-elapsed reset n t p k (omega arith),
      schedule-elapsed reset n t p (k + m * reset) inside ∙ ap some (omega (arith, apart)),
    )
