-- ===== src/Cip/Drift.antt =====
-- How far the time stamps of both senders run away from the sample rate.
use fire_wire_audio.Prelude.{
  ℕ, ◌+◌, ◌*◌, ◌<◌, ◌≡◌, ap, ◌∙◌, true, List, some, arith, length, get_elem?,
}
use fire_wire_audio.Syt.{Syt, next_phase}
use fire_wire_audio.Syt.Schedule.{schedule, next_due, due_phase}
use fire_wire_audio.Syt.Period.{elapsed, nominal, transmitter_round, handler_round, schedule_rounds}
use fire_wire_audio.Cip.Handler.{Handler}
use fire_wire_audio.Cip.Transmitter.{CipState}
use fire_wire_audio.Cip.Loopback.{IsTimed}
use fire_wire_audio.Cip.Timing.{
  sent_times, sent_times-schedule, handler_times, handler_times-schedule,
}

-- The packet `d` packets after packet `k` is due `ticks` ticks later.
abbrev pub IsLater : List ℕ → ℕ → ℕ → ℕ → Type 0
IsLater ts k d ticks =
    (t : ℕ) × (get_elem? ts k ≡ some t) × (get_elem? ts (k + d) ≡ some (t + ticks))

due_phase_in : (reset i : ℕ) (s : Syt) → s.phase < reset → due_phase reset s < reset
unfolding due_phase next_phase
due_phase_in reset i s h = ground arith

rounds-IsLater :
    (reset round i m k ticks : ℕ) (s : Syt) (ts : List ℕ)
    → ts ≡ schedule reset (length ts) (next_due reset i s) (due_phase reset s)
    → s.phase < reset
    → elapsed reset reset 0 ≡ round
    → k + m * reset < length ts
    → m * round ≡ ticks
    → IsLater ts k (m * reset) ticks
rounds-IsLater reset round i m k ticks s ts e h whole inside same =
    let (here, there) =
      schedule_rounds reset round (length ts) (next_due reset i s) (due_phase reset s) m k
        (due_phase_in reset i s h) whole inside in
    (
      next_due reset i s + elapsed reset k (due_phase reset s),
      ap (λ xs. get_elem? xs k) e ∙ here,
      ap (λ xs. get_elem? xs (k + m * reset)) e ∙ there ∙ ap some (omega (arith, same)),
    )

-- From its first completion callback on, the transmitter's 44.1 kHz clock is slow: any two data packets
-- that are m times 1470 packets apart are due 21 m ticks further apart than that many packets last at
-- 44100 Hz, so the presentation times drift without bound.
pub transmitter_drift :
    (rate payload n i m k : ℕ) (c : CipState)
    → IsTimed c
    → c.first_dcl_callback_occurred ≡ true
    → c.syt.phase < 1470
    → k + m * 1470 < length (sent_times rate payload n (i + 1) c)
    → IsLater (sent_times rate payload n (i + 1) c) k (m * 1470) (nominal (m * 1470) + m * 21)
unfolding nominal
transmitter_drift rate payload n i m k c v on h inside =
    rounds-IsLater 1470 6553621 i m k (nominal (m * 1470) + m * 21) c.syt _
      (sent_times-schedule rate payload n i c v on) h transmitter_round inside (omega arith)

-- With the callback flag set and at 44.1 kHz, the header handler's clock is slow as well: any two data
-- packets that are m times 147 packets apart are due 3 m ticks further apart than that many packets
-- last at 44100 Hz.
pub handler_drift :
    (n i m k : ℕ) (h : Handler)
    → h.first_callback_occurred ≡ true
    → h.sample_rate ≡ 44100
    → h.syt_offset < 6144
    → h.syt_phase < 147
    → k + m * 147 < length (handler_times n (i + 1) h)
    → IsLater (handler_times n (i + 1) h) k (m * 147) (nominal (m * 147) + m * 3)
unfolding nominal
handler_drift n i m k h on rate near low inside =
    rounds-IsLater 147 655363 i m k (nominal (m * 147) + m * 3)
      (record { offset = h.syt_offset; phase = h.syt_phase }) _
      (handler_times-schedule n i h on rate near) low handler_round inside (omega arith)
