-- ===== src/Syt.antt =====
-- The SYT clock that src/Isoch/utils/CIPHeaderHandler.cpp and src/Isoch/core/AmdtpTransmitter.cpp
-- both keep: the offset of the next presentation time within the bus cycle, in ticks of 1/3072
-- cycle, and the phase that decides where a 44.1 kHz stream takes an extra tick. The two copies
-- differ in the phase at which they start over, 147 and 1470, which is the argument `reset` here.
-- Offsets grow only while they are below 3072, so no `uint32_t` here wraps.
pub mod Schedule
pub mod Period
use fire_wire_audio.Prelude.{
  ℕ, ◌+◌, ◌-◌, ◌%◌, Bool, not, ◌&&◌, ◌||◌, bit_and, ltb, leb, ◌==◌, if◌then◌else◌,
}

abbrev pub ticks_per_cycle : ℕ
ticks_per_cycle = 3072

abbrev pub base_ticks_44k : ℕ
base_ticks_44k = 1386

abbrev pub base_ticks_48k : ℕ
base_ticks_48k = 1024

abbrev pub syt_phase_mod : ℕ
syt_phase_mod = 147

pub record Syt : Type 0 where
  pub offset : ℕ
  pub phase : ℕ

-- `(phase && !(phase & 3)) || (sytPhase_ == SYT_PHASE_RESET - 1)`
unfoldable pub add_extra : ℕ → ℕ → Bool
add_extra reset phase =
    not (phase % syt_phase_mod == 0) && (bit_and (phase % syt_phase_mod) 3 == 0)
    || (phase == reset - 1)

-- The extra tick of a phase, 0 or 1.
unfoldable pub extra : ℕ → ℕ → ℕ
unfolding add_extra
extra reset phase = if add_extra reset phase then 1 else 0

unfoldable pub next_phase : ℕ → ℕ → ℕ
next_phase reset phase = if leb reset (phase + 1) then 0 else phase + 1

-- handle44100Mode
unfoldable pub bump : ℕ → Syt → Syt
bump reset s = record {
  offset = s.offset + base_ticks_44k + extra reset s.phase;
  phase = next_phase reset s.phase;
}

-- One call's step at 44.1 kHz.
unfoldable pub update : ℕ → Syt → Syt
update reset s =
    if leb ticks_per_cycle s.offset
    then record s { offset = s.offset - ticks_per_cycle }
    else bump reset s
