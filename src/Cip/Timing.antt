-- ===== src/Cip/Timing.antt =====
-- When the two senders' packets are due, and how long the header handler stays silent after
-- `initialize`.
use fire_wire_audio.Prelude.{
  ℕ, zero, suc, ◌+◌, ◌*◌, ◌%◌, ◌<◌, ◌≡◌, refl, sym, ◌∙◌, ap, true, false, List, [], ◌∷◌, ltb, ◌==◌,
  if◌then◌else◌, length, arith,
}
use fire_wire_audio.Syt.{Syt, ticks_per_cycle, update, bump}
use fire_wire_audio.Syt.Schedule.{
  due_times, schedule, next_due, due_phase, extra-le, due_times-schedule,
}
use fire_wire_audio.Cip.Handler.{
  Handler, calculate_packet_params, packet_params, update_syt_offset, initialize,
}
use fire_wire_audio.Cip.Transmitter.{CipState, prepare_cip_header, step_syt, sfc_of_rate}
use fire_wire_audio.Cip.Loopback.{IsTimed, prepare-IsTimed}

-- The ticks at which the data packets of the transmitter's next `n` headers are due, read off the
-- headers: a packet of cycle i with the time stamp s is due at 3072 i + s.
unfoldable pub sent_times : ℕ → ℕ → ℕ → ℕ → CipState → List ℕ
sent_times rate payload zero i c = []
sent_times rate payload (suc n) i c =
    let (h, c') = prepare_cip_header rate payload c in
    let rest = sent_times rate payload n (i + 1) c' in
    if h.fdf == 0xff then rest else (ticks_per_cycle * i + h.syt) ∷ rest

pub sfc-ne : (rate : ℕ) → (sfc_of_rate rate == 0xff) ≡ false
unfolding sfc_of_rate
sfc-ne rate = ground arith

pub sent_times-due_times :
    (rate payload n i : ℕ) (c : CipState)
    → IsTimed c
    → c.first_dcl_callback_occurred ≡ true
    → sent_times rate payload n i c ≡ due_times 1470 n i c.syt
unfolding sent_times due_times prepare_cip_header step_syt
sent_times-due_times rate payload zero i c v on = refl
sent_times-due_times rate payload (suc n) i c v on = ground (
  arith,
  sfc-ne rate,
  sent_times-due_times rate payload n (i + 1) (prepare_cip_header rate payload c).1
      (prepare-IsTimed rate payload c v),
)

-- From its first completion callback on, the transmitter's time stamps follow the schedule of the
-- 44.1 kHz clock: each data packet is due 4458 ticks, or 4459 in the phases with an extra tick,
-- after the one before, whatever rate is configured.
pub sent_times-schedule :
    (rate payload n i : ℕ) (c : CipState)
    → IsTimed c
    → c.first_dcl_callback_occurred ≡ true
    → sent_times rate payload n (i + 1) c
      ≡ schedule 1470
          (length (sent_times rate payload n (i + 1) c))
          (next_due 1470 i c.syt)
          (due_phase 1470 c.syt)
sent_times-schedule rate payload n i c v on = ground (
  arith,
  sent_times-due_times rate payload n (i + 1) c v on,
  due_times-schedule 1470 n i c.syt v.near,
)

-- The ticks at which the data packets of the header handler's next `n` calls are due.
unfoldable pub handler_times : ℕ → ℕ → Handler → List ℕ
handler_times zero i h = []
handler_times (suc n) i h =
    let (params, h') = calculate_packet_params h in
    let rest = handler_times n (i + 1) h' in
    if params.is_no_data then rest else (ticks_per_cycle * i + params.syt) ∷ rest

-- Packets a fixed number of ticks apart.
unfoldable pub progression : ℕ → ℕ → ℕ → List ℕ
progression step zero t = []
progression step (suc c) t = t ∷ progression step c (t + step)

-- When the packet after the state of cycle `i` is due at 48 kHz.
unfoldable pub next_due_48k : ℕ → Handler → ℕ
next_due_48k i h =
    if ltb h.syt_offset ticks_per_cycle
    then ticks_per_cycle * i + h.syt_offset + 4096
    else ticks_per_cycle * i + h.syt_offset

abbrev params_calls : Handler → Handler
params_calls h = (calculate_packet_params h).1

-- At 48 kHz the header handler's data packets are due exactly 4096 ticks apart: 8 frames of 512.
pub handler_times_48k :
    (n i : ℕ) (h : Handler)
    → h.first_callback_occurred ≡ true
    → h.sample_rate ≡ 48000
    → h.syt_offset < 6144
    → handler_times n (i + 1) h
      ≡ progression 4096 (length (handler_times n (i + 1) h)) (next_due_48k i h)
unfolding handler_times progression next_due_48k calculate_packet_params packet_params
    update_syt_offset
handler_times_48k zero i h on rate near = refl
handler_times_48k (suc n) i h on rate near =
    ground (arith, handler_times_48k n (i + 1) (params_calls h))

-- At 44.1 kHz the handler's clock is the one whose phases start over at 147.
pub handler_times-due_times :
    (n i : ℕ) (h : Handler)
    → h.first_callback_occurred ≡ true
    → h.sample_rate ≡ 44100
    → h.syt_offset < 6144
    → handler_times n i h
      ≡ due_times 147 n i (record { offset = h.syt_offset; phase = h.syt_phase })
unfolding handler_times due_times calculate_packet_params packet_params update_syt_offset update
    bump
handler_times-due_times zero i h on rate near = refl
handler_times-due_times (suc n) i h on rate near =
    ground (arith, extra-le 147 h.syt_phase, handler_times-due_times n (i + 1) (params_calls h))

-- At 44.1 kHz the header handler's data packets follow the schedule whose phases start over at 147:
-- each is due 4458 ticks, or 4459 in the phases with an extra tick, after the one before.
pub handler_times-schedule :
    (n i : ℕ) (h : Handler)
    → h.first_callback_occurred ≡ true
    → h.sample_rate ≡ 44100
    → h.syt_offset < 6144
    → let s : Syt = record { offset = h.syt_offset; phase = h.syt_phase } in
      handler_times n (i + 1) h
      ≡ schedule 147 (length (handler_times n (i + 1) h)) (next_due 147 i s) (due_phase 147 s)
handler_times-schedule n i h on rate near =
    let s : Syt = record { offset = h.syt_offset; phase = h.syt_phase } in
    let due = handler_times-due_times n (i + 1) h on rate near in
    due
    ∙ due_times-schedule 147 n i s near
    ∙ ap (λ ts. schedule 147 (length ts) (next_due 147 i s) (due_phase 147 s)) (sym due)

-- The handler after `n` calls.
unfoldable pub handler_after : ℕ → Handler → Handler
handler_after zero h = h
handler_after (suc n) h = handler_after n (params_calls h)

-- `initialize` leaves an offset within one second of cycles, clears the counter and the callback
-- flag, and keeps the phase and the rate.
pub initialize_lem :
    (now : ℕ) (h : Handler)
    → let s = initialize now h in
      (s.syt_offset < 24576000)
      × (s.syt_offset % ticks_per_cycle ≡ 0)
      × (s.dbc_count ≡ 0)
      × (s.was_no_data ≡ true)
      × (s.first_callback_occurred ≡ false)
      × (s.syt_phase ≡ h.syt_phase)
      × (s.sample_rate ≡ h.sample_rate)
unfolding initialize
initialize_lem now h = ground arith
