-- ===== src/Cip/Counter.antt =====
-- The block counters of both senders over runs of packets.
use fire_wire_audio.Prelude.{
  ℕ, zero, suc, ◌+◌, ◌*◌, ◌%◌, ◌^◌, ◌<◌, ◌≡◌, Bool, not, ◌&&◌, List, [], ◌∷◌, arith, ◌==◌,
  if◌then◌else◌,
}
use fire_wire_audio.Cip.Handler.{Handler, calculate_packet_params}
use fire_wire_audio.Cip.Transmitter.{CipState, prepare_cip_header, next_dbc, step_syt}
use fire_wire_audio.Cip.Loopback.{IsTimed, prepare-IsTimed, params_lem}
use fire_wire_audio.Cip.Timing.{handler_after, sfc-ne}

-- Which of the next `n` packets carry data, read off their headers.
unfoldable pub handler_kinds : ℕ → Handler → List Bool
handler_kinds zero h = []
handler_kinds (suc n) h =
    let (params, h') = calculate_packet_params h in not params.is_no_data ∷ handler_kinds n h'

unfoldable pub sent_kinds : ℕ → ℕ → CipState → List Bool
sent_kinds rate zero c = []
sent_kinds rate (suc n) c =
    let (h, c') = prepare_cip_header rate 64 c in not (h.fdf == 0xff) ∷ sent_kinds rate n c'

-- The transmitter's state after `n` packets.
unfoldable pub cip_after : ℕ → ℕ → CipState → CipState
cip_after rate zero c = c
cip_after rate (suc n) c = cip_after rate n (prepare_cip_header rate 64 c).1

-- How many packets carry data, and how many of them directly follow another one.
unfoldable pub with_data : List Bool → ℕ
with_data [] = 0
with_data (b ∷ bs) = (if b then 1 else 0) + with_data bs

unfoldable pub following : Bool → List Bool → ℕ
following before [] = 0
following before (b ∷ bs) = (if before && b then 1 else 0) + following b bs

-- The header handler counts blocks as AMDTP asks: after any number of calls the next header's counter
-- is the first one's, moved on by eight for each packet with data in between, modulo 256.
pub handler_counts :
    (n : ℕ) (h : Handler)
    → h.dbc_count < 2 ^ 8
    → (calculate_packet_params (handler_after n h)).0.dbc
      ≡ (h.dbc_count + 8 * with_data (handler_kinds n h)) % 2 ^ 8
unfolding handler_after handler_kinds with_data
handler_counts zero h b = ground (arith, params_lem h b)
handler_counts (suc n) h b =
    ground (arith, params_lem h b, handler_counts n (calculate_packet_params h).1)

-- One packet of eight blocks.
packet_lem :
    (rate : ℕ) (c : CipState)
    → IsTimed c
    → let (h, c') = prepare_cip_header rate 64 c in
      let loud = not (h.fdf == 0xff) in
      (h.dbc ≡ (c.dbc_count + 8 * (if not c.was_no_data && loud then 1 else 0)) % 2 ^ 8)
      × (c'.dbc_count ≡ h.dbc)
      × (not c'.was_no_data ≡ loud)
unfolding prepare_cip_header next_dbc step_syt
packet_lem rate c v = ground (arith, sfc-ne rate, v.counter_in)

-- The transmitter's counter leaves blocks out: the header after any number of packets has the first
-- counter moved on by eight for each packet with data that directly follows another one. The eight
-- blocks before each gap are never counted.
pub transmitter_counts :
    (rate n : ℕ) (c : CipState)
    → IsTimed c
    → (prepare_cip_header rate 64 (cip_after rate n c)).0.dbc
      ≡ (c.dbc_count + 8 * following (not c.was_no_data) (sent_kinds rate (n + 1) c)) % 2 ^ 8
unfolding cip_after sent_kinds following
transmitter_counts rate zero c v = ground (arith, packet_lem rate c v)
transmitter_counts rate (suc n) c v = ground (
  arith,
  packet_lem rate c v,
  transmitter_counts rate n (prepare_cip_header rate 64 c).1 (prepare-IsTimed rate 64 c v),
)
