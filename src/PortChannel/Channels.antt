-- ===== src/PortChannel/Channels.antt =====
-- Which channels the remote port offers to the bus. The mask has channel `c` at bit 63 - c.
use fire_wire_audio.Prelude.{
  ℕ, zero, suc, ◌-◌, ◌/◌, ◌%◌, ◌^◌, ◌<◌, ◌≡◌, refl, Bool, true, false, not, Option, none, some,
  arith, ◌==◌, if◌then◌else◌,
}
use fire_wire_audio.PortChannel.{PortManager, any_available_isoch_channel}
use fire_wire_audio.PortChannel.Setup.{channels_supported, get_supported, configure}

abbrev pub offers : Option ℕ → ℕ → Bool
offers none c = false
offers (some mask) c = mask / 2 ^ (63 - c) % 2 == 1

-- A test passed by every channel number under a bound.
passed_under : (ℕ → Bool) → ℕ → Bool
passed_under test zero = true
passed_under test (suc top) = if test top then passed_under test top else false

passes :
    (test : ℕ → Bool) (bound c : ℕ) → passed_under test bound ≡ true → c < bound → test c ≡ true
unfolding passed_under
passes test zero c ok inside = absurd (omega arith)
passes test (suc top) c ok inside = ground (arith, passes test top c)

same : Bool → Bool → Bool
same true b = b
same false b = not b

same_sound : (a b : Bool) → same a b ≡ true → a ≡ b
unfolding same
same_sound a b h = ground arith

abbrev row : ℕ → ℕ → Bool
row n c = same (offers (channels_supported n) c) (c == n)

one_table : passed_under (λ n. passed_under (row n) 64) 64 ≡ true
unfolding passed_under same channels_supported
one_table = refl

abbrev any_row : ℕ → Bool
any_row c = same (offers (channels_supported any_available_isoch_channel) c) (not (c == 63))

any_table : passed_under any_row 64 ≡ true
unfolding passed_under same channels_supported
any_table = refl

-- After a successful `configure` with a channel of the bus the remote port offers that channel and no
-- other. When any channel will do it offers all but one, and the one left out is 63, not 0.
pub offers_lem :
    (m : PortManager) (speed n c : ℕ)
    → m.initialized ≡ true
    → m.running ≡ false
    → n < 64
    → c < 64
    → (offers (get_supported (configure m speed n).manager).1 c ≡ (c == n))
      × (offers (get_supported (configure m speed any_available_isoch_channel).manager).1 c
          ≡ not (c == 63))
unfolding get_supported configure
offers_lem m speed n c ready stopped hn hc =
    rw (ready, stopped)
      (
        same_sound _ _
            (passes (row n) 64 c (passes (λ k. passed_under (row k) 64) 64 n one_table hn) hc),
        same_sound _ _ (passes any_row 64 c any_table hc),
      )
