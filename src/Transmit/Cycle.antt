-- ===== src/Transmit/Cycle.antt =====
-- What the calls of createDCLProgram make of each DCL.
use fire_wire_audio.Prelude.{
  ℕ, ◌≡◌, ◌≢◌, ap, Bool, true, false, Option, none, some, List, [], ◌∷◌, arith, ◌==◌, if◌then◌else◌,
}
use fire_wire_audio.Transmit.{TransmitterConfig}
use fire_wire_audio.Transmit.Dcl.{
  VirtualRange, PoolCall, allocate_send_packet, set_dcl_ranges, set_callback, set_refcon_manager,
  set_refcon_group, set_branch, PacketPointers, calls_back, packet_calls,
}

-- The settings of a DCL: what the latest call about it says. A DCL starts with the ranges it is
-- allocated with, without a callback or a branch.
unfoldable pub branch_of : List PoolCall → ℕ → Option ℕ
branch_of [] d = none
branch_of (set_branch x y ∷ calls) d = if x == d then some y else branch_of calls d
branch_of (allocate_send_packet x ranges ∷ calls) d = if x == d then none else branch_of calls d
branch_of (_ ∷ calls) d = branch_of calls d

unfoldable pub ranges_of : List PoolCall → ℕ → List VirtualRange
ranges_of [] d = []
ranges_of (set_dcl_ranges x ranges ∷ calls) d = if x == d then ranges else ranges_of calls d
ranges_of (allocate_send_packet x ranges ∷ calls) d = if x == d then ranges else ranges_of calls d
ranges_of (_ ∷ calls) d = ranges_of calls d

unfoldable pub has_callback : List PoolCall → ℕ → Bool
has_callback [] d = false
has_callback (set_callback x ∷ calls) d = if x == d then true else has_callback calls d
has_callback (allocate_send_packet x ranges ∷ calls) d =
    if x == d then false else has_callback calls d
has_callback (_ ∷ calls) d = has_callback calls d

-- The group that its callback is told of.
unfoldable pub group_of : List PoolCall → ℕ → Option ℕ
group_of [] d = none
group_of (set_refcon_group x g ∷ calls) d = if x == d then some g else group_of calls d
group_of (set_refcon_manager x ∷ calls) d = if x == d then none else group_of calls d
group_of (allocate_send_packet x ranges ∷ calls) d = if x == d then none else group_of calls d
group_of (_ ∷ calls) d = group_of calls d

-- A DCL that sends the header and the payload at `at`, and calls back when packet `p` of group `g` does.
pub record Sends (c : TransmitterConfig) (payload : ℕ) (at : PacketPointers) (g p : ℕ)
    (calls : List PoolCall) (d : ℕ) : Type 0 where
  pub ranges : ranges_of calls d ≡ (at.cip_header, 8) ∷ (at.audio_data, payload) ∷ []
  pub callback : has_callback calls d ≡ calls_back c g p
  pub group : group_of calls d ≡ (if calls_back c g p then some g else none)

module _ (c : TransmitterConfig) (payload : ℕ) (at : PacketPointers) (d g p : ℕ)
    (previous : Option ℕ) (calls : List PoolCall) where
  pub own : Sends c payload at g p (packet_calls c payload at d g p previous calls) d
  unfolding packet_calls branch_of ranges_of has_callback group_of
  own = record { ranges = ground arith; callback = ground arith; group = ground arith }

  pub others :
      (c' : TransmitterConfig) (e h q : ℕ) (at' : PacketPointers)
      → d ≢ e
      → Sends c' payload at' h q calls e
      → Sends c' payload at' h q (packet_calls c payload at d g p previous calls) e
  unfolding packet_calls branch_of ranges_of has_callback group_of
  others c' e h q at' ne s = record {
    ranges = ground (arith, s.ranges);
    callback = ground (arith, s.callback);
    group = ground (arith, s.group);
  }

-- Linking changes the branch of the DCL before, and no other.
module _ (c : TransmitterConfig) (payload : ℕ) (at : PacketPointers) (d g p : ℕ)
    (calls : List PoolCall) where
  pub own_branch : (q : ℕ) → branch_of (packet_calls c payload at d g p (some q) calls) q ≡ some d
  unfolding packet_calls branch_of
  own_branch q = ground arith

  pub other_branch :
      (previous : Option ℕ) (e : ℕ)
      → d ≢ e
      → previous ≢ some e
      → branch_of (packet_calls c payload at d g p previous calls) e ≡ branch_of calls e
  unfolding packet_calls branch_of
  other_branch none e ne apart = ground arith
  other_branch (some q) e ne apart =
      let other : q ≢ e = (λ same. apart (ap some same)) in ground arith
