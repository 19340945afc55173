-- ===== src/Receive/Cycle.antt =====
-- The receiver's DCLs are one cycle through all packets.
use fire_wire_audio.Prelude.{
  ℕ, zero, suc, ◌*◌, ◌/◌, ◌%◌, ◌≤◌, ◌<◌, ◌≡◌, ◌≢◌, ap, sym, ◌∙◌, Bool, true, false, Option, none,
  some, List, [], ◌∷◌, arith, ◌==◌, if◌then◌else◌, inl, inr, eq-cases,
}
use mathlib.Core.Path.{subst}
use fire_wire_audio.Transmit.Dcl.{VirtualRange}
use fire_wire_audio.Receive.{BufferManager}
use fire_wire_audio.Receive.Dcl.{
  DclConfig, ReceiveCall, allocate_receive_packet, set_branch, set_callback, set_refcon_group,
  set_refcon_manager, ReceivePointers, receive_calls, receive_ranges, group_calls_back,
}
use fire_wire_audio.Receive.Program.{Equips, before, calls_after}

-- The settings of a DCL: what the latest call about it says.
unfoldable pub next_dcl : List ReceiveCall → ℕ → Option ℕ
next_dcl [] d = none
next_dcl (set_branch x y ∷ calls) d = if x == d then some y else next_dcl calls d
next_dcl (allocate_receive_packet x ranges ∷ calls) d = if x == d then none else next_dcl calls d
next_dcl (_ ∷ calls) d = next_dcl calls d

unfoldable pub received_ranges : List ReceiveCall → ℕ → List VirtualRange
received_ranges [] d = []
received_ranges (allocate_receive_packet x ranges ∷ calls) d =
    if x == d then ranges else received_ranges calls d
received_ranges (_ ∷ calls) d = received_ranges calls d

unfoldable pub calls_back : List ReceiveCall → ℕ → Bool
calls_back [] d = false
calls_back (set_callback x ∷ calls) d = if x == d then true else calls_back calls d
calls_back (allocate_receive_packet x ranges ∷ calls) d =
    if x == d then false else calls_back calls d
calls_back (_ ∷ calls) d = calls_back calls d

-- The group that its refcon names.
unfoldable pub told_group : List ReceiveCall → ℕ → Option ℕ
told_group [] d = none
told_group (set_refcon_group x g ∷ calls) d = if x == d then some g else told_group calls d
told_group (set_refcon_manager x ∷ calls) d = if x == d then none else told_group calls d
told_group (allocate_receive_packet x ranges ∷ calls) d =
    if x == d then none else told_group calls d
told_group (_ ∷ calls) d = told_group calls d

module _ (c : DclConfig) (m : BufferManager) (at : ReceivePointers) (d g p : ℕ)
    (calls : List ReceiveCall) where
  own_ranges :
      (previous : Option ℕ)
      → received_ranges (receive_calls c m at d g p previous calls) d ≡ receive_ranges m at
  unfolding receive_calls received_ranges
  own_ranges previous = ground arith

  other_ranges :
      (previous : Option ℕ) (e : ℕ)
      → d ≢ e
      → received_ranges (receive_calls c m at d g p previous calls) e ≡ received_ranges calls e
  unfolding receive_calls received_ranges
  other_ranges previous e ne = ground arith

  own_branch : (q : ℕ) → next_dcl (receive_calls c m at d g p (some q) calls) q ≡ some d
  unfolding receive_calls next_dcl
  own_branch q = ground arith

  other_branch :
      (previous : Option ℕ) (e : ℕ)
      → d ≢ e
      → previous ≢ some e
      → next_dcl (receive_calls c m at d g p previous calls) e ≡ next_dcl calls e
  unfolding receive_calls next_dcl
  other_branch none e ne apart = ground arith
  other_branch (some q) e ne apart =
      let other : q ≢ e = (λ same. apart (ap some same)) in ground arith

  own_group :
      (previous : Option ℕ)
      → (calls_back (receive_calls c m at d g p previous calls) d ≡ group_calls_back c g p)
        × (told_group (receive_calls c m at d g p previous calls) d
            ≡ (if group_calls_back c g p then some g else none))
  unfolding receive_calls told_group calls_back
  own_group previous = (ground arith, ground arith)

  other_group :
      (previous : Option ℕ) (e : ℕ)
      → d ≢ e
      → (calls_back (receive_calls c m at d g p previous calls) e ≡ calls_back calls e)
        × (told_group (receive_calls c m at d g p previous calls) e ≡ told_group calls e)
  unfolding receive_calls told_group calls_back
  other_group previous e ne = (ground arith, ground arith)

-- What packet `i` is received by: its three ranges, and at the end of a group whose turn it is the
-- callback with that group.
pub record Receives (c : DclConfig) (m : BufferManager) (at : ReceivePointers)
    (calls : List ReceiveCall) (i d : ℕ) : Type 0 where
  pub ranges : received_ranges calls d ≡ receive_ranges m at
  pub callback :
      calls_back calls d ≡ group_calls_back c (i / c.packets_per_group) (i % c.packets_per_group)
  pub group : told_group calls d ≡ (
      if group_calls_back c (i / c.packets_per_group) (i % c.packets_per_group)
      then some (i / c.packets_per_group)
      else none)

module _ (c : DclConfig) (m : BufferManager) (allocate : ℕ → Option ℕ) (at : ℕ → ReceivePointers)
    (dcl : ℕ → ℕ) (v : Equips c m allocate at dcl) where
  pub apart :
      (i j : ℕ)
      → i < c.num_groups * c.packets_per_group
      → j < c.num_groups * c.packets_per_group
      → i ≢ j
      → dcl i ≢ dcl j
  apart i j hi hj ne same = ne (v.new i j hi hj same)

  pub settled :
      (n i : ℕ)
      → i < n
      → n ≤ c.num_groups * c.packets_per_group
      → Receives c m (at i) (calls_after c m at dcl n) i (dcl i)
  unfolding calls_after
  settled zero i h hn = elim h [ ]
  settled (suc n) i h hn =
      let k = c.packets_per_group in
      let old = calls_after c m at dcl n in
      elim (eq-cases n i) [
        | inl e ↦
            subst (λ j. Receives c m (at j) (calls_after c m at dcl (suc n)) j (dcl j)) e
              (record {
                ranges = own_ranges c m (at n) (dcl n) (n / k) (n % k) old (before dcl n);
                callback = (own_group c m (at n) (dcl n) (n / k) (n % k) old (before dcl n)).0;
                group = (own_group c m (at n) (dcl n) (n / k) (n % k) old (before dcl n)).1;
              })
        | inr ne ↦
            let kept = settled n i (omega arith) (omega arith) in
            let other = apart n i (omega arith) (omega arith) ne in
            record {
              ranges =
                  other_ranges c m (at n) (dcl n) (n / k) (n % k) old (before dcl n) (dcl i) other
                  ∙ kept.ranges;
              callback =
                  (other_group c m (at n) (dcl n) (n / k) (n % k) old (before dcl n) (dcl i)
                    other).0
                  ∙ kept.callback;
              group =
                  (other_group c m (at n) (dcl n) (n / k) (n % k) old (before dcl n) (dcl i)
                    other).1
                  ∙ kept.group;
            }
      ]

  before_apart :
      (n i : ℕ) → n ≤ c.num_groups * c.packets_per_group → suc i < n → before dcl n ≢ some (dcl i)
  before_apart zero i hn h = elim h [ ]
  before_apart (suc n) i hn h =
      let other = apart n i (omega arith) (omega arith) (λ e. omega arith) in
      λ same. other (ground arith)

  pub linked :
      (n i : ℕ)
      → suc i < n
      → n ≤ c.num_groups * c.packets_per_group
      → next_dcl (calls_after c m at dcl n) (dcl i) ≡ some (dcl (suc i))
  unfolding calls_after
  linked zero i h hn = elim h [ ]
  linked (suc n) i h hn =
      let k = c.packets_per_group in
      let old = calls_after c m at dcl n in
      elim (eq-cases n (suc i)) [
        | inl e ↦
            subst
              (λ j.
                next_dcl
                  (receive_calls c m (at j) (dcl j) (j / k) (j % k) (before dcl j)
                    (calls_after c m at dcl j))
                  (dcl i)
                ≡ some (dcl (suc i)))
              (sym e)
              (own_branch c m (at (suc i)) (dcl (suc i)) (suc i / k) (suc i % k)
                (calls_after c m at dcl (suc i)) (dcl i))
        | inr ne ↦
            other_branch c m (at n) (dcl n) (n / k) (n % k) old (before dcl n) (dcl i)
              (apart n i (omega arith) (omega arith) (λ e. omega arith))
              (before_apart n i (omega arith) (omega arith))
            ∙ linked n i (omega arith) (omega arith)
      ]
