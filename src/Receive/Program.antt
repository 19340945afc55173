-- ===== src/Receive/Program.antt =====
-- createDCLProgram of the receiver: what its loops tell the pool.
use fire_wire_audio.Prelude.{
  ℕ, zero, suc, ◌+◌, ◌*◌, ◌/◌, ◌%◌, ◌^◌, ◌≤◌, ◌<◌, ◌≡◌, refl, ap, ap₂, sym, ◌∙◌, false, ◌&&◌,
  Option, none, some, List, [], arith, ◌==◌, if◌then◌else◌,
}
use native.Mathlib.Nat.{
  mod-eq_of_lt, div-add-mod', div-eq_of_lt-le, mul-add-mod_self_right, zero-div, zero-mod, add-mul,
}
use fire_wire_audio.Prelude.Layout.{index_bound}
use fire_wire_audio.Transmit.Dcl.{completed, and_then}
use fire_wire_audio.Receive.{BufferManager}
use fire_wire_audio.Receive.Dcl.{
  DclConfig, ReceiveCall, ReceivePointers, receive_pointers, receive_calls, Laid, lay_packet,
  lay_packets, lay_groups,
}

-- The buffers give every packet its pointers, and the pool a new DCL for each.
pub record Equips (c : DclConfig) (m : BufferManager) (allocate : ℕ → Option ℕ)
    (at : ℕ → ReceivePointers) (dcl : ℕ → ℕ) : Type 0 where
  pub some_groups : 0 < c.num_groups
  pub some_packets : 0 < c.packets_per_group
  pub packets_in : c.num_groups * c.packets_per_group < 2 ^ 32
  pub found :
      (g p : ℕ)
      → g < c.num_groups
      → p < c.packets_per_group
      → receive_pointers m g p ≡ some (at (g * c.packets_per_group + p))
  pub gives : (i : ℕ) → i < c.num_groups * c.packets_per_group → allocate i ≡ some (dcl i)
  pub new :
      (i j : ℕ)
      → i < c.num_groups * c.packets_per_group
      → j < c.num_groups * c.packets_per_group
      → dcl i ≡ dcl j
      → i ≡ j

-- The DCL before packet `i`, and the calls and variables once `i` packets are laid.
abbrev pub before : (ℕ → ℕ) → ℕ → Option ℕ
before dcl zero = none
before dcl (suc i) = some (dcl i)

unfoldable pub calls_after :
    DclConfig → BufferManager → (ℕ → ReceivePointers) → (ℕ → ℕ) → ℕ → List ReceiveCall
calls_after c m at dcl zero = []
calls_after c m at dcl (suc i) =
    receive_calls c m (at i) (dcl i) (i / c.packets_per_group) (i % c.packets_per_group)
      (before dcl i) (calls_after c m at dcl i)

abbrev pub laid_after :
    DclConfig → BufferManager → (ℕ → ReceivePointers) → (ℕ → ℕ) → Option ℕ → ℕ → Laid
laid_after c m at dcl first zero = record { first = first; previous = none; calls = [] }
laid_after c m at dcl first (suc i) = record {
  first = some (dcl 0);
  previous = some (dcl i);
  calls = calls_after c m at dcl (suc i);
}

group_of_index : (g p k : ℕ) → p < k → (g * k + p) / k ≡ g
group_of_index g p k h = div-eq_of_lt-le {k = g} k (omega arith) (omega (arith, add-mul g 1 k))

place_of_index : (g p k : ℕ) → p < k → (g * k + p) % k ≡ p
place_of_index g p k h = mul-add-mod_self_right g k p ∙ mod-eq_of_lt h

not_first : (g p i k : ℕ) → g * k + p ≡ i → 0 < i → ((g == 0) && (p == 0)) ≡ false
not_first g p i k e h = grind arith

module _ (c : DclConfig) (m : BufferManager) (allocate : ℕ → Option ℕ) (at : ℕ → ReceivePointers)
    (dcl : ℕ → ℕ) (v : Equips c m allocate at dcl) (first : Option ℕ) where
  abbrev after : ℕ → Laid
  after i = laid_after c m at dcl first i

  -- One packet more, its group and place read off its index.
  more : (i : ℕ) → Laid
  more i =
      let k = c.packets_per_group in
      record {
        first = if (i / k == 0) && (i % k == 0) then some (dcl i) else (after i).first;
        previous = some (dcl i);
        calls = receive_calls c m (at i) (dcl i) (i / k) (i % k) (after i).previous (after i).calls;
      }

  more-after : (i : ℕ) → more i ≡ after (suc i)
  unfolding more calls_after
  more-after zero = rw (zero-div c.packets_per_group, zero-mod c.packets_per_group) refl
  more-after (suc i) =
      let k = c.packets_per_group in
      let later : ((suc i / k == 0) && (suc i % k == 0)) ≡ false =
        not_first (suc i / k) (suc i % k) (suc i) k (div-add-mod' (suc i) k) (omega arith) in
      ap
        (λ b. record {
          first = if b then some (dcl (suc i)) else some (dcl 0);
          previous = some (dcl (suc i));
          calls = calls_after c m at dcl (suc (suc i));
        })
        later

  packet_laid :
      (g p : ℕ)
      → g < c.num_groups
      → p < c.packets_per_group
      → lay_packet c m allocate g p (after (g * c.packets_per_group + p))
        ≡ completed (after (suc (g * c.packets_per_group + p)))
  unfolding lay_packet more
  packet_laid g p hg hp =
      let k = c.packets_per_group in
      let i = g * k + p in
      let inside = index_bound c.num_groups k g p hg hp in
      let index : i % 2 ^ 32 ≡ i = mod-eq_of_lt (omega (arith, v.packets_in)) in
      let given : allocate (i % 2 ^ 32) ≡ some (dcl i) = ap allocate index ∙ v.gives i inside in
      rw (lay_packet, v.found g p hg hp, given)
        (ap₂
            (λ g' p'. completed (record {
              first = if (g' == 0) && (p' == 0) then some (dcl i) else (after i).first;
              previous = some (dcl i);
              calls = receive_calls c m (at i) (dcl i) g' p' (after i).previous (after i).calls;
            }))
            (sym (group_of_index g p k hp)) (sym (place_of_index g p k hp))
          ∙ ap completed (more-after i))

  packets_laid :
      (n g p : ℕ)
      → g < c.num_groups
      → p + n ≤ c.packets_per_group
      → lay_packets c m allocate g n p (after (g * c.packets_per_group + p))
        ≡ completed (after (g * c.packets_per_group + p + n))
  unfolding lay_packets
  packets_laid zero g p hg hp = ap (λ i. completed (after i)) (omega arith)
  packets_laid (suc n) g p hg hp =
      ap (λ o. and_then o (λ b. lay_packets c m allocate g n (p + 1) b))
        (packet_laid g p hg (omega arith))
      ∙ ap (λ i. lay_packets c m allocate g n (p + 1) (after i))
          {x = suc (g * c.packets_per_group + p)} {y = g * c.packets_per_group + (p + 1)}
          (omega arith)
      ∙ packets_laid n g (p + 1) hg (omega arith)
      ∙ ap (λ i. completed (after i)) (omega arith)

  pub groups_laid :
      (n g : ℕ)
      → g + n ≤ c.num_groups
      → lay_groups c m allocate n g (after (g * c.packets_per_group))
        ≡ completed (after ((g + n) * c.packets_per_group))
  unfolding lay_groups
  groups_laid zero g hg =
      ap (λ i. completed (after i))
        (ap (λ i. i * c.packets_per_group) {x = g} {y = g + 0} (omega arith))
  groups_laid (suc n) g hg =
      let k = c.packets_per_group in
      let next : g * k + 0 + k ≡ (g + 1) * k = grind arith in
      ap
        (λ i.
          and_then (lay_packets c m allocate g k 0 (after i))
            (λ b. lay_groups c m allocate n (g + 1) b))
        {x = g * k} {y = g * k + 0} (omega arith)
      ∙ ap (λ o. and_then o (λ b. lay_groups c m allocate n (g + 1) b))
          (packets_laid k g 0 (omega arith) (omega arith))
      ∙ ap (λ i. lay_groups c m allocate n (g + 1) (after i)) next
      ∙ groups_laid n (g + 1) (omega arith)
      ∙ ap (λ i. completed (after (i * k))) {x = g + 1 + n} {y = g + suc n} (omega arith)
