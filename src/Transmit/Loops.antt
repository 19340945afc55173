-- ===== src/Transmit/Loops.antt =====
-- createDCLProgram, group by group.
use fire_wire_audio.Prelude.{
  ℕ, zero, suc, ◌+◌, ◌-◌, ◌*◌, ◌<◌, ◌≡◌, refl, ap, ◌∙◌, Option, none, List, [], arith, length,
  length-append, length-take, length-replicate, take, replicate,
}
use mathlib.Core.Path.{subst}
use native.Mathlib.Nat.{mod-eq_of_lt, add-mul}
use fire_wire_audio.Transmit.{TransmitterConfig}
use fire_wire_audio.Transmit.Buffers.{TransmitBuffers}
use fire_wire_audio.Transmit.Slots.{packets_of}
use fire_wire_audio.Transmit.Dcl.{
  DclManager, Building, completed, and_then, resize, create_packets, begin_group, create_groups,
  prepare,
}
use fire_wire_audio.Transmit.Packets.{IsReady, IsBuilt, after, creates_packet, keeps}

length-resize : {A : Type 0} (xs : List (Option A)) (n : ℕ) → length (resize xs n) ≡ n
length-resize {A = A} xs n = omega (
  arith,
  length-append (take n xs) (replicate (n - length xs) none),
  length-take n xs,
  length-replicate {A = Option A} (n - length xs) none,
)

module _ (c : TransmitterConfig) (m : TransmitBuffers) (allocate : ℕ → Option ℕ) (dcl : ℕ → ℕ)
    (v : IsReady c m allocate dcl) where
  -- What is built, with its parameters.
  abbrev pub Done : ℕ → Building → Type 0
  Done i b = IsBuilt c m allocate dcl i b

  packets_built :
      (n p g : ℕ) (b : Building)
      → p + n ≡ c.packets_per_group
      → g < c.num_groups
      → Done (g * c.packets_per_group + p) b
      → (b' : Building) × (create_packets m allocate g n p b ≡ completed b')
        × Done (g * c.packets_per_group + c.packets_per_group) b'
  unfolding create_packets
  packets_built zero p g b e hg built =
      (b, refl, subst (λ q. Done (g * c.packets_per_group + q) b) (omega arith) built)
  packets_built (suc n) p g b e hg built =
      let first = creates_packet c m allocate dcl g p b v hg (omega arith) built.same in
      let next = keeps c m allocate dcl g p b v hg (omega arith) built in
      let (b', e', built') =
        packets_built n (p + 1) g (after c m allocate dcl g p b) (omega arith) hg
          (subst (λ i. Done i (after c m allocate dcl g p b)) (omega arith) next) in
      (b', ap (λ o. and_then o (λ x. create_packets m allocate g n (p + 1) x)) first ∙ e', built')

  begun : (i g : ℕ) (b : Building) → Done i b → Done i (begin_group g b)
  unfolding begin_group
  begun i g b built = record {
    same = built.same;
    pooled = built.pooled;
    size = built.size;
    fresh = built.fresh;
    previous = built.previous;
    first = built.first;
    kept = built.kept;
    linked = built.linked;
    sends = built.sends;
  }

  pub groups_built :
      (n g : ℕ) (b : Building)
      → g + n ≡ c.num_groups
      → Done (g * c.packets_per_group) b
      → (b' : Building) × (create_groups m allocate n g b ≡ completed b') × Done (packets_of c) b'
  unfolding create_groups
  groups_built zero g b e built =
      (b, refl, subst (λ h. Done (h * c.packets_per_group) b) (omega arith) built)
  groups_built (suc n) g b e built =
      let (b', e', built') =
        packets_built c.packets_per_group 0 g (begin_group g b) (omega arith) (omega arith)
          (subst (λ i. Done i (begin_group g b)) (omega arith) (begun _ g b built)) in
      let (b'', e'', built'') =
        groups_built n (g + 1) b' (omega arith)
          (subst (λ i. Done i b') (omega (arith, add-mul g 1 c.packets_per_group)) built') in
      (
        b'',
        ap
              (λ k.
                and_then (create_packets m allocate g k 0 (begin_group g b))
                  (λ x. create_groups m allocate n (g + 1) x))
              (ap (λ x. x.packets_per_group) built.same)
            ∙ ap (λ o. and_then o (λ x. create_groups m allocate n (g + 1) x)) e'
            ∙ e'',
        built'',
      )

  pub start_built :
      (d : DclManager) → Done 0 (record { manager = prepare d c; previous_dcl = none; calls = [] })
  unfolding prepare
  start_built d = record {
    same = refl;
    pooled = refl;
    size = length-resize d.dcl_program_refs _ ∙ mod-eq_of_lt v.sendable.packets_in;
    fresh = λ e. refl;
    previous = λ j e. absurd (omega arith);
    first = λ h. absurd (omega arith);
    kept = λ j h. absurd (omega arith);
    linked = λ j h. absurd (omega arith);
    sends = λ g p hp h. absurd (omega arith);
  }
