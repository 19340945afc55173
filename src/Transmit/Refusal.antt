-- ===== src/Transmit/Refusal.antt =====
-- createDCLProgram when the pool refuses a DCL: the error path calls `reset`, which takes the lock
-- that createDCLProgram holds.
use fire_wire_audio.Prelude.{
  ℕ, zero, suc, ◌+◌, ◌*◌, ◌≤◌, ◌<◌, ◌≡◌, refl, ap, ◌∙◌, ◌⊎◌, inl, inr, true, false, ◌||◌, Option,
  none, some, arith, ◌==◌, eq-cases, Option-cases,
}
use fire_wire_audio.Transmit.{TransmitterConfig}
use fire_wire_audio.Transmit.Buffers.{TransmitBuffers, assign_areas, lay_out}
use fire_wire_audio.Transmit.Slots.{IsSendable, pointers_of, allotted, allotted_pointers}
use fire_wire_audio.Transmit.Dcl.{
  DclManager, Building, Outcome, completed, self_deadlock, and_then, packet_pointers, add_packet,
  create_packet, create_packets, begin_group, create_groups, prepare, finish_program,
  create_dcl_program,
}
use fire_wire_audio.Transmit.Whole.{loops_run, some_room}
use fire_wire_audio.Transmit.Packets.{packet_added, packet_outcome}

module _ (c : TransmitterConfig) (m : TransmitBuffers) (allocate : ℕ → Option ℕ) (v : IsSendable c)
    (client : 0 < m.config.client_buffer_size)
    (found : (g p : ℕ)
      → g < c.num_groups
      → p < c.packets_per_group
      → packet_pointers m (g * c.packets_per_group + p) g p
        ≡ some (pointers_of m (g * c.packets_per_group + p) g)) where
  -- A loop goes on with the same configuration, or waits for ever.
  GoesOnOrWaits : Outcome Building → Type 0
  GoesOnOrWaits o =
      ((b : Building) × (o ≡ completed b) × (b.manager.config ≡ c)) ⊎ (o ≡ self_deadlock)

  one_packet :
      (g p : ℕ) (b : Building)
      → g < c.num_groups
      → p < c.packets_per_group
      → b.manager.config ≡ c
      → GoesOnOrWaits (create_packet m allocate g p b)
  unfolding add_packet GoesOnOrWaits
  one_packet g p b hg hp same =
      let made = packet_outcome c m allocate g p b v client (found g p hg hp) hg hp same in
      elim (Option-cases (allocate (g * c.packets_per_group + p))) [
        | inl none_left ↦ inr (made ∙ ap (packet_added m _ g p b) none_left)
        | inr (d, given) ↦ inl (_, made ∙ ap (packet_added m _ g p b) given, same)
      ]

  refused_packet :
      (g p : ℕ) (b : Building)
      → g < c.num_groups
      → p < c.packets_per_group
      → b.manager.config ≡ c
      → allocate (g * c.packets_per_group + p) ≡ none
      → create_packet m allocate g p b ≡ self_deadlock
  refused_packet g p b hg hp same refused =
      packet_outcome c m allocate g p b v client (found g p hg hp) hg hp same
      ∙ ap (packet_added m _ g p b) refused

  packets_go_on :
      (g n p : ℕ) (b : Building)
      → g < c.num_groups
      → p + n ≤ c.packets_per_group
      → b.manager.config ≡ c
      → GoesOnOrWaits (create_packets m allocate g n p b)
  unfolding create_packets GoesOnOrWaits
  packets_go_on g zero p b hg hp same = inl (b, refl, same)
  packets_go_on g (suc n) p b hg hp same = elim (one_packet g p b hg (omega arith) same) [
    | inl (b', e, same') ↦ rw e (packets_go_on g n (p + 1) b' hg (omega arith) same')
    | inr e ↦ inr (ap (λ o. and_then o (λ x. create_packets m allocate g n (p + 1) x)) e)
  ]

  refused_packets :
      (g n p q : ℕ) (b : Building)
      → g < c.num_groups
      → p + n ≤ c.packets_per_group
      → b.manager.config ≡ c
      → p ≤ q
      → q < p + n
      → allocate (g * c.packets_per_group + q) ≡ none
      → create_packets m allocate g n p b ≡ self_deadlock
  unfolding create_packets GoesOnOrWaits
  refused_packets g zero p q b hg hp same low high refused = absurd (omega arith)
  refused_packets g (suc n) p q b hg hp same low high refused = elim (eq-cases p q) [
    | inl e ↦
        ap (λ o. and_then o (λ x. create_packets m allocate g n (p + 1) x))
          (refused_packet g p b hg (omega arith) same
            (ap (λ k. allocate (g * c.packets_per_group + k)) e ∙ refused))
    | inr ne ↦ elim (one_packet g p b hg (omega arith) same) [
      | inl (b', e, same') ↦
          ap (λ o. and_then o (λ x. create_packets m allocate g n (p + 1) x)) e
          ∙ refused_packets g n (p + 1) q b' hg (omega arith) same' (omega arith) (omega arith)
              refused
      | inr e ↦ ap (λ o. and_then o (λ x. create_packets m allocate g n (p + 1) x)) e
    ]
  ]

  -- The body of the outer loop.
  group_step : ℕ → ℕ → Building → Outcome Building
  group_step n g b =
      and_then (create_packets m allocate g c.packets_per_group 0 (begin_group g b))
        (λ x. create_groups m allocate n (g + 1) x)

  group_counts :
      (n g : ℕ) (b : Building)
      → b.manager.config ≡ c
      → create_groups m allocate (suc n) g b ≡ group_step n g b
  unfolding create_groups group_step
  group_counts n g b same =
      ap
        (λ k.
          and_then (create_packets m allocate g k 0 (begin_group g b))
            (λ x. create_groups m allocate n (g + 1) x))
        (ap (λ x. x.packets_per_group) same)

  refused_groups :
      (n g h q : ℕ) (b : Building)
      → g + n ≤ c.num_groups
      → b.manager.config ≡ c
      → g ≤ h
      → h < g + n
      → q < c.packets_per_group
      → allocate (h * c.packets_per_group + q) ≡ none
      → create_groups m allocate n g b ≡ self_deadlock
  unfolding group_step begin_group GoesOnOrWaits
  refused_groups zero g h q b hn same low high hq refused = absurd (omega arith)
  refused_groups (suc n) g h q b hn same low high hq refused =
      group_counts n g b same ∙ elim (eq-cases g h) [
        | inl e ↦
            ap (λ o. and_then o (λ x. create_groups m allocate n (g + 1) x))
              (refused_packets g c.packets_per_group 0 q (begin_group g b) (omega arith)
                (omega arith) same (omega arith) (omega arith)
                (ap (λ k. allocate (k * c.packets_per_group + q)) e ∙ refused))
        | inr ne ↦
            elim (packets_go_on g c.packets_per_group 0 (begin_group g b) (omega arith)
              (omega arith) same) [
                | inl (b', e, same') ↦
                    ap (λ o. and_then o (λ x. create_groups m allocate n (g + 1) x)) e
                    ∙ refused_groups n (g + 1) h q b' (omega arith) same' (omega arith)
                        (omega arith) hq refused
                | inr e ↦ ap (λ o. and_then o (λ x. create_groups m allocate n (g + 1) x)) e
              ]
      ]

-- When the pool refuses any one DCL, creating the program in buffers that are set up does not report
-- the lack of memory: it waits for its own lock.
pub refusal_deadlocks :
    (page a : ℕ) (allocate : ℕ → Option ℕ) (program : Option ℕ) (m : TransmitBuffers)
    (c : TransmitterConfig) (d : DclManager) (g p : ℕ)
    → IsSendable c
    → 0 < a
    → d.program_created ≡ false
    → g < c.num_groups
    → p < c.packets_per_group
    → allocate (g * c.packets_per_group + p) ≡ none
    → create_dcl_program d c true (allotted page m c a) allocate program ≡ self_deadlock
unfolding assign_areas lay_out prepare
refusal_deadlocks page a allocate program m c d g p v ha fresh hg hp refused =
    let zeros : ((c.num_groups == 0) || (c.packets_per_group == 0)) ≡ false =
      ground (arith, v.some_groups, v.some_packets) in
    loops_run d c (allotted page m c a) allocate program fresh zeros
    ∙ ap (λ o. and_then o (finish_program program))
        (refused_groups c (allotted page m c a) allocate v (some_room c v)
          (λ h q hh hq. allotted_pointers page a m c h q v ha hh hq) c.num_groups 0 g p _
          (omega arith) refl (omega arith) (omega arith) hp refused)
