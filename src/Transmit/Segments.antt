-- ===== src/Transmit/Segments.antt =====
-- A program that runs: new ranges for one packet, and the notice of one group.
use fire_wire_audio.Prelude.{
  ℕ, zero, suc, ◌+◌, ◌-◌, ◌*◌, ◌%◌, ◌^◌, ◌≤◌, ◌<◌, ◌≡◌, ◌≢◌, refl, ap, ap₂, sym, ◌∙◌, true, false,
  Option, none, some, List, [], ◌∷◌, ◌++◌, arith, leb, length, get_or,
}
use fire_wire_audio.Prelude.Expected.{value}
use mathlib.Core.Path.{subst}
use native.Mathlib.Nat.{mod-eq_of_lt}
use fire_wire_audio.Transmit.{TransmitterConfig}
use fire_wire_audio.Transmit.Buffers.{TransmitBuffers}
use fire_wire_audio.Transmit.Slots.{packets_of, packet_in}
use fire_wire_audio.Prelude.Layout.{index_bound}
use fire_wire_audio.Transmit.Dcl.{
  DclManager, VirtualRange, Building, completed, create_dcl_program, Created, notify_modified,
  set_dcl_ranges,
}
use fire_wire_audio.Transmit.Updates.{
  update_dcl_packet, refs_from, all_refs, notify_dcl_updates, notify_segment_update,
}
use fire_wire_audio.Transmit.Cycle.{branch_of, ranges_of}
use fire_wire_audio.Transmit.Packets.{IsReady, IsBuilt, apart}
use fire_wire_audio.Transmit.Whole.{built_of, creates, finds}

-- The DCLs from the one at `start` on.
abbrev pub dcls_from : (ℕ → ℕ) → ℕ → ℕ → List ℕ
dcls_from dcl start zero = []
dcls_from dcl start (suc n) = dcl start ∷ dcls_from dcl (start + 1) n

abbrev held_from : (ℕ → ℕ) → ℕ → ℕ → List (Option ℕ)
held_from dcl start zero = []
held_from dcl start (suc n) = some (dcl start) ∷ held_from dcl (start + 1) n

held_all :
    (dcl : ℕ → ℕ) (start n : ℕ) → all_refs (held_from dcl start n) ≡ some (dcls_from dcl start n)
held_all dcl start zero = refl
held_all dcl start (suc n) = rw (held_all dcl (start + 1) n) refl

refs_held :
    (refs : List (Option ℕ)) (dcl : ℕ → ℕ) (total start n : ℕ)
    → length refs ≡ total
    → total < 2 ^ 32
    → start + n ≤ total
    → ((i : ℕ) → i < total → get_or refs i none ≡ some (dcl i))
    → refs_from refs start n ≡ some (held_from dcl start n)
unfolding refs_from
refs_held refs dcl total start zero size small inside kept = refl
refs_held refs dcl total start (suc n) size small inside kept =
    let rest = refs_held refs dcl total (start + 1) n size small (omega arith) kept in
    let place : start % 2 ^ 32 ≡ start = mod-eq_of_lt (omega arith) in
    let here : leb (length refs) start ≡ false = ground arith in
    rw (place, here, rest)
      (ap (λ o. some (o ∷ held_from dcl (start + 1) n))
        (ap (λ k. get_or refs k none) place ∙ kept start (omega arith)))

held_reply :
    (dcl : ℕ → ℕ) (start n : ℕ)
    → notify_dcl_updates (held_from dcl start n) 0
      ≡ (value tt, notify_modified (dcls_from dcl start n) ∷ [])
unfolding notify_dcl_updates
held_reply dcl start n = rw (notify_dcl_updates, held_all dcl start n) refl

-- A group of at least one packet, all of whose DCLs are held.
group_reply :
    (d : DclManager) (g start n : ℕ) (dcl : ℕ → ℕ)
    → d.program_created ≡ true
    → g < d.config.num_groups
    → g * d.config.packets_per_group % 2 ^ 32 ≡ start
    → d.config.packets_per_group ≡ suc n
    → refs_from d.dcl_program_refs start (suc n) ≡ some (held_from dcl start (suc n))
    → notify_segment_update d true g 0
      ≡ (value tt, notify_modified (dcls_from dcl start (suc n)) ∷ [])
unfolding notify_segment_update
group_reply d g start n dcl created hg place count held =
    let group : leb d.config.num_groups g ≡ false = ground arith in
    let refs = ap₂ (refs_from d.dcl_program_refs) place count ∙ held in
    rw (notify_segment_update, created, group, refs) (held_reply dcl start (suc n))

module _ (c : TransmitterConfig) (m : TransmitBuffers) (allocate : ℕ → Option ℕ) (dcl : ℕ → ℕ)
    (v : IsReady c m allocate dcl) where
  group_inside :
      (g : ℕ) → g < c.num_groups → g * c.packets_per_group + c.packets_per_group ≤ packets_of c
  group_inside g hg =
      let last =
        index_bound c.num_groups c.packets_per_group g (c.packets_per_group - 1) hg
          (omega (arith, v.sendable.some_packets)) in
      omega (arith, last, v.sendable.some_packets)

  pub told :
      (b : Building) (handle g : ℕ)
      → IsBuilt c m allocate dcl (packets_of c) b
      → g < c.num_groups
      → notify_segment_update (built_of handle b).manager true g 0 ≡ (
        value tt,
        notify_modified (dcls_from dcl (g * c.packets_per_group) c.packets_per_group) ∷ [],
      )
  told b handle g built hg =
      let inside = group_inside g hg in
      let place : g * b.manager.config.packets_per_group % 2 ^ 32 ≡ g * c.packets_per_group =
        ap (λ x. g * x.packets_per_group % 2 ^ 32) built.same
        ∙ mod-eq_of_lt (omega (arith, v.sendable.packets_in, v.sendable.some_packets)) in
      let count : suc (c.packets_per_group - 1) ≡ c.packets_per_group =
        omega (arith, v.sendable.some_packets) in
      group_reply (built_of handle b).manager g (g * c.packets_per_group) (c.packets_per_group - 1)
        dcl refl (subst (λ x. g < x.num_groups) (sym built.same) hg) place
        (ap (λ x. x.packets_per_group) built.same ∙ sym count)
        (refs_held b.manager.dcl_program_refs dcl (packets_of c) (g * c.packets_per_group)
          (suc (c.packets_per_group - 1)) built.size v.sendable.packets_in (omega arith) built.kept)
      ∙ ap (λ n. (value tt, notify_modified (dcls_from dcl (g * c.packets_per_group) n) ∷ [])) count

  pub updated :
      (b : Building) (handle g p : ℕ) (ranges : List VirtualRange)
      → IsBuilt c m allocate dcl (packets_of c) b
      → g < c.num_groups
      → p < c.packets_per_group
      → update_dcl_packet (built_of handle b).manager g p ranges 0
        ≡ (value tt, set_dcl_ranges (dcl (g * c.packets_per_group + p)) ranges ∷ [])
  unfolding update_dcl_packet
  updated b handle g p ranges built hg hp =
      rw (update_dcl_packet, built.pooled, finds c m allocate dcl v b handle g p built hg hp) refl

-- In a program that was created in buffers and with a pool that gave what they were asked for, new
-- ranges for packet `p` of group `g` are accepted and change what that packet's DCL sends; the DCL of
-- any other packet keeps its ranges, and all keep their branches. A notice of group `g` then tells the
-- port of the DCLs of that group's packets, all of them and in their order.
pub update_and_notify :
    (c : TransmitterConfig) (m : TransmitBuffers) (allocate : ℕ → Option ℕ) (dcl : ℕ → ℕ)
    (d : DclManager) (handle g p j : ℕ) (ranges : List VirtualRange)
    → IsReady c m allocate dcl
    → d.program_created ≡ false
    → g < c.num_groups
    → p < c.packets_per_group
    → j < packets_of c
    → j ≢ g * c.packets_per_group + p
    → (r : Created) × (create_dcl_program d c true m allocate (some handle) ≡ completed r)
      × (let (reply, more) = update_dcl_packet r.manager g p ranges 0 in
          (reply ≡ value tt)
          × (ranges_of (more ++ r.calls) (dcl (g * c.packets_per_group + p)) ≡ ranges)
          × (ranges_of (more ++ r.calls) (dcl j) ≡ ranges_of r.calls (dcl j))
          × (branch_of (more ++ r.calls) ≡ branch_of r.calls))
      × (notify_segment_update r.manager true g 0 ≡ (
        value tt,
        notify_modified (dcls_from dcl (g * c.packets_per_group) c.packets_per_group) ∷ [],
      ))
unfolding ranges_of branch_of
update_and_notify c m allocate dcl d handle g p j ranges v e hg hp hj ne =
    let (b, made, built) = creates c m allocate dcl v d handle e in
    let other : dcl (g * c.packets_per_group + p) ≢ dcl j =
      apart c m allocate dcl _ j v ((packet_in c g p v.sendable hg hp).1) hj
        (λ same. ne (sym same)) in
    (
      built_of handle b,
      made,
      rw (updated c m allocate dcl v b handle g p ranges built hg hp)
          (refl, ground arith, ground arith, refl),
      told c m allocate dcl v b handle g built hg,
    )
