-- ===== src/Receive/Whole.antt =====
-- createDCLProgram and fixupDCLJumpTargets of the receiver together.
use fire_wire_audio.Prelude.{
  ℕ, zero, suc, ◌+◌, ◌-◌, ◌*◌, ◌%◌, ◌<◌, ◌≡◌, ◌≢◌, refl, ap, ◌∙◌, true, false, ◌||◌, Option, none,
  some, [], ◌∷◌, ◌++◌, arith, ◌==◌, if◌then◌else◌, inl, inr, eq-cases,
}
use fire_wire_audio.Prelude.Expected.{value}
use native.Mathlib.Nat.{mod-eq_of_lt, mod_self}
use fire_wire_audio.Prelude.Layout.{index_bound}
use fire_wire_audio.Transmit.Dcl.{completed, resize}
use fire_wire_audio.Receive.{BufferManager}
use fire_wire_audio.Receive.Dcl.{
  set_branch, notify_jump, ReceivePointers, ReceiveDcl, LaidProgram, finish_receive, number_groups,
  create_receive_program, fixup_receive_jump, lay_groups,
}
use fire_wire_audio.Receive.Program.{Equips, calls_after, laid_after, groups_laid}
use fire_wire_audio.Receive.Cycle.{
  next_dcl, received_ranges, calls_back, told_group, Receives, apart, settled, linked,
}

module _ (d : ReceiveDcl) (m : BufferManager) (allocate : ℕ → Option ℕ) (at : ℕ → ReceivePointers)
    (dcl : ℕ → ℕ) (v : Equips d.config m allocate at dcl) where
  abbrev n : ℕ
  n = d.config.num_groups * d.config.packets_per_group

  some_packets : 0 < n
  some_packets = omega (
    arith,
    index_bound d.config.num_groups d.config.packets_per_group 0 0 v.some_groups v.some_packets,
  )

  -- What is left once the program is made.
  abbrev made : ℕ → LaidProgram
  made handle = record {
    result = value handle;
    manager = record d {
      group_infos = number_groups d.config.num_groups 0 (resize d.group_infos d.config.num_groups);
      first_dcl = some (dcl 0);
      last_dcl = some (dcl (n - 1));
      program_created = true;
    };
    calls = calls_after d.config m at dcl n;
  }

  all_laid :
      lay_groups d.config m allocate d.config.num_groups 0
        (record { first = d.first_dcl; previous = none; calls = [] })
      ≡ completed (laid_after d.config m at dcl d.first_dcl n)
  all_laid =
      ap
        (λ i.
          lay_groups d.config m allocate d.config.num_groups 0
            (laid_after d.config m at dcl d.first_dcl i))
        {x = 0} {y = 0 * d.config.packets_per_group} (omega arith)
      ∙ groups_laid d.config m allocate at dcl v d.first_dcl d.config.num_groups 0 (omega arith)
      ∙ ap
          (λ g.
            completed (laid_after d.config m at dcl d.first_dcl (g * d.config.packets_per_group)))
          {x = 0 + d.config.num_groups} {y = d.config.num_groups} (omega arith)

  laid_last :
      (i : ℕ)
      → 0 < i
      → laid_after d.config m at dcl d.first_dcl i ≡ record {
        first = some (dcl 0);
        previous = some (dcl (i - 1));
        calls = calls_after d.config m at dcl i;
      }
  laid_last zero h = elim h [ ]
  laid_last (suc i) h =
      ap
        (λ j. record {
          first = some (dcl 0);
          previous = some (dcl j);
          calls = calls_after d.config m at dcl (suc i);
        })
        {x = i} {y = suc i - 1} (omega arith)

  creates :
      (handle : ℕ)
      → d.has_pool ≡ true
      → d.program_created ≡ false
      → create_receive_program d m allocate (some handle) ≡ completed (made handle)
  unfolding create_receive_program finish_receive
  creates handle pooled fresh =
      let zeros : ((d.config.num_groups == 0) || (d.config.packets_per_group == 0)) ≡ false =
        ground (arith, v.some_groups, v.some_packets) in
      rw (create_receive_program, fresh, pooled, zeros, all_laid, laid_last n some_packets) refl

  fixes :
      (handle : ℕ)
      → fixup_receive_jump (made handle).manager true ≡ (
        value tt,
        notify_jump (dcl (n - 1)) ∷ set_branch (dcl (n - 1)) (dcl 0) ∷ [],
        record (made handle).manager { current_segment = 0 },
      )
  unfolding fixup_receive_jump
  fixes handle = refl

  next_of :
      (i : ℕ)
      → i < n
      → (if dcl (n - 1) == dcl i
          then some (dcl 0)
          else next_dcl (calls_after d.config m at dcl n) (dcl i))
        ≡ some (dcl ((i + 1) % n))
  next_of i h = elim (eq-cases (suc i) n) [
    | inl e ↦
        let here : n - 1 ≡ i = omega arith in
        let same : (dcl (n - 1) == dcl i) ≡ true = rw here (ground arith) in
        let round : (i + 1) % n ≡ 0 =
          ap (λ j. j % n) {x = i + 1} {y = n} (omega arith) ∙ mod_self n in
        rw (same, round) refl
    | inr ne ↦
        let other : dcl (n - 1) ≢ dcl i =
          apart d.config m allocate at dcl v (n - 1) i (omega arith) h (λ e. omega arith) in
        let same : (dcl (n - 1) == dcl i) ≡ false = ground arith in
        let round : (i + 1) % n ≡ suc i = mod-eq_of_lt (omega arith) ∙ omega arith in
        rw (same, round) (linked d.config m allocate at dcl v n i (omega arith) (omega arith))
  ]

-- A receiver that has its pool and no program yet, whose buffers have a place for every packet and whose
-- pool gives a new DCL for each: its program is created, its last jump is fixed, and then the DCLs form
-- one cycle through all packets in their order. Each receives into its own packet's headers and payload
-- and jumps to the next packet's, the last to the first, and calls back with its group exactly when it
-- is the last of a group whose turn it is.
pub packets_cycle :
    (d : ReceiveDcl) (m : BufferManager) (allocate : ℕ → Option ℕ) (at : ℕ → ReceivePointers)
    (dcl : ℕ → ℕ) (handle i : ℕ)
    → Equips d.config m allocate at dcl
    → d.has_pool ≡ true
    → d.program_created ≡ false
    → i < d.config.num_groups * d.config.packets_per_group
    → (r : LaidProgram) × (create_receive_program d m allocate (some handle) ≡ completed r)
      × (r.result ≡ value handle)
      × (let (reply, more, d') = fixup_receive_jump r.manager true in
          (reply ≡ value tt)
          × (next_dcl (more ++ r.calls) (dcl i)
              ≡ some (dcl ((i + 1) % (d.config.num_groups * d.config.packets_per_group))))
          × Receives d.config m (at i) (more ++ r.calls) i (dcl i))
unfolding next_dcl received_ranges calls_back told_group
packets_cycle d m allocate at dcl handle i v pooled fresh h =
    let n = d.config.num_groups * d.config.packets_per_group in
    let kept = settled d.config m allocate at dcl v n i h (omega arith) in
    (
      made d m allocate at dcl v handle,
      creates d m allocate at dcl v handle pooled fresh,
      refl,
      rw (fixes d m allocate at dcl v handle) (
        refl,
        next_of d m allocate at dcl v i h,
        record { ranges = kept.ranges; callback = kept.callback; group = kept.group },
      ),
    )
