-- ===== src/Transmit/Whole.antt =====
-- createDCLProgram and fixupDCLJumpTargets: the DCLs are one cycle through all packets.
use fire_wire_audio.Prelude.{
  ℕ, suc, ◌+◌, ◌-◌, ◌*◌, ◌%◌, ◌<◌, ◌≡◌, ◌≢◌, refl, ap, sym, ◌∙◌, true, false, ◌||◌, Option, none,
  some, [], ◌∷◌, ◌++◌, arith, leb, ◌==◌, if◌then◌else◌, inl, inr, length, eq-cases, get_or,
}
use fire_wire_audio.Prelude.Expected.{value, unexpected, busy, bad_argument}
use mathlib.Core.Path.{subst}
use native.Mathlib.Nat.{mod-eq_of_lt, mod_self}
use fire_wire_audio.Transmit.{TransmitterConfig}
use fire_wire_audio.Transmit.Buffers.{
  TransmitBuffers, packet_index, release, lay_out, assign_areas, setup_transmit_buffers,
}
use fire_wire_audio.Transmit.Slots.{
  IsSendable, packets_of, packet_in, setup_allots, allotted, allotted_pointers,
}
use fire_wire_audio.Transmit.Dcl.{
  DclManager, Building, Outcome, completed, and_then, create_groups, prepare, Created,
  notify_jump_modified, set_branch, finish_program, create_dcl_program,
}
use fire_wire_audio.Transmit.Updates.{fixup_dcl_jump_targets, get_dcl_ref}
use fire_wire_audio.Transmit.Cycle.{branch_of, ranges_of, has_callback, group_of}
use fire_wire_audio.Transmit.Loops.{groups_built, start_built}
use fire_wire_audio.Transmit.Packets.{IsReady, IsBuilt, SendsPacket, apart}

-- The state and the calls that a program is left with.
abbrev pub built_of : ℕ → Building → Created
built_of handle b = record {
  result = value handle;
  manager = record b.manager { last_dcl = b.previous_dcl; program_created = true };
  calls = b.calls;
}

-- The guards pass.
pub loops_run :
    (d : DclManager) (c : TransmitterConfig) (m : TransmitBuffers) (allocate : ℕ → Option ℕ)
    (program : Option ℕ)
    → d.program_created ≡ false
    → ((c.num_groups == 0) || (c.packets_per_group == 0)) ≡ false
    → create_dcl_program d c true m allocate program
      ≡ and_then
          (create_groups m allocate c.num_groups 0
            (record { manager = prepare d c; previous_dcl = none; calls = [] }))
          (finish_program program)
unfolding create_dcl_program
loops_run d c m allocate program e zeros =
    ap
      (λ t.
        if t
        then completed (record { result = unexpected busy; manager = d; calls = [] })
        else start)
      e
    ∙ ap
        (λ t.
          if t
          then completed (record {
            result = unexpected bad_argument;
            manager = record d { config = c; has_pool = true };
            calls = [];
          })
          else run)
        zeros
  where
    run : Outcome Created
    run =
        and_then
          (create_groups m allocate c.num_groups 0
            (record { manager = prepare d c; previous_dcl = none; calls = [] }))
          (finish_program program)

    start : Outcome Created
    start =
        if (c.num_groups == 0) || (c.packets_per_group == 0)
        then completed (record {
          result = unexpected bad_argument;
          manager = record d { config = c; has_pool = true };
          calls = [];
        })
        else run

module _ (c : TransmitterConfig) (m : TransmitBuffers) (allocate : ℕ → Option ℕ) (dcl : ℕ → ℕ) where
  -- What creating the program and fixing its last jump make of packet `p` of group `g`: the next DCL is
  -- the next packet's, the DCL sends the packet's header and payload and calls back when it should, and
  -- it is found under its group and place.
  abbrev pub GoesRound : Created → ℕ → ℕ → Type 0
  GoesRound r g p =
      let (reply, more) = fixup_dcl_jump_targets r.manager true 0 0 in
      let calls = more ++ r.calls in
      let i = g * c.packets_per_group + p in
      (reply ≡ value tt)
      × (branch_of calls (dcl i) ≡ some (dcl ((i + 1) % packets_of c)))
      × SendsPacket c m allocate dcl calls g p i
      × (get_dcl_ref r.manager g p ≡ some (dcl i))

module _ (c : TransmitterConfig) (m : TransmitBuffers) (allocate : ℕ → Option ℕ) (dcl : ℕ → ℕ)
    (v : IsReady c m allocate dcl) where
  abbrev Done : ℕ → Building → Type 0
  Done i b = IsBuilt c m allocate dcl i b

  pub creates :
      (d : DclManager) (handle : ℕ)
      → d.program_created ≡ false
      → (b : Building) × (create_dcl_program d c true m allocate (some handle)
          ≡ completed (built_of handle b))
        × Done (packets_of c) b
  unfolding create_dcl_program finish_program
  creates d handle e =
      let (b, made, built) =
        groups_built c m allocate dcl v c.num_groups 0
          (record { manager = prepare d c; previous_dcl = none; calls = [] }) (omega arith)
          (subst (λ i. Done i (record { manager = prepare d c; previous_dcl = none; calls = [] }))
            (omega arith) (start_built c m allocate dcl v d)) in
      let zeros : ((c.num_groups == 0) || (c.packets_per_group == 0)) ≡ false =
        ground (arith, v.sendable.some_groups, v.sendable.some_packets) in
      (
        b,
        loops_run d c m allocate (some handle) e zeros
            ∙ ap (λ o. and_then o (finish_program (some handle))) made,
        built,
      )

  -- The last DCL after the jump is fixed.
  next_of :
      (i : ℕ) (b : Building)
      → Done (packets_of c) b
      → i < packets_of c
      → (if dcl (packets_of c - 1) == dcl i then some (dcl 0) else branch_of b.calls (dcl i))
        ≡ some (dcl ((i + 1) % packets_of c))
  next_of i b built h = elim (eq-cases (suc i) (packets_of c)) [
    | inl e ↦
        let here : packets_of c - 1 ≡ i = omega arith in
        let same : (dcl (packets_of c - 1) == dcl i) ≡ true = rw here (ground arith) in
        let round : (i + 1) % packets_of c ≡ 0 =
          ap (λ n. n % packets_of c) {x = i + 1} {y = packets_of c} (omega arith)
          ∙ mod_self (packets_of c) in
        rw (same, round) refl
    | inr ne ↦
        let other : dcl (packets_of c - 1) ≢ dcl i =
          apart c m allocate dcl (packets_of c - 1) i v (omega arith) h (λ e. omega arith) in
        let same : (dcl (packets_of c - 1) == dcl i) ≡ false = ground arith in
        let round : (i + 1) % packets_of c ≡ suc i = mod-eq_of_lt (omega arith) ∙ omega arith in
        rw (same, round) (built.linked i (omega arith))
  ]

  some_packets : 0 < packets_of c
  some_packets =
      let inside = (packet_in c 0 0 v.sendable v.sendable.some_groups v.sendable.some_packets).1 in
      omega (arith, inside)

  pub fixes :
      (b : Building) (handle : ℕ)
      → Done (packets_of c) b
      → fixup_dcl_jump_targets (built_of handle b).manager true 0 0 ≡ (
        value tt,
        notify_jump_modified (dcl (packets_of c - 1))
            ∷ set_branch (dcl (packets_of c - 1)) (dcl 0)
            ∷ [],
      )
  unfolding fixup_dcl_jump_targets
  fixes b handle built =
      rw
        (
          fixup_dcl_jump_targets,
          built.pooled,
          built.first some_packets,
          built.previous (packets_of c - 1) (omega (arith, some_packets)),
        )
        refl

  pub finds :
      (b : Building) (handle g p : ℕ)
      → Done (packets_of c) b
      → g < c.num_groups
      → p < c.packets_per_group
      → get_dcl_ref (built_of handle b).manager g p ≡ some (dcl (g * c.packets_per_group + p))
  unfolding get_dcl_ref
  finds b handle g p built hg hp =
      let (index, inside) = packet_in c g p v.sendable hg hp in
      let index' : packet_index b.manager.config g p ≡ g * c.packets_per_group + p =
        ap (λ x. packet_index x g p) built.same ∙ index in
      let held : leb (length b.manager.dcl_program_refs) (g * c.packets_per_group + p) ≡ false =
        ground (arith, built.size) in
      ap
        (λ i.
          if leb (length b.manager.dcl_program_refs) i
          then none
          else get_or b.manager.dcl_program_refs i none)
        index'
      ∙ ap
          (λ t.
            if t
            then none
            else get_or b.manager.dcl_program_refs (g * c.packets_per_group + p) none)
          held
      ∙ built.kept _ inside

  pub ready_cycles :
      (d : DclManager) (handle g p : ℕ)
      → d.program_created ≡ false
      → g < c.num_groups
      → p < c.packets_per_group
      → (r : Created) × (create_dcl_program d c true m allocate (some handle) ≡ completed r)
        × (r.result ≡ value handle)
        × GoesRound c m allocate dcl r g p
  unfolding branch_of ranges_of has_callback group_of
  ready_cycles d handle g p e hg hp =
      let (b, made, built) = creates d handle e in
      let inside = (packet_in c g p v.sendable hg hp).1 in
      let sent = built.sends g p hp inside in
      (
        built_of handle b,
        made,
        refl,
        rw (fixes b handle built) (
          refl,
          next_of _ b built inside,
          record { ranges = sent.ranges; callback = sent.callback; group = sent.group },
          finds b handle g p built hg hp,
        ),
      )

-- What a pool documents: it gives a DCL for every packet, a new one each time.
pub record IsPool (c : TransmitterConfig) (allocate : ℕ → Option ℕ) (dcl : ℕ → ℕ) : Type 0 where
  pub gives : (i : ℕ) → i < packets_of c → allocate i ≡ some (dcl i)
  pub new : (i j : ℕ) → i < packets_of c → j < packets_of c → dcl i ≡ dcl j → i ≡ j

pub some_room : (c : TransmitterConfig) → IsSendable c → 0 < c.client_buffer_size
some_room c v = omega (arith, v.room, (packet_in c 0 0 v v.some_groups v.some_packets).1)

pub allotted-IsReady :
    (page a : ℕ) (m : TransmitBuffers) (c : TransmitterConfig) (allocate : ℕ → Option ℕ)
    (dcl : ℕ → ℕ)
    → IsSendable c
    → 0 < a
    → IsPool c allocate dcl
    → IsReady c (allotted page m c a) allocate dcl
unfolding assign_areas lay_out
allotted-IsReady page a m c allocate dcl v ha pool = record {
  sendable = v;
  client = some_room c v;
  found = λ g p hg hp. allotted_pointers page a m c g p v ha hg hp;
  allocates = pool.gives;
  distinct = pool.new;
}

-- The transmitter sets its buffers up, creates the program in them and fixes the last jump. When the
-- configuration is sendable and the memory and the DCLs are given, all of it succeeds, and from then on
-- the DCLs form one cycle through all packets in their order: each jumps to the next packet's and the
-- last to the first, sends its own CIP header and payload, is found under its group and place, and
-- calls back with its group when it is the last of a group whose turn it is.
pub program_cycles :
    (page a : ℕ) (vm_allocate allocate : ℕ → Option ℕ) (m : TransmitBuffers) (c : TransmitterConfig)
    (d : DclManager) (dcl : ℕ → ℕ) (handle g p : ℕ)
    → IsSendable c
    → 0 < a
    → vm_allocate (lay_out page (record ((release m).1) { config = c })).total_buffer_size ≡ some a
    → IsPool c allocate dcl
    → d.program_created ≡ false
    → g < c.num_groups
    → p < c.packets_per_group
    → let m' = (setup_transmit_buffers page vm_allocate m c).buffers in
      (r : Created) × (create_dcl_program d c true m' allocate (some handle) ≡ completed r)
      × (r.result ≡ value handle)
      × GoesRound c m' allocate dcl r g p
program_cycles page a vm_allocate allocate m c d dcl handle g p v ha got pool e hg hp =
    subst
      (λ m'.
        (r : Created) × (create_dcl_program d c true m' allocate (some handle) ≡ completed r)
        × (r.result ≡ value handle)
        × GoesRound c m' allocate dcl r g p)
      (sym (setup_allots page a vm_allocate m c v got).1)
      (ready_cycles c (allotted page m c a) allocate dcl
        (allotted-IsReady page a m c allocate dcl v ha pool) d handle g p e hg hp)
