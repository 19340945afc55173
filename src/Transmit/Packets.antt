-- ===== src/Transmit/Packets.antt =====
-- createDCLProgram, packet by packet.
use fire_wire_audio.Prelude.{
  ℕ, suc, ◌+◌, ◌-◌, ◌*◌, ◌/◌, ◌<◌, ◌≡◌, ◌≢◌, refl, ap, sym, ◌∙◌, true, false, Option, none, some,
  List, arith, ◌==◌, if◌then◌else◌, length, get_or, get_or-set_self, get_or-set_ne, eq-cases,
  length-set, inl, inr,
}
use mathlib.Core.Path.{subst}
use native.Mathlib.Nat.{mul-add-div_right, div-eq_of_lt}
use fire_wire_audio.Transmit.{TransmitterConfig}
use fire_wire_audio.Transmit.Buffers.{TransmitBuffers, packet_index}
use fire_wire_audio.Transmit.Slots.{IsSendable, pointers_of, packets_of, packet_in}
use fire_wire_audio.Transmit.Dcl.{
  PoolCall, packet_pointers, packet_calls, Building, Outcome, completed, self_deadlock,
  division_by_zero, add_packet, create_packet,
}
use fire_wire_audio.Transmit.Cycle.{branch_of, Sends, own, others, own_branch, other_branch}

same_packet : (k g p h q : ℕ) → p < k → q < k → h * k + q ≡ g * k + p → (h ≡ g) × (q ≡ p)
same_packet k g p h q hp hq e =
    let whole : h ≡ g = omega (
      arith,
      ap (λ x. x / k) e,
      mul-add-div_right {m = k} (omega arith) h q,
      mul-add-div_right {m = k} (omega arith) g p,
      div-eq_of_lt hp,
      div-eq_of_lt hq,
    ) in
    (whole, omega (arith, ap (λ x. x * k) whole))

some_injective : {x y : ℕ} → some x ≡ some y → x ≡ y
some_injective {x = x} e = ap (λ o. elim o [ none ↦ x | some z ↦ z ]) e

-- The packet that the pool's answer makes.
abbrev pub packet_added : TransmitBuffers → ℕ → ℕ → ℕ → Building → Option ℕ → Outcome Building
packet_added m i g p b answer = elim answer [
  | none ↦ self_deadlock
  | some d ↦ completed (add_packet m i g p (pointers_of m i g) d b)
]

-- Where the pointers are found, a packet depends on the pool alone.
pub packet_outcome :
    (c : TransmitterConfig) (m : TransmitBuffers) (allocate : ℕ → Option ℕ) (g p : ℕ) (b : Building)
    → IsSendable c
    → 0 < m.config.client_buffer_size
    → packet_pointers m (g * c.packets_per_group + p) g p
      ≡ some (pointers_of m (g * c.packets_per_group + p) g)
    → g < c.num_groups
    → p < c.packets_per_group
    → b.manager.config ≡ c
    → create_packet m allocate g p b
      ≡ packet_added m (g * c.packets_per_group + p) g p b (allocate (g * c.packets_per_group + p))
unfolding create_packet
packet_outcome c m allocate g p b v client found hg hp same =
    let index : packet_index b.manager.config g p ≡ g * c.packets_per_group + p =
      ap (λ x. packet_index x g p) same ∙ (packet_in c g p v hg hp).0 in
    let divides : (m.config.client_buffer_size == 0) ≡ false = ground (arith, client) in
    let interval : (b.manager.config.callback_group_interval == 0) ≡ false =
      ap (λ x. x.callback_group_interval == 0) same ∙ ground (arith, v.some_interval) in
    rw (create_packet, divides, ap (λ i. packet_pointers m i g p) index ∙ found)
      (ap
          (λ t. elim (allocate (packet_index b.manager.config g p)) as (λ x. Outcome Building) [
            | none ↦ self_deadlock
            | some d ↦
                if t
                then division_by_zero
                else completed (
                    add_packet m (packet_index b.manager.config g p) g p
                      (pointers_of m (g * c.packets_per_group + p) g) d b)
          ])
          interval
        ∙ ap
            (λ i. elim (allocate i) as (λ x. Outcome Building) [
              | none ↦ self_deadlock
              | some d ↦
                  completed (add_packet m i g p (pointers_of m (g * c.packets_per_group + p) g) d b)
            ])
            index)

-- The buffers give every packet its pointers, and the pool gives every packet a DCL of its own.
pub record IsReady (c : TransmitterConfig) (m : TransmitBuffers) (allocate : ℕ → Option ℕ)
    (dcl : ℕ → ℕ) : Type 0 where
  pub sendable : IsSendable c
  pub client : 0 < m.config.client_buffer_size
  pub found :
      (g p : ℕ)
      → g < c.num_groups
      → p < c.packets_per_group
      → packet_pointers m (g * c.packets_per_group + p) g p
        ≡ some (pointers_of m (g * c.packets_per_group + p) g)
  pub allocates : (i : ℕ) → i < packets_of c → allocate i ≡ some (dcl i)
  pub distinct : (i j : ℕ) → i < packets_of c → j < packets_of c → dcl i ≡ dcl j → i ≡ j

module _ (c : TransmitterConfig) (m : TransmitBuffers) (allocate : ℕ → Option ℕ) (dcl : ℕ → ℕ) where
  -- What packet `p` of group `g` sends, whose index is `i`.
  abbrev pub SendsPacket : List PoolCall → ℕ → ℕ → ℕ → Type 0
  SendsPacket calls g p i =
      Sends c m.audio_payload_size_per_packet (pointers_of m i g) g p calls (dcl i)

  -- The first `i` packets are done.
  pub record IsBuilt (i : ℕ) (b : Building) : Type 0 where
    pub same : b.manager.config ≡ c
    pub pooled : b.manager.has_pool ≡ true
    pub size : length b.manager.dcl_program_refs ≡ packets_of c
    pub fresh : i ≡ 0 → b.previous_dcl ≡ none
    pub previous : (j : ℕ) → suc j ≡ i → b.previous_dcl ≡ some (dcl j)
    pub first : 0 < i → b.manager.first_dcl ≡ some (dcl 0)
    pub kept : (j : ℕ) → j < i → get_or b.manager.dcl_program_refs j none ≡ some (dcl j)
    pub linked : (j : ℕ) → suc j < i → branch_of b.calls (dcl j) ≡ some (dcl (suc j))
    pub sends :
        (g p : ℕ)
        → p < c.packets_per_group
        → g * c.packets_per_group + p < i
        → SendsPacket b.calls g p (g * c.packets_per_group + p)

  -- The program's state after one more packet.
  abbrev pub after : ℕ → ℕ → Building → Building
  after g p b =
      let i = g * c.packets_per_group + p in add_packet m i g p (pointers_of m i g) (dcl i) b

  pub creates_packet :
      (g p : ℕ) (b : Building)
      → IsReady c m allocate dcl
      → g < c.num_groups
      → p < c.packets_per_group
      → b.manager.config ≡ c
      → create_packet m allocate g p b ≡ completed (after g p b)
  creates_packet g p b v hg hp same =
      packet_outcome c m allocate g p b v.sendable v.client (v.found g p hg hp) hg hp same
      ∙ ap (λ o. packet_added m (g * c.packets_per_group + p) g p b o)
          (v.allocates _ (packet_in c g p v.sendable hg hp).1)

  keeps_first :
      (i : ℕ) (b : Building)
      → IsBuilt i b
      → (if i == 0 then some (dcl i) else b.manager.first_dcl) ≡ some (dcl 0)
  keeps_first i b built = elim (eq-cases i 0) [
    | inl e ↦ rw e refl
    | inr ne ↦ ground (arith, built.first (omega arith))
  ]

  pub apart :
      (i j : ℕ)
      → IsReady c m allocate dcl
      → i < packets_of c
      → j < packets_of c
      → i ≢ j
      → dcl i ≢ dcl j
  apart i j v hi hj ne e = ne (v.distinct i j hi hj e)

  pub keeps :
      (g p : ℕ) (b : Building)
      → IsReady c m allocate dcl
      → g < c.num_groups
      → p < c.packets_per_group
      → IsBuilt (g * c.packets_per_group + p) b
      → IsBuilt (suc (g * c.packets_per_group + p)) (after g p b)
  unfolding add_packet
  keeps g p b v hg hp built =
      let i : ℕ = g * c.packets_per_group + p in
      let inside : i < packets_of c = (packet_in c g p v.sendable hg hp).1 in
      record {
        same = built.same;
        pooled = built.pooled;
        size = length-set b.manager.dcl_program_refs i (some (dcl i)) ∙ built.size;
        fresh = λ e. absurd (omega arith);
        previous = λ j e. ap (λ x. some (dcl x)) (omega arith);
        first = λ h. keeps_first i b built;
        kept = λ j h. elim (eq-cases i j) [
          | inl e ↦ rw⁻¹ e (
              get_or-set_self b.manager.dcl_program_refs i (some (dcl i)) none
                (omega (arith, built.size)))
          | inr ne ↦
              get_or-set_ne b.manager.dcl_program_refs i j (some (dcl i)) none ne
              ∙ built.kept j (omega arith)
        ];
        linked = λ j h. elim (eq-cases (suc j) i) [
          | inl e ↦
              ap
                (λ q.
                  branch_of
                    (packet_calls b.manager.config m.audio_payload_size_per_packet
                      (pointers_of m i g) (dcl i) g p q b.calls)
                    (dcl j))
                (built.previous j e)
              ∙ own_branch b.manager.config m.audio_payload_size_per_packet (pointers_of m i g)
                  (dcl i) g p b.calls (dcl j)
              ∙ ap (λ x. some (dcl x)) (sym e)
          | inr ne ↦
              let last : b.previous_dcl ≡ some (dcl (i - 1)) =
                built.previous (i - 1) (omega arith) in
              let other : dcl (i - 1) ≢ dcl j =
                apart (i - 1) j v (omega arith) (omega arith) (λ e. omega arith) in
              other_branch b.manager.config m.audio_payload_size_per_packet (pointers_of m i g)
                (dcl i) g p b.calls b.previous_dcl (dcl j)
                (apart i j v inside (omega arith) (λ e. omega arith))
                (λ e. other (some_injective (sym last ∙ e)))
              ∙ built.linked j (omega arith)
        ];
        sends = λ h q hq low. elim (eq-cases i (h * c.packets_per_group + q)) [
          | inl e ↦
              let (group, packet) = same_packet c.packets_per_group g p h q hp hq (sym e) in
              rw (group, packet)
                (subst
                  (λ x.
                    Sends x m.audio_payload_size_per_packet (pointers_of m i g) g p
                      (packet_calls b.manager.config m.audio_payload_size_per_packet
                        (pointers_of m i g) (dcl i) g p b.previous_dcl b.calls)
                      (dcl i))
                  built.same
                  (own b.manager.config m.audio_payload_size_per_packet (pointers_of m i g) (dcl i)
                    g p b.previous_dcl b.calls))
          | inr ne ↦
              others b.manager.config m.audio_payload_size_per_packet (pointers_of m i g) (dcl i) g
                p b.previous_dcl b.calls c _ h q _ (apart i _ v inside (omega arith) ne)
                (built.sends h q hq (omega arith))
        ];
      }
