-- ===== src/AmdtpTransmitter/Group.antt =====
-- handleDCLComplete: the group after the completed one is made ready.
use fire_wire_audio.Prelude.{
  ℕ, zero, suc, ◌+◌, ◌*◌, ◌%◌, ◌^◌, ◌≤◌, ◌<◌, ◌≡◌, ◌≢◌, inl, inr, Bool-cases, leb, leb→le, get_or,
  refl, ap, ap₂, ◌∙◌, true, false, some, List, [], ◌∷◌, ◌++◌, map, ◌⊎◌, arith, length, take,
  replicate, length-take, min,
}
use mathlib.Core.List.{append_assoc}
use native.Mathlib.Nat.{mul-le-mul_right, add-mul}
use fire_wire_audio.Prelude.Layout.{index_bound}
use fire_wire_audio.Ring.Valid.{held}
use fire_wire_audio.Ring.Refine.{contents, length-contents}
use fire_wire_audio.Transmit.Dcl.{set_dcl_ranges, notify_modified, VirtualRange}
use fire_wire_audio.Transmit.Updates.{update_dcl_packet, notify_segment_update}
use fire_wire_audio.Transmit.Segments.{dcls_from}
use fire_wire_audio.Provider.{Provider, fill_packet_data, format_am824, pulled, silence}
use fire_wire_audio.Provider.Calls.{IsBalanced, fill_bytes_cases, fill-IsBalanced}
use fire_wire_audio.Transport
use fire_wire_audio.Cip.Transmitter.{header_bytes}
use fire_wire_audio.AmdtpTransmitter.{
  AmdtpTransmitter, Parts, Streams, PacketSlot, Event, dcl_called, next_streams, filled_packet,
  filled_packets, packet_slot, fill_slot, next_header,
}
use fire_wire_audio.AmdtpTransmitter.Dma.{
  Memory, isoch_bytes, memory_after, Areas, AreDisjoint, slot_at, Outside, IsSpared, audio-Outside,
  cip-Outside, slot_spares, slot_header, slot_audio,
}
use fire_wire_audio.AmdtpTransmitter.Wire.{
  WirePacket, wire_packets, sent_from, FillsWhole, made_packet, packet_header, packet_written,
  gathered-made, packet_memory, packet_ranges, notices_of, packet_not_noticed,
}

-- A transmitter that runs on a program: every packet has its own slot, which no other packet's runs
-- into, and its DCL, and the pool and the port know them.
pub record IsStreaming (t : AmdtpTransmitter) (parts : Parts) (dcl : ℕ → ℕ) : Type 0 where
  pub runs : t.running ≡ true
  pub managed : t.parts ≡ some parts
  pub listens : parts.dcl.has_complete_callback ≡ true
  pub on_air : parts.transport.state ≡ Transport.running
  pub port : (h : ℕ) × (parts.port.local_port ≡ some h)
  pub some_groups : 0 < t.config.num_groups
  pub payload : parts.buffers.audio_payload_size_per_packet ≡ 64
  pub areas : Areas
  pub disjoint : AreDisjoint areas (t.config.num_groups * t.config.packets_per_group)
  pub slots :
      (g p : ℕ)
      → g < t.config.num_groups
      → p < t.config.packets_per_group
      → packet_slot parts.buffers g p ((g * t.config.packets_per_group + p) % 2 ^ 32)
        ≡ some (slot_at areas (g * t.config.packets_per_group + p))
  pub updates :
      (g p reply : ℕ) (ranges : List VirtualRange)
      → g < t.config.num_groups
      → p < t.config.packets_per_group
      → (update_dcl_packet parts.dcl g p ranges reply).1
        ≡ set_dcl_ranges (dcl (g * t.config.packets_per_group + p)) ranges ∷ []
  pub notices :
      (g reply : ℕ)
      → g < t.config.num_groups
      → (notify_segment_update parts.dcl true g reply).1
        ≡ notify_modified
            (dcls_from dcl (g * t.config.packets_per_group) t.config.packets_per_group)
          ∷ []
  pub balanced : IsBalanced parts.provider

pub length-format : (xs : List ℕ) → length (format_am824 xs) ≡ length xs
unfolding format_am824
length-format [] = refl
length-format (a ∷ []) = refl
length-format (a ∷ b ∷ []) = refl
length-format (a ∷ b ∷ c ∷ []) = refl
length-format (a ∷ b ∷ c ∷ d ∷ rest) = omega (arith, length-format rest)

-- A slot of 64 bytes.
abbrev pub empty_slot : List ℕ
empty_slot = replicate 64 0

whole_or_silent :
    (p : Provider)
    → IsBalanced p
    → let f = fill_packet_data p (some empty_slot) in
      (length f.target ≡ 64)
      × ((f.result.generated_silence ≡ true)
          ⊎ ((f.result.generated_silence ≡ false) × (f.result.data_length ≡ 64)))
unfolding fill_packet_data pulled silence
whole_or_silent p v =
    let full : length (take 64 (contents p.audio_buffer)) ≡ min 64 (held p.audio_buffer) =
      length-take 64 (contents p.audio_buffer)
      ∙ ap (λ k. min 64 k) (length-contents p.audio_buffer) in
    rw (fill_bytes_cases p 64 v.ring (omega arith))
      (elim (Bool-cases (leb 64 (held p.audio_buffer))) [
        | inl e ↦
            let enough = leb→le 64 (held p.audio_buffer) e in
            rw e (
              length-format (take 64 (contents p.audio_buffer)) ∙ omega (arith, full),
              inr (refl, omega (arith, full)),
            )
        | inr e ↦ rw e (refl, inl refl)
      ])

-- The streams after some packets.
abbrev pub streams_after : AmdtpTransmitter → Parts → ℕ → Streams → Streams
streams_after t parts zero s = s
streams_after t parts (suc n) s = streams_after t parts n (next_streams t parts s)

module _ (t : AmdtpTransmitter) (parts : Parts) (dcl : ℕ → ℕ) where
  -- The packets that the streams make one after the other.
  abbrev pub made_packets : ℕ → ℕ → Streams → List WirePacket
  made_packets zero i s = []
  made_packets (suc n) i s =
      made_packet t parts (dcl i) s ∷ made_packets n (i + 1) (next_streams t parts s)

  fill_whole :
      (s : Streams)
      → parts.buffers.audio_payload_size_per_packet ≡ 64
      → IsBalanced s.provider
      → FillsWhole parts s
  fill_whole s payload v = rw payload (whole_or_silent s.provider v)

  pub next-IsBalanced :
      (s : Streams)
      → parts.buffers.audio_payload_size_per_packet ≡ 64
      → IsBalanced s.provider
      → IsBalanced (next_streams t parts s).provider
  next-IsBalanced s payload v = rw payload (fill-IsBalanced s.provider empty_slot v (omega arith))

  module _ (v : IsStreaming t parts dcl) (reply : ℕ → ℕ) (g : ℕ)
      (hg : g < t.config.num_groups) where
    abbrev k : ℕ
    k = t.config.packets_per_group

    abbrev slot : ℕ → PacketSlot
    slot p = slot_at v.areas (g * k + p)

    abbrev end : List ℕ → List Event
    end ds = map dcl_called (notify_modified ds ∷ [])

    group_step :
        (n p : ℕ) (s : Streams)
        → p < t.config.packets_per_group
        → let rest = filled_packets t parts reply g n (p + 1) (next_streams t parts s) in
          filled_packets t parts reply g (suc n) p s
          ≡ (filled_packet t parts (reply p) g p s (slot p) ++ rest.0, rest.1)
    unfolding filled_packets
    group_step n p s hp = rw (filled_packets, v.slots g p hg hp) refl

    packet_in_group : (p : ℕ) → p < t.config.packets_per_group → g * k + p < t.config.num_groups * k
    packet_in_group p hp = omega (arith, index_bound t.config.num_groups k g p hg hp)

    -- What a packet writes stays out of the other slots, and its own is filled.
    spared_once :
        (p b : ℕ) (s : Streams) (m : Memory)
        → length (fill_slot parts s).target ≡ 64
        → Outside v.areas b (g * k + p)
        → packet_written t parts s (slot p) m b ≡ m b
    unfolding header_bytes isoch_bytes
    spared_once p b s m size outside =
        slot_spares v.areas (g * k + p) m (fill_slot parts s).target
          (header_bytes (next_header t parts s).0) (isoch_bytes (packet_header t parts s)) size refl
          refl b outside

    -- The group lies within all packets.
    group_within : g * k + k ≤ t.config.num_groups * k
    group_within =
        omega (arith, mul-le-mul_right {m = suc g} {n = t.config.num_groups} k hg, add-mul g 1 k)

    own_header :
        (p x : ℕ) (s : Streams) (m : Memory)
        → p < t.config.packets_per_group
        → length (fill_slot parts s).target ≡ 64
        → x < 8
        → packet_written t parts s (slot p) m ((slot p).cip_header + x)
          ≡ get_or (header_bytes (next_header t parts s).0) x 0
    unfolding header_bytes isoch_bytes
    own_header p x s m hp size hx =
        slot_header v.areas (g * k + p) m (fill_slot parts s).target
          (header_bytes (next_header t parts s).0) (isoch_bytes (packet_header t parts s)) size refl
          refl _ x v.disjoint (packet_in_group p hp) hx

    own_audio :
        (p x : ℕ) (s : Streams) (m : Memory)
        → p < t.config.packets_per_group
        → length (fill_slot parts s).target ≡ 64
        → x < 64
        → packet_written t parts s (slot p) m ((slot p).audio_data + x)
          ≡ get_or (fill_slot parts s).target x 0
    unfolding header_bytes isoch_bytes
    own_audio p x s m hp size hx =
        slot_audio v.areas (g * k + p) m (fill_slot parts s).target
          (header_bytes (next_header t parts s).0) (isoch_bytes (packet_header t parts s)) size refl
          refl _ x v.disjoint (packet_in_group p hp) hx

    -- A byte that is in none of the slots that are written keeps what it was.
    pub group_spares :
        (n p b : ℕ) (s : Streams) (m : Memory) (ds : List ℕ)
        → p + n ≤ t.config.packets_per_group
        → IsBalanced s.provider
        → IsSpared v.areas b (g * k + p) (g * k + p + n)
        → memory_after m ((filled_packets t parts reply g n p s).0 ++ end ds) b ≡ m b
    unfolding filled_packets memory_after
    group_spares zero p b s m ds fits balanced spared = refl
    group_spares (suc n) p b s m ds fits balanced spared =
        let es = (filled_packets t parts reply g n (p + 1) (next_streams t parts s)).0 in
        let written = filled_packet t parts (reply p) g p s (slot p) in
        ap (λ (r : List Event × Streams). memory_after m (r.0 ++ end ds) b)
          (group_step n p s (omega arith))
        ∙ ap (λ xs. memory_after m xs b) (append_assoc written es (end ds))
        ∙ ap (λ f. f b)
            (packet_memory t parts (reply p) g p (dcl (g * k + p)) s (slot p)
              (λ ranges. v.updates g p (reply p) ranges hg (omega arith)) m (es ++ end ds))
        ∙ group_spares n (p + 1) b (next_streams t parts s) (packet_written t parts s (slot p) m) ds
            (omega arith) (next-IsBalanced s v.payload balanced)
            (λ j low high. spared j (omega arith) (omega arith))
        ∙ spared_once p b s m (fill_whole s v.payload balanced).0
            (spared (g * k + p) (omega arith) (omega arith))

    pub group_on_wire :
        (n p : ℕ) (s : Streams) (m : Memory) (ds : List ℕ)
        → p + n ≤ t.config.packets_per_group
        → IsBalanced s.provider
        → wire_packets m ((filled_packets t parts reply g n p s).0 ++ end ds)
          ≡ made_packets n (g * k + p) s
    unfolding filled_packets
    group_on_wire zero p s m ds fits b = refl
    group_on_wire (suc n) p s m ds fits b =
        let es = (filled_packets t parts reply g n (p + 1) (next_streams t parts s)).0 in
        let i = g * k + p in
        let written = filled_packet t parts (reply p) g p s (slot p) in
        let m' = packet_written t parts s (slot p) m in
        let last = memory_after m' (es ++ end ds) in
        let whole = fill_whole s v.payload b in
        let updates : (ranges : List VirtualRange)
            → (update_dcl_packet parts.dcl g p ranges (reply p)).1
              ≡ set_dcl_ranges (dcl i) ranges ∷ [] =
          λ ranges. v.updates g p (reply p) ranges hg (omega arith) in
        let spares : (a : ℕ)
            → ((j : ℕ) → j < t.config.num_groups * k → i ≢ j → Outside v.areas a j)
            → last a ≡ m' a =
          λ a outside.
            group_spares n (p + 1) a (next_streams t parts s) m' ds (omega arith)
              (next-IsBalanced s v.payload b)
              (λ j low high. outside j (omega (arith, group_within)) (λ e. omega arith)) in
        let own = packet_in_group p (omega arith) in
        ap (λ (r : List Event × Streams). wire_packets m (r.0 ++ end ds))
          (group_step n p s (omega arith))
        ∙ ap (wire_packets m) (append_assoc written es (end ds))
        ∙ ap₂ sent_from
            (packet_memory t parts (reply p) g p (dcl i) s (slot p) updates m (es ++ end ds))
            (packet_ranges t parts (reply p) g p (dcl i) s (slot p) updates (es ++ end ds))
        ∙ ap₂ ◌∷◌
            (gathered-made t parts (dcl i) s (slot p) last whole
              (λ x hx.
                spares ((slot p).cip_header + x)
                  (λ j hj ne. cip-Outside v.areas _ i j v.disjoint own hj ne x hx)
                ∙ own_header p x s m (omega arith) whole.0 hx)
              (λ x hx.
                spares ((slot p).audio_data + x)
                  (λ j hj ne. audio-Outside v.areas _ i j v.disjoint own hj ne x hx)
                ∙ own_audio p x s m (omega arith) whole.0 hx))
            (group_on_wire n (p + 1) (next_streams t parts s) m' ds (omega arith)
                (next-IsBalanced s v.payload b)
              ∙ ap (λ j. made_packets n j (next_streams t parts s)) (omega arith))

    pub group_noticed :
        (n p : ℕ) (s : Streams) (ds : List ℕ)
        → p + n ≤ t.config.packets_per_group
        → notices_of
            ((filled_packets t parts reply g n p s).0 ++ map dcl_called (notify_modified ds ∷ []))
          ≡ ds ∷ []
    unfolding filled_packets
    group_noticed zero p s ds fits = refl
    group_noticed (suc n) p s ds fits =
        let es = (filled_packets t parts reply g n (p + 1) (next_streams t parts s)).0 in
        ap (λ (r : List Event × Streams). notices_of (r.0 ++ end ds))
          (group_step n p s (omega arith))
        ∙ ap notices_of (append_assoc (filled_packet t parts (reply p) g p s (slot p)) es (end ds))
        ∙ packet_not_noticed t parts (reply p) g p (dcl (g * t.config.packets_per_group + p)) s
            (slot p) (es ++ end ds) (λ ranges. v.updates g p (reply p) ranges hg (omega arith))
        ∙ group_noticed n (p + 1) (next_streams t parts s) ds (omega arith)

    pub group_streams :
        (n p : ℕ) (s : Streams)
        → p + n ≤ t.config.packets_per_group
        → (filled_packets t parts reply g n p s).1 ≡ streams_after t parts n s
    unfolding filled_packets
    group_streams zero p s fits = refl
    group_streams (suc n) p s fits =
        ap (λ (r : List Event × Streams). r.1) (group_step n p s (omega arith))
        ∙ group_streams n (p + 1) (next_streams t parts s) (omega arith)
