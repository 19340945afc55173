-- ===== src/AmdtpTransmitter/Flow.antt =====
-- The completion callback as a whole: which packets it makes ready, and where their audio comes from.
use fire_wire_audio.Prelude.{
  ℕ, zero, suc, ◌+◌, ◌*◌, ◌%◌, ◌^◌, ◌≤◌, ◌<◌, ◌≡◌, ◌≢◌, ◌⊎◌, inl, inr, tabulate_ext, refl, ap, ap₂,
  sym, ◌∙◌, true, some, List, [], ◌∷◌, ◌++◌, map, arith, if◌then◌else◌, replicate,
}
use mathlib.Core.Path.{subst}
use mathlib.Core.List.{append-nil}
use native.Mathlib.Nat.{mod-lt, mul-le-mul_right, add-mul}
use fire_wire_audio.Ring.Refine.{contents}
use fire_wire_audio.Transmit.Dcl.{notify_modified, completed}
use fire_wire_audio.Transmit.Segments.{dcls_from}
use fire_wire_audio.Cip.Transmitter.{CipState, prepare_cip_header, header_bytes}
use fire_wire_audio.Provider.{Provider, fill_packet_data, format_am824}
use fire_wire_audio.Provider.Calls.{IsBalanced}
use fire_wire_audio.Provider.Stream.{Call, fills, session, sent, taken_in, IsShort, session_stream}
use fire_wire_audio.AmdtpTransmitter.{
  AmdtpTransmitter, Parts, Streams, dcl_called, next_streams, filled_packets,
}
use fire_wire_audio.AmdtpTransmitter.Methods.{
  Returned, CompletionReplies, fill_group, handle_dcl_complete, with_streams,
}
use fire_wire_audio.AmdtpTransmitter.Dma.{
  Memory, memory_after, read, slot_at, Outside, audio-Outside, cip-Outside,
}
use fire_wire_audio.AmdtpTransmitter.Wire.{WirePacket, wire_packets, notices_of}
use fire_wire_audio.AmdtpTransmitter.Group.{
  IsStreaming, empty_slot, made_packets, streams_after, next-IsBalanced, group_on_wire,
  group_noticed, group_streams, group_spares,
}

-- The payloads of packets, one after the other.
abbrev pub payloads : List WirePacket → List ℕ
payloads [] = []
payloads (w ∷ ws) = w.payload ++ payloads ws

-- The bytes of the headers that the transmitter prepares one after the other.
abbrev pub headers : ℕ → ℕ → ℕ → CipState → List (List ℕ)
headers rate payload zero c = []
headers rate payload (suc n) c =
    let (h, c') = prepare_cip_header rate payload c in header_bytes h ∷ headers rate payload n c'

-- The provider's part of the group: as many fills of a slot as it has packets.
abbrev slots : ℕ → List Call
slots n = replicate n (fills empty_slot)

slots-IsShort : (n : ℕ) → IsShort (slots n)
unfolding IsShort
slots-IsShort zero = tt
slots-IsShort (suc n) = (omega arith, slots-IsShort n)

taken_in-slots : (n : ℕ) (p : Provider) → taken_in p (slots n) ≡ []
unfolding taken_in
taken_in-slots zero p = refl
taken_in-slots (suc n) p = taken_in-slots n (fill_packet_data p (some empty_slot)).provider

module _ (t : AmdtpTransmitter) (parts : Parts) (dcl : ℕ → ℕ) where
  made_dcls :
      (n i : ℕ) (s : Streams)
      → map (λ (w : WirePacket). w.dcl) (made_packets t parts dcl n i s) ≡ dcls_from dcl i n
  made_dcls zero i s = refl
  made_dcls (suc n) i s = ap (λ ds. dcl i ∷ ds) (made_dcls n (i + 1) (next_streams t parts s))

  made_headers :
      (n i : ℕ) (s : Streams)
      → map (λ (w : WirePacket). w.header) (made_packets t parts dcl n i s)
        ≡ headers t.sample_rate parts.buffers.audio_payload_size_per_packet n s.cip
  made_headers zero i s = refl
  made_headers (suc n) i s = ap₂ ◌∷◌ refl (made_headers n (i + 1) (next_streams t parts s))

  module _ (payload : parts.buffers.audio_payload_size_per_packet ≡ 64) where
    next_provider :
        (s : Streams)
        → (next_streams t parts s).provider
          ≡ (fill_packet_data s.provider (some empty_slot)).provider
    next_provider s =
        ap (λ k. (fill_packet_data s.provider (some (replicate k 0))).provider) payload

    after-session :
        (n : ℕ) (s : Streams) → (streams_after t parts n s).provider ≡ session s.provider (slots n)
    unfolding session
    after-session zero s = refl
    after-session (suc n) s =
        after-session n (next_streams t parts s) ∙ ap (λ p. session p (slots n)) (next_provider s)

    made-sent :
        (n i : ℕ) (s : Streams)
        → payloads (made_packets t parts dcl n i s) ≡ sent s.provider (slots n)
    unfolding sent
    made-sent zero i s = refl
    made-sent (suc n) i s =
        ap₂ ◌++◌
          (ap
            (λ k.
              let f = fill_packet_data s.provider (some (replicate k 0)) in
              if f.result.generated_silence then [] else f.target)
            payload)
          (made-sent n (i + 1) (next_streams t parts s)
            ∙ ap (λ p. sent p (slots n)) (next_provider s))

    pub after-IsBalanced :
        (n : ℕ) (s : Streams)
        → IsBalanced s.provider
        → IsBalanced (streams_after t parts n s).provider
    after-IsBalanced zero s b = b
    after-IsBalanced (suc n) s b =
        after-IsBalanced n (next_streams t parts s) (next-IsBalanced t parts dcl s payload b)

    made_flow :
        (n i : ℕ) (s : Streams)
        → IsBalanced s.provider
        → payloads (made_packets t parts dcl n i s)
            ++ format_am824 (contents (streams_after t parts n s).provider.audio_buffer)
          ≡ format_am824 (contents s.provider.audio_buffer)
    made_flow n i s b =
        ap₂ ◌++◌ (made-sent n i s)
          (ap (λ (p : Provider). format_am824 (contents p.audio_buffer)) (after-session n s))
        ∙ (session_stream (slots n) s.provider b (slots-IsShort n)).1
        ∙ ap (λ xs. format_am824 (contents s.provider.audio_buffer ++ xs))
            (taken_in-slots n s.provider)
        ∙ ap format_am824 (append-nil (contents s.provider.audio_buffer))

-- The streams with which the callback begins, and those with which it ends.
abbrev pub streams_before : AmdtpTransmitter → Parts → Streams
streams_before t parts = record {
  provider = parts.provider;
  cip = record t.cip { first_dcl_callback_occurred = true };
}

abbrev pub parts_after : AmdtpTransmitter → Parts → Parts
parts_after t parts = record parts {
  provider = (streams_after t parts t.config.packets_per_group (streams_before t parts)).provider;
}

module _ (t : AmdtpTransmitter) (parts : Parts) (dcl : ℕ → ℕ) (v : IsStreaming t parts dcl) (g : ℕ)
    (hg : g < t.config.num_groups) (r : CompletionReplies) where
  group_filled :
      (fill_group t parts g r).events
      ≡ (filled_packets t parts r.pool_reply g t.config.packets_per_group 0
          (streams_before t parts)).0
        ++ map dcl_called (
            notify_modified
              (dcls_from dcl (g * t.config.packets_per_group) t.config.packets_per_group)
            ∷ [])
  unfolding fill_group
  group_filled =
      ap
        (λ calls.
          (filled_packets t parts r.pool_reply g t.config.packets_per_group 0
            (streams_before t parts)).0
          ++ map dcl_called calls)
        (v.notices g r.port_reply hg)

  group_packets :
      (m : Memory)
      → wire_packets m (fill_group t parts g r).events
        ≡ made_packets t parts dcl t.config.packets_per_group
            (g * t.config.packets_per_group)
            (streams_before t parts)
  group_packets m =
      ap (wire_packets m) group_filled
      ∙ group_on_wire t parts dcl v r.pool_reply g hg t.config.packets_per_group 0
          (streams_before t parts) m _ (omega arith) v.balanced
      ∙ ap (λ i. made_packets t parts dcl t.config.packets_per_group i (streams_before t parts))
          (omega arith)

  -- The slots of the other packets.
  others_kept :
      (m : Memory) (i : ℕ)
      → i < t.config.num_groups * t.config.packets_per_group
      → (i < g * t.config.packets_per_group)
        ⊎ (g * t.config.packets_per_group + t.config.packets_per_group ≤ i)
      → let last = memory_after m (fill_group t parts g r).events in
        let slot = slot_at v.areas i in
        (read last slot.audio_data 64 ≡ read m slot.audio_data 64)
        × (read last slot.cip_header 8 ≡ read m slot.cip_header 8)
  others_kept m i hi other =
      let k = t.config.packets_per_group in
      let within : g * k + k ≤ t.config.num_groups * k =
        omega (arith, mul-le-mul_right {m = suc g} {n = t.config.num_groups} k hg, add-mul g 1 k) in
      let not_in : (j : ℕ) → g * k + 0 ≤ j → j < g * k + 0 + k → i ≢ j =
        λ j low high e. elim other [ inl h ↦ omega (arith, h) | inr h ↦ omega (arith, h) ] in
      let kept : (b : ℕ)
          → ((j : ℕ) → j < t.config.num_groups * k → i ≢ j → Outside v.areas b j)
          → memory_after m (fill_group t parts g r).events b ≡ m b =
        λ b outside.
          ap (λ es. memory_after m es b) group_filled
          ∙ group_spares t parts dcl v r.pool_reply g hg k 0 b (streams_before t parts) m
              (dcls_from dcl (g * k) k) (omega arith) v.balanced
              (λ j low high. outside j (omega (arith, within)) (not_in j low high)) in
      (
        tabulate_ext 64 _ _ (λ x hx.
            kept ((slot_at v.areas i).audio_data + x)
              (λ j hj ne. audio-Outside v.areas _ i j v.disjoint hi hj ne x hx)),
        tabulate_ext 8 _ _ (λ x hx.
            kept ((slot_at v.areas i).cip_header + x)
              (λ j hj ne. cip-Outside v.areas _ i j v.disjoint hi hj ne x hx)),
      )

  group_left :
      (fill_group t parts g r).transmitter
      ≡ with_streams t parts
          (streams_after t parts t.config.packets_per_group (streams_before t parts))
  unfolding fill_group
  group_left = ap (with_streams t parts) (
      group_streams t parts dcl v r.pool_reply g hg t.config.packets_per_group 0
        (streams_before t parts) (omega arith))

  left-IsStreaming :
      IsStreaming
        (with_streams t parts
          (streams_after t parts t.config.packets_per_group (streams_before t parts)))
        (parts_after t parts)
        dcl
  left-IsStreaming = record {
    runs = v.runs;
    managed = refl;
    listens = v.listens;
    on_air = v.on_air;
    port = v.port;
    some_groups = v.some_groups;
    payload = v.payload;
    areas = v.areas;
    disjoint = v.disjoint;
    slots = v.slots;
    updates = v.updates;
    notices = v.notices;
    balanced =
        after-IsBalanced t parts dcl v.payload t.config.packets_per_group (streams_before t parts)
          v.balanced;
  }

callback_runs :
    (t : AmdtpTransmitter) (parts : Parts) (dcl : ℕ → ℕ) (g : ℕ) (r : CompletionReplies)
    → IsStreaming t parts dcl
    → handle_dcl_complete t g r
      ≡ completed (fill_group t parts ((g + 1) % 2 ^ 32 % t.config.num_groups) r)
unfolding handle_dcl_complete
callback_runs t parts dcl g r v = ground (arith, v.runs, v.managed, v.port.1, v.some_groups)

-- While a transmitter runs on its program, a completion callback for group `g` returns, whatever the
-- pool and the port reply, and the transmitter runs on. It makes the next group ready: the DCLs of that
-- group's packets, all of them in their order and no others, get new ranges, and the port is told of
-- just these. In memory as it is after the callback, byte for byte, the headers at these ranges are the
-- next ones that the clock gives, and the payloads, followed by what the ring then holds, are what the
-- ring held, each sample under its label and in bus order.
pub completion_lem :
    (t : AmdtpTransmitter) (parts : Parts) (dcl : ℕ → ℕ) (g : ℕ) (r : CompletionReplies)
    (m : Memory)
    → IsStreaming t parts dcl
    → let f = (g + 1) % 2 ^ 32 % t.config.num_groups in
      let k = t.config.packets_per_group in
      (c : Returned) × (handle_dcl_complete t g r ≡ completed c)
      × IsStreaming c.transmitter (parts_after t parts) dcl
      × (let ws = wire_packets m c.events in
          (map (λ (w : WirePacket). w.dcl) ws ≡ dcls_from dcl (f * k) k)
          × (notices_of c.events ≡ dcls_from dcl (f * k) k ∷ [])
          × (map (λ (w : WirePacket). w.header) ws
              ≡ headers t.sample_rate 64 k (record t.cip { first_dcl_callback_occurred = true }))
          × (payloads ws ++ format_am824 (contents (parts_after t parts).provider.audio_buffer)
              ≡ format_am824 (contents parts.provider.audio_buffer)))
completion_lem t parts dcl g r m v =
    let f = (g + 1) % 2 ^ 32 % t.config.num_groups in
    let k = t.config.packets_per_group in
    let hf : f < t.config.num_groups = mod-lt ((g + 1) % 2 ^ 32) v.some_groups in
    let ready = group_packets t parts dcl v f hf r m in
    let s = streams_before t parts in
    (
      fill_group t parts f r,
      callback_runs t parts dcl g r v,
      subst (λ t'. IsStreaming t' (parts_after t parts) dcl) (sym (group_left t parts dcl v f hf r))
          (left-IsStreaming t parts dcl v f hf r),
      (
        ap (map (λ (w : WirePacket). w.dcl)) ready ∙ made_dcls t parts dcl k (f * k) s,
        ap notices_of (group_filled t parts dcl v f hf r)
            ∙ group_noticed t parts dcl v r.pool_reply f hf k 0 s (dcls_from dcl (f * k) k)
                (omega arith),
        ap (map (λ (w : WirePacket). w.header)) ready
            ∙ made_headers t parts dcl k (f * k) s
            ∙ ap (λ payload. headers t.sample_rate payload k s.cip) v.payload,
        ap
              (λ ws.
                payloads ws ++ format_am824 (contents (parts_after t parts).provider.audio_buffer))
              ready
            ∙ made_flow t parts dcl v.payload k (f * k) s v.balanced,
      ),
    )

-- The same callback leaves the header and the audio of every packet of the other groups, which may
-- still be sent, as they are in memory.
pub others_stay :
    (t : AmdtpTransmitter) (parts : Parts) (dcl : ℕ → ℕ) (g : ℕ) (r : CompletionReplies)
    (m : Memory) (i : ℕ) (v : IsStreaming t parts dcl)
    → i < t.config.num_groups * t.config.packets_per_group
    → (i < (g + 1) % 2 ^ 32 % t.config.num_groups * t.config.packets_per_group)
      ⊎ ((g + 1) % 2 ^ 32 % t.config.num_groups * t.config.packets_per_group
            + t.config.packets_per_group
          ≤ i)
    → (c : Returned) × (handle_dcl_complete t g r ≡ completed c)
      × (let last = memory_after m c.events in
          let slot = slot_at v.areas i in
          (read last slot.audio_data 64 ≡ read m slot.audio_data 64)
          × (read last slot.cip_header 8 ≡ read m slot.cip_header 8))
others_stay t parts dcl g r m i v hi other =
    let f = (g + 1) % 2 ^ 32 % t.config.num_groups in
    let hf : f < t.config.num_groups = mod-lt ((g + 1) % 2 ^ 32) v.some_groups in
    (
      fill_group t parts f r,
      callback_runs t parts dcl g r v,
      others_kept t parts dcl v f hf r m i hi other,
    )
