-- ===== src/AmdtpTransmitter/Opening.antt =====
-- startTransmit: what the packets hold before the first completion.
use fire_wire_audio.Prelude.{
  ℕ, zero, suc, ◌+◌, ◌*◌, ◌/◌, ◌%◌, ◌^◌, ◌≤◌, ◌<◌, ◌≡◌, ◌≢◌, refl, ap, ap₂, sym, ◌∙◌, true, false,
  List, [], ◌∷◌, ◌++◌, map, inl, inr, arith, leb, if◌then◌else◌, length, get_or, replicate,
  eq-cases, some, take, Bool,
}
use mathlib.Core.Path.{subst}
use fire_wire_audio.Ring.Valid.{held}
use fire_wire_audio.Ring.Refine.{contents, length-contents}
use fire_wire_audio.Provider.{fill_packet_data, format_am824}
use fire_wire_audio.Provider.Calls.{IsBalanced, fill_target, fill_contents, drawn}
use fire_wire_audio.Ring
use fire_wire_audio.Ring.Valid.{create-IsValid}
use fire_wire_audio.Provider
use fire_wire_audio.Transport.{ChannelCall}
use fire_wire_audio.Transmit.Dcl.{PoolCall}
use fire_wire_audio.Transmit.{transmit_cip_header_size}
use fire_wire_audio.Cip.Transmitter.{
  initialize_cip_state, prepare_cip_header, header_bytes, step_syt, next_dbc,
}
use fire_wire_audio.AmdtpTransmitter.{
  AmdtpTransmitter, Parts, Streams, Event, packet_slot, fill_slot, next_header, next_streams,
  initial_packet, initial_packets, isoch_header, fw_channel, audio_written, cip_written,
  isoch_written, dcl_called, channel_called, client_told, stream_started,
}
use fire_wire_audio.AmdtpTransmitter.Dma.{
  Memory, put, put_slot, memory_after, isoch_bytes, Areas, AreDisjoint, slot_at, Outside, IsSpared,
  audio-Outside, cip-Outside, slot_spares, slot_header, slot_audio,
}
use fire_wire_audio.AmdtpTransmitter.Ready.{fresh-IsBalanced}
use fire_wire_audio.AmdtpTransmitter.Group.{empty_slot, next-IsBalanced}

-- A header without data, its counter 0.
abbrev pub silent_header : List ℕ
silent_header = 0 ∷ 2 ∷ 0 ∷ 0 ∷ 0x41 ∷ 0xff ∷ 0xff ∷ 0xff ∷ []

-- Nothing to send yet.
pub record IsSilent (s : Streams) : Type 0 where
  pub balanced : IsBalanced s.provider
  pub empty : contents s.provider.audio_buffer ≡ []
  pub before : s.cip.first_dcl_callback_occurred ≡ false
  pub counter : s.cip.dbc_count ≡ 0

module _ (t : AmdtpTransmitter) (parts : Parts) (dcl : ℕ → ℕ)
    (payload : parts.buffers.audio_payload_size_per_packet ≡ 64) where
  none_held : (s : Streams) → IsSilent s → held s.provider.audio_buffer ≡ 0
  none_held s v = sym (length-contents s.provider.audio_buffer) ∙ ap length v.empty

  quiet_audio : (s : Streams) → IsSilent s → (fill_slot parts s).target ≡ replicate 64 0
  quiet_audio s v =
      ap (λ k. (fill_packet_data s.provider (some (replicate k 0))).target) payload
      ∙ fill_target s.provider empty_slot v.balanced.ring (omega arith)
      ∙ ap (λ h. if leb 64 h then format_am824 (drawn s.provider 64) else replicate 64 0)
          (none_held s v)

  quiet_header : (s : Streams) → IsSilent s → header_bytes (next_header t parts s).0 ≡ silent_header
  unfolding prepare_cip_header header_bytes step_syt next_dbc
  quiet_header s v = rw (v.before, v.counter) refl

  quiet_drawn : (s : Streams) → IsSilent s → drawn s.provider 64 ≡ []
  unfolding drawn
  quiet_drawn s v =
      ap (λ h. if leb 64 h then take 64 (contents s.provider.audio_buffer) else []) (none_held s v)

  next-IsSilent : (s : Streams) → IsSilent s → IsSilent (next_streams t parts s)
  unfolding prepare_cip_header step_syt next_dbc
  next-IsSilent s v = record {
    balanced = next-IsBalanced t parts dcl s payload v.balanced;
    empty =
        ap
          (λ k. contents (fill_packet_data s.provider (some (replicate k 0))).provider.audio_buffer)
          payload
        ∙ sym (
            ap
              (λ xs.
                xs
                ++ contents (fill_packet_data s.provider (some empty_slot)).provider.audio_buffer)
              (quiet_drawn s v))
        ∙ sym (fill_contents s.provider empty_slot v.balanced.ring (omega arith))
        ∙ v.empty;
    before = ground (arith, v.before);
    counter = rw (v.before) v.counter;
  }

  -- What the first packet of the loop writes.
  packet_put : Streams → Memory → ℕ → Areas → Memory
  packet_put s m i w = put_slot m (slot_at w i) (replicate 64 0) silent_header (
      isoch_bytes (
        isoch_header (fw_channel t.config parts.port)
          (transmit_cip_header_size + parts.buffers.audio_payload_size_per_packet)))

  packet_memory :
      (s : Streams) (m : Memory) (i : ℕ) (w : Areas) (es : List Event)
      → IsSilent s
      → memory_after m (initial_packet t parts s (slot_at w i) ++ es)
        ≡ memory_after (packet_put s m i w) es
  unfolding initial_packet memory_after packet_put
  packet_memory s m i w es v =
      ap₂
        (λ xs h.
          memory_after
            (put_slot m (slot_at w i) xs h (
              isoch_bytes (
                isoch_header (fw_channel t.config parts.port)
                  (transmit_cip_header_size + parts.buffers.audio_payload_size_per_packet))))
            es)
        (quiet_audio s v) (quiet_header s v)

  module _ (w : Areas) (n : ℕ) (apart : AreDisjoint w n)
      (found : (j : ℕ)
        → j < n
        → packet_slot parts.buffers
            (j / t.config.packets_per_group)
            (j % t.config.packets_per_group)
            j
          ≡ some (slot_at w j)) where
    loop_step :
        (k i : ℕ) (s : Streams) (m : Memory)
        → i < n
        → IsSilent s
        → memory_after m (initial_packets t parts (suc k) i s).events
          ≡ memory_after
              (packet_put s m i w)
              (initial_packets t parts k (i + 1) (next_streams t parts s)).events
    unfolding initial_packets
    loop_step k i s m h v = rw (initial_packets, found i h) (packet_memory s m i w _ v)

    put_spares : (s : Streams) (m : Memory) (i b : ℕ) → Outside w b i → packet_put s m i w b ≡ m b
    unfolding packet_put isoch_bytes
    put_spares s m i b outside =
        slot_spares w i m (replicate 64 0) silent_header _ refl refl refl b outside

    loop_spares :
        (k i b : ℕ) (s : Streams) (m : Memory)
        → i + k ≤ n
        → IsSilent s
        → IsSpared w b i (i + k)
        → memory_after m (initial_packets t parts k i s).events b ≡ m b
    unfolding initial_packets memory_after
    loop_spares zero i b s m fits v spared = refl
    loop_spares (suc k) i b s m fits v spared =
        ap (λ f. f b) (loop_step k i s m (omega arith) v)
        ∙ loop_spares k (i + 1) b (next_streams t parts s) (packet_put s m i w) (omega arith)
            (next-IsSilent s v) (λ j low high. spared j (omega arith) (omega arith))
        ∙ put_spares s m i b (spared i (omega arith) (omega arith))

    -- After the loop, packet `j` has a header without data and silence in its slot.
    abbrev pub Opened : Memory → ℕ → Type 0
    Opened m j =
        ((x : ℕ) → x < 8 → m (w.cip + j * 8 + x) ≡ get_or silent_header x 0)
        × ((x : ℕ) → x < 64 → m (w.audio + j * 64 + x) ≡ get_or (replicate 64 0) x 0)

    pub loop-Opened :
        (k i j : ℕ) (s : Streams) (m : Memory)
        → i + k ≤ n
        → i ≤ j
        → j < i + k
        → IsSilent s
        → Opened (memory_after m (initial_packets t parts k i s).events) j
    unfolding packet_put isoch_bytes
    loop-Opened zero i j s m fits low high v = absurd (omega arith)
    loop-Opened (suc k) i j s m fits low high v =
        let step = loop_step k i s m (omega arith) v in
        let rest = (initial_packets t parts k (i + 1) (next_streams t parts s)).events in
        elim (eq-cases i j) [
          | inl e ↦
              let spares : (b : ℕ)
                  → ((q : ℕ) → q < n → j ≢ q → Outside w b q)
                  → memory_after (packet_put s m i w) rest b ≡ packet_put s m i w b =
                λ b outside.
                  loop_spares k (i + 1) b (next_streams t parts s) (packet_put s m i w)
                    (omega arith) (next-IsSilent s v)
                    (λ q lo hi. outside q (omega arith) (λ same. omega (arith, same, lo))) in
              let here : packet_put s m i w ≡ packet_put s m j w = ap (λ q. packet_put s m q w) e in
              (
                λ x hx.
                    ap (λ f. f (w.cip + j * 8 + x)) step
                    ∙ spares (w.cip + j * 8 + x)
                        (λ q hq ne. cip-Outside w n j q apart (omega arith) hq ne x hx)
                    ∙ ap (λ f. f (w.cip + j * 8 + x)) here
                    ∙ slot_header w j m (replicate 64 0) silent_header _ refl refl refl n x apart
                        (omega arith) hx,
                λ x hx.
                    ap (λ f. f (w.audio + j * 64 + x)) step
                    ∙ spares (w.audio + j * 64 + x)
                        (λ q hq ne. audio-Outside w n j q apart (omega arith) hq ne x hx)
                    ∙ ap (λ f. f (w.audio + j * 64 + x)) here
                    ∙ slot_audio w j m (replicate 64 0) silent_header _ refl refl refl n x apart
                        (omega arith) hx,
              )
          | inr ne ↦
              subst (λ f. Opened f j) (sym step)
                (loop-Opened k (i + 1) j (next_streams t parts s) (packet_put s m i w) (omega arith)
                  (omega arith) (omega arith) (next-IsSilent s v))
        ]

-- What is told to the pool, the channel and the client writes no memory.
memory_after-append :
    (m : Memory) (xs ys : List Event)
    → memory_after m (xs ++ ys) ≡ memory_after (memory_after m xs) ys
unfolding memory_after
memory_after-append m [] ys = refl
memory_after-append m (audio_written a bs ∷ xs) ys = memory_after-append (put m a bs) xs ys
memory_after-append m (cip_written a h ∷ xs) ys =
    memory_after-append (put m a (header_bytes h)) xs ys
memory_after-append m (isoch_written a h ∷ xs) ys =
    memory_after-append (put m a (isoch_bytes h)) xs ys
memory_after-append m (dcl_called c ∷ xs) ys = memory_after-append m xs ys
memory_after-append m (channel_called c ∷ xs) ys = memory_after-append m xs ys
memory_after-append m (client_told x p q ∷ xs) ys = memory_after-append m xs ys

pool_calls : (m : Memory) (cs : List PoolCall) → memory_after m (map dcl_called cs) ≡ m
unfolding memory_after
pool_calls m [] = refl
pool_calls m (c ∷ cs) = pool_calls m cs

channel_calls : (m : Memory) (cs : List ChannelCall) → memory_after m (map channel_called cs) ≡ m
unfolding memory_after
channel_calls m [] = refl
channel_calls m (c ∷ cs) = channel_calls m cs

told_nothing :
    (m : Memory) (b : Bool)
    → memory_after m (if b then client_told stream_started 0 0 ∷ [] else []) ≡ m
unfolding memory_after
told_nothing m true = refl
told_nothing m false = refl

pub quiet_end :
    (m : Memory) (es : List Event) (ps : List PoolCall) (cs : List ChannelCall) (b : Bool)
    → memory_after m (
        ((es ++ map dcl_called ps) ++ map channel_called cs)
        ++ (if b then client_told stream_started 0 0 ∷ [] else []))
      ≡ memory_after m es
quiet_end m es ps cs b =
    memory_after-append m ((es ++ map dcl_called ps) ++ map channel_called cs) _
    ∙ told_nothing _ b
    ∙ memory_after-append m (es ++ map dcl_called ps) (map channel_called cs)
    ∙ channel_calls _ cs
    ∙ memory_after-append m es (map dcl_called ps)
    ∙ pool_calls _ ps

-- A provider and headers as a start finds them.
pub first-IsSilent :
    (fill size : ℕ)
    → size ≤ 2 ^ 31
    → IsSilent (record { provider = Provider.fresh fill size; cip = initialize_cip_state })
unfolding Provider.fresh Provider.reset Ring.reset Ring.create initialize_cip_state
first-IsSilent fill size h =
    let (valid, room, nothing) = create-IsValid fill size h in
    record { balanced = fresh-IsBalanced fill size h; empty = refl; before = refl; counter = refl }
