-- ===== src/AmdtpTransmitter/Wire.antt =====
-- What the completion callback leaves for the wire: the packets as their DCLs send them, read from the
-- memory as it is when the callback has ended, and the notices to the port.
use fire_wire_audio.Prelude.{
  ℕ, ◌+◌, ◌<◌, ◌≡◌, refl, ◌&&◌, ap, ◌∙◌, Bool, true, false, Option, none, some, List, [], ◌∷◌, ◌++◌,
  map, ◌⊎◌, inl, inr, if◌then◌else◌, length, get_or,
}
use fire_wire_audio.Transmit.Dcl.{PoolCall, set_dcl_ranges, notify_modified, VirtualRange}
use fire_wire_audio.Transmit.{transmit_cip_header_size}
use fire_wire_audio.Transmit.Updates.{update_dcl_packet}
use fire_wire_audio.Cip.Transmitter.{CipHeader, header_bytes}
use fire_wire_audio.AmdtpTransmitter.Dma.{
  Memory, put, put_slot, read, read-bytes, isoch_bytes, memory_after,
}
use fire_wire_audio.AmdtpTransmitter.{
  AmdtpTransmitter, Parts, Streams, PacketSlot, Event, audio_written, cip_written, isoch_written,
  dcl_called, channel_called, client_told, buffer_underrun, IsochHeaderData, isoch_header,
  fw_channel, fill_slot, next_header, filled_packet, ranges_for,
}

pub record WirePacket : Type 0 where
  pub dcl : ℕ
  pub header : List ℕ
  pub payload : List ℕ

-- A DCL sends what its ranges point to: a CIP header, and a payload when there is a second.
abbrev pub gathered : Memory → ℕ → List VirtualRange → WirePacket
gathered m d [] = record { dcl = d; header = []; payload = [] }
gathered m d ((a, n) ∷ []) = record { dcl = d; header = read m a n; payload = [] }
gathered m d ((a, n) ∷ (b, k) ∷ rest) = record {
  dcl = d;
  header = read m a n;
  payload = read m b k;
}

abbrev pub sets_ranges : PoolCall → Option (ℕ × List VirtualRange)
sets_ranges (set_dcl_ranges d ranges) = some (d, ranges)
sets_ranges other = none

-- The DCLs that are given new ranges.
abbrev pub ranges_set : List Event → List (ℕ × List VirtualRange)
ranges_set [] = []
ranges_set (audio_written a xs ∷ es) = ranges_set es
ranges_set (cip_written a h ∷ es) = ranges_set es
ranges_set (isoch_written a h ∷ es) = ranges_set es
ranges_set (channel_called c ∷ es) = ranges_set es
ranges_set (client_told x p q ∷ es) = ranges_set es
ranges_set (dcl_called c ∷ es) =
    let rest = ranges_set es in elim (sets_ranges c) [ none ↦ rest | some q ↦ q ∷ rest ]

-- The packets of some DCLs, read from memory.
abbrev pub sent_from : Memory → List (ℕ × List VirtualRange) → List WirePacket
sent_from m [] = []
sent_from m ((d, ranges) ∷ qs) = gathered m d ranges ∷ sent_from m qs

-- The packets whose DCLs are given new ranges, as they stand in memory when all has been written.
abbrev pub wire_packets : Memory → List Event → List WirePacket
wire_packets m es = sent_from (memory_after m es) (ranges_set es)

-- A filled slot has 64 bytes, silence or the packet's data.
abbrev pub FillsWhole : Parts → Streams → Type 0
FillsWhole parts s =
    let f = fill_slot parts s in
    (length f.target ≡ 64)
    × ((f.result.generated_silence ≡ true)
        ⊎ ((f.result.generated_silence ≡ false) × (f.result.data_length ≡ 64)))

-- The packet that the streams' state makes.
abbrev pub made_packet : AmdtpTransmitter → Parts → ℕ → Streams → WirePacket
made_packet t parts dcl s = record {
  dcl = dcl;
  header = header_bytes (next_header t parts s).0;
  payload = if (fill_slot parts s).result.generated_silence then [] else (fill_slot parts s).target;
}

-- What a packet writes to its slot.
abbrev pub packet_header : AmdtpTransmitter → Parts → Streams → IsochHeaderData
packet_header t parts s =
    isoch_header (fw_channel t.config parts.port)
      (transmit_cip_header_size + (fill_slot parts s).result.data_length)

abbrev pub packet_written : AmdtpTransmitter → Parts → Streams → PacketSlot → Memory → Memory
packet_written t parts s at m =
    put_slot m at (fill_slot parts s).target (header_bytes (next_header t parts s).0)
      (isoch_bytes (packet_header t parts s))

told_if : Bool → ℕ → ℕ → List Event
told_if b g p = if b then client_told buffer_underrun g p ∷ [] else []

events_of :
    ℕ → ℕ → ℕ → ℕ → ℕ → List ℕ → CipHeader → IsochHeaderData → Bool → List PoolCall → List Event
unfolding told_if
events_of a c i g p xs h header b calls =
    audio_written a xs
    ∷ (told_if b g p ++ (cip_written c h ∷ isoch_written i header ∷ map dcl_called calls))

step_memory :
    (m : Memory) (a c i d g p : ℕ) (xs : List ℕ) (h : CipHeader) (header : IsochHeaderData)
    (b : Bool) (ranges : List VirtualRange) (es : List Event)
    → memory_after m (events_of a c i g p xs h header b (set_dcl_ranges d ranges ∷ []) ++ es)
      ≡ memory_after (put (put (put m a xs) c (header_bytes h)) i (isoch_bytes header)) es
unfolding events_of memory_after
step_memory m a c i d g p xs h header true ranges es = refl
step_memory m a c i d g p xs h header false ranges es = refl

step_ranges :
    (a c i d g p : ℕ) (xs : List ℕ) (h : CipHeader) (header : IsochHeaderData) (b : Bool)
    (ranges : List VirtualRange) (es : List Event)
    → ranges_set (events_of a c i g p xs h header b (set_dcl_ranges d ranges ∷ []) ++ es)
      ≡ (d, ranges) ∷ ranges_set es
unfolding events_of
step_ranges a c i d g p xs h header true ranges es = refl
step_ranges a c i d g p xs h header false ranges es = refl

-- What a packet's DCL finds in a memory that has the packet's bytes in its slot.
pub gathered-made :
    (t : AmdtpTransmitter) (parts : Parts) (dcl : ℕ) (s : Streams) (at : PacketSlot) (m : Memory)
    → FillsWhole parts s
    → ((x : ℕ)
        → x < 8
        → m (at.cip_header + x) ≡ get_or (header_bytes (next_header t parts s).0) x 0)
    → ((x : ℕ) → x < 64 → m (at.audio_data + x) ≡ get_or (fill_slot parts s).target x 0)
    → gathered m dcl (ranges_for at (fill_slot parts s).result) ≡ made_packet t parts dcl s
unfolding ranges_for header_bytes
gathered-made t parts dcl s at m (size, inl silent) hc ha =
    rw (silent, read-bytes m at.cip_header 8 (header_bytes (next_header t parts s).0) refl hc) refl
gathered-made t parts dcl s at m (size, inr (loud, whole)) hc ha =
    rw
      (
        loud,
        whole,
        read-bytes m at.cip_header 8 (header_bytes (next_header t parts s).0) refl hc,
        read-bytes m at.audio_data 64 (fill_slot parts s).target size ha,
      )
      refl

module _ (t : AmdtpTransmitter) (parts : Parts) (reply g p dcl : ℕ) (s : Streams) (at : PacketSlot)
    (updates : (ranges : List VirtualRange)
      → (update_dcl_packet parts.dcl g p ranges reply).1 ≡ set_dcl_ranges dcl ranges ∷ []) where
  packet-events :
      filled_packet t parts reply g p s at
      ≡ events_of at.audio_data at.cip_header at.isoch_header g p
          (fill_slot parts s).target
          (next_header t parts s).0
          (packet_header t parts s)
          ((fill_slot parts s).result.generated_silence && t.has_message_callback)
          (set_dcl_ranges dcl (ranges_for at (fill_slot parts s).result) ∷ [])
  unfolding filled_packet events_of
  packet-events =
      ap
        (events_of at.audio_data at.cip_header at.isoch_header g p (fill_slot parts s).target
          (next_header t parts s).0 (packet_header t parts s)
          ((fill_slot parts s).result.generated_silence && t.has_message_callback))
        (updates (ranges_for at (fill_slot parts s).result))

  pub packet_memory :
      (m : Memory) (es : List Event)
      → memory_after m (filled_packet t parts reply g p s at ++ es)
        ≡ memory_after (packet_written t parts s at m) es
  packet_memory m es =
      ap (λ xs. memory_after m (xs ++ es)) packet-events
      ∙ step_memory m at.audio_data at.cip_header at.isoch_header dcl g p (fill_slot parts s).target
          (next_header t parts s).0 (packet_header t parts s)
          ((fill_slot parts s).result.generated_silence && t.has_message_callback)
          (ranges_for at (fill_slot parts s).result) es

  pub packet_ranges :
      (es : List Event)
      → ranges_set (filled_packet t parts reply g p s at ++ es)
        ≡ (dcl, ranges_for at (fill_slot parts s).result) ∷ ranges_set es
  packet_ranges es =
      ap (λ xs. ranges_set (xs ++ es)) packet-events
      ∙ step_ranges at.audio_data at.cip_header at.isoch_header dcl g p (fill_slot parts s).target
          (next_header t parts s).0 (packet_header t parts s)
          ((fill_slot parts s).result.generated_silence && t.has_message_callback)
          (ranges_for at (fill_slot parts s).result) es

abbrev pub notice : PoolCall → Option (List ℕ)
notice (notify_modified ds) = some ds
notice other = none

-- The notices to the port.
abbrev pub notices_of : List Event → List (List ℕ)
notices_of [] = []
notices_of (audio_written a xs ∷ es) = notices_of es
notices_of (cip_written a h ∷ es) = notices_of es
notices_of (isoch_written a h ∷ es) = notices_of es
notices_of (channel_called c ∷ es) = notices_of es
notices_of (client_told x p q ∷ es) = notices_of es
notices_of (dcl_called c ∷ es) =
    let rest = notices_of es in elim (notice c) [ none ↦ rest | some ds ↦ ds ∷ rest ]

notice_step :
    (a c i d g p : ℕ) (xs : List ℕ) (h : CipHeader) (header : IsochHeaderData) (b : Bool)
    (ranges : List VirtualRange) (es : List Event)
    → notices_of (
        (audio_written a xs
          ∷ (told_if b g p
              ++ (cip_written c h
                  ∷ isoch_written i header
                  ∷ map dcl_called (set_dcl_ranges d ranges ∷ []))))
        ++ es)
      ≡ notices_of es
unfolding told_if
notice_step a c i d g p xs h header true ranges es = refl
notice_step a c i d g p xs h header false ranges es = refl

pub packet_not_noticed :
    (t : AmdtpTransmitter) (parts : Parts) (reply g p dcl : ℕ) (s : Streams) (at : PacketSlot)
    (es : List Event)
    → ((ranges : List VirtualRange)
        → (update_dcl_packet parts.dcl g p ranges reply).1 ≡ set_dcl_ranges dcl ranges ∷ [])
    → notices_of (filled_packet t parts reply g p s at ++ es) ≡ notices_of es
unfolding filled_packet told_if
packet_not_noticed t parts reply g p dcl s at es updates =
    let f = fill_slot parts s in
    let header =
      isoch_header (fw_channel t.config parts.port)
        (transmit_cip_header_size + f.result.data_length) in
    ap
      (λ calls. notices_of (
        (audio_written at.audio_data f.target
          ∷ (told_if (f.result.generated_silence && t.has_message_callback) g p
              ++ (cip_written at.cip_header (next_header t parts s).0
                  ∷ isoch_written at.isoch_header header
                  ∷ map dcl_called calls)))
        ++ es))
      (updates (ranges_for at f.result))
    ∙ notice_step at.audio_data at.cip_header at.isoch_header dcl g p f.target
        (next_header t parts s).0 header (f.result.generated_silence && t.has_message_callback)
        (ranges_for at f.result) es
