-- ===== src/AmdtpTransmitter/Dma.antt =====
-- The packets' memory, byte by byte, and what a slot keeps while others are written.
use fire_wire_audio.Prelude.{
  ℕ, suc, ◌+◌, ◌-◌, ◌*◌, ◌/◌, ◌%◌, ◌^◌, ◌≤◌, ◌<◌, ◌≡◌, ◌≢◌, refl, sym, ◌∙◌, ◌&&◌, true, List, [],
  ◌∷◌, ◌⊎◌, inl, inr, arith, leb, ltb, if◌then◌else◌, length, get_or, tabulate, eq-tabulate,
  Bool-cases, ltb→lt, ltb_false→le,
}
use fire_wire_audio.Cip.Transmitter.{header_bytes}
use fire_wire_audio.AmdtpTransmitter.{
  Event, audio_written, cip_written, isoch_written, dcl_called, channel_called, client_told,
  IsochHeaderData, PacketSlot,
}

-- Bytes by their addresses.
abbrev pub Memory : Type 0
Memory = ℕ → ℕ

unfoldable pub put : Memory → ℕ → List ℕ → Memory
put m a xs b = if leb a b && ltb b (a + length xs) then get_or xs (b - a) 0 else m b

abbrev pub read : Memory → ℕ → ℕ → List ℕ
read m a n = tabulate n (λ j. m (a + j))

pub put_out :
    (m : Memory) (a b : ℕ) (xs : List ℕ) → ((b < a) ⊎ (a + length xs ≤ b)) → put m a xs b ≡ m b
unfolding put
put_out m a b xs (inl below) = ground arith
put_out m a b xs (inr above) = ground arith

pub put_in :
    (m : Memory) (a j : ℕ) (xs : List ℕ) → j < length xs → put m a xs (a + j) ≡ get_or xs j 0
unfolding put
put_in m a j xs h =
    let place : a + j - a ≡ j = omega arith in
    let inside : (leb a (a + j) && ltb (a + j) (a + length xs)) ≡ true = ground arith in
    rw (inside, place) refl

-- What is in memory byte for byte is read.
pub read-bytes :
    (m : Memory) (a n : ℕ) (xs : List ℕ)
    → length xs ≡ n
    → ((j : ℕ) → j < n → m (a + j) ≡ get_or xs j 0)
    → read m a n ≡ xs
read-bytes m a n xs size same =
    sym (eq-tabulate xs n (λ j. m (a + j)) 0 size (λ j h. sym (same j h)))

-- An isoch header as it lies in memory.
unfoldable pub isoch_bytes : IsochHeaderData → List ℕ
isoch_bytes h = h.data_length / 2 ^ 8 ∷ h.data_length % 2 ^ 8 ∷ h.tag_channel ∷ h.tcode_sy ∷ []

-- The memory after some events.
unfoldable pub memory_after : Memory → List Event → Memory
memory_after m [] = m
memory_after m (audio_written a xs ∷ es) = memory_after (put m a xs) es
memory_after m (cip_written a h ∷ es) = memory_after (put m a (header_bytes h)) es
memory_after m (isoch_written a h ∷ es) = memory_after (put m a (isoch_bytes h)) es
memory_after m (dcl_called c ∷ es) = memory_after m es
memory_after m (channel_called c ∷ es) = memory_after m es
memory_after m (client_told x p q ∷ es) = memory_after m es

-- Where the areas of the packets lie: packet `i` has 64 bytes of audio, 8 of its CIP header and 4 of
-- its isoch header.
pub record Areas : Type 0 where
  pub audio : ℕ
  pub cip : ℕ
  pub isoch : ℕ

abbrev pub slot_at : Areas → ℕ → PacketSlot
slot_at w i = record {
  isoch_header = w.isoch + i * 4;
  cip_header = w.cip + i * 8;
  audio_data = w.audio + i * 64;
}

-- For `n` packets, the areas do not run into each other.
pub record AreDisjoint (w : Areas) (n : ℕ) : Type 0 where
  pub audio_first : w.audio + n * 64 ≤ w.cip
  pub cip_next : w.cip + n * 8 ≤ w.isoch

-- A byte that is not in packet `j`'s slot, and one that is in no slot from packet `lo` to `hi`.
abbrev pub Outside : Areas → ℕ → ℕ → Type 0
Outside w b j =
    ((b < w.audio + j * 64) ⊎ (w.audio + j * 64 + 64 ≤ b))
    × ((b < w.cip + j * 8) ⊎ (w.cip + j * 8 + 8 ≤ b))
    × ((b < w.isoch + j * 4) ⊎ (w.isoch + j * 4 + 4 ≤ b))

abbrev pub IsSpared : Areas → ℕ → ℕ → ℕ → Type 0
IsSpared w b lo hi = (j : ℕ) → lo ≤ j → j < hi → Outside w b j

module _ (w : Areas) (n i j : ℕ) (v : AreDisjoint w n) (hi : i < n) (hj : j < n) (ne : i ≢ j) where
  pub audio-Outside : (x : ℕ) → x < 64 → Outside w (w.audio + i * 64 + x) j
  audio-Outside x h = elim (Bool-cases (ltb i j)) [
    | inl e ↦
        let before = ltb→lt i j e in
        (
          inl (omega arith),
          inl (omega (arith, v.audio_first)),
          inl (omega (arith, v.audio_first, v.cip_next)),
        )
    | inr e ↦
        let after = ltb_false→le i j e in
        let later : suc j ≤ i = ground arith in
        (
          inr (omega arith),
          inl (omega (arith, v.audio_first)),
          inl (omega (arith, v.audio_first, v.cip_next)),
        )
  ]

  pub cip-Outside : (x : ℕ) → x < 8 → Outside w (w.cip + i * 8 + x) j
  cip-Outside x h = elim (Bool-cases (ltb i j)) [
    | inl e ↦
        let before = ltb→lt i j e in
        (inr (omega (arith, v.audio_first)), inl (omega arith), inl (omega (arith, v.cip_next)))
    | inr e ↦
        let after = ltb_false→le i j e in
        let later : suc j ≤ i = ground arith in
        (inr (omega (arith, v.audio_first)), inr (omega arith), inl (omega (arith, v.cip_next)))
  ]

-- A packet's slot once its audio and its two headers are written.
abbrev pub put_slot : Memory → PacketSlot → List ℕ → List ℕ → List ℕ → Memory
put_slot m at xs header isoch =
    put (put (put m at.audio_data xs) at.cip_header header) at.isoch_header isoch

module _ (w : Areas) (i : ℕ) (m : Memory) (xs header isoch : List ℕ) (audio_size : length xs ≡ 64)
    (header_size : length header ≡ 8) (isoch_size : length isoch ≡ 4) where
  pub slot_spares : (b : ℕ) → Outside w b i → put_slot m (slot_at w i) xs header isoch b ≡ m b
  slot_spares b (in_audio, in_cip, in_isoch) =
      put_out _ (w.isoch + i * 4) b isoch
        (elim in_isoch [ inl h ↦ inl h | inr h ↦ inr (omega (arith, isoch_size, h)) ])
      ∙ put_out _ (w.cip + i * 8) b header
          (elim in_cip [ inl h ↦ inl h | inr h ↦ inr (omega (arith, header_size, h)) ])
      ∙ put_out m (w.audio + i * 64) b xs
          (elim in_audio [ inl h ↦ inl h | inr h ↦ inr (omega (arith, audio_size, h)) ])

  pub slot_header :
      (n x : ℕ)
      → AreDisjoint w n
      → i < n
      → x < 8
      → put_slot m (slot_at w i) xs header isoch (w.cip + i * 8 + x) ≡ get_or header x 0
  slot_header n x v hi hx =
      put_out _ (w.isoch + i * 4) (w.cip + i * 8 + x) isoch (inl (omega (arith, v.cip_next)))
      ∙ put_in _ (w.cip + i * 8) x header (omega (arith, header_size))

  pub slot_audio :
      (n x : ℕ)
      → AreDisjoint w n
      → i < n
      → x < 64
      → put_slot m (slot_at w i) xs header isoch (w.audio + i * 64 + x) ≡ get_or xs x 0
  slot_audio n x v hi hx =
      put_out _ (w.isoch + i * 4) (w.audio + i * 64 + x) isoch
        (inl (omega (arith, v.audio_first, v.cip_next)))
      ∙ put_out _ (w.cip + i * 8) (w.audio + i * 64 + x) header (inl (omega (arith, v.audio_first)))
      ∙ put_in m (w.audio + i * 64) x xs (omega (arith, audio_size))
