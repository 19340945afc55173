-- ===== src/Shm/Refine.antt =====
-- The shared ring is a queue of at most 128 chunks.
use fire_wire_audio.Prelude.{
  ℕ, zero, suc, ◌+◌, ◌-◌, ◌%◌, ◌^◌, ◌≤◌, ◌<◌, ◌≡◌, ◌≢◌, Bool-cases, ==→eq, inl, inr, ap, ap₂, sym,
  ◌∙◌, List, [], ◌∷◌, ◌++◌, arith, bit_and, ◌==◌, length, get_or, set, tabulate, length-set,
  get_or-set_self, get_or-set_ne, bit_and-mask, tabulate-append,
}
use fire_wire_audio.Shm.{audio_data_bytes, AudioChunk, SharedRing, no_chunk, distance, store}

-- The i-th chunk held.
abbrev pub at : SharedRing → ℕ → AudioChunk
at s i = get_or s.ring ((s.read_index + i) % 128) no_chunk

abbrev pub contents : SharedRing → List AudioChunk
contents s = tabulate (distance s) (at s)

-- The header's capacity is the one compiled in, the indices are at most it apart, every chunk held
-- carries the number of its index plus one, and each slot has its whole audio area.
pub record IsValid (s : SharedRing) : Type 0 where
  pub capacity_is : s.capacity ≡ 128
  pub slots : length s.ring ≡ 128
  pub write_in : s.write_index < 2 ^ 64
  pub read_in : s.read_index < 2 ^ 64
  pub near : distance s ≤ 128
  pub areas : (j : ℕ) → j < 128 → length (get_or s.ring j no_chunk).audio ≡ audio_data_bytes
  pub numbered : (i : ℕ) → i < distance s → (at s i).sequence ≡ (s.read_index + i + 1) % 2 ^ 64

pub slot_of : (s : SharedRing) (j : ℕ) → IsValid s → bit_and j (s.capacity - 1) ≡ j % 128
slot_of s j v = ap (λ c. bit_and j (c - 1)) v.capacity_is ∙ bit_and-mask 7 j

distance_lem :
    (r w : ℕ)
    → r < 2 ^ 64
    → w < 2 ^ 64
    → (w + (2 ^ 64 - r)) % 2 ^ 64 < 128
    → (((w + 1) % 2 ^ 64 + (2 ^ 64 - r)) % 2 ^ 64 ≡ (w + (2 ^ 64 - r)) % 2 ^ 64 + 1)
      × ((r + (w + (2 ^ 64 - r)) % 2 ^ 64) % 128 ≡ w % 128)
distance_lem r w hr hw h = omega arith

other_slot : (r d i : ℕ) → i < d → d < 128 → (r + d) % 128 ≢ (r + i) % 128
other_slot r d i h k e = absurd (omega arith)

-- The chunk that a push stores.
abbrev pub chunk_of : SharedRing → ℕ → ℕ → ℕ → List ℕ → AudioChunk
chunk_of s stamp frames bytes audio = record {
  time_stamp = stamp;
  frame_count = frames;
  data_bytes = bytes;
  sequence = (s.write_index + 1) % 2 ^ 64;
  audio = audio;
}

-- Storing a chunk in a ring with room appends it to what is held.
module _ (s : SharedRing) (stamp frames bytes : ℕ) (audio : List ℕ) (v : IsValid s)
    (room : distance s < 128) where
  store-ring :
      (store s stamp frames bytes audio).ring
      ≡ set s.ring (s.write_index % 128) (chunk_of s stamp frames bytes audio)
  unfolding store
  store-ring =
      ap (λ k. set s.ring k (chunk_of s stamp frames bytes audio)) (slot_of s s.write_index v)

  store-distance : distance (store s stamp frames bytes audio) ≡ distance s + 1
  unfolding store
  store-distance = (distance_lem s.read_index s.write_index v.read_in v.write_in room).0

  store-old : (i : ℕ) → i < distance s → at (store s stamp frames bytes audio) i ≡ at s i
  unfolding store
  store-old i h =
      ap (λ ring. get_or ring ((s.read_index + i) % 128) no_chunk) store-ring
      ∙ get_or-set_ne s.ring (s.write_index % 128) ((s.read_index + i) % 128) _ no_chunk
          (λ e. other_slot s.read_index (distance s) i h room (here ∙ e))
    where
      here : (s.read_index + distance s) % 128 ≡ s.write_index % 128
      here = (distance_lem s.read_index s.write_index v.read_in v.write_in room).1

  store-new :
      at (store s stamp frames bytes audio) (distance s) ≡ chunk_of s stamp frames bytes audio
  unfolding store
  store-new =
      ap₂ (λ ring k. get_or ring k no_chunk) store-ring
        (distance_lem s.read_index s.write_index v.read_in v.write_in room).1
      ∙ get_or-set_self s.ring (s.write_index % 128) _ no_chunk (omega (arith, v.slots))

  pub store-contents :
      contents (store s stamp frames bytes audio)
      ≡ contents s ++ (chunk_of s stamp frames bytes audio ∷ [])
  unfolding store
  store-contents =
      tabulate-append (distance s) _ (at (store s stamp frames bytes audio)) (at s)
        (chunk_of s stamp frames bytes audio ∷ []) no_chunk store-distance store-old last
    where
      last :
          (i : ℕ)
          → i < 1
          → at (store s stamp frames bytes audio) (distance s + i)
            ≡ get_or (chunk_of s stamp frames bytes audio ∷ []) i no_chunk
      last zero h = ap (at (store s stamp frames bytes audio)) (omega arith) ∙ store-new
      last (suc i) h = absurd (omega arith)

  store-numbered :
      (i : ℕ)
      → i < distance s + 1
      → (at (store s stamp frames bytes audio) i).sequence ≡ (s.read_index + i + 1) % 2 ^ 64
  store-numbered i h = elim (Bool-cases (i == distance s)) [
    | inl e ↦ rw (==→eq i (distance s) e, store-new) (omega (arith, v.write_in, v.read_in))
    | inr e ↦ rw (store-old i (ground (arith, e))) (v.numbered i (ground (arith, e)))
  ]

  store-areas :
      length audio ≡ audio_data_bytes
      → (j : ℕ) → j < 128
      → length (get_or (store s stamp frames bytes audio).ring j no_chunk).audio ≡ audio_data_bytes
  store-areas full j h = rw store-ring (elim (Bool-cases (s.write_index % 128 == j)) [
    | inl e ↦
        ap (λ c. length c.audio)
          (ap
              (λ k.
                get_or (set s.ring (s.write_index % 128) (chunk_of s stamp frames bytes audio)) k
                  no_chunk)
              (sym (==→eq (s.write_index % 128) j e))
            ∙ get_or-set_self s.ring (s.write_index % 128) _ no_chunk (omega (arith, v.slots)))
        ∙ full
    | inr e ↦
        ap (λ c. length c.audio)
          (get_or-set_ne s.ring (s.write_index % 128) j (chunk_of s stamp frames bytes audio)
            no_chunk (λ q. ground (arith, e, q)))
        ∙ v.areas j h
  ])

  pub store-IsValid : length audio ≡ audio_data_bytes → IsValid (store s stamp frames bytes audio)
  unfolding store
  store-IsValid full = record {
    capacity_is = v.capacity_is;
    slots = ap length store-ring ∙ length-set s.ring (s.write_index % 128) _ ∙ v.slots;
    write_in = omega arith;
    read_in = v.read_in;
    near = omega (arith, store-distance);
    areas = store-areas full;
    numbered = λ i h. store-numbered i (omega (arith, h, store-distance));
  }

-- A pop on an empty ring, and on one that holds chunks.
pub head_lem :
    (r w : ℕ)
    → r < 2 ^ 64
    → w < 2 ^ 64
    → r ≢ w
    → (w + (2 ^ 64 - r)) % 2 ^ 64 ≡ suc ((w + (2 ^ 64 - (r + 1) % 2 ^ 64)) % 2 ^ 64)
head_lem r w hr hw h = omega arith

pub next_slot : (r i : ℕ) → ((r + 1) % 2 ^ 64 + i) % 128 ≡ (r + suc i) % 128
next_slot r i = omega arith
