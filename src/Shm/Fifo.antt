-- ===== src/Shm/Fifo.antt =====
-- What is pushed is popped, in order and once.
use fire_wire_audio.Prelude.{
  ℕ, suc, ◌+◌, ◌-◌, ◌*◌, ◌%◌, ◌^◌, ◌≤◌, ◌<◌, ◌≡◌, ◌≢◌, inl, inr, refl, ap, sym, ◌∙◌, Bool, true,
  false, not, ◌&&◌, List, [], ◌∷◌, ◌++◌, Option, none, some, arith, bit_and, ltb, leb, ◌==◌,
  if◌then◌else◌, Bool-cases, ==→eq, length, get_or, copy_to, tabulate, tabulate_ext, length-append,
  length-drop, drop, drop-drop, length-tabulate,
}
use mathlib.Core.Path.{subst}
use mathlib.Core.List.{append_assoc}
use fire_wire_audio.Shm.{
  audio_data_bytes, max_frames_per_chunk, AudioChunk, SharedRing, no_chunk, distance, copy_buffers,
  declined, stored, store, push, pop,
}
use fire_wire_audio.Shm.Refine.{
  at, contents, IsValid, slot_of, head_lem, next_slot, chunk_of, store-contents, store-IsValid,
}

-- How many bytes the source buffers hold together.
unfoldable pub total_length : List (List ℕ) → ℕ
total_length [] = 0
total_length (b ∷ bs) = length b + total_length bs

-- The source buffers one after the other.
unfoldable pub joined : List (List ℕ) → List ℕ
joined [] = []
joined (b ∷ bs) = b ++ joined bs

copy_to_start : (xs b : List ℕ) → length b ≤ length xs → copy_to xs 0 b ≡ b ++ drop (length b) xs
copy_to_start [] [] h = refl
copy_to_start [] (y ∷ b) h = absurd (omega arith)
copy_to_start (x ∷ xs) [] h = refl
copy_to_start (x ∷ xs) (y ∷ b) h = ap (λ zs. y ∷ zs) (copy_to_start xs b (omega arith))

copy_to_behind :
    (front xs b : List ℕ)
    → length b ≤ length xs
    → copy_to (front ++ xs) (length front) b ≡ (front ++ b) ++ drop (length b) xs
copy_to_behind [] xs b h = copy_to_start xs b h
copy_to_behind (x ∷ front) xs b h = ap (λ zs. x ∷ zs) (copy_to_behind front xs b h)

-- Buffers that fit are all copied, one after the other, and what is behind them stays.
copy_fits :
    (bs : List (List ℕ)) (at : ℕ) (front xs : List ℕ)
    → at ≡ length front
    → total_length bs ≤ length xs
    → copy_buffers bs at (front ++ xs) ≡ some (front ++ (joined bs ++ drop (total_length bs) xs))
unfolding copy_buffers total_length joined
copy_fits [] at front xs here h = refl
copy_fits (b ∷ bs) at front xs here h =
    let fits : ltb (length (front ++ xs)) (at + length b) ≡ false =
      ground (arith, length-append front xs) in
    let copied : copy_to (front ++ xs) at b ≡ (front ++ b) ++ drop (length b) xs =
      ap (λ k. copy_to (front ++ xs) k b) here ∙ copy_to_behind front xs b (omega arith) in
    rw (fits, copied)
      (copy_fits bs (at + length b) (front ++ b) (drop (length b) xs)
          (omega (arith, here, length-append front b)) (omega (arith, length-drop (length b) xs))
        ∙ ap some (
            append_assoc front b (joined bs ++ drop (total_length bs) (drop (length b) xs))
            ∙ ap (λ zs. front ++ zs)
                (sym (append_assoc b (joined bs) (drop (total_length bs) (drop (length b) xs))))
            ∙ ap (λ zs. front ++ ((b ++ joined bs) ++ zs))
                (drop-drop (total_length bs) (length b) (length b + total_length bs) xs
                  (omega arith))))

length-joined : (bs : List (List ℕ)) → length (joined bs) ≡ total_length bs
unfolding joined total_length
length-joined [] = refl
length-joined (b ∷ bs) = omega (arith, length-append b (joined bs), length-joined bs)

-- The audio area of the slot that is written next, and what the source's buffers make of it.
abbrev pub next_area : SharedRing → List ℕ
next_area s = (get_or s.ring (s.write_index % 128) no_chunk).audio

abbrev pub filled_area : SharedRing → List (List ℕ) → List ℕ
filled_area s src = joined src ++ drop (total_length src) (next_area s)

-- A push that is not refused.
unfoldable pub admits : SharedRing → ℕ → ℕ → Bool
admits s frames bytes_per_frame =
    not (frames == 0)
    && leb frames max_frames_per_chunk
    && ltb (length (contents s)) 128
    && leb (frames * bytes_per_frame % 2 ^ 32) audio_data_bytes

push_cases :
    (s : SharedRing) (src : List (List ℕ)) (stamp frames bytes_per_frame : ℕ)
    → IsValid s
    → total_length src ≤ audio_data_bytes
    → (length (filled_area s src) ≡ audio_data_bytes)
      × (push s (some src) stamp frames bytes_per_frame ≡ (
          if admits s frames bytes_per_frame
          then stored (store s stamp frames (frames * bytes_per_frame % 2 ^ 32) (filled_area s src))
          else declined))
unfolding push admits
push_cases s src stamp frames bytes_per_frame v h = (
  omega (
    arith,
    area,
    length-append (joined src) (drop (total_length src) (next_area s)),
    length-joined src,
    length-drop (total_length src) (next_area s),
  ),
  ground (arith, copied, length-tabulate (distance s) (at s), v.capacity_is),
)
  where
    area : length (next_area s) ≡ audio_data_bytes
    area = v.areas (s.write_index % 128) (omega arith)

    copied :
        copy_buffers src 0 (get_or s.ring (bit_and s.write_index (s.capacity - 1)) no_chunk).audio
        ≡ some (filled_area s src)
    copied =
        ap (λ k. copy_buffers src 0 (get_or s.ring k no_chunk).audio) (slot_of s s.write_index v)
        ∙ copy_fits src 0 [] (next_area s) refl (omega (arith, area))

admits_room :
    (s : SharedRing) (frames bytes_per_frame : ℕ)
    → admits s frames bytes_per_frame ≡ true
    → distance s < 128
unfolding admits
admits_room s frames bytes_per_frame ok = ground (arith, ok, length-tabulate (distance s) (at s))

-- On a valid ring with room, a push in range, of buffers that together fit the audio area,
-- appends one chunk with the stamp and the counts given and the next number, never copies past
-- the area, and keeps the ring valid. The chunk's audio is the source's buffers one after the
-- other, and behind them what the slot held.
pub push_appends :
    (s : SharedRing) (src : List (List ℕ)) (stamp frames bytes_per_frame : ℕ)
    → IsValid s
    → total_length src ≤ audio_data_bytes
    → admits s frames bytes_per_frame ≡ true
    → (s' : SharedRing) × (push s (some src) stamp frames bytes_per_frame ≡ stored s')
      × (contents s'
          ≡ contents s
            ++ (chunk_of s stamp frames (frames * bytes_per_frame % 2 ^ 32) (filled_area s src)
                ∷ []))
      × IsValid s'
push_appends s src stamp frames bytes_per_frame v h ok =
    let (full, e) = push_cases s src stamp frames bytes_per_frame v h in
    let new = store s stamp frames (frames * bytes_per_frame % 2 ^ 32) (filled_area s src) in
    (
      new,
      e ∙ ap (λ b. if b then stored new else declined) ok,
      store-contents s stamp frames _ (filled_area s src) v room,
      store-IsValid s stamp frames _ (filled_area s src) v room full,
    )
  where
    room : distance s < 128
    room = admits_room s frames bytes_per_frame ok

-- A push that is out of range, or that finds no room, is refused when its buffers fit the audio area
-- together.
pub push_declines :
    (s : SharedRing) (src : List (List ℕ)) (stamp frames bytes_per_frame : ℕ)
    → IsValid s
    → total_length src ≤ audio_data_bytes
    → admits s frames bytes_per_frame ≡ false
    → push s (some src) stamp frames bytes_per_frame ≡ declined
push_declines s src stamp frames bytes_per_frame v h out_of_range =
    (push_cases s src stamp frames bytes_per_frame v h).1
    ∙ ap
        (λ b.
          if b
          then stored (store s stamp frames (frames * bytes_per_frame % 2 ^ 32) (filled_area s src))
          else declined)
        out_of_range

-- The oldest element.
unfoldable pub first : List AudioChunk → Option AudioChunk
first [] = none
first (c ∷ cs) = some c

unfoldable pub as_list : Option AudioChunk → List AudioChunk
as_list none = []
as_list (some c) = c ∷ []

-- The ring with its read index moved on.
advanced : SharedRing → SharedRing
advanced s = record s { read_index = (s.read_index + 1) % 2 ^ 64 }

advanced-at : (s : SharedRing) (i : ℕ) → at (advanced s) i ≡ at s (suc i)
unfolding advanced
advanced-at s i = ap (λ k. get_or s.ring k no_chunk) (next_slot s.read_index i)

module _ (s : SharedRing) (v : IsValid s) (some_held : s.read_index ≢ s.write_index) where
  advanced-distance : distance s ≡ suc (distance (advanced s))
  unfolding advanced
  advanced-distance = head_lem s.read_index s.write_index v.read_in v.write_in some_held

  advanced-contents : contents s ≡ at s 0 ∷ contents (advanced s)
  unfolding advanced
  advanced-contents =
      ap (λ n. tabulate n (at s)) advanced-distance
      ∙ ap (λ cs. at s 0 ∷ cs)
          (tabulate_ext (distance (advanced s)) _ _ (λ i h. sym (advanced-at s i)))

  advanced-IsValid : IsValid (advanced s)
  unfolding advanced
  advanced-IsValid = record {
    capacity_is = v.capacity_is;
    slots = v.slots;
    write_in = v.write_in;
    read_in = omega arith;
    near = omega (arith, advanced-distance, v.near);
    areas = v.areas;
    numbered = λ i h.
        ap (λ c. c.sequence) (advanced-at s i)
        ∙ v.numbered (suc i) (omega (arith, advanced-distance, h))
        ∙ next_number s.read_index i;
  }
    where
      next_number : (r i : ℕ) → (r + suc i + 1) % 2 ^ 64 ≡ ((r + 1) % 2 ^ 64 + i + 1) % 2 ^ 64
      next_number r i = omega arith

  pop_held : pop s ≡ (some (at s 0), advanced s)
  unfolding pop advanced
  pop_held = rw (apart, here, expected) refl
    where
      apart : (s.read_index == s.write_index) ≡ false
      apart = ground arith

      here : get_or s.ring (bit_and s.read_index (s.capacity - 1)) no_chunk ≡ at s 0
      here =
          ap (λ k. get_or s.ring k no_chunk)
            (slot_of s s.read_index v ∙ ap (λ j. j % 128) (omega arith))

      number : (at s 0).sequence ≡ (s.read_index + 1) % 2 ^ 64
      number =
          v.numbered 0 (omega (arith, advanced-distance)) ∙ ap (λ j. (j + 1) % 2 ^ 64) (omega arith)

      expected : ((at s 0).sequence == (s.read_index + 1) % 2 ^ 64) ≡ true
      expected = ground (arith, number)

pop_empty : (s : SharedRing) → s.read_index ≡ s.write_index → pop s ≡ (none, s)
unfolding pop
pop_empty s e = ground arith

contents_empty : (s : SharedRing) → IsValid s → s.read_index ≡ s.write_index → contents s ≡ []
contents_empty s v e =
    let nothing : distance s ≡ 0 = omega (arith, v.read_in) in ap (λ n. tabulate n (at s)) nothing

-- What a pop may leave.
abbrev Popped : SharedRing → Option AudioChunk × SharedRing → Type 0
Popped s q = (q.0 ≡ first (contents s)) × (contents s ≡ as_list q.0 ++ contents q.1) × IsValid q.1

-- A pop takes the oldest chunk of a valid ring, and none just when there is none; the rest stays,
-- in order, and the ring stays valid.
pub pop_lem :
    (s : SharedRing)
    → IsValid s
    → ((pop s).0 ≡ first (contents s))
      × (contents s ≡ as_list (pop s).0 ++ contents (pop s).1)
      × IsValid (pop s).1
unfolding first as_list
pop_lem s v = elim (Bool-cases (s.read_index == s.write_index)) [
  | inl e ↦
      let same : s.read_index ≡ s.write_index = ==→eq s.read_index s.write_index e in
      subst (Popped s) (sym (pop_empty s same)) (sym (ap first (contents_empty s v same)), refl, v)
  | inr e ↦
      let apart : s.read_index ≢ s.write_index = λ q. ground (arith, e, q) in
      subst (Popped s) (sym (pop_held s v apart)) (
        sym (ap first (advanced-contents s v apart)),
        advanced-contents s v apart,
        advanced-IsValid s v apart,
      )
]
