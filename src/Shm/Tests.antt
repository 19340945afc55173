-- ===== src/Shm/Tests.antt =====
-- The shared ring on concrete rings, and the theorems applied.
use fire_wire_audio.Prelude.{
  ℕ, zero, suc, ap, ◌∙◌, ◌-◌, ◌*◌, ◌%◌, ◌^◌, ◌<◌, ◌≡◌, refl, List, [], ◌∷◌, ◌++◌, some, arith,
  length, get_or, replicate, length-replicate,
}
use fire_wire_audio.Shm.{audio_data_bytes, AudioChunk, SharedRing, no_chunk, stored, push, pop}
use fire_wire_audio.Shm.Refine.{contents, IsValid, chunk_of}
use fire_wire_audio.Shm.Fifo.{
  total_length, admits, push_appends, filled_area, pop_lem, first, as_list,
}

-- A cleared area, which no test needs to compute.
unfoldable zeros : ℕ → List ℕ
zeros n = replicate n 0

length-zeros : (n : ℕ) → length (zeros n) ≡ n
unfolding zeros
length-zeros n = length-replicate n 0

-- A ring as the daemon first maps it, with its indices about to wrap round 64 bits.
abbrev blank : AudioChunk
blank = record {
  time_stamp = 0;
  frame_count = 0;
  data_bytes = 0;
  sequence = 0;
  audio = zeros audio_data_bytes;
}

abbrev empty : SharedRing
empty = record {
  capacity = 128;
  write_index = 2 ^ 64 - 1;
  read_index = 2 ^ 64 - 1;
  ring = replicate 128 blank;
}

get_or-replicate : (n : ℕ) (c d : AudioChunk) (j : ℕ) → j < n → get_or (replicate n c) j d ≡ c
get_or-replicate zero c d j h = absurd (omega arith)
get_or-replicate (suc n) c d zero h = refl
get_or-replicate (suc n) c d (suc j) h = get_or-replicate n c d j (omega arith)

empty-IsValid : IsValid empty
empty-IsValid = record {
  capacity_is = refl;
  slots = length-replicate 128 blank;
  write_in = omega arith;
  read_in = omega arith;
  near = omega arith;
  areas = λ j h.
      ap (λ c. length c.audio) (get_or-replicate 128 blank no_chunk j h)
      ∙ length-zeros audio_data_bytes;
  numbered = λ i h. absurd (omega arith);
}

pop_lem_example :
    ((pop empty).0 ≡ first (contents empty))
    × (contents empty ≡ as_list (pop empty).0 ++ contents (pop empty).1)
    × IsValid (pop empty).1
pop_lem_example = pop_lem empty empty-IsValid

abbrev two_buffers : List (List ℕ)
two_buffers = (1 ∷ 2 ∷ []) ∷ (3 ∷ []) ∷ []

push_appends_example :
    (s' : SharedRing) × (push empty (some two_buffers) 5 1 3 ≡ stored s')
    × (contents s'
        ≡ contents empty
          ++ (chunk_of empty 5 1 (1 * 3 % 2 ^ 32) (filled_area empty two_buffers) ∷ []))
    × IsValid s'
unfolding admits total_length
push_appends_example = push_appends empty two_buffers 5 1 3 empty-IsValid (omega arith) refl
