-- ===== src/Shm.antt =====
-- include/shared/SharedMemoryStructures.hpp: the ring of audio chunks in memory that the Core Audio
-- plug-in shares with the daemon. `push` and `pop` are single steps, of one producer and one consumer;
-- fences and the padding have no counterpart. A time stamp is the structure's content as one number.
-- A buffer of the source list is its bytes; copying past a chunk's audio area is undefined in C++, and
-- `push` is then `overflows`.
pub mod Refine
pub mod Fifo
mod Tests
use fire_wire_audio.Prelude.{
  ℕ, zero, suc, ◌+◌, ◌-◌, ◌*◌, ◌%◌, ◌^◌, Bool, true, false, ◌||◌, List, [], ◌∷◌, ◌++◌, Option, none,
  some, bit_and, ltb, leb, ◌==◌, if◌then◌else◌, length, get_or, set, copy_to,
}

abbrev pub max_frames_per_chunk : ℕ
max_frames_per_chunk = 4096

abbrev pub audio_data_bytes : ℕ
audio_data_bytes = 4096 * (32 * 4)

pub record AudioChunk : Type 0 where
  pub time_stamp : ℕ
  pub frame_count : ℕ
  pub data_bytes : ℕ
  pub sequence : ℕ
  pub audio : List ℕ

pub record SharedRing : Type 0 where
  pub capacity : ℕ
  pub write_index : ℕ
  pub read_index : ℕ
  pub ring : List AudioChunk

abbrev pub no_chunk : AudioChunk
no_chunk = record { time_stamp = 0; frame_count = 0; data_bytes = 0; sequence = 0; audio = [] }

-- wr - rd in 64 bits.
abbrev pub distance : SharedRing → ℕ
distance s = (s.write_index + (2 ^ 64 - s.read_index)) % 2 ^ 64

-- The buffers one after another, each copied to its place: they end at the sum of their sizes.
unfoldable pub copy_buffers : List (List ℕ) → ℕ → List ℕ → Option (List ℕ)
copy_buffers [] at area = some area
copy_buffers (b ∷ bs) at area =
    let rest = copy_buffers bs (at + length b) (copy_to area at b) in
    if ltb (length area) (at + length b) then none else rest

pub data Pushed : Type 0 where
  declined : Pushed
  overflows : Pushed
  stored : SharedRing → Pushed

unfoldable pub store : SharedRing → ℕ → ℕ → ℕ → List ℕ → SharedRing
store s stamp frames bytes audio =
    let slot = bit_and s.write_index (s.capacity - 1) in
    record s {
      ring = set s.ring slot (record {
        time_stamp = stamp;
        frame_count = frames;
        data_bytes = bytes;
        sequence = (s.write_index + 1) % 2 ^ 64;
        audio = audio;
      });
      write_index = (s.write_index + 1) % 2 ^ 64;
    }

unfoldable pub push : SharedRing → Option (List (List ℕ)) → ℕ → ℕ → ℕ → Pushed
unfolding copy_buffers store
push s none stamp frames bytes_per_frame = declined
push s (some src) stamp frames bytes_per_frame =
    let slot = bit_and s.write_index (s.capacity - 1) in
    let total_bytes = frames * bytes_per_frame % 2 ^ 32 in
    if frames == 0
      || ltb max_frames_per_chunk frames
      || leb s.capacity (distance s)
      || ltb audio_data_bytes total_bytes
    then declined
    else elim (copy_buffers src 0 (get_or s.ring slot no_chunk).audio) [
      | none ↦ overflows
      | some audio ↦ stored (store s stamp frames total_bytes audio)
    ]

-- The chunk that `pop` copies out, or none when it returns false.
unfoldable pub pop : SharedRing → Option AudioChunk × SharedRing
pop s =
    let chunk = get_or s.ring (bit_and s.read_index (s.capacity - 1)) no_chunk in
    if s.read_index == s.write_index
    then (none, s)
    else if chunk.sequence == (s.read_index + 1) % 2 ^ 64
    then (some chunk, record s { read_index = (s.read_index + 1) % 2 ^ 64 })
    else (none, s)
