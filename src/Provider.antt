-- ===== src/Provider.antt =====
-- src/Isoch/core/IsochPacketProvider.cpp and its header: the client's audio goes into the byte ring,
-- and comes out of it as the AM824 payload of packets. `none` is a null pointer; the size that the
-- source passes beside a pointer is the length of the list. Counters of 64 bits wrap; `write` and
-- `read` of the ring take sizes of 32 bits, to which the source narrows. The host is little-endian.
pub mod Calls
pub mod Stream
pub mod Samples
mod Tests
use fire_wire_audio.Prelude.{
  ℕ, ◌+◌, ◌*◌, ◌/◌, ◌%◌, ◌^◌, Bool, true, false, ◌&&◌, not, List, [], ◌∷◌, ◌++◌, Option, none, some,
  ltb, leb, ◌==◌, if◌then◌else◌, length, take, replicate,
}
use fire_wire_audio.Ring
use fire_wire_audio.Ring.{Ring, u32, capacity, read_space}

pub record Provider : Type 0 where
  pub audio_buffer : Ring
  pub is_initialized : Bool
  pub underrun_count : ℕ
  pub total_pushed_bytes : ℕ
  pub total_pulled_bytes : ℕ
  pub overflow_write_attempts : ℕ

unfoldable pub reset : Provider → Provider
reset p = record {
  audio_buffer = Ring.reset p.audio_buffer;
  is_initialized = false;
  underrun_count = 0;
  total_pushed_bytes = 0;
  total_pulled_bytes = 0;
  overflow_write_attempts = 0;
}

unfoldable pub fresh : ℕ → ℕ → Provider
unfolding reset
fresh fill ring_buffer_size = reset (record {
  audio_buffer = Ring.create fill ring_buffer_size;
  is_initialized = false;
  underrun_count = 0;
  total_pushed_bytes = 0;
  total_pulled_bytes = 0;
  overflow_write_attempts = 0;
})

abbrev pub initial_fill_target_percent : ℕ
initial_fill_target_percent = 50

unfoldable pub is_ready_for_streaming : Provider → Bool
is_ready_for_streaming p =
    leb (capacity p.audio_buffer * initial_fill_target_percent / 100) (read_space p.audio_buffer)

-- The ring after a push, and how many bytes it took.
unfoldable pub written : Provider → List ℕ → ℕ × Ring
written p src = Ring.write p.audio_buffer (take (length src % u32) src)

unfoldable pub push_bytes : Provider → List ℕ → Bool × Provider
unfolding written is_ready_for_streaming
push_bytes p src =
    let (count, ring) = written p src in
    let p' = record p {
      audio_buffer = ring;
      total_pushed_bytes = (p.total_pushed_bytes + count) % 2 ^ 64;
    } in
    if ltb count (length src)
    then (false, record p' { overflow_write_attempts = (p.overflow_write_attempts + 1) % 2 ^ 64 })
    else if not p.is_initialized && is_ready_for_streaming p'
    then (true, record p' { is_initialized = true })
    else (true, p')

unfoldable pub push_audio_data : Provider → Option (List ℕ) → Bool × Provider
unfolding push_bytes
push_audio_data p none = (false, p)
push_audio_data p (some src) =
    if length src == 0
    then (false, p)
    else if length src % 4 == 0
    then push_bytes p src
    else (false, p)

-- A host sample under its label, and its bytes in bus order.
abbrev pub am824 : ℕ → ℕ
am824 sample = 0x40 * 2 ^ 24 + sample % 2 ^ 24

abbrev pub big_endian : ℕ → List ℕ
big_endian w = w / 2 ^ 24 % 2 ^ 8 ∷ w / 2 ^ 16 % 2 ^ 8 ∷ w / 2 ^ 8 % 2 ^ 8 ∷ w % 2 ^ 8 ∷ []

abbrev pub host_word : ℕ → ℕ → ℕ → ℕ → ℕ
host_word a b c d = a + 2 ^ 8 * b + 2 ^ 16 * c + 2 ^ 24 * d

-- The loop over the samples, in place.
unfoldable pub format_am824 : List ℕ → List ℕ
format_am824 [] = []
format_am824 (a ∷ []) = a ∷ []
format_am824 (a ∷ b ∷ []) = a ∷ b ∷ []
format_am824 (a ∷ b ∷ c ∷ []) = a ∷ b ∷ c ∷ []
format_am824 (a ∷ b ∷ c ∷ d ∷ rest) = big_endian (am824 (host_word a b c d)) ++ format_am824 rest

pub record PreparedPacketData : Type 0 where
  pub data_length : ℕ
  pub data_available : Bool
  pub generated_silence : Bool

unfoldable pub handle_underrun : Provider → Provider
handle_underrun p = record p { underrun_count = (p.underrun_count + 1) % 2 ^ 64 }

-- The result, the target's new content, and the provider.
pub record Filled : Type 0 where
  pub result : PreparedPacketData
  pub target : List ℕ
  pub provider : Provider

unfoldable pub refused : Provider → List ℕ → Filled
refused p target = record {
  result = record { data_length = 0; data_available = false; generated_silence = true };
  target = target;
  provider = p;
}

unfoldable pub silence : Provider → Ring → ℕ → Filled
unfolding handle_underrun
silence p ring n = record {
  result = record { data_length = n; data_available = false; generated_silence = true };
  target = replicate n 0;
  provider = record (handle_underrun p) { audio_buffer = ring };
}

unfoldable pub pulled : Provider → Ring → List ℕ → Filled
unfolding format_am824
pulled p ring bytes = record {
  result = record { data_length = length bytes; data_available = false; generated_silence = false };
  target = format_am824 bytes;
  provider = record p {
    audio_buffer = ring;
    total_pulled_bytes = (p.total_pulled_bytes + length bytes) % 2 ^ 64;
  };
}

-- What follows the read: formatting when it gave all of the bytes, else an underrun.
unfoldable pub fill_from : Provider → ℕ → Option (List ℕ) → Ring → Filled
unfolding silence pulled
fill_from p n none ring = silence p ring n
fill_from p n (some bytes) ring =
    if length bytes == n then pulled p ring bytes else silence p ring n

unfoldable pub fill_bytes : Provider → ℕ → Filled
unfolding fill_from
fill_bytes p n = let (out, ring) = Ring.read p.audio_buffer (n % u32) in fill_from p n out ring

unfoldable pub fill_packet_data : Provider → Option (List ℕ) → Filled
unfolding refused fill_bytes
fill_packet_data p none = refused p []
fill_packet_data p (some target) =
    if length target == 0
    then refused p target
    else if length target % 4 == 0
    then fill_bytes p (length target)
    else refused p target
