-- ===== src/Ring.antt =====
-- include/Isoch/utils/RingBuffer.hpp: the byte ring between the client and the packet provider.
-- A method that updates the ring returns the new ring beside its result. Each call is one step: the
-- model is of one reader and one writer whose calls do not overlap. Memory fences, prefetching and
-- the NEON copy loop have no counterpart; a copy is `copy_to`. A `uint32_t` is a number below 2^32.
pub mod Valid
pub mod Queue
pub mod Refine
pub mod Keep
mod Tests
use fire_wire_audio.Prelude.{
  ℕ, zero, suc, ◌+◌, ◌-◌, ◌*◌, ◌%◌, ◌^◌, Bool, true, false, List, [], ◌++◌, Option, none, some,
  bit_and, ltb, leb, ◌==◌, if◌then◌else◌, length, take, drop, copy_to, replicate,
}

abbrev pub u32 : ℕ
u32 = 2 ^ 32

pub record Ring : Type 0 where
  pub size : ℕ
  pub buf : List ℕ
  pub write_head : ℕ
  pub read_head : ℕ

-- std::bit_ceil: the first power of two, from 2^k on, that is at least `s`; `rounds` powers are tried.
unfoldable pub bit_ceil_from : ℕ → ℕ → ℕ → ℕ
bit_ceil_from zero k s = 2 ^ k
bit_ceil_from (suc rounds) k s =
    let rest = bit_ceil_from rounds (k + 1) s in if leb s (2 ^ k) then 2 ^ k else rest

unfoldable pub next_power_of_two : ℕ → ℕ
unfolding bit_ceil_from
next_power_of_two s = bit_ceil_from 31 0 s

abbrev pub size_mask : Ring → ℕ
size_mask r = r.size - 1

-- The constructor. `aligned_alloc` gives no promise about the content: `fill` is what it holds.
unfoldable pub create : ℕ → ℕ → Ring
unfolding next_power_of_two
create fill size = record {
  size = next_power_of_two size;
  buf = replicate (next_power_of_two size) fill;
  write_head = 0;
  read_head = 0;
}

unfoldable pub reset : Ring → Ring
reset r = record r { write_head = 0; read_head = 0 }

-- `w - r + _size` wraps at 32 bits before the mask is applied.
unfoldable pub read_space : Ring → ℕ
read_space r =
    if ltb r.read_head r.write_head
    then r.write_head - r.read_head
    else bit_and ((r.write_head + (u32 - r.read_head) + r.size) % u32) (size_mask r)

unfoldable pub write_space : Ring → ℕ
write_space r =
    if r.read_head == r.write_head
    then r.size - 1
    else if ltb r.read_head r.write_head
    then bit_and ((r.read_head + (u32 - r.write_head) + r.size) % u32) (size_mask r) - 1
    else (r.read_head - r.write_head) - 1

unfoldable pub capacity : Ring → ℕ
capacity r = r.size - 1

-- The bytes that `peek_internal` copies to its destination, or none and a result of 0.
unfoldable pub peek : Ring → ℕ → Option (List ℕ)
peek r n =
    if ltb (read_space r) n
    then none
    else if leb ((r.read_head + n) % u32) r.size
    then some (take n (drop r.read_head r.buf))
    else some (
        take (r.size - r.read_head) (drop r.read_head r.buf)
        ++ take (n - (r.size - r.read_head)) r.buf)

-- `read`: the bytes, and the ring with its read head moved. A refused read, and one of no bytes,
-- returns 0 and changes nothing.
unfoldable pub read : Ring → ℕ → Option (List ℕ) × Ring
read r n = elim (peek r n) [
  | none ↦ (none, r)
  | some bytes ↦
      if n == 0
      then (some bytes, r)
      else (some bytes, record r { read_head = bit_and ((r.read_head + n) % u32) (size_mask r) })
]

unfoldable pub skip : Ring → ℕ → ℕ × Ring
skip r n =
    if ltb (read_space r) n
    then (0, r)
    else (n, record r { read_head = bit_and ((r.read_head + n) % u32) (size_mask r) })

-- `write` takes all of `src` or nothing.
unfoldable pub write : Ring → List ℕ → ℕ × Ring
write r src =
    if ltb (write_space r) (length src)
    then (0, r)
    else if leb ((r.write_head + length src) % u32) r.size
    then (
      length src,
      record r {
        buf = copy_to r.buf r.write_head src;
        write_head = bit_and ((r.write_head + length src) % u32) (size_mask r);
      },
    )
    else (
      length src,
      record r {
        buf =
            copy_to (copy_to r.buf r.write_head (take (r.size - r.write_head) src)) 0
              (drop (r.size - r.write_head) src);
        write_head = length src - (r.size - r.write_head);
      },
    )
