-- ===== src/Ring/Queue.antt =====
-- What the byte ring promises: a queue of at most `cap` bytes, oldest first. A call moves all of
-- the bytes asked for, or none.
use fire_wire_audio.Prelude.{
  ℕ, ◌+◌, List, ◌++◌, Option, none, some, ltb, if◌then◌else◌, length, take, drop,
}

unfoldable pub write : ℕ → List ℕ → List ℕ → ℕ × List ℕ
write cap q src = if ltb cap (length q + length src) then (0, q) else (length src, q ++ src)

unfoldable pub read : List ℕ → ℕ → Option (List ℕ) × List ℕ
read q n = if ltb (length q) n then (none, q) else (some (take n q), drop n q)

-- `skip` returns how many bytes went.
unfoldable pub skip_count : List ℕ → ℕ → ℕ
skip_count q n = if ltb (length q) n then 0 else n
