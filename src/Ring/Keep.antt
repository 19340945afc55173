-- ===== src/Ring/Keep.antt =====
-- Every call keeps the ring valid, so a whole history of calls does.
use fire_wire_audio.Prelude.{
  ℕ, ◌+◌, ◌-◌, ◌%◌, ◌<◌, ◌≡◌, refl, ap, ◌∙◌, List, [], ◌∷◌, Option, arith, length, length-copy_to,
  take, drop, copy_to,
}
use fire_wire_audio.Ring.{Ring, u32, reset, capacity, peek, read, skip, write}
use fire_wire_audio.Ring.Valid.{IsValid, mask-turn, read_space-held, write_space-held}
use fire_wire_audio.Ring.Refine.{
  contents, length-contents, peek_lem, write_refines, read_refines, skip-read,
}
use fire_wire_audio.Ring.Queue

-- What a call has to keep: the size stays, so the exponent and the bound do.
abbrev Kept : Ring → Ring → Type 0
Kept r s =
    (s.size ≡ r.size) × (length s.buf ≡ s.size) × (s.write_head < s.size) × (s.read_head < s.size)

Kept-IsValid : {r s : Ring} → IsValid r → Kept r s → IsValid s × (s.size ≡ r.size)
Kept-IsValid v k = (
  record {
    exponent = v.exponent;
    power = k.0 ∙ v.power;
    small = omega arith;
    storage = k.1;
    write_in = k.2;
    read_in = k.3;
  },
  k.0,
)

write-Kept : (r : Ring) (src : List ℕ) → IsValid r → Kept r (write r src).1
unfolding write capacity
write-Kept r src v = ground (
  arith,
  write_space-held r v,
  mask-turn r ((r.write_head + length src) % u32) v,
  length-copy_to r.buf r.write_head src,
  length-copy_to r.buf r.write_head (take (r.size - r.write_head) src),
  length-copy_to (copy_to r.buf r.write_head (take (r.size - r.write_head) src)) 0
      (drop (r.size - r.write_head) src),
)

read-Kept : (r : Ring) (n : ℕ) → IsValid r → Kept r (read r n).1
unfolding read
read-Kept r n v = ground (arith, peek_lem r n v, mask-turn r ((r.read_head + n) % u32) v)

skip-Kept : (r : Ring) (n : ℕ) → IsValid r → Kept r (skip r n).1
unfolding skip
skip-Kept r n v = ground (arith, read_space-held r v, mask-turn r ((r.read_head + n) % u32) v)

-- `write`, `read`, `skip` and `reset` keep the ring valid and its size.
pub calls-IsValid :
    (r : Ring) (src : List ℕ) (n : ℕ)
    → IsValid r
    → (IsValid (write r src).1 × ((write r src).1.size ≡ r.size))
      × (IsValid (read r n).1 × ((read r n).1.size ≡ r.size))
      × (IsValid (skip r n).1 × ((skip r n).1.size ≡ r.size))
      × (IsValid (reset r) × ((reset r).size ≡ r.size))
unfolding reset
calls-IsValid r src n v = (
  Kept-IsValid v (write-Kept r src v),
  Kept-IsValid v (read-Kept r n v),
  Kept-IsValid v (skip-Kept r n v),
  Kept-IsValid v (refl, v.storage, omega arith, omega arith),
)

-- A client's calls, and what each returns.
pub data Call : Type 0 where
  writes : List ℕ → Call
  reads peeks skips : ℕ → Call

pub data Reply : Type 0 where
  count : ℕ → Reply
  bytes : Option (List ℕ) → Reply

unfoldable pub run : Ring → List Call → List Reply
run r [] = []
run r (writes src ∷ cs) = count (write r src).0 ∷ run (write r src).1 cs
run r (reads n ∷ cs) = bytes (read r n).0 ∷ run (read r n).1 cs
run r (peeks n ∷ cs) = bytes (peek r n) ∷ run r cs
run r (skips n ∷ cs) = count (skip r n).0 ∷ run (skip r n).1 cs

-- The same calls on the queue.
unfoldable pub run_queue : ℕ → List ℕ → List Call → List Reply
run_queue cap q [] = []
run_queue cap q (writes src ∷ cs) =
    count (Queue.write cap q src).0 ∷ run_queue cap (Queue.write cap q src).1 cs
run_queue cap q (reads n ∷ cs) = bytes (Queue.read q n).0 ∷ run_queue cap (Queue.read q n).1 cs
run_queue cap q (peeks n ∷ cs) = bytes (Queue.read q n).0 ∷ run_queue cap q cs
run_queue cap q (skips n ∷ cs) = count (Queue.skip_count q n) ∷ run_queue cap (Queue.read q n).1 cs

capacity-eq : (s r : Ring) → s.size ≡ r.size → capacity s ≡ capacity r
unfolding capacity
capacity-eq s r e = omega arith

read-peek : (r : Ring) (n : ℕ) → peek r n ≡ (read r n).0
unfolding read
read-peek r n = ground arith

skip_count-eq : (r : Ring) (n : ℕ) → IsValid r → (skip r n).0 ≡ Queue.skip_count (contents r) n
unfolding skip Queue.skip_count
skip_count-eq r n v = ground (arith, read_space-held r v, length-contents r)

-- No sequence of writes, reads, peeks and skips tells a valid ring from the queue of its bytes
-- that is bounded by the ring's capacity.
pub run_refines :
    (cs : List Call) (r : Ring) → IsValid r → run r cs ≡ run_queue (capacity r) (contents r) cs
unfolding run run_queue
run_refines [] r v = refl
run_refines (writes src ∷ cs) r v =
    let (valid, same) = (calls-IsValid r src 0 v).0 in
    rw (
      run_refines cs (write r src).1 valid,
      ← write_refines r src v,
      capacity-eq (write r src).1 r same,
    )
run_refines (reads n ∷ cs) r v =
    let (valid, same) = (calls-IsValid r [] n v).1 in
    rw (run_refines cs (read r n).1 valid, ← read_refines r n v, capacity-eq (read r n).1 r same)
run_refines (peeks n ∷ cs) r v =
    rw (run_refines cs r v, ← read_refines r n v) (ap (λ o. bytes o ∷ rest) (read-peek r n))
  where
    rest : List Reply
    rest = run_queue (capacity r) (contents r) cs
run_refines (skips n ∷ cs) r v =
    let (valid, same) = (calls-IsValid r [] n v).2 in
    rw (
      run_refines cs (skip r n).1 valid,
      skip-read r n v,
      ← read_refines r n v,
      skip_count-eq r n v,
      capacity-eq (skip r n).1 r same,
    )
