-- ===== src/Ring/Refine.antt =====
-- A valid byte ring behaves as the bounded queue of the bytes that it holds, read in ring order.
use fire_wire_audio.Prelude.{
  ℕ, ◌+◌, ◌-◌, ◌%◌, ◌≤◌, ◌<◌, ◌≡◌, ap, sym, ◌∙◌, List, ◌++◌, arith, ltb, if◌then◌else◌, length,
  length-copy_to, length-take, length-drop, length-append, length-tabulate, some, none, get_or,
  take, drop, copy_to, tabulate, get_or-copy_to_before, get_or-copy_to_after, get_or-copy_to_in,
  get_or-take, get_or-drop, get_or-append_left, take-append-drop, tabulate-append, take-tabulate,
  drop-tabulate, get_or-append_right, eq-tabulate, tabulate_ext,
}
use fire_wire_audio.Ring.{Ring, u32, capacity, peek, read, skip, write}
use fire_wire_audio.Ring.Valid.{IsValid, turn, held, mask-turn, read_space-held, write_space-held}
use fire_wire_audio.Ring.Queue

-- The i-th byte held.
abbrev pub at : Ring → ℕ → ℕ
at r i = get_or r.buf (turn r.size (r.read_head + i)) 0

abbrev pub contents : Ring → List ℕ
contents r = tabulate (held r) (at r)

-- Writing inside the storage without a turn.
write_contiguous :
    (r : Ring) (src : List ℕ) (w' : ℕ)
    → IsValid r
    → held r + length src < r.size
    → r.write_head + length src ≤ r.size
    → w' ≡ turn r.size (r.write_head + length src)
    → contents (record r { buf = copy_to r.buf r.write_head src; write_head = w' })
      ≡ contents r ++ src
write_contiguous r src w' v fits line e =
    tabulate-append (held r) (held s) (at s) (at r) src 0 (ground arith) old new
  where
    s : Ring
    s = record r { buf = copy_to r.buf r.write_head src; write_head = w' }

    old : (i : ℕ) → i < held r → at s i ≡ at r i
    old i h = ground (
      arith,
      get_or-copy_to_before r.buf r.write_head src (turn r.size (r.read_head + i)) 0,
      get_or-copy_to_after r.buf r.write_head src (turn r.size (r.read_head + i)) 0,
    )

    new : (i : ℕ) → i < length src → at s (held r + i) ≡ get_or src i 0
    new i h = ground (
      arith,
      get_or-copy_to_in r.buf r.write_head src i (turn r.size (r.read_head + (held r + i))) 0,
    )

-- Writing in two parts, the second from the start of the storage on.
write_split :
    (r : Ring) (src front back : List ℕ)
    → IsValid r
    → held r + length src < r.size
    → r.size < r.write_head + length src
    → src ≡ front ++ back
    → length front ≡ r.size - r.write_head
    → contents (record r {
      buf = copy_to (copy_to r.buf r.write_head front) 0 back;
      write_head = length src - (r.size - r.write_head);
    })
      ≡ contents r ++ src
write_split r src front back v fits line e lf =
    tabulate-append (held r) (held s) (at s) (at r) src 0 (ground arith) old new
  where
    first : List ℕ
    first = copy_to r.buf r.write_head front

    s : Ring
    s = record r { buf = copy_to first 0 back; write_head = length src - (r.size - r.write_head) }

    parts : length src ≡ length front + length back
    parts = ap length e ∙ length-append front back

    old : (i : ℕ) → i < held r → at s i ≡ at r i
    old i h = ground (
      arith,
      get_or-copy_to_after first 0 back (turn r.size (r.read_head + i)) 0,
      get_or-copy_to_before r.buf r.write_head front (turn r.size (r.read_head + i)) 0,
      parts,
    )

    new : (i : ℕ) → i < length src → at s (held r + i) ≡ get_or src i 0
    new i h = ground (
      arith,
      ap (λ xs. get_or xs i 0) e,
      get_or-append_left front back i 0,
      get_or-append_right front back i (i - length front) 0,
      get_or-copy_to_after first 0 back (turn r.size (r.read_head + (held r + i))) 0,
      get_or-copy_to_in r.buf r.write_head front i (turn r.size (r.read_head + (held r + i))) 0,
      get_or-copy_to_in first 0 back (i - length front) (turn r.size (r.read_head + (held r + i)))
          0,
      length-copy_to r.buf r.write_head front,
      parts,
    )

pub length-contents : (r : Ring) → length (contents r) ≡ held r
length-contents r = length-tabulate (held r) (at r)

-- `write` takes what the queue takes, returns the same count, and leaves the ring holding its bytes.
pub write_refines :
    (r : Ring) (src : List ℕ)
    → IsValid r
    → let (n, s) = write r src in (n, contents s) ≡ Queue.write (capacity r) (contents r) src
unfolding write Queue.write capacity
write_refines r src v = ground (
  arith,
  write_space-held r v,
  length-contents r,
  mask-turn r ((r.write_head + length src) % u32) v,
  write_contiguous r src (turn r.size ((r.write_head + length src) % u32)) v,
  write_split r src (take (r.size - r.write_head) src) (drop (r.size - r.write_head) src) v,
  take-append-drop (r.size - r.write_head) src,
  length-take (r.size - r.write_head) src,
)

-- Copying out without a turn, and round the end.
peek_contiguous :
    (r : Ring) (n : ℕ)
    → IsValid r
    → n ≤ held r
    → r.read_head + n ≤ r.size
    → take n (drop r.read_head r.buf) ≡ tabulate n (at r)
peek_contiguous r n v h line =
    eq-tabulate (take n (drop r.read_head r.buf)) n (at r) 0
      (omega (arith, length-take n (drop r.read_head r.buf), length-drop r.read_head r.buf))
      (λ i p. ground (
        arith,
        get_or-take n (drop r.read_head r.buf) i 0,
        get_or-drop r.read_head r.buf i (r.read_head + i) 0,
      ))

peek_split :
    (r : Ring) (n : ℕ)
    → IsValid r
    → n ≤ held r
    → r.size < r.read_head + n
    → take (r.size - r.read_head) (drop r.read_head r.buf)
        ++ take (n - (r.size - r.read_head)) r.buf
      ≡ tabulate n (at r)
peek_split r n v h line =
    eq-tabulate (front ++ back) n (at r) 0 (omega (arith, length-append front back, lf, lb))
      pointwise
  where
    front : List ℕ
    front = take (r.size - r.read_head) (drop r.read_head r.buf)

    back : List ℕ
    back = take (n - (r.size - r.read_head)) r.buf

    lf : length front ≡ r.size - r.read_head
    lf = omega (
      arith,
      length-take (r.size - r.read_head) (drop r.read_head r.buf),
      length-drop r.read_head r.buf,
    )

    lb : length back ≡ n - (r.size - r.read_head)
    lb = ground (arith, length-take (n - (r.size - r.read_head)) r.buf)

    pointwise : (i : ℕ) → i < n → get_or (front ++ back) i 0 ≡ at r i
    pointwise i p = ground (
      arith,
      lf,
      get_or-append_left front back i 0,
      get_or-append_right front back i (i - length front) 0,
      get_or-take (r.size - r.read_head) (drop r.read_head r.buf) i 0,
      get_or-drop r.read_head r.buf i (r.read_head + i) 0,
      get_or-take (n - (r.size - r.read_head)) r.buf (i - length front) 0,
    )

-- `peek` shows the oldest `n` bytes, or nothing when fewer are held.
pub peek_lem :
    (r : Ring) (n : ℕ)
    → IsValid r
    → peek r n ≡ (if ltb (held r) n then none else some (take n (contents r)))
unfolding peek
peek_lem r n v = ground (
  arith,
  read_space-held r v,
  peek_contiguous r n v,
  peek_split r n v,
  take-tabulate n (held r) (at r),
)

-- Moving the read head on by `n` bytes drops them.
advance :
    (r : Ring) (n k : ℕ)
    → IsValid r
    → n ≤ held r
    → k ≡ turn r.size (r.read_head + n)
    → contents (record r { read_head = k }) ≡ drop n (contents r)
advance r n k v h e = sym (
    drop-tabulate n (held r) (held s) (at r) (ground arith)
    ∙ tabulate_ext (held s) _ (at s) (λ i p. ap (λ j. get_or r.buf j 0) (ground arith)))
  where
    s : Ring
    s = record r { read_head = k }

-- `read` hands out and removes the oldest bytes, or refuses when fewer are held.
pub read_refines :
    (r : Ring) (n : ℕ)
    → IsValid r
    → let (out, s) = read r n in (out, contents s) ≡ Queue.read (contents r) n
unfolding read Queue.read
read_refines r n v = ground (
  arith,
  peek_lem r n v,
  length-contents r,
  mask-turn r ((r.read_head + n) % u32) v,
  advance r n (turn r.size ((r.read_head + n) % u32)) v,
  nothing,
)
  where
    nothing : n ≡ 0 → drop n (contents r) ≡ contents r
    nothing e = ap (λ k. drop k (contents r)) e

-- `skip` removes the bytes that `read` would hand out.
pub skip-read : (r : Ring) (n : ℕ) → IsValid r → contents (skip r n).1 ≡ contents (read r n).1
unfolding skip read
skip-read r n v =
    ground (arith, peek_lem r n v, read_space-held r v, mask-turn r ((r.read_head + n) % u32) v)
