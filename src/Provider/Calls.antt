-- ===== src/Provider/Calls.antt =====
-- What one push and one filled packet do to the provider.
use fire_wire_audio.Prelude.{
  take_all, Bool-cases, leb→le, ℕ, ◌+◌, ◌-◌, ◌%◌, ◌^◌, ◌≤◌, ◌<◌, ◌≡◌, ap, sym, ◌∙◌, false, ◌&&◌,
  List, [], ◌++◌, none, some, arith, ltb, leb, ◌==◌, if◌then◌else◌, length, take, drop, replicate,
  take-append-drop, ◌⊎◌, inl, inr, length-take, length-drop, length-append,
}
use fire_wire_audio.Ring
use fire_wire_audio.Ring.{Ring, u32, capacity, read_space}
use fire_wire_audio.Ring.Valid.{IsValid, held}
use fire_wire_audio.Ring.Refine.{contents, length-contents, write_refines, read_refines}
use fire_wire_audio.Ring.Keep.{calls-IsValid}
use fire_wire_audio.Ring.Queue
use fire_wire_audio.Provider.{
  Provider, push_audio_data, push_bytes, written, fill_packet_data, fill_bytes, fill_from, refused,
  silence, pulled, format_am824, handle_underrun,
}
use mathlib.Core.Path.{subst}
use mathlib.Core.List.{append-nil}
use native.Mathlib.Nat.{mod-eq_of_lt}

-- The counters account for what the ring holds, and it holds whole samples.
pub record IsBalanced (p : Provider) : Type 0 where
  pub ring : IsValid p.audio_buffer
  pub whole : held p.audio_buffer % 4 ≡ 0
  pub balance : (p.total_pulled_bytes + held p.audio_buffer) % 2 ^ 64 ≡ p.total_pushed_bytes

written_all :
    (p : Provider) (src : List ℕ) → length src < u32 → written p src ≡ Ring.write p.audio_buffer src
unfolding written
written_all p src small =
    ap (Ring.write p.audio_buffer)
      (take_all (length src % u32) src (omega (arith, mod-eq_of_lt small)))

-- The ring takes all of the bytes, or none when they do not fit.
written_lem :
    (p : Provider) (src : List ℕ)
    → IsValid p.audio_buffer
    → length src < u32
    → let (count, ring) = written p src in
      let room = leb (held p.audio_buffer + length src) (capacity p.audio_buffer) in
      (count ≡ (if room then length src else 0))
      × IsValid ring
      × (held ring ≡ held p.audio_buffer + count)
      × (contents ring ≡ contents p.audio_buffer ++ (if room then src else []))
unfolding Queue.write
written_lem p src v small = rw (written_all p src small) (
  ground (arith, refines, length-contents p.audio_buffer),
  (calls-IsValid p.audio_buffer src 0 v).0.0,
  ground (
    arith,
    refines,
    length-contents p.audio_buffer,
    length-contents (Ring.write p.audio_buffer src).1,
    length-append (contents p.audio_buffer) src,
    ap length (ap (λ x. x.1) refines),
  ),
  ground (arith, refines, length-contents p.audio_buffer, append-nil (contents p.audio_buffer)),
)
  where
    refines :
        ((Ring.write p.audio_buffer src).0, contents (Ring.write p.audio_buffer src).1)
        ≡ Queue.write (capacity p.audio_buffer) (contents p.audio_buffer) src
    refines = write_refines p.audio_buffer src v

-- The counters after `count` more bytes.
balance_push :
    (pulls held pushes count : ℕ)
    → (pulls + held) % 2 ^ 64 ≡ pushes
    → (pulls + (held + count)) % 2 ^ 64 ≡ (pushes + count) % 2 ^ 64
balance_push pulls held pushes count h = omega arith

-- What the client may take as handed over after a push: all of it, or nothing.
unfoldable pub accepted : Provider → List ℕ → List ℕ
accepted p src = if (push_audio_data p (some src)).0 then src else []

-- A push is accepted just when it is of some whole samples and there is room.
pub push_accepts :
    (p : Provider) (src : List ℕ)
    → IsValid p.audio_buffer
    → length src < u32
    → (push_audio_data p (some src)).0 ≡ (
        leb 1 (length src)
        && (length src % 4 == 0)
        && leb (held p.audio_buffer + length src) (capacity p.audio_buffer))
unfolding push_audio_data push_bytes
push_accepts p src v small = ground (arith, written_lem p src v small)

pub push_contents :
    (p : Provider) (src : List ℕ)
    → IsBalanced p
    → length src < u32
    → contents (push_audio_data p (some src)).1.audio_buffer
      ≡ contents p.audio_buffer ++ accepted p src
unfolding push_audio_data push_bytes accepted
push_contents p src v small =
    ground (arith, written_lem p src v.ring small, append-nil (contents p.audio_buffer))

-- The ring after a push is the one before it, or the one that was written.
push_ring :
    (p : Provider) (src : List ℕ)
    → let ring = (push_audio_data p (some src)).1.audio_buffer in
      (ring ≡ p.audio_buffer) ⊎ (ring ≡ (written p src).1)
unfolding push_audio_data push_bytes
push_ring p src = ground arith

push_sums :
    (p : Provider) (src : List ℕ)
    → IsBalanced p
    → length src < u32
    → let p' = (push_audio_data p (some src)).1 in
      (held p'.audio_buffer % 4 ≡ 0)
      × ((p'.total_pulled_bytes + held p'.audio_buffer) % 2 ^ 64 ≡ p'.total_pushed_bytes)
unfolding push_audio_data push_bytes
push_sums p src v small = ground (arith, written_lem p src v.ring small, v.balance)

pub push-IsBalanced :
    (p : Provider) (src : List ℕ)
    → IsBalanced p
    → length src < u32
    → IsBalanced (push_audio_data p (some src)).1
push-IsBalanced p src v small = record {
  ring = elim (push_ring p src) [
    | inl e ↦ subst IsValid (sym e) v.ring
    | inr e ↦ subst IsValid (sym e) (written_lem p src v.ring small).1
  ];
  whole = (push_sums p src v small).0;
  balance = (push_sums p src v small).1;
}

-- The two outcomes of the ring's read of whole samples.
read_lem :
    (r : Ring) (n : ℕ)
    → IsValid r
    → let (out, s) = Ring.read r n in
      (out ≡ (if ltb (held r) n then none else some (take n (contents r))))
      × IsValid s
      × (held s ≡ (if ltb (held r) n then held r else held r - n))
      × (contents s ≡ (if ltb (held r) n then contents r else drop n (contents r)))
unfolding Queue.read
read_lem r n v = (
  ground (arith, read_refines r n v, length-contents r),
  (calls-IsValid r [] n v).1.0,
  ground (
    arith,
    read_refines r n v,
    length-contents r,
    length-contents (Ring.read r n).1,
    length-drop n (contents r),
    ap length (ap (λ x. x.1) (read_refines r n v)),
  ),
  ground (arith, read_refines r n v, length-contents r),
)

-- The two outcomes of filling a packet of whole samples.
pub fill_bytes_cases :
    (p : Provider) (n : ℕ)
    → IsValid p.audio_buffer
    → n < u32
    → let ring = (Ring.read p.audio_buffer n).1 in
      fill_bytes p n ≡ (
        if leb n (held p.audio_buffer)
        then pulled p ring (take n (contents p.audio_buffer))
        else silence p ring n)
unfolding fill_bytes fill_from
fill_bytes_cases p n v small =
    ap (λ k. let (out, ring) = Ring.read p.audio_buffer k in fill_from p n out ring)
      (mod-eq_of_lt small)
    ∙ ap (λ out. fill_from p n out (Ring.read p.audio_buffer n).1) (read_lem p.audio_buffer n v).0
    ∙ outcome
  where
    outcome :
        let ring = (Ring.read p.audio_buffer n).1 in
        fill_from p n
          (if ltb (held p.audio_buffer) n then none else some (take n (contents p.audio_buffer)))
          ring
        ≡ (if leb n (held p.audio_buffer)
            then pulled p ring (take n (contents p.audio_buffer))
            else silence p ring n)
    outcome =
        ground (arith, length-take n (contents p.audio_buffer), length-contents p.audio_buffer)

-- What a packet is filled from: the oldest bytes, when enough are held.
unfoldable pub drawn : Provider → ℕ → List ℕ
drawn p n =
    if leb 1 n && (n % 4 == 0) && leb n (held p.audio_buffer)
    then take n (contents p.audio_buffer)
    else []

-- Filling a packet takes exactly the bytes that it needs from the front of the ring and labels
-- them; with fewer in the ring it fills the packet with zeros, and a target that is empty or not
-- of whole samples stays as it is.
pub fill_target :
    (p : Provider) (target : List ℕ)
    → IsValid p.audio_buffer
    → length target < u32
    → let f = fill_packet_data p (some target) in
      let n = length target in
      f.target ≡ (
        if leb 1 n && (n % 4 == 0)
        then (if leb n (held p.audio_buffer) then format_am824 (drawn p n) else replicate n 0)
        else target)
unfolding fill_packet_data refused silence pulled drawn
fill_target p target v small = ground (arith, fill_bytes_cases p (length target) v small)

-- Filling from whole samples, without the tests on the target.
bytes_contents :
    (p : Provider) (n : ℕ)
    → IsValid p.audio_buffer
    → n < u32
    → contents p.audio_buffer
      ≡ (if leb n (held p.audio_buffer) then take n (contents p.audio_buffer) else [])
        ++ contents (fill_bytes p n).provider.audio_buffer
unfolding silence pulled handle_underrun
bytes_contents p n v small =
    rw (fill_bytes_cases p n v small) (
      ground (arith, (read_lem p.audio_buffer n v).3, take-append-drop n (contents p.audio_buffer)))

pub fill_contents :
    (p : Provider) (target : List ℕ)
    → IsValid p.audio_buffer
    → length target < u32
    → contents p.audio_buffer
      ≡ drawn p (length target) ++ contents (fill_packet_data p (some target)).provider.audio_buffer
unfolding fill_packet_data refused drawn
fill_contents p target v small = ground (arith, bytes_contents p (length target) v small)

fill_ring :
    (p : Provider) (target : List ℕ)
    → IsValid p.audio_buffer
    → length target < u32
    → let ring = (fill_packet_data p (some target)).provider.audio_buffer in
      (ring ≡ p.audio_buffer) ⊎ (ring ≡ (Ring.read p.audio_buffer (length target)).1)
unfolding fill_packet_data refused silence pulled handle_underrun
fill_ring p target v small = ground (arith, fill_bytes_cases p (length target) v small)

-- The counters after a draw of `n` bytes.
sums_drawn :
    (n left held moved pulls pushes : ℕ)
    → n % 4 ≡ 0
    → held % 4 ≡ 0
    → n ≤ held
    → left ≡ held - n
    → moved ≡ n
    → (pulls + held) % 2 ^ 64 ≡ pushes
    → (left % 4 ≡ 0) × (((pulls + moved) % 2 ^ 64 + left) % 2 ^ 64 ≡ pushes)
sums_drawn n left held moved pulls pushes whole all le e l h = omega arith

bytes_sums :
    (p : Provider) (n : ℕ)
    → IsBalanced p
    → n < u32
    → n % 4 ≡ 0
    → let p' = (fill_bytes p n).provider in
      (held p'.audio_buffer % 4 ≡ 0)
      × ((p'.total_pulled_bytes + held p'.audio_buffer) % 2 ^ 64 ≡ p'.total_pushed_bytes)
unfolding silence pulled handle_underrun
bytes_sums p n v small whole =
    rw (fill_bytes_cases p n v.ring small) (elim (Bool-cases (leb n (held p.audio_buffer))) [
      | inl e ↦ rw e (
          sums_drawn n (held ring) (held p.audio_buffer) _ p.total_pulled_bytes p.total_pushed_bytes
            whole v.whole (leb→le n (held p.audio_buffer) e) (ground (arith, left))
            (ground
              (arith, length-take n (contents p.audio_buffer), length-contents p.audio_buffer))
            v.balance)
      | inr e ↦ rw e (same e)
    ])
  where
    ring : Ring
    ring = (Ring.read p.audio_buffer n).1

    left :
        held ring
        ≡ (if ltb (held p.audio_buffer) n then held p.audio_buffer else held p.audio_buffer - n)
    left = (read_lem p.audio_buffer n v.ring).2

    same :
        leb n (held p.audio_buffer) ≡ false
        → (held ring % 4 ≡ 0) × ((p.total_pulled_bytes + held ring) % 2 ^ 64 ≡ p.total_pushed_bytes)
    same e =
        let stays : held ring ≡ held p.audio_buffer = ground (arith, left) in
        rw stays (v.whole, v.balance)

fill_sums :
    (p : Provider) (target : List ℕ)
    → IsBalanced p
    → length target < u32
    → let p' = (fill_packet_data p (some target)).provider in
      (held p'.audio_buffer % 4 ≡ 0)
      × ((p'.total_pulled_bytes + held p'.audio_buffer) % 2 ^ 64 ≡ p'.total_pushed_bytes)
unfolding fill_packet_data refused
fill_sums p target v small =
    ground (arith, bytes_sums p (length target) v small, v.whole, v.balance)

pub fill-IsBalanced :
    (p : Provider) (target : List ℕ)
    → IsBalanced p
    → length target < u32
    → IsBalanced (fill_packet_data p (some target)).provider
fill-IsBalanced p target v small = record {
  ring = elim (fill_ring p target v.ring small) [
    | inl e ↦ subst IsValid (sym e) v.ring
    | inr e ↦ subst IsValid (sym e) (read_lem p.audio_buffer (length target) v.ring).1
  ];
  whole = (fill_sums p target v small).0;
  balance = (fill_sums p target v small).1;
}
