-- ===== src/Ring/Valid.antt =====
-- The representation invariant of the byte ring, and what its 32-bit arithmetic comes to.
use fire_wire_audio.Prelude.{
  ℕ, zero, suc, ◌+◌, ◌-◌, ◌%◌, ◌^◌, ◌≤◌, ◌<◌, ◌≡◌, refl, ap, ◌∙◌, bit_and, arith, ltb, leb,
  if◌then◌else◌, length, length-replicate, bit_and-mask, pow_pos, Bool-cases, inl, inr, leb→le,
  replicate,
}
use native.Mathlib.Nat.{add-zero, mod-eq_of_lt, mod-eq-sub-mod, pow-le-pow_right}
use fire_wire_audio.Ring.{
  Ring, u32, size_mask, bit_ceil_from, next_power_of_two, create, read_space, write_space, capacity,
}

-- The size is a power of two that a `uint32_t` can double without wrapping to a smaller number
-- than it, the storage is as long, and both heads are in it.
pub record IsValid (r : Ring) : Type 0 where
  pub exponent : ℕ
  pub power : r.size ≡ 2 ^ exponent
  pub small : r.size ≤ 2 ^ 31
  pub storage : length r.buf ≡ r.size
  pub write_in : r.write_head < r.size
  pub read_in : r.read_head < r.size

-- One turn round a ring of `size` places.
abbrev pub turn : ℕ → ℕ → ℕ
turn size j = if ltb j size then j else j - size

-- Below two turns the mask is one turn.
pub mask-turn :
    (r : Ring) (j : ℕ) → IsValid r → j < r.size + r.size → bit_and j (size_mask r) ≡ turn r.size j
mask-turn r j v h =
    ap (λ k. bit_and j (k - 1)) v.power
    ∙ bit_and-mask v.exponent j
    ∙ ap (λ k. j % k) back
    ∙ ground (
      arith,
      mod-eq_of_lt {n = j} {m = r.size},
      mod-eq-sub-mod {n = j} {m = r.size},
      mod-eq_of_lt {n = j - r.size} {m = r.size},
    )
  where
    back : 2 ^ v.exponent ≡ r.size
    back = omega arith

abbrev pub held : Ring → ℕ
held r =
    if ltb r.write_head r.read_head
    then r.write_head + r.size - r.read_head
    else r.write_head - r.read_head

pub read_space-held : (r : Ring) → IsValid r → read_space r ≡ held r
unfolding read_space
read_space-held r v =
    ground (arith, mask-turn r ((r.write_head + (u32 - r.read_head) + r.size) % u32) v)

-- The room that the ring reports and the bytes that it holds make up its capacity: no subtraction of
-- the 32-bit arithmetic goes wrong.
pub write_space-held : (r : Ring) → IsValid r → write_space r + held r ≡ capacity r
unfolding write_space capacity
write_space-held r v =
    ground (arith, mask-turn r ((r.read_head + (u32 - r.write_head) + r.size) % u32) v)

pub bit_ceil_from_lem :
    (rounds k s : ℕ)
    → s ≤ 2 ^ (k + rounds)
    → (e : ℕ) × (bit_ceil_from rounds k s ≡ 2 ^ e) × (s ≤ 2 ^ e) × (e ≤ k + rounds)
unfolding bit_ceil_from
bit_ceil_from_lem zero k s h = (k, refl, rw (← add-zero k) h, omega arith)
bit_ceil_from_lem (suc rounds) k s h = elim (Bool-cases (leb s (2 ^ k))) [
  | inl e ↦ (k, rw e, leb→le s (2 ^ k) e, omega arith)
  | inr e ↦
      let (i, p, q, l) = bit_ceil_from_lem rounds (k + 1) s (rw shift h) in
      (i, rw e p, q, omega arith)
]
  where
    shift : k + 1 + rounds ≡ k + suc rounds
    shift = omega arith

-- The constructor makes an empty, valid ring with room for at least the bytes asked for, less one.
pub create-IsValid :
    (fill size : ℕ)
    → size ≤ 2 ^ 31
    → IsValid (create fill size) × (size ≤ (create fill size).size) × (held (create fill size) ≡ 0)
unfolding create next_power_of_two
create-IsValid fill size h =
    let (e, p, q, l) = bit_ceil_from_lem 31 0 size h in
    (
      record {
        exponent = e;
        power = p;
        small = rw p (pow-le-pow_right {n = 2} (omega arith) l);
        storage = length-replicate _ fill;
        write_in = rw p (pow_pos e);
        read_in = rw p (pow_pos e);
      },
      rw p q,
      empty (next_power_of_two size),
    )
  where
    empty :
        (n : ℕ)
        → held (record { size = n; buf = replicate n fill; write_head = 0; read_head = 0 }) ≡ 0
    empty n = ground arith
