-- ===== src/Prelude/Bits.antt =====
-- Masks of low bits: `x & (2^k - 1)` is `x % 2^k`, for every k.
use Prim.Native.Nat.{
  ℕ, zero, suc, ◌+◌, ◌-◌, ◌*◌, ◌/◌, ◌%◌, ◌^◌, ◌≤◌, ◌<◌, min, bit_and, digits, bit_and-bitwise,
}
use mathlib.Core.Path.{◌≡◌, sym, ◌∙◌}
use native.Mathlib.Omega.{arith}
use native.Mathlib.Nat.{
  zero-mod, pow-suc, add-mul-mod_self_right, mod-eq_of_lt, mod-lt, div-add-mod', mul_assoc,
}

pub pow_pos : (k : ℕ) → 0 < 2 ^ k
pow_pos zero = omega arith
pow_pos (suc k) = omega (arith, pow_pos k, pow-suc 2 k)

-- The remainder is what is left of any split into multiples of m and less than m.
mod_unique : (x m q r : ℕ) → r < m → x ≡ r + q * m → x % m ≡ r
mod_unique x m q r h e = rw (e, add-mul-mod_self_right) (mod-eq_of_lt h)

-- Halving, taking the remainder by p, and putting the lowest bit back is the remainder by 2 p.
mod_double : (x p : ℕ) → 0 < p → x % (p * 2) ≡ (x / 2 % p) * 2 + x % 2
mod_double x p h =
    mod_unique x (p * 2) (x / 2 / p) ((x / 2 % p) * 2 + x % 2) (omega (arith, mod-lt (x / 2) h))
      (omega (arith, div-add-mod' (x / 2) p, sym (mul_assoc (x / 2 / p) p 2)))

-- The halves of a mask.
halves : (p : ℕ) → 0 < p → ((p * 2 - 1) / 2 ≡ p - 1) × ((p * 2 - 1) % 2 ≡ 1)
halves p h = omega arith

-- What stands for the native operation, at a mask: `left` bounds the digits that are left, and one
-- digit goes at each step, from the number and from the mask alike.
masked : (left k x : ℕ) → x ≤ left → digits (λ b. zero) min left x (2 ^ k - 1) ≡ x % 2 ^ k
masked zero k zero h = sym (zero-mod (2 ^ k))
masked (suc left) k zero h = sym (zero-mod (2 ^ k))
masked zero k (suc x) h = absurd (omega arith)
masked (suc left) zero (suc x) h = omega (arith, masked left zero (suc x / 2) (omega arith))
masked (suc left) (suc k) (suc x) h =
    rw
      (
        pow-suc 2 k,
        mod_double (suc x) (2 ^ k) (pow_pos k),
        (halves (2 ^ k) (pow_pos k)).0,
        (halves (2 ^ k) (pow_pos k)).1,
        masked left k (suc x / 2) (omega arith),
      )
      (omega arith)

-- A mask of k ones keeps the remainder by 2^k.
pub bit_and-mask : (k x : ℕ) → bit_and x (2 ^ k - 1) ≡ x % 2 ^ k
bit_and-mask k x = bit_and-bitwise x (2 ^ k - 1) ∙ masked x k x (omega arith)
