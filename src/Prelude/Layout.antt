-- ===== src/Prelude/Layout.antt =====
-- An allocation cut into areas, and an area into places of one size.
use Prim.Native.Nat.{ℕ, suc, ◌+◌, ◌-◌, ◌*◌, ◌%◌, ◌^◌, ◌≤◌, ◌<◌, bit_and}
use mathlib.Core.Path.{◌≡◌, ap, ◌∙◌}
use native.Mathlib.Omega.{arith}
use native.Mathlib.Nat.{mod-eq_of_lt, mod-lt, mul-le-mul_right, add-mul}
use fire_wire_audio.Prelude.Bits.{bit_and-mask, pow_pos}
use fire_wire_audio.Prelude.Expected.{Expected, value}

-- (x + PAGE_SIZE - 1) & ~(PAGE_SIZE - 1); what `& ~mask` clears is `& mask`.
unfoldable pub page_align : ℕ → ℕ → ℕ
page_align page x = (x + page - 1) - bit_and (x + page - 1) (page - 1)

-- Rounding up to pages never makes a size smaller.
pub page_align-le : (k x : ℕ) → x ≤ page_align (2 ^ k) x
unfolding page_align
page_align-le k x =
    omega (arith, bit_and-mask k (x + 2 ^ k - 1), mod-lt (x + 2 ^ k - 1) (pow_pos k), pow_pos k)

pub index_bound : (n k g p : ℕ) → g < n → p < k → suc (g * k + p) ≤ n * k
index_bound n k g p hg hp = omega (arith, mul-le-mul_right {m = suc g} {n = n} k hg, add-mul g 1 k)

-- A getter gives an address with `size` bytes from it on between two bounds.
unfoldable pub Within : Expected ℕ → ℕ → ℕ → ℕ → Type 0
Within e low size high = (s : ℕ) × (e ≡ value s) × (low ≤ s) × (s + size ≤ high)

-- Products that fit 32 bits are exact.
pub exact_product :
    (i n size : ℕ) → i ≤ n → n < 2 ^ 32 → n * size < 2 ^ 32 → i % 2 ^ 32 * size % 2 ^ 32 ≡ i * size
exact_product i n size h hn hs =
    ap (λ j. j * size % 2 ^ 32) (mod-eq_of_lt below) ∙ mod-eq_of_lt fits
  where
    below : i < 2 ^ 32
    below = omega arith

    fits : i * size < 2 ^ 32
    fits = omega (arith, mul-le-mul_right {m = i} {n = n} size h)

-- The i-th of `n` places of `size` bytes lies inside an area of `n * size` bytes.
pub place_bound : (i n size : ℕ) → suc i ≤ n → i * size + size ≤ n * size
place_bound i n size h =
    omega (arith, mul-le-mul_right {m = suc i} {n = n} size h, add-mul i 1 size)
