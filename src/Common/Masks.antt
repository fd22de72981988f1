-- ===== src/Common/Masks.antt =====
-- `&` with a mask of neighbouring bits.
use Prim.Native.Nat.{ℕ, ◌+◌, ◌-◌, ◌*◌, ◌/◌, ◌^◌, ◌<◌, bit_and}
use mathlib.Core.Path.{◌≡◌, ap, ◌∙◌}
use native.Mathlib.Nat.{div-lt_iff_lt-mul, mod-eq_of_lt}
use native.Mathlib.Omega.{arith}
use dtrace_utils.Common.Bits.{bit_and_high, bit_and_low}
use dtrace_utils.Common.Pow.{pow-add, pow-pos}

pub cut : (j k t : ℕ) → t < 2 ^ (j + k) → t / 2 ^ k < 2 ^ j
cut j k t h = (div-lt_iff_lt-mul (pow-pos k)).1 (omega (arith, h, pow-add j k))

-- The mask of `j` bits above the lowest `k` tells whether a number of `j + k` bits reaches 2 ^ k.
pub mask_high : (j k t : ℕ) → t < 2 ^ (j + k) → bit_and t ((2 ^ j - 1) * 2 ^ k) ≡ t / 2 ^ k * 2 ^ k
mask_high j k t h =
    bit_and_high k t (2 ^ j - 1)
    ∙ ap (λ (x : ℕ). x * 2 ^ k) (bit_and_low j (t / 2 ^ k) ∙ mod-eq_of_lt (cut j k t h))
