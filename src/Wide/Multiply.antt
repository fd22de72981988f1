-- ===== src/Wide/Multiply.antt =====
-- dt_multiply_128: the full product of two words.
use native.Mathlib.Nat.{mul-le-mul}
use dtrace_utils.Common.{ℕ, ◌+◌, ◌*◌, ◌/◌, ◌%◌, ◌≤◌, ◌<◌, ◌≡◌, ap₂, arith}
use dtrace_utils.Wide.{wide, word, left, shift_128, add_128, multiply_128}
use dtrace_utils.Wide.Value.{value, IsWide, add_128_lem}
use dtrace_utils.Wide.Shift.{shift_left_lem}

abbrev half : ℕ
half = 0x1_0000_0000

product_lt : (a b : ℕ) → a < half → b < half → a * b + a + b + 1 ≤ word
product_lt a b h k = omega (
  arith,
  mul-le-mul {n₁ = a + 1} {m₁ = b + 1} {n₂ = half} {m₂ = half} (omega arith) (omega arith),
)

split_half : (a : ℕ) → a / half * half + a % half ≡ a
split_half a = omega arith

-- A partial product, shifted up by half a word.
middle :
    (a b : ℕ)
    → a < half
    → b < half
    → IsWide (shift_128 (wide (a * b % word) 0) (left 32))
      × (value (shift_128 (wide (a * b % word) 0) (left 32)) ≡ a * b * half)
middle a b h k =
    let (v, e) =
      shift_left_lem (wide (a * b % word) 0) 32
        (record { lo_lt = omega arith; hi_lt = omega arith }) in
    (v, omega (arith, e, product_lt a b h k))

-- The two words of `dt_multiply_128` are the product of its two factors below 2 ^ 64.
pub multiply_128_lem :
    (a b : ℕ) → a < word → b < word → IsWide (multiply_128 a b) × (value (multiply_128 a b) ≡ a * b)
unfolding multiply_128
multiply_128_lem a b h k =
    let hi1 = a / half in
    let lo1 = a % half in
    let hi2 = b / half in
    let lo2 = b % half in
    let product = wide (lo1 * lo2 % word) (hi1 * hi2 % word) in
    let (v1, e1) = middle hi1 lo2 (omega arith) (omega arith) in
    let (v2, e2) = middle hi2 lo1 (omega arith) (omega arith) in
    let (v, e) =
      add_128_lem product (shift_128 (wide (hi1 * lo2 % word) 0) (left 32))
        (record { lo_lt = omega arith; hi_lt = omega arith }) v1 in
    let (v', e') =
      add_128_lem (add_128 product (shift_128 (wide (hi1 * lo2 % word) 0) (left 32)))
        (shift_128 (wide (hi2 * lo1 % word) 0) (left 32)) v v2 in
    let whole = ap₂ (λ (s t : ℕ). s * t) (split_half a) (split_half b) in
    let bound =
      mul-le-mul {n₁ = a + 1} {m₁ = b + 1} {n₂ = word} {m₂ = word} (omega arith) (omega arith) in
    (
      v',
      omega (
        arith,
        e,
        e',
        e1,
        e2,
        whole,
        bound,
        product_lt lo1 lo2 (omega arith) (omega arith),
        product_lt hi1 hi2 (omega arith) (omega arith),
      ),
    )
