-- ===== src/Wide/Stddev.antt =====
-- dt_stddev: the value that the stddev() action prints.
use native.Mathlib.Nat.{
  mul-le-mul, mul-le-mul_right, mul-le-mul_left, div-add-mod, mod-lt, le_of_mul-le-mul_left,
}
use dtrace_utils.Common.{
  ℕ, ◌+◌, ◌-◌, ◌*◌, ◌/◌, ◌^◌, ◌≤◌, ◌<◌, ◌≡◌, ◌∙◌, ap, inl, inr, some, arith, Bool-cases, ltb,
}
use dtrace_utils.Wide.{Wide, word, subtract_128, multiply_128, abs_64, stddev}
use dtrace_utils.Wide.Value.{value, IsWide, subtract_128_lem}
use dtrace_utils.Wide.Multiply.{multiply_128_lem}
use dtrace_utils.Wide.Divide.{divide_128_lem}
use dtrace_utils.Wide.Sqrt.{sqrt_128_lem}
use dtrace_utils.Wide.ShiftRight.{div-le}

le-div : (x y m : ℕ) → 0 < m → x * m ≤ y → x ≤ y / m
le-div x y m h e = elim (Bool-cases (ltb (y / m) x)) [
  | inr f ↦ ground arith
  | inl t ↦ absurd (
      omega (
        arith,
        mul-le-mul_right {m = y / m + 1} {n = x} m (ground arith),
        div-add-mod y m,
        mod-lt y h,
      ))
]

div_mul_le : (y m : ℕ) → y / m * m ≤ y
div_mul_le y m = omega (arith, div-add-mod y m)

-- The square of the average is at most the average of the squares.
module _ (c n s q : ℕ) (posc : 0 < c) (posn : 0 < n) (cauchy : s * s ≤ c * q) where
  abbrev mean : ℕ
  mean = s / n / c

  scaled : mean * c * n ≤ s
  scaled = omega (arith, mul-le-mul_right n (div_mul_le (s / n) c), div_mul_le s n)

  unscaled : mean * c * n * (mean * n) ≤ q
  unscaled = le_of_mul-le-mul_left {k = c} (omega (arith, mul-le-mul scaled scaled, cauchy)) posc

  square-le : mean * mean ≤ q / n / c
  square-le = le-div (mean * mean) (q / n) c posc (
      le-div (mean * mean * c) q n posn
        (omega (arith, unscaled, mul-le-mul_left {m = 1} {n = n} (mean * mean * c * n) posn)))

abs_64_pos : (x : ℕ) → x < 2 ^ 63 → abs_64 x ≡ x
unfolding abs_64
abs_64_pos x h = ground arith

abs_64_lt : (x : ℕ) → x < word → abs_64 x < word
unfolding abs_64
abs_64_lt x h = ground arith

-- For a positive count and normalization below 2 ^ 63, and data in which the square of the sum is
-- at most the count times the sum of squares, as it is for every list of numbers, `dt_stddev`
-- returns the square root, rounded down, of the average of the squares less the square of the
-- average, both averages normalized and rounded down.
pub stddev_lem :
    (count sum : ℕ) (squares : Wide) (normal : ℕ)
    → IsWide squares
    → 0 < count
    → count < 2 ^ 63
    → 0 < normal
    → normal < 2 ^ 63
    → sum < word
    → abs_64 sum * abs_64 sum ≤ count * value squares
    → let avg = abs_64 sum / normal / count in
      let var = value squares / normal / count - avg * avg in
      (r : ℕ) × (stddev count sum squares normal ≡ some r)
      × (r * r ≤ var)
      × (var < (r + 1) * (r + 1))
unfolding stddev
stddev_lem count sum squares normal v c0 c1 n0 n1 s1 cauchy =
    let a = divide_128_lem squares normal v n0 (omega arith) in
    let b = divide_128_lem a.result count a.wide_result c0 (omega arith) in
    let mean = abs_64 sum / normal / count in
    let mean_lt : mean < word = omega (
      arith,
      div-le (abs_64 sum / normal) count c0,
      div-le (abs_64 sum) normal n0,
      abs_64_lt sum s1,
    ) in
    let (wm, em) = multiply_128_lem mean mean mean_lt mean_lt in
    let (ws, es) = subtract_128_lem b.result (multiply_128 mean mean) b.wide_result wm in
    let (r, e, lo, hi) = sqrt_128_lem (subtract_128 b.result (multiply_128 mean mean)) ws in
    let le = square-le count normal (abs_64 sum) (value squares) c0 n0 cauchy in
    let avg_eq : value b.result ≡ value squares / normal / count =
      b.quotient ∙ ap (λ (t : ℕ). t / count) a.quotient in
    let var_eq : value (subtract_128 b.result (multiply_128 mean mean))
        ≡ value squares / normal / count - mean * mean =
      omega (arith, es, em, avg_eq, le, b.wide_result.lo_lt, b.wide_result.hi_lt) in
    (
      r,
      rw (a.returns, stddev)
          (rw (b.returns, stddev) (rw (abs_64_pos count c1, abs_64_pos normal n1) e)),
      omega (arith, lo, var_eq),
      omega (arith, hi, var_eq),
    )
