-- ===== src/Wide/BitLength.antt =====
-- dt_nbits_128 and the loop of dt_divide_128 that measures the divisor: binary logarithms.
use dtrace_utils.Common.{
  ℕ, zero, suc, ◌+◌, ◌*◌, ◌/◌, ◌^◌, ◌≤◌, ◌<◌, ◌≡◌, ◌≢◌, refl, inl, inr, false, some, ap, ◌∙◌, arith,
  ltb, Bool-cases,
}
use dtrace_utils.Common.Pow.{pow-add}
use dtrace_utils.Wide.{Wide, wide, right, shift_128, gt_128, nbits_loop, nbits_128, log_loop}
use dtrace_utils.Wide.Value.{value, IsWide, gt_128_iff}
use dtrace_utils.Wide.ShiftRight.{shift_one}
use native.Mathlib.Nat.{pow-suc, pow-le-pow_right}

-- 2 ^ (k - 1) ≤ n < 2 ^ k, or both are 0.
pub record HasLength (n k : ℕ) : Type 0 where
  pub below : n < 2 ^ k
  pub above : 2 ^ k ≤ 2 * n + 1

HasLength-zero : HasLength 0 0
HasLength-zero = record { below = omega arith; above = omega arith }

HasLength-double : (n k : ℕ) → 0 < n → HasLength (n / 2) k → HasLength n (k + 1)
HasLength-double n zero h l = record { below = omega (arith, l.below); above = omega arith }
HasLength-double n (suc k) h l = record {
  below = omega (arith, l.below, pow-suc 2 (suc k), pow-add (suc k) 1);
  above = omega (arith, l.above, pow-suc 2 k, pow-add (suc k) 1);
}

pub length_above : (n k : ℕ) → HasLength n k → k ≢ 0 → 2 ^ k ≤ 2 * n
length_above n zero l h = absurd (h refl)
length_above n (suc k) l h = omega (arith, l.above, pow-suc 2 k)

pub length_le : (n k m : ℕ) → HasLength n k → n < 2 ^ m → k ≤ m
length_le n k m l h = elim (Bool-cases (ltb m k)) [
  | inr c ↦ ground arith
  | inl c ↦ absurd (
      omega (
        arith,
        pow-le-pow_right {n = 2} (omega arith) {i = suc m} {j = k} (ground arith),
        pow-suc 2 m,
        l.above,
      ))
]

-- Both loops count up from what they are given.
pub log_loop-HasLength :
    (n d log : ℕ) → d < 2 ^ n → (k : ℕ) × (log_loop (suc n) d log ≡ some (log + k)) × HasLength d k
unfolding log_loop
log_loop-HasLength zero d log h =
    let e : d ≡ 0 = omega arith in rw e (0, ap some (omega arith), HasLength-zero)
log_loop-HasLength (suc n) d log h = elim (Bool-cases (ltb 0 d)) [
  | inr z ↦ let e : d ≡ 0 = ground arith in rw e (0, ap some (omega arith), HasLength-zero)
  | inl pos ↦
      let (k, e, l) = log_loop-HasLength n (d / 2) (log + 1) (omega (arith, pow-suc 2 n)) in
      (k + 1, rw (pos, log_loop) (e ∙ ap some (omega arith)), HasLength-double d k (ground arith) l)
]

zero_wide : IsWide (wide 0 0)
zero_wide = record { lo_lt = omega arith; hi_lt = omega arith }

nbits_loop-HasLength :
    (n : ℕ) (a : Wide) (nbits : ℕ)
    → IsWide a
    → value a < 2 ^ n
    → (k : ℕ) × (nbits_loop (suc n) a nbits ≡ some (nbits + k)) × HasLength (value a) k
unfolding nbits_loop
nbits_loop-HasLength zero a nbits v h =
    let e : value a ≡ 0 = omega arith in
    let stop : gt_128 a (wide 0 0) ≡ false = ground (arith, gt_128_iff a (wide 0 0) v zero_wide) in
    (0, rw (stop, nbits_loop) (ap some (omega arith)), rw e HasLength-zero)
nbits_loop-HasLength (suc n) a nbits v h = elim (Bool-cases (gt_128 a (wide 0 0))) [
  | inr z ↦
      let e : value a ≡ 0 = ground (arith, gt_128_iff a (wide 0 0) v zero_wide) in
      (0, rw (z, nbits_loop) (ap some (omega arith)), rw e HasLength-zero)
  | inl pos ↦
      let (w, half) = shift_one a v in
      let (k, e, l) =
        nbits_loop-HasLength n (shift_128 a (right 1)) (nbits + 1) w
          (omega (arith, half, pow-suc 2 n)) in
      (
        k + 1,
        rw (pos, nbits_loop) (e ∙ ap some (omega arith)),
        HasLength-double (value a) k ((gt_128_iff a (wide 0 0) v zero_wide).0 pos) (rw half at l),
      )
]

-- `dt_nbits_128` returns within 128 rounds, and its result is the length in bits of half the
-- number.
pub nbits_128_lem :
    (a : Wide) → IsWide a → (k : ℕ) × (nbits_128 a ≡ some k) × HasLength (value a / 2) k
unfolding nbits_128
nbits_128_lem a v =
    let (w, half) = shift_one a v in
    let (k, e, l) =
      nbits_loop-HasLength 127 (shift_128 a (right 1)) 0 w
        (omega (arith, half, v.lo_lt, v.hi_lt)) in
    (k, e ∙ ap some (omega arith), rw half at l)
