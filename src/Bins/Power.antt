-- ===== src/Bins/Power.antt =====
-- The bin of dt_agg_qbin is the number of the power of two.
use native.Mathlib.Nat.{pow-suc, div-div-eq-div-mul, pow-le-pow_right, div-add-mod, mod-lt}
use dtrace_utils.Common.{
  ℕ, zero, suc, ◌+◌, ◌-◌, ◌*◌, ◌/◌, ◌^◌, ◌≤◌, ◌<◌, ◌≡◌, ◌≢◌, refl, sym, ap, ◌∙◌, inl, inr, false,
  bit_and, arith, ◌==◌, Bool-cases,
}
use dtrace_utils.Common.Masks.{cut, mask_high}
use dtrace_utils.Common.Pow.{pow-add, pow-pos}
use dtrace_utils.Bins.{pos, neg, halve, high_bit, agg_qbin}

positive_factor : (a b : ℕ) → a * b ≢ 0 → 0 < a
positive_factor zero b h = absurd (h (omega arith))
positive_factor (suc a) b h = omega arith

-- What the tests have found of `n` so far: `off - 1` bits are shifted out, and at most `w` stay.
record High (n w : ℕ) (p : ℕ × ℕ) : Type 0 where
  off : ℕ
  is_off : p.0 ≡ suc off
  shifted : p.1 ≡ n / 2 ^ off
  positive : 0 < p.1
  below : p.1 < 2 ^ w

halve-High :
    (n j k mask : ℕ) (p : ℕ × ℕ)
    → mask ≡ (2 ^ j - 1) * 2 ^ k
    → j ≤ k
    → High n (j + k) p
    → High n k (halve k mask p)
unfolding halve
halve-High n j k mask (o, t) e le h =
    let m : bit_and t mask ≡ t / 2 ^ k * 2 ^ k = ap (bit_and t) e ∙ mask_high j k t h.below in
    elim (Bool-cases (bit_and t mask == 0)) [
      | inl z ↦ rw z (record {
        off = h.off;
        is_off = h.is_off;
        shifted = h.shifted;
        positive = h.positive;
        below = ground (arith, m, div-add-mod t (2 ^ k), mod-lt t {m = 2 ^ k} (pow-pos k));
      })
      | inr nz ↦ rw nz (record {
        off = h.off + k;
        is_off = omega (arith, h.is_off);
        shifted =
            ap (λ (x : ℕ). x / 2 ^ k) h.shifted
            ∙ div-div-eq-div-mul n (2 ^ h.off) (2 ^ k)
            ∙ ap (λ (x : ℕ). n / x) (sym (pow-add h.off k));
        positive = positive_factor (t / 2 ^ k) (2 ^ k) (λ zero_product. ground (arith, m));
        below =
            omega
              (arith, cut j k t h.below, pow-le-pow_right {n = 2} (omega arith) {i = j} {j = k} le);
      })
    ]

-- One bit is left.
High-one :
    (n : ℕ) (p : ℕ × ℕ) → High n 1 p → (k : ℕ) × (p.0 ≡ suc k) × (2 ^ k ≤ n) × (n < 2 ^ suc k)
High-one n p h =
    let one : n / 2 ^ h.off ≡ 1 = omega (arith, h.shifted, h.positive, h.below) in
    let whole = ap (λ (t : ℕ). 2 ^ h.off * t) one in
    let split = div-add-mod n (2 ^ h.off) in
    (
      h.off,
      h.is_off,
      omega (arith, whole, split),
      omega (arith, whole, split, mod-lt n {m = 2 ^ h.off} (pow-pos h.off), pow-suc 2 h.off),
    )

-- The position of the highest bit, counted from 1.
high_bit_lem :
    (n : ℕ) → 0 < n → n < 2 ^ 63 → (k : ℕ) × (high_bit n ≡ suc k) × (2 ^ k ≤ n) × (n < 2 ^ suc k)
unfolding high_bit
high_bit_lem n nonzero lt =
    let start : High n (31 + 32) (1, n) = record {
      off = 0;
      is_off = refl;
      shifted = omega arith;
      positive = nonzero;
      below = lt;
    } in
    High-one n _ (
      halve-High n 1 1 _ _ refl (omega arith) (
        halve-High n 2 2 _ _ refl (omega arith) (
          halve-High n 4 4 _ _ refl (omega arith) (
            halve-High n 8 8 _ _ refl (omega arith) (
              halve-High n 16 16 _ _ refl (omega arith)
                (halve-High n 31 32 _ _ refl (omega arith) start))))))

-- For a magnitude from 1 to 2 ^ 63 - 1 `dt_agg_qbin` gives the bin 64 + k to a positive value and
-- 62 - k to a negative one, where 2 ^ k is the largest power of two that is not above it.
pub agg_qbin_lem :
    (n : ℕ)
    → 0 < n
    → n < 2 ^ 63
    → (k : ℕ) × (2 ^ k ≤ n)
      × (n < 2 ^ suc k)
      × (agg_qbin (pos n) ≡ 64 + k)
      × (agg_qbin (neg n) ≡ 62 - k)
unfolding agg_qbin
agg_qbin_lem n positive lt =
    let (k, e, lo, hi) = high_bit_lem n positive lt in
    let nz : (n == 0) ≡ false = ground arith in
    let not_min : (n == 2 ^ 63) ≡ false = ground arith in
    (k, lo, hi, rw nz (omega (arith, e)), rw nz (rw not_min (omega (arith, e))))
