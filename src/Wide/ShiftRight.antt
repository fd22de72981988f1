-- ===== src/Wide/ShiftRight.antt =====
-- dt_shift_128 to the right: what the mask keeps, and when that is the quotient.
use native.Mathlib.Nat.{
  mul_comm, div-add-mod, mod-lt, mod-eq_of_lt, eq_of_mul-eq-mul_right, mod-mod, mod-le,
  pow-le-pow_right, mul-le-mul_right,
}
use dtrace_utils.Common.{
  ℕ, zero, suc, ◌+◌, ◌-◌, ◌*◌, ◌/◌, ◌%◌, ◌^◌, ◌≤◌, ◌<◌, ◌≡◌, ◌↔◌, inl, inr, ap, ◌∙◌, sym, true,
  false, arith, bit_or, leb, Bool-cases,
}
use dtrace_utils.Common.Bits.{bit_or_disjoint, bit_or_comm}
use dtrace_utils.Common.Pow.{pow-add, pow-pos, div_mod_unique}
use dtrace_utils.Wide.{Wide, word, right, shift_128}
use dtrace_utils.Wide.Value.{value, IsWide}
use dtrace_utils.Wide.Words.{stay_lt, cut_mod, high_lt}
use dtrace_utils.Wide.Shift.{split, far}

-- The quotient of the 128-bit number by a divisor `p` of the word.
pub div_near :
    (p q lo hi : ℕ)
    → p * q ≡ word
    → 0 < p
    → (lo + hi * word) / p ≡ lo / p + hi % p * q + hi / p * word
div_near p q lo hi e pos =
    (div_mod_unique (lo + hi * word) p (lo / p + hi % p * q + hi / p * word) (lo % p)
      (omega (
        arith,
        div-add-mod lo p,
        ap (λ (t : ℕ). t * word) (div-add-mod hi p),
        ap (λ (t : ℕ). hi % p * t) e,
        ap (λ (t : ℕ). hi / p * p * t) e,
      ))
      (mod-lt lo pos)).0

div_far : (lo hi p : ℕ) → lo < word → 0 < p → (lo + hi * word) / (p * word) ≡ hi / p
div_far lo hi p h pos =
    (div_mod_unique (lo + hi * word) (p * word) (hi / p) (lo + hi % p * word)
      (omega (arith, ap (λ (t : ℕ). t * word) (div-add-mod hi p))) (omega (arith, mod-lt hi pos))).0

mod-mod_mul : (x m d : ℕ) → 0 < m → x % (m * d) % m ≡ x % m
mod-mod_mul x m d h =
    let whole = div-add-mod x (m * d) in
    let part = div-add-mod (x % (m * d)) m in
    sym
      (div_mod_unique x m (d * (x / (m * d)) + x % (m * d) / m) (x % (m * d) % m)
        (omega (arith, whole, part)) (mod-lt (x % (m * d)) h)).1

pow_multiple : (a b : ℕ) → a ≤ b → 2 ^ b ≡ 2 ^ a * 2 ^ (b - a)
pow_multiple a b h =
    let e : b ≡ a + (b - a) = omega arith in ap (λ (t : ℕ). 2 ^ t) e ∙ pow-add a (b - a)

pow-le : (a b : ℕ) → a ≤ b → 2 ^ a ≤ 2 ^ b
pow-le a b h = pow-le-pow_right (omega arith) h

pub div-le : (x d : ℕ) → 0 < d → x / d ≤ x
div-le x d h = omega (arith, div-add-mod x d, mul-le-mul_right (x / d) h)

module _ (b : ℕ) (small : b < 64) where
  abbrev pub p : ℕ
  p = 2 ^ b

  abbrev pub q : ℕ
  q = 2 ^ (64 - b)

  turned : q * p ≡ word
  turned = mul_comm q p ∙ split b small

  kept_mod : (x : ℕ) → x * q % word ≡ x % p * q
  kept_mod = cut_mod q p turned (pow-pos b) (pow-pos (64 - b))

  -- The low word of the result: the bits that stay, and those of the high word that the mask keeps.
  pub near_lo :
      (lo hi : ℕ) → lo < word → bit_or (lo / p) (hi % q * q % word) ≡ lo / p + hi % q % p * q
  near_lo lo hi h =
      ap (λ (t : ℕ). bit_or (lo / p) t) (kept_mod (hi % q))
      ∙ bit_or_comm (lo / p) (hi % q % p * q)
      ∙ bit_or_disjoint (64 - b) (hi % q % p) (lo / p)
          (high_lt q p turned (pow-pos b) (pow-pos (64 - b)) lo h)
      ∙ omega arith

  near_lo_lt : (lo hi : ℕ) → lo < word → lo / p + hi % q % p * q < word
  near_lo_lt lo hi h = omega (
    arith,
    stay_lt q p turned (pow-pos b) (pow-pos (64 - b)) (hi % q),
    high_lt q p turned (pow-pos b) (pow-pos (64 - b)) lo h,
  )

  -- The mask loses nothing that the shift moves, exactly when those bits fit below it.
  mask_keeps : (hi : ℕ) → (hi % q % p ≡ hi % p) ↔ (hi % p < q)
  mask_keeps hi = elim (Bool-cases (leb b (64 - b))) [
    | inl c ↦
        let e = pow_multiple b (64 - b) (ground arith) in
        let drop = mod-mod_mul hi p (2 ^ (64 - b - b)) (pow-pos b) in
        (
          λ _. omega (
            arith,
            mod-lt hi (pow-pos b),
            e,
            ap (λ (t : ℕ). p * t) e,
            pow-le b (64 - b) (ground arith),
          ),
          λ _. ap (λ (t : ℕ). hi % t % p) e ∙ drop,
        )
    | inr c ↦
        let e = pow_multiple (64 - b) b (ground arith) in
        let drop = mod-mod_mul hi q (2 ^ (b - (64 - b))) (pow-pos (64 - b)) in
        (
          λ same. omega (arith, mod-le (hi % q) p, mod-lt hi (pow-pos (64 - b))),
          λ fits.
              ap (λ (t : ℕ). t % p) (sym (ap (λ (t : ℕ). hi % t % q) e ∙ drop) ∙ mod-eq_of_lt fits)
              ∙ mod-mod hi p,
        )
  ]

-- From 64 bits on the right shift is the quotient by 2 ^ b.
pub shift_right_far :
    (a : Wide) (b : ℕ)
    → IsWide a
    → 64 ≤ b
    → IsWide (shift_128 a (right b)) × (value (shift_128 a (right b)) ≡ value a / 2 ^ b)
unfolding shift_128
shift_right_far a zero v h = absurd (omega arith)
shift_right_far a (suc b) v h =
    let t : leb 64 (suc b) ≡ true = ground arith in
    rw t (
      record {
        lo_lt = omega (arith, div-le a.hi (2 ^ (suc b - 64)) (pow-pos (suc b - 64)));
        hi_lt = omega arith;
      },
      omega (
        arith,
        div_far a.lo a.hi (2 ^ (suc b - 64)) v.lo_lt (pow-pos (suc b - 64)),
        ap (λ (t : ℕ). (a.lo + a.hi * word) / t) (far (suc b) h),
      ),
    )

-- For fewer than 64 bits the right shift is the quotient by 2 ^ b exactly when the part of the
-- high word that moves down is below 2 ^ (64 - b).
pub shift_right_near :
    (a : Wide) (b : ℕ)
    → IsWide a
    → b < 64
    → IsWide (shift_128 a (right b))
      × ((value (shift_128 a (right b)) ≡ value a / 2 ^ b) ↔ (a.hi % 2 ^ b < 2 ^ (64 - b)))
unfolding shift_128
shift_right_near a zero v h = (v, (λ _. omega (arith, v.hi_lt), λ _. omega arith))
shift_right_near a (suc n) v h =
    let f : leb 64 (suc n) ≡ false = ground arith in
    let lo = near_lo (suc n) h a.lo a.hi v.lo_lt in
    let quot =
      div_near (2 ^ suc n) (2 ^ (64 - suc n)) a.lo a.hi (split (suc n) h) (pow-pos (suc n)) in
    let keeps = mask_keeps (suc n) h a.hi in
    rw f (
      record {
        lo_lt = omega (arith, lo, near_lo_lt (suc n) h a.lo a.hi v.lo_lt);
        hi_lt = omega (arith, div-le a.hi (2 ^ suc n) (pow-pos (suc n)), v.hi_lt);
      },
      (
        λ e. keeps.0 (
            eq_of_mul-eq-mul_right (2 ^ (64 - suc n)) (pow-pos (64 - suc n)) _ _
              (omega (arith, e, lo, quot))),
        λ fits. omega (arith, lo, quot, ap (λ (t : ℕ). t * 2 ^ (64 - suc n)) (keeps.1 fits)),
      ),
    )

-- A shift by one bit loses nothing.
pub shift_one :
    (a : Wide)
    → IsWide a
    → IsWide (shift_128 a (right 1)) × (value (shift_128 a (right 1)) ≡ value a / 2)
shift_one a v = let (w, e) = shift_right_near a 1 v (omega arith) in (w, e.1 (omega arith))

-- The low word of a shift by fewer than 64 bits.
pub shift_right_lo :
    (a : Wide) (n : ℕ)
    → suc n < 64
    → IsWide a
    → (shift_128 a (right (suc n))).lo
      ≡ a.lo / 2 ^ suc n + a.hi % 2 ^ (64 - suc n) % 2 ^ suc n * 2 ^ (64 - suc n)
unfolding shift_128
shift_right_lo a n h v =
    let f : leb 64 (suc n) ≡ false = ground arith in rw f (near_lo (suc n) h a.lo a.hi v.lo_lt)
