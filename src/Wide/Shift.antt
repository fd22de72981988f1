-- ===== src/Wide/Shift.antt =====
-- dt_shift_128: the left shift is multiplication by a power of two; the right shift divides by
-- one exactly when the mask keeps all the bits that move to the low word.
use dtrace_utils.Common.{
  ℕ, zero, suc, ◌+◌, ◌-◌, ◌*◌, ◌/◌, ◌%◌, ◌^◌, ◌≤◌, ◌<◌, ◌≡◌, inl, inr, ap, ◌∙◌, sym, arith, bit_or,
  leb, Bool-cases,
}
use dtrace_utils.Common.Bits.{bit_or_disjoint}
use dtrace_utils.Common.Pow.{pow-add, pow-pos, div_mod_unique}
use dtrace_utils.Wide.{Wide, word, left, shift_128}
use dtrace_utils.Wide.Value.{value, IsWide}
use dtrace_utils.Wide.Words.{cut, stay_lt, cut_mod, high_lt}

left_far : (lo hi p : ℕ) → (lo + hi * word) * (p * word) % (word * word) ≡ lo * p % word * word
left_far lo hi p =
    (div_mod_unique _ (word * word) (lo * p / word + hi * p) (lo * p % word * word) (omega arith)
      (omega arith)).1

module _ (b : ℕ) (small : b < 64) where
  abbrev pub p : ℕ
  p = 2 ^ b

  abbrev pub q : ℕ
  q = 2 ^ (64 - b)

  pub split : p * q ≡ word
  split =
      let e : b + (64 - b) ≡ 64 = omega arith in sym (pow-add b (64 - b)) ∙ ap (λ (t : ℕ). 2 ^ t) e

  left_near_hi : (lo hi : ℕ) → lo < word → bit_or (hi * p % word) (lo / q) ≡ hi % q * p + lo / q
  left_near_hi lo hi h =
      ap (λ (t : ℕ). bit_or t (lo / q)) (cut_mod p q split (pow-pos (64 - b)) (pow-pos b) hi)
      ∙ bit_or_disjoint b (hi % q) (lo / q) (high_lt p q split (pow-pos (64 - b)) (pow-pos b) lo h)

  left_near :
      (lo hi : ℕ)
      → lo < word
      → (lo * p % word < word)
        × (bit_or (hi * p % word) (lo / q) < word)
        × (lo * p % word + bit_or (hi * p % word) (lo / q) * word
            ≡ (lo + hi * word) * p % (word * word))
  left_near lo hi h =
      let or = left_near_hi lo hi h in
      let low = cut_mod p q split (pow-pos (64 - b)) (pow-pos b) lo in
      let top = high_lt p q split (pow-pos (64 - b)) (pow-pos b) lo h in
      let room = stay_lt p q split (pow-pos (64 - b)) (pow-pos b) in
      let total =
        div_mod_unique ((lo + hi * word) * p) (word * word) (hi / q)
          (lo % q * p + (hi % q * p + lo / q) * word)
          (omega (
            arith,
            cut p q split (pow-pos (64 - b)) (pow-pos b) lo,
            cut p q split (pow-pos (64 - b)) (pow-pos b) hi,
          ))
          (omega (arith, room lo, room hi)) in
      (omega arith, omega (arith, or, room hi), omega (arith, or, low, total.1))

pub far : (b : ℕ) → 64 ≤ b → 2 ^ b ≡ 2 ^ (b - 64) * word
far b h = let e : b ≡ b - 64 + 64 = omega arith in ap (λ (t : ℕ). 2 ^ t) e ∙ pow-add (b - 64) 64

-- A left shift is multiplication by 2 ^ b modulo 2 ^ 128.
pub shift_left_lem :
    (a : Wide) (b : ℕ)
    → IsWide a
    → IsWide (shift_128 a (left b))
      × (value (shift_128 a (left b)) ≡ value a * 2 ^ b % (word * word))
unfolding shift_128
shift_left_lem a zero v = (v, ground arith)
shift_left_lem a (suc n) v = elim (Bool-cases (leb 64 (suc n))) [
  | inl f ↦
      let e = far (suc n) (ground arith) in
      rw f (
        record { lo_lt = omega arith; hi_lt = omega arith },
        omega (
          arith,
          left_far a.lo a.hi (2 ^ (suc n - 64)),
          ap (λ (t : ℕ). (a.lo + a.hi * word) * t % (word * word)) e,
        ),
      )
  | inr f ↦
      let (l, h, e) = left_near (suc n) (ground arith) a.lo a.hi v.lo_lt in
      rw f (record { lo_lt = l; hi_lt = h }, e)
]
