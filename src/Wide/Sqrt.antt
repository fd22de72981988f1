-- ===== src/Wide/Sqrt.antt =====
-- dt_sqrt_128 is the integer square root.
use native.Mathlib.Nat.{
  pow-suc, mul-le-mul, mul-le-mul_right, pow-le-pow_right, div-add-mod, mod-lt,
}
use dtrace_utils.Common.{
  ℕ, zero, suc, ◌+◌, ◌-◌, ◌*◌, ◌/◌, ◌%◌, ◌^◌, ◌≤◌, ◌<◌, ◌≡◌, sym, ap, ◌∙◌, ◌⊎◌, inl, inr, true,
  some, arith, Bool-cases, ◌==◌, ltb,
}
use dtrace_utils.Common.Pow.{pow-add, pow-pos, div_mod_unique}
use dtrace_utils.Wide.{
  Wide, wide, word, left, right, shift_128, le_128, subtract_128, add_128, sqrt_step, sqrt_loop,
  sqrt_128,
}
use dtrace_utils.Wide.Value.{value, IsWide, le_128_iff, add_128_lem, subtract_128_lem}
use dtrace_utils.Wide.Shift.{split, shift_left_lem}
use dtrace_utils.Wide.ShiftRight.{shift_right_far, shift_right_lo, div_near, div-le}
use dtrace_utils.Wide.BitLength.{length_le, nbits_128_lem}

-- The pair of bits that is brought down is right, though a right shift may lose higher bits.
low_pair :
    (a : Wide) (b : ℕ)
    → IsWide a
    → (b ≤ 62) ⊎ (64 ≤ b)
    → (shift_128 a (right b)).lo % 4 ≡ value a / 2 ^ b % 4
low_pair a b v (inr far) =
    let (w, e) = shift_right_far a b v far in omega (arith, ap (λ (t : ℕ). t % 4) e)
low_pair a zero v (inl near) = unfold shift_128 in omega arith
low_pair a (suc n) v (inl near) =
    let b = suc n in
    let lt : b < 64 = omega arith in
    let quot = div_near (2 ^ b) (2 ^ (64 - b)) a.lo a.hi (split b lt) (pow-pos b) in
    let four : 2 ^ (64 - b) ≡ 2 ^ (62 - b) * 4 =
      let e : 64 - b ≡ 62 - b + 2 = omega arith in ap (λ (t : ℕ). 2 ^ t) e ∙ pow-add (62 - b) 2 in
    let shut = shift_right_lo a n lt v in
    omega (
      arith,
      shut,
      quot,
      ap (λ (t : ℕ). a.hi % 2 ^ b * t) four,
      ap (λ (t : ℕ). a.hi % 2 ^ (64 - b) % 2 ^ b * t) four,
    )

-- After some rounds: `p` is what has been brought down, `diff` what is left of it.
record Root (p : ℕ) (s : Wide × Wide) : Type 0 where
  wide_r : IsWide s.0
  wide_d : IsWide s.1
  square : value s.0 * value s.0 + value s.1 ≡ p
  close : value s.1 ≤ 2 * value s.0

root_lt : (r d p : ℕ) → r * r + d ≡ p → p < word * word → r < word
root_lt r d p e h = elim (Bool-cases (ltb r word)) [
  | inl t ↦ ground arith
  | inr f ↦ absurd (
      omega (
        arith,
        e,
        h,
        mul-le-mul {n₁ = word} {m₁ = word} {n₂ = r} {m₂ = r} (ground arith) (ground arith),
      ))
]

module _ (a : Wide) (v : IsWide a) (shift p : ℕ) (result diff : Wide) (i : Root p (result, diff))
    (p_lt : p < word * word)
    (brought : (shift_128 a (right shift)).lo % 4 ≡ value a / 2 ^ shift % 4)
    (before : value a / 2 ^ shift / 4 ≡ p) where
  abbrev next_pair : Wide
  next_pair = wide ((shift_128 a (right shift)).lo % 4) 0

  abbrev diff' : Wide
  diff' = add_128 (shift_128 diff (left 2)) next_pair

  abbrev next_try : Wide
  next_try = add_128 (shift_128 result (left 2)) (wide 1 0)

  r_lt : value result < word
  r_lt = root_lt (value result) (value diff) p i.square p_lt

  one_wide : IsWide (wide 1 0)
  one_wide = record { lo_lt = omega arith; hi_lt = omega arith }

  diff'_lem : IsWide diff' × (value diff' ≡ 4 * value diff + value a / 2 ^ shift % 4)
  diff'_lem =
      let (w, e) = shift_left_lem diff 2 i.wide_d in
      let (w', e') =
        add_128_lem (shift_128 diff (left 2)) next_pair w
          (record { lo_lt = omega arith; hi_lt = omega arith }) in
      (w', omega (arith, e, e', r_lt, i.close, brought))

  next_try_lem : IsWide next_try × (value next_try ≡ 4 * value result + 1)
  next_try_lem =
      let (w, e) = shift_left_lem result 2 i.wide_r in
      let (w', e') = add_128_lem (shift_128 result (left 2)) (wide 1 0) w one_wide in
      (w', omega (arith, e, e', r_lt))

  doubled :
      IsWide (shift_128 result (left 1)) × (value (shift_128 result (left 1)) ≡ 2 * value result)
  doubled = let (w, e) = shift_left_lem result 1 i.wide_r in (w, omega (arith, e, r_lt))

  step-Root : Root (value a / 2 ^ shift) (sqrt_step a shift (result, diff))
  unfolding sqrt_step
  step-Root =
      let (wd, ed) = diff'_lem in
      let (wt, et) = next_try_lem in
      let (w2, e2) = doubled in
      let split4 : value a / 2 ^ shift ≡ 4 * p + value a / 2 ^ shift % 4 = omega (arith, before) in
      elim (Bool-cases (le_128 next_try diff')) [
        | inl t ↦
            let le = (le_128_iff next_try diff' wt wd).0 t in
            let (w1, e1) = add_128_lem (shift_128 result (left 1)) (wide 1 0) w2 one_wide in
            let (ws, es) = subtract_128_lem diff' next_try wd wt in
            let r' : value (add_128 (shift_128 result (left 1)) (wide 1 0)) ≡ 2 * value result + 1 =
              omega (arith, e1, e2, r_lt) in
            let d' : value (subtract_128 diff' next_try) ≡ value diff' - value next_try =
              omega (arith, es, le, wd.lo_lt, wd.hi_lt) in
            rw t (record {
              wide_r = w1;
              wide_d = ws;
              square = omega (arith, d', ed, et, le, split4, i.square, ap (λ (t : ℕ). t * t) r');
              close = omega (arith, d', ed, et, le, r', i.close);
            })
        | inr f ↦
            let gt : value diff' < value next_try =
              ground (arith, le_128_iff next_try diff' wt wd) in
            rw f (record {
              wide_r = w2;
              wide_d = wd;
              square = omega (arith, ed, split4, i.square, ap (λ (t : ℕ). t * t) e2);
              close = omega (arith, ed, et, gt, e2);
            })
      ]

pow_step : (n : ℕ) → 2 ^ (suc n * 2) ≡ 2 ^ (n * 2) * 4
pow_step n =
    let e : suc n * 2 ≡ n * 2 + 2 = omega arith in ap (λ (t : ℕ). 2 ^ t) e ∙ pow-add (n * 2) 2

div-div : (x m : ℕ) → 0 < m → x / m / 4 ≡ x / (m * 4)
div-div x m h =
    sym
      (div_mod_unique x (m * 4) (x / m / 4) (x / m % 4 * m + x % m)
        (omega (arith, div-add-mod x m, ap (λ (t : ℕ). m * t) (div-add-mod (x / m) 4)))
        (omega (arith, mod-lt x h, mul-le-mul_right m (mod-lt (x / m) {m = 4} (omega arith))))).0

even_shift : (n : ℕ) → n ≤ 63 → (n * 2 ≤ 62) ⊎ (64 ≤ n * 2)
even_shift n h = elim (Bool-cases (ltb n 32)) [
  | inl t ↦ inl (ground arith)
  | inr f ↦ inr (ground arith)
]

loop-Root :
    (a : Wide) (n : ℕ) (s : Wide × Wide)
    → IsWide a
    → n ≤ 64
    → Root (value a / 2 ^ (n * 2)) s
    → Root (value a) (sqrt_loop n a s)
unfolding sqrt_loop
loop-Root a zero s v h i = let e : value a / 1 ≡ value a = omega arith in rw e at i
loop-Root a (suc n) (result, diff) v h i =
    let quarter =
      div-div (value a) (2 ^ (n * 2)) (pow-pos (n * 2))
      ∙ ap (λ (t : ℕ). value a / t) (sym (pow_step n)) in
    loop-Root a n (sqrt_step a (n * 2) (result, diff)) v (omega arith) (
      step-Root a v (n * 2) (value a / 2 ^ (suc n * 2)) result diff i
        (omega (arith, div-le (value a) (2 ^ (suc n * 2)) (pow-pos (suc n * 2)), v.lo_lt, v.hi_lt))
        (low_pair a (n * 2) v (even_shift n (omega arith))) quarter)

-- `dt_sqrt_128` returns, its assertion holds, and its result is the square root rounded down.
pub sqrt_128_lem :
    (a : Wide)
    → IsWide a
    → (r : ℕ) × (sqrt_128 a ≡ some r) × (r * r ≤ value a) × (value a < (r + 1) * (r + 1))
unfolding sqrt_128
sqrt_128_lem a v =
    let (k, e, l) = nbits_128_lem a v in
    let k_le = length_le (value a / 2) k 127 l (omega (arith, v.lo_lt, v.hi_lt)) in
    let n = k / 2 + 1 in
    let enough : value a < 2 ^ (n * 2) = omega (
      arith,
      l.below,
      pow-suc 2 k,
      pow-le-pow_right {n = 2} (omega arith) {i = suc k} {j = n * 2} (omega arith),
    ) in
    let start : value a / 2 ^ (n * 2) ≡ 0 =
      (div_mod_unique (value a) (2 ^ (n * 2)) 0 (value a) (omega arith) enough).0 in
    let zero_wide : IsWide (wide 0 0) = record { lo_lt = omega arith; hi_lt = omega arith } in
    let i : Root (value a) (sqrt_loop n a (wide 0 0, wide 0 0)) =
      loop-Root a n (wide 0 0, wide 0 0) v (omega arith)
        (rw start (record {
          wide_r = zero_wide;
          wide_d = zero_wide;
          square = omega arith;
          close = omega arith;
        })) in
    let r = sqrt_loop n a (wide 0 0, wide 0 0) in
    let lt = root_lt (value r.0) (value r.1) (value a) i.square (omega (arith, v.lo_lt, v.hi_lt)) in
    let hi : r.0.hi ≡ 0 = omega arith in
    let ok : (r.0.hi == 0) ≡ true = ground arith in
    let lo : value r.0 ≡ r.0.lo = omega arith in
    (
      r.0.lo,
      rw (e, sqrt_128) (rw ok),
      omega (arith, i.square, ap (λ (t : ℕ). t * t) lo),
      omega (arith, i.square, i.close, ap (λ (t : ℕ). t * t) lo),
    )
