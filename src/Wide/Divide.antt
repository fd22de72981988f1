-- ===== src/Wide/Divide.antt =====
-- dt_divide_128 is the quotient.
use native.Mathlib.Nat.{pow-suc, mul_comm, mul-le-mul_right, mul-lt-mul_of_pos_right}
use dtrace_utils.Common.{
  ℕ, zero, suc, ◌+◌, ◌-◌, ◌*◌, ◌/◌, ◌^◌, ◌≤◌, ◌<◌, ◌≡◌, ◌≢◌, sym, ap, ◌∙◌, inl, inr, true, false,
  Option, some, arith, Bool-cases, ◌==◌,
}
use dtrace_utils.Common.Pow.{pow-add, pow-pos, div_mod_unique}
use dtrace_utils.Wide.{
  Wide, wide, word, left, right, shift_128, ge_128, subtract_128, or_128, log_loop, divide_loop,
  divide_128,
}
use dtrace_utils.Wide.Value.{value, IsWide, ge_128_iff, subtract_128_lem}
use dtrace_utils.Wide.Shift.{shift_left_lem}
use dtrace_utils.Wide.ShiftRight.{shift_one}
use dtrace_utils.Wide.BitLength.{HasLength, length_above, length_le, log_loop-HasLength}
use dtrace_utils.Wide.Or.{or_128_lem}

-- The run ends with the quotient of `n` by `d`.
pub record Quotient (n d : ℕ) (out : Option Wide) : Type 0 where
  pub result : Wide
  pub returns : out ≡ some result
  pub wide_result : IsWide result
  pub quotient : value result ≡ n / d

-- The loop between two rounds: the divisor and the current bit are shifted by `k`.
record Round (n d k : ℕ) (remainder subtrahend mask result : Wide) : Type 0 where
  wide_r : IsWide remainder
  wide_s : IsWide subtrahend
  wide_m : IsWide mask
  wide_q : IsWide result
  shifted : value subtrahend ≡ d * 2 ^ k
  bit : value mask ≡ 2 ^ k
  small : value remainder < d * 2 ^ suc k
  high : ℕ
  digits : value result ≡ high * 2 ^ suc k
  total : n ≡ value result * d + value remainder

module _ (n d : ℕ) (pos : 0 < d) (d_lt : d < word) where
  wide_d : IsWide (wide d 0)
  wide_d = record { lo_lt = d_lt; hi_lt = omega arith }

  stop :
      (fuel : ℕ) (r s m q : Wide)
      → IsWide r
      → IsWide q
      → value r < d
      → n ≡ value q * d + value r
      → Quotient n d (divide_loop (suc fuel) (wide d 0) r s m q)
  unfolding divide_loop
  stop fuel r s m q vr vq lt e =
      let f : ge_128 r (wide d 0) ≡ false = ground (arith, ge_128_iff r (wide d 0) vr wide_d) in
      record {
        result = q;
        returns = rw (f, divide_loop);
        wide_result = vq;
        quotient = sym (div_mod_unique n d (value q) (value r) e lt).0;
      }

  two_step : (k : ℕ) → (2 ^ suc k ≡ 2 ^ k + 2 ^ k) × (d * 2 ^ suc k ≡ d * 2 ^ k + d * 2 ^ k)
  two_step k =
      let e : 2 ^ suc k ≡ 2 ^ k + 2 ^ k = omega (arith, pow-suc 2 k) in
      (e, omega (arith, ap (λ (t : ℕ). d * t) e))

  taken :
      (k : ℕ) (r s m q : Wide)
      → suc k < 128
      → Round n d (suc k) r s m q
      → value s ≤ value r
      → Round n d k (subtract_128 r s) (shift_128 s (right 1)) (shift_128 m (right 1)) (or_128 q m)
  taken k r s m q lt i le =
      let (ws, es) = shift_one s i.wide_s in
      let (wm, em) = shift_one m i.wide_m in
      let (wr, er) = subtract_128_lem r s i.wide_r i.wide_s in
      let (wq, eq) = or_128_lem q m i.wide_q i.wide_m i.high (suc k) i.digits i.bit lt in
      let (p1, p2) = two_step k in
      let (p3, p4) = two_step (suc k) in
      let left_over : value (subtract_128 r s) ≡ value r - value s =
        omega (arith, er, le, i.wide_r.lo_lt, i.wide_r.hi_lt) in
      record {
        wide_r = wr;
        wide_s = ws;
        wide_m = wm;
        wide_q = wq;
        shifted = omega (arith, es, i.shifted, p2);
        bit = omega (arith, em, i.bit, p1);
        small = omega (arith, left_over, i.small, i.shifted, p4);
        high = 2 * i.high + 1;
        digits = omega (arith, eq, i.digits, i.bit, ap (λ (t : ℕ). i.high * t) p3);
        total = omega (
          arith,
          i.total,
          left_over,
          le,
          i.shifted,
          ap (λ (t : ℕ). t * d) eq,
          ap (λ (t : ℕ). t * d) i.bit,
          mul_comm d (2 ^ suc k),
        );
      }

  left_out :
      (k : ℕ) (r s m q : Wide)
      → Round n d (suc k) r s m q
      → value r < value s
      → Round n d k r (shift_128 s (right 1)) (shift_128 m (right 1)) q
  left_out k r s m q i lt =
      let (ws, es) = shift_one s i.wide_s in
      let (wm, em) = shift_one m i.wide_m in
      let (p1, p2) = two_step k in
      let (p3, p4) = two_step (suc k) in
      record {
        wide_r = i.wide_r;
        wide_s = ws;
        wide_m = wm;
        wide_q = i.wide_q;
        shifted = omega (arith, es, i.shifted, p2);
        bit = omega (arith, em, i.bit, p1);
        small = omega (arith, lt, i.shifted);
        high = 2 * i.high;
        digits = omega (arith, i.digits, ap (λ (t : ℕ). i.high * t) p3);
        total = i.total;
      }

  -- The last round subtracts whatever is not below the divisor, and the next test fails.
  last_taken :
      (r s m q : Wide)
      → Round n d zero r s m q
      → value s ≤ value r
      → (value (subtract_128 r s) < d)
        × (n ≡ value (or_128 q m) * d + value (subtract_128 r s))
        × IsWide (subtract_128 r s)
        × IsWide (or_128 q m)
  last_taken r s m q i le =
      let (wr, er) = subtract_128_lem r s i.wide_r i.wide_s in
      let (wq, eq) = or_128_lem q m i.wide_q i.wide_m i.high zero i.digits i.bit (omega arith) in
      let left_over : value (subtract_128 r s) ≡ value r - value s =
        omega (arith, er, le, i.wide_r.lo_lt, i.wide_r.hi_lt) in
      (
        omega (arith, left_over, i.small, i.shifted),
        omega (
          arith,
          i.total,
          left_over,
          le,
          i.shifted,
          ap (λ (t : ℕ). t * d) eq,
          ap (λ (t : ℕ). t * d) i.bit,
        ),
        wr,
        wq,
      )

  module _ (fuel : ℕ) (r s m q : Wide) (t : ge_128 r (wide d 0) ≡ true) where
    loop_taken :
        ge_128 r s ≡ true
        → divide_loop (suc fuel) (wide d 0) r s m q
          ≡ divide_loop fuel
              (wide d 0)
              (subtract_128 r s)
              (shift_128 s (right 1))
              (shift_128 m (right 1))
              (or_128 q m)
    unfolding divide_loop
    loop_taken t' = rw (t, t', divide_loop)

    loop_left_out :
        ge_128 r s ≡ false
        → divide_loop (suc fuel) (wide d 0) r s m q
          ≡ divide_loop fuel (wide d 0) r (shift_128 s (right 1)) (shift_128 m (right 1)) q
    unfolding divide_loop
    loop_left_out f = rw (t, f, divide_loop)

  divide_loop-Quotient :
      (k fuel : ℕ) (r s m q : Wide)
      → k < 128
      → k + 2 ≤ fuel
      → Round n d k r s m q
      → Quotient n d (divide_loop fuel (wide d 0) r s m q)
  divide_loop-Quotient k zero r s m q lt h i = absurd (omega arith)
  divide_loop-Quotient k (suc zero) r s m q lt h i = absurd (omega arith)
  divide_loop-Quotient zero (suc (suc fuel)) r s m q lt h i =
      elim (Bool-cases (ge_128 r (wide d 0))) [
        | inr f ↦
            stop (suc fuel) r s m q i.wide_r i.wide_q
              (ground (arith, ge_128_iff r (wide d 0) i.wide_r wide_d)) i.total
        | inl t ↦
            let le : value s ≤ value r =
              omega (arith, (ge_128_iff r (wide d 0) i.wide_r wide_d).0 t, i.shifted) in
            let t' : ge_128 r s ≡ true = (ge_128_iff r s i.wide_r i.wide_s).1 le in
            let (lt', total, wr, wq) = last_taken r s m q i le in
            rw (loop_taken (suc fuel) r s m q t t') (stop fuel _ _ _ _ wr wq lt' total)
      ]
  divide_loop-Quotient (suc k) (suc (suc fuel)) r s m q lt h i =
      elim (Bool-cases (ge_128 r (wide d 0))) [
        | inr f ↦
            stop (suc fuel) r s m q i.wide_r i.wide_q
              (ground (arith, ge_128_iff r (wide d 0) i.wide_r wide_d)) i.total
        | inl t ↦ elim (Bool-cases (ge_128 r s)) [
          | inl t' ↦ rw (loop_taken (suc fuel) r s m q t t') (
              divide_loop-Quotient k (suc fuel) _ _ _ _ (omega arith) (omega arith)
                (taken k r s m q lt i ((ge_128_iff r s i.wide_r i.wide_s).0 t')))
          | inr f' ↦ rw (loop_left_out (suc fuel) r s m q t f') (
              divide_loop-Quotient k (suc fuel) _ _ _ _ (omega arith) (omega arith)
                (left_out k r s m q i (ground (arith, ge_128_iff r s i.wide_r i.wide_s))))
        ]
      ]

module _ (a : Wide) (d k : ℕ) (v : IsWide a) (pos : 0 < d) (lt : d < word) (l : HasLength d k)
    (k_le : k ≤ 64) where
  k_pos : k ≢ 0
  k_pos z = omega (arith, l.below, ap (λ (t : ℕ). 2 ^ t) z)

  whole : 2 ^ k * 2 ^ (128 - k) ≡ word * word
  whole =
      let e : k + (128 - k) ≡ 128 = omega arith in
      sym (pow-add k (128 - k)) ∙ ap (λ (t : ℕ). 2 ^ t) e

  -- The divisor and the bit 1, shifted as far up as the divisor goes.
  first-Round :
      Round
        (value a)
        d
        (128 - k)
        a
        (shift_128 (wide d 0) (left (128 - k)))
        (shift_128 (wide 1 0) (left (128 - k)))
        (wide 0 0)
  first-Round =
      let (vs, es) = shift_left_lem (wide d 0) (128 - k) (wide_d (value a) d pos lt) in
      let (vm, em) =
        shift_left_lem (wide 1 0) (128 - k) (record { lo_lt = omega arith; hi_lt = omega arith }) in
      let fits = mul-lt-mul_of_pos_right {k = 2 ^ (128 - k)} l.below (pow-pos (128 - k)) in
      let fills = mul-le-mul_right (2 ^ (128 - k)) (length_above d k l k_pos) in
      record {
        wide_r = v;
        wide_s = vs;
        wide_m = vm;
        wide_q = record { lo_lt = omega arith; hi_lt = omega arith };
        shifted = omega (arith, es, fits, whole);
        bit = omega (arith, em, fits, whole, mul-le-mul_right {m = 1} (2 ^ (128 - k)) pos);
        small =
            omega
              (arith, fills, whole, v.lo_lt, v.hi_lt, (two_step (value a) d pos lt (128 - k)).1);
        high = 0;
        digits = omega arith;
        total = omega arith;
      }

-- For a divisor that is a nonzero word `dt_divide_128` returns the quotient, rounded down.
pub divide_128_lem :
    (a : Wide) (d : ℕ) → IsWide a → 0 < d → d < word → Quotient (value a) d (divide_128 a d)
unfolding divide_128
divide_128_lem a d v pos lt =
    let (k, e, l) = log_loop-HasLength 64 d 0 lt in
    let e' : log_loop 65 d 0 ≡ some k = e ∙ ap some (omega arith) in
    let nonzero : (d == 0) ≡ false = ground arith in
    let k_le = length_le d k 64 l lt in
    let k_pos' = k_pos a d k v pos lt l k_le in
    rw (nonzero, e')
      (divide_loop-Quotient (value a) d pos lt (128 - k) 129 _ _ _ _ (omega arith) (omega arith)
        (first-Round a d k v pos lt l k_le))
