-- ===== src/Wide/Or.antt =====
-- The quotient's bits are set by `|` on both words: a sum, since the bit is not set yet.
use native.Mathlib.Nat.{
  pow-suc, div-add-mod, mod-lt, mul-le-mul_right, pow-le-pow_right, lt_of_mul-lt-mul_right,
}
use dtrace_utils.Common.{
  ℕ, suc, ◌+◌, ◌-◌, ◌*◌, ◌/◌, ◌%◌, ◌^◌, ◌≤◌, ◌<◌, ◌≡◌, ap, ◌∙◌, arith, bit_or, inl, inr, leb,
  Bool-cases,
}
use dtrace_utils.Common.Bits.{bit_or_disjoint, bit_or-zero}
use dtrace_utils.Common.Pow.{pow-add, pow-pos, div_mod_unique}
use dtrace_utils.Wide.{Wide, word, or_128}
use dtrace_utils.Wide.Value.{value, IsWide}

word_multiple : (j : ℕ) → j < 64 → word ≡ 2 ^ (63 - j) * 2 ^ suc j
word_multiple j h =
    let e : 64 ≡ 63 - j + suc j = omega arith in ap (λ (t : ℕ). 2 ^ t) e ∙ pow-add (63 - j) (suc j)

-- The bit `j` of a word that is a multiple of 2 ^ (j + 1).
or_bit :
    (u j x : ℕ)
    → j < 64
    → x ≡ u * 2 ^ suc j
    → x < word
    → (bit_or x (2 ^ j) ≡ x + 2 ^ j) × (x + 2 ^ j < word)
or_bit u j x h e lt =
    let room =
      lt_of_mul-lt-mul_right (2 ^ suc j) {m = u} {n = 2 ^ (63 - j)}
        (omega (arith, e, lt, word_multiple j h)) in
    (
      ap (λ (t : ℕ). bit_or t (2 ^ j)) e
          ∙ bit_or_disjoint (suc j) u (2 ^ j) (omega (arith, pow-suc 2 j, pow-pos j))
          ∙ omega (arith, e),
      omega
          (arith, e, mul-le-mul_right (2 ^ suc j) room, word_multiple j h, pow-suc 2 j, pow-pos j),
    )

module _ (r m : Wide) (vr : IsWide r) (vm : IsWide m) (t k : ℕ) (er : value r ≡ t * 2 ^ suc k)
    (em : value m ≡ 2 ^ k) where
  or_low : k < 64 → IsWide (or_128 r m) × (value (or_128 r m) ≡ value r + value m)
  unfolding or_128
  or_low h =
      let small : 2 ^ k < word =
        omega (arith, pow-le-pow_right {n = 2} (omega arith) {i = k} {j = 63} (omega arith)) in
      let m_hi : m.hi ≡ 0 = omega (arith, vm.lo_lt) in
      let m_lo : m.lo ≡ 2 ^ k = omega arith in
      let pos = pow-pos (suc k) in
      let clean =
        div_mod_unique (value r) (2 ^ suc k) (r.lo / 2 ^ suc k + r.hi * 2 ^ (63 - k))
          (r.lo % 2 ^ suc k)
          (omega
            (arith, div-add-mod r.lo (2 ^ suc k), ap (λ (t : ℕ). r.hi * t) (word_multiple k h)))
          (mod-lt r.lo pos) in
      let whole = div_mod_unique (value r) (2 ^ suc k) t 0 (omega (arith, er)) pos in
      let (e, lt) =
        or_bit (r.lo / 2 ^ suc k) k r.lo h
          (omega (arith, div-add-mod r.lo (2 ^ suc k), clean.1, whole.1)) vr.lo_lt in
      let lo = ap (λ (t : ℕ). bit_or r.lo t) m_lo ∙ e in
      let hi = ap (λ (t : ℕ). bit_or r.hi t) m_hi ∙ bit_or-zero r.hi in
      (
        record { lo_lt = omega (arith, lo, lt); hi_lt = omega (arith, hi, vr.hi_lt) },
        omega (arith, lo, hi, m_hi, m_lo),
      )

  or_high : 64 ≤ k → k < 128 → IsWide (or_128 r m) × (value (or_128 r m) ≡ value r + value m)
  unfolding or_128
  or_high h h' =
      let j = k - 64 in
      let up : 2 ^ k ≡ 2 ^ j * word =
        let e : k ≡ j + 64 = omega arith in ap (λ (t : ℕ). 2 ^ t) e ∙ pow-add j 64 in
      let up' : 2 ^ suc k ≡ 2 ^ suc j * word = omega (arith, pow-suc 2 k, pow-suc 2 j, up) in
      let ms = div_mod_unique (value m) word m.hi m.lo (omega arith) vm.lo_lt in
      let mt = div_mod_unique (value m) word (2 ^ j) 0 (omega (arith, em, up)) (omega arith) in
      let rs = div_mod_unique (value r) word r.hi r.lo (omega arith) vr.lo_lt in
      let rt =
        div_mod_unique (value r) word (t * 2 ^ suc j) 0
          (omega (arith, er, ap (λ (s : ℕ). t * s) up')) (omega arith) in
      let m_hi : m.hi ≡ 2 ^ j = omega (arith, ms.0, mt.0) in
      let m_lo : m.lo ≡ 0 = omega (arith, ms.1, mt.1) in
      let r_hi : r.hi ≡ t * 2 ^ suc j = omega (arith, rs.0, rt.0) in
      let (e, lt) = or_bit t j r.hi (omega arith) r_hi vr.hi_lt in
      let hi = ap (λ (t : ℕ). bit_or r.hi t) m_hi ∙ e in
      let lo = ap (λ (t : ℕ). bit_or r.lo t) m_lo ∙ bit_or-zero r.lo in
      (
        record { lo_lt = omega (arith, lo, vr.lo_lt); hi_lt = omega (arith, hi, lt) },
        omega (arith, lo, hi, m_hi, m_lo),
      )

  pub or_128_lem : k < 128 → IsWide (or_128 r m) × (value (or_128 r m) ≡ value r + value m)
  or_128_lem h = elim (Bool-cases (leb 64 k)) [
    | inl c ↦ or_high (ground arith) h
    | inr c ↦ or_low (ground arith)
  ]
