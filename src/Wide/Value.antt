-- ===== src/Wide/Value.antt =====
-- The number that two words stand for; comparison, sum and difference of such numbers.
use dtrace_utils.Common.{ℕ, ◌+◌, ◌-◌, ◌*◌, ◌%◌, ◌≤◌, ◌<◌, ◌≡◌, ◌↔◌, true, arith}
use dtrace_utils.Wide.{Wide, word, gt_128, ge_128, le_128, subtract_128, add_128}

abbrev pub value : Wide → ℕ
value a = a.lo + a.hi * word

pub record IsWide (a : Wide) : Type 0 where
  pub lo_lt : a.lo < word
  pub hi_lt : a.hi < word

module _ (a b : Wide) (va : IsWide a) (vb : IsWide b) where
  pub gt_128_iff : (gt_128 a b ≡ true) ↔ (value b < value a)
  unfolding gt_128
  gt_128_iff = ground arith

  pub ge_128_iff : (ge_128 a b ≡ true) ↔ (value b ≤ value a)
  unfolding ge_128
  ge_128_iff = ground arith

  pub le_128_iff : (le_128 a b ≡ true) ↔ (value a ≤ value b)
  unfolding le_128
  le_128_iff = ground arith

  -- The sum of two words pairs is that of their values modulo 2 ^ 128.
  pub add_128_lem :
      IsWide (add_128 a b) × (value (add_128 a b) ≡ (value a + value b) % (word * word))
  unfolding add_128
  add_128_lem = ground arith

  -- The difference of two word pairs is that of their values modulo 2 ^ 128.
  pub subtract_128_lem :
      IsWide (subtract_128 a b)
      × (value (subtract_128 a b) ≡ (value a + word * word - value b) % (word * word))
  unfolding subtract_128
  subtract_128_lem = ground arith
