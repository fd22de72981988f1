-- ===== src/Wide/Words.antt =====
-- One word times a power of two, cut at the word's end; `B` and `C` stand for 2 ^ b and
-- 2 ^ (64 - b).
use native.Mathlib.Nat.{mul_comm, div-add-mod, mod-lt, mul-le-mul_right, lt_of_mul-lt-mul_right}
use dtrace_utils.Common.{ℕ, ◌+◌, ◌*◌, ◌/◌, ◌%◌, ◌≤◌, ◌<◌, ◌≡◌, ap, arith}
use dtrace_utils.Common.Pow.{div_mod_unique}
use dtrace_utils.Wide.{word}

module _ (B C : ℕ) (split : B * C ≡ word) (posC : 0 < C) (posB : 0 < B) where
  -- The part of `x * B` that is cut off, and the part that stays.
  pub cut : (x : ℕ) → x * B ≡ x / C * word + x % C * B
  cut x = omega (arith, ap (λ (t : ℕ). t * B) (div-add-mod x C), ap (λ (t : ℕ). x / C * t) split)

  pub stay_lt : (x : ℕ) → x % C * B + B ≤ word
  stay_lt x = omega (arith, mul-le-mul_right B (mod-lt x posC), split)

  pub cut_mod : (x : ℕ) → x * B % word ≡ x % C * B
  cut_mod x = (div_mod_unique (x * B) word (x / C) (x % C * B) (cut x) (omega (arith, stay_lt x))).1

  pub high_lt : (x : ℕ) → x < word → x / C < B
  high_lt x h = lt_of_mul-lt-mul_right C (omega (arith, div-add-mod x C, mul_comm C (x / C), split))
