-- ===== src/Cg/Halves.antt =====
-- dt_cg_agg_stddev: the arithmetic of squaring a word by its halves.
use native.Mathlib.Nat.{mul-le-mul}
use dtrace_utils.Common.{
  ℕ, zero, suc, ◌+◌, ◌-◌, ◌*◌, ◌/◌, ◌%◌, ◌^◌, ◌≤◌, ◌<◌, ◌≡◌, refl, ap₂, ◌∙◌, ltb, ◌==◌,
  if◌then◌else◌, arith,
}

-- The low word and the high word from the products of the halves.
abbrev pub low_sum : (p q : ℕ) → ℕ
low_sum p q = (q + p * 2 ^ 33 % 2 ^ 64) % 2 ^ 64

abbrev pub high_sum : (p q r : ℕ) → ℕ
high_sum p q r =
    ((if ltb (p * 2 ^ 33 % 2 ^ 64) (low_sum p q) then r else (r + 1) % 2 ^ 64) + p / 2 ^ 31)
    % 2 ^ 64

-- The carry that is counted although there is none.
abbrev pub extra : ℕ → ℕ
extra q = if q == 0 then 2 ^ 64 else 0

sums :
    (p q r : ℕ)
    → p < 2 ^ 63
    → q < 2 ^ 64
    → r ≤ 2 ^ 62
    → high_sum p q r * 2 ^ 64 + low_sum p q ≡ r * 2 ^ 64 + p * 2 ^ 33 + q + extra q
sums p q r hp hq hr = ground arith

abbrev pub half : ℕ
half = 0x1_0000_0000

pub low_half : (y : ℕ) → y < 2 ^ 64 → y * 2 ^ 32 % 2 ^ 64 / 2 ^ 32 ≡ y % half
low_half y h = omega arith

extra-square : (l : ℕ) → extra (l * l) ≡ (if l == 0 then 2 ^ 64 else 0)
extra-square zero = refl
extra-square (suc l) =
    let grows =
      mul-le-mul {n₁ = 1} {m₁ = 1} {n₂ = suc l} {m₂ = suc l} (omega arith) (omega arith) in
    let pos : 0 < suc l * suc l = omega (arith, grows) in ground arith

-- The square of a number up to 2 ^ 63, from its halves.
pub halves_lem :
    (y : ℕ)
    → y ≤ 2 ^ 63
    → let l = y % half in
      let h = y / half in
      high_sum (l * h % 2 ^ 64) (l * l % 2 ^ 64) (h * h % 2 ^ 64) * 2 ^ 64
        + low_sum (l * h % 2 ^ 64) (l * l % 2 ^ 64)
      ≡ y * y + (if y % half == 0 then 2 ^ 64 else 0)
halves_lem y b =
    let l = y % half in
    let h = y / half in
    let whole : h * half + l ≡ y = omega arith in
    let p =
      mul-le-mul {n₁ = l} {m₁ = h} {n₂ = half - 1} {m₂ = 2 ^ 31} (omega arith) (omega arith) in
    let q =
      mul-le-mul {n₁ = l} {m₁ = l} {n₂ = half - 1} {m₂ = half - 1} (omega arith) (omega arith) in
    let r = mul-le-mul {n₁ = h} {m₁ = h} {n₂ = 2 ^ 31} {m₂ = 2 ^ 31} (omega arith) (omega arith) in
    let ep : l * h % 2 ^ 64 ≡ l * h = omega (arith, p) in
    let eq : l * l % 2 ^ 64 ≡ l * l = omega (arith, q) in
    let er : h * h % 2 ^ 64 ≡ h * h = omega (arith, r) in
    let s = sums (l * h) (l * l) (h * h) (omega (arith, p)) (omega (arith, q)) (omega (arith, r)) in
    let w : h * h * 2 ^ 64 + l * h * 2 ^ 33 + l * l ≡ y * y =
      omega (arith, ap₂ (λ (a b : ℕ). a * b) whole whole) in
    rw (ep, eq, er) (s ∙ ap₂ (λ (a b : ℕ). a + b) w (extra-square l))
