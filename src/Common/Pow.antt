-- ===== src/Common/Pow.antt =====
-- Division with remainder and powers of two, at variables.
use Prim.Native.Nat.{ℕ, zero, suc, ◌+◌, ◌*◌, ◌/◌, ◌%◌, ◌^◌, ◌<◌}
use mathlib.Core.Path.{◌≡◌, refl, sym, ap, ◌∙◌}
use native.Mathlib.Nat.{pow-suc, mul_assoc, mul_comm, div-add-mod, mod-lt, one-le-pow, add-mul}
use native.Mathlib.Omega.{arith}

pub pow-add : (a b : ℕ) → 2 ^ (a + b) ≡ 2 ^ a * 2 ^ b
pow-add a zero = let e : a + zero ≡ a = omega arith in rw e (omega arith)
pow-add a (suc b) =
    let e : a + suc b ≡ suc (a + b) = omega arith in
    rw e (
      pow-suc 2 (a + b)
      ∙ ap (λ (t : ℕ). t * 2) (pow-add a b)
      ∙ mul_assoc (2 ^ a) (2 ^ b) 2
      ∙ ap (λ (t : ℕ). 2 ^ a * t) (sym (pow-suc 2 b)))

pub pow-pos : (a : ℕ) → 0 < 2 ^ a
pow-pos a = one-le-pow a 2 (omega arith)

-- Quotients are determined by the equation for division.
pub quotient_unique : (m q r p s : ℕ) → q * m + r ≡ p * m + s → r < m → s < m → q ≡ p
quotient_unique m zero r zero s e h k = refl
quotient_unique m zero r (suc p) s e h k = absurd (omega (arith, add-mul p 1 m))
quotient_unique m (suc q) r zero s e h k = absurd (omega (arith, add-mul q 1 m))
quotient_unique m (suc q) r (suc p) s e h k = ap suc (quotient_unique m q r p s (omega arith) h k)

pub div_mod_unique : (n m q r : ℕ) → n ≡ q * m + r → r < m → (n / m ≡ q) × (n % m ≡ r)
div_mod_unique n m q r e h =
    let split = div-add-mod n m in
    let same : n / m ≡ q =
      quotient_unique m (n / m) (n % m) q r (omega (arith, mul_comm m (n / m)))
        (mod-lt n (omega arith)) h in
    (same, omega (arith, mul_comm m (n / m), ap (λ (t : ℕ). t * m) same))
