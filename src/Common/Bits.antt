-- ===== src/Common/Bits.antt =====
-- `|` of two words whose bits do not meet is their sum, at every width.
use Prim.Native.Nat.{
  ℕ, zero, suc, ◌+◌, ◌-◌, ◌*◌, ◌/◌, ◌%◌, ◌^◌, ◌≤◌, ◌<◌, min, max, bit_and, bit_or, digits,
  bit_and-bitwise, bit_or-bitwise,
}
use mathlib.Core.Path.{◌≡◌, refl, sym, ap, ap₂, ◌∙◌}
use native.Mathlib.Nat.{pow-suc, div-add-mod, mod-lt, div-div-eq-div-mul, one-le-pow}
use native.Mathlib.Omega.{arith}
use dtrace_utils.Common.Pow.{div_mod_unique}

-- The fuel of a digit recursion may be anything from the first number on.
module _ (alone : ℕ → ℕ) (both : ℕ → ℕ → ℕ) where
  refuel : (k l x y : ℕ) → x ≤ k → x ≤ l → digits alone both k x y ≡ digits alone both l x y
  refuel (suc k) (suc l) (suc x) y h i =
      omega (arith, refuel k l (suc x / 2) (y / 2) (omega arith) (omega arith))
  refuel (suc k) (suc l) zero y h i = refl
  refuel (suc k) zero zero y h i = refl
  refuel zero (suc l) zero y h i = refl
  refuel zero zero zero y h i = refl
  refuel zero l (suc x) y h i = absurd (omega arith)
  refuel (suc k) zero (suc x) y h i = absurd (omega arith)

pub zero-bit_or : (b : ℕ) → bit_or 0 b ≡ b
zero-bit_or b = bit_or-bitwise 0 b

bit_or_split : (a b : ℕ) → bit_or a b ≡ bit_or (a / 2) (b / 2) * 2 + max (a % 2) (b % 2)
bit_or_split zero b = omega (arith, zero-bit_or b, zero-bit_or (b / 2))
bit_or_split (suc a) b = omega (
  arith,
  bit_or-bitwise (suc a) b,
  bit_or-bitwise (suc a / 2) (b / 2),
  refuel (λ y. y) max a (suc a / 2) (suc a / 2) (b / 2) (omega arith) (omega arith),
)

or_zero_fuel : (n a : ℕ) → a ≤ n → bit_or a 0 ≡ a
or_zero_fuel n zero h = refl
or_zero_fuel zero (suc a) h = absurd (omega arith)
or_zero_fuel (suc n) (suc a) h =
    omega (arith, bit_or_split (suc a) 0, or_zero_fuel n (suc a / 2) (omega arith))

pub bit_or-zero : (a : ℕ) → bit_or a 0 ≡ a
bit_or-zero a = or_zero_fuel a a (omega arith)

pub bit_or_disjoint : (k a b : ℕ) → b < 2 ^ k → bit_or (a * 2 ^ k) b ≡ a * 2 ^ k + b
bit_or_disjoint zero a b h =
    let e : b ≡ 0 = omega arith in rw e (or_zero_fuel (a * 1) (a * 1) (omega arith) ∙ omega arith)
bit_or_disjoint (suc k) a b h =
    let half : a * 2 ^ suc k ≡ 2 * (a * 2 ^ k) =
      omega (arith, ap (λ (t : ℕ). a * t) (pow-suc 2 k)) in
    omega (
      arith,
      bit_or_split (a * 2 ^ suc k) b,
      half,
      ap (λ (t : ℕ). bit_or t (b / 2)) (div_two a k half),
      bit_or_disjoint k a (b / 2) (omega (arith, pow-suc 2 k)),
    )
  where
    div_two : (a k : ℕ) → a * 2 ^ suc k ≡ 2 * (a * 2 ^ k) → a * 2 ^ suc k / 2 ≡ a * 2 ^ k
    div_two a k e = omega arith

bit_or_comm_fuel : (n a b : ℕ) → a ≤ n → b ≤ n → bit_or a b ≡ bit_or b a
bit_or_comm_fuel zero a b p q = let e : a ≡ b = omega arith in ap₂ bit_or e (sym e)
bit_or_comm_fuel (suc n) zero b p q = zero-bit_or b ∙ sym (bit_or-zero b)
bit_or_comm_fuel (suc n) (suc a) zero p q = bit_or-zero (suc a) ∙ sym (zero-bit_or (suc a))
bit_or_comm_fuel (suc n) (suc a) (suc b) p q = omega (
  arith,
  bit_or_split (suc a) (suc b),
  bit_or_split (suc b) (suc a),
  bit_or_comm_fuel n (suc a / 2) (suc b / 2) (omega arith) (omega arith),
)

pub bit_or_comm : (a b : ℕ) → bit_or a b ≡ bit_or b a
bit_or_comm a b = bit_or_comm_fuel (a + b) a b (omega arith) (omega arith)

-- `&` with a mask is at most the mask.
and_digits_le : (n a b : ℕ) → digits (λ _. 0) min n a b ≤ b
and_digits_le zero zero b = omega arith
and_digits_le zero (suc a) b = omega arith
and_digits_le (suc n) zero b = omega arith
and_digits_le (suc n) (suc a) b = omega (arith, and_digits_le n (suc a / 2) (b / 2))

pub bit_and-le : (a b : ℕ) → bit_and a b ≤ b
bit_and-le a b = omega (arith, bit_and-bitwise a b, and_digits_le a a b)

-- `&` digit by digit.
pub bit_and_split : (x y : ℕ) → bit_and x y ≡ bit_and (x / 2) (y / 2) * 2 + min (x % 2) (y % 2)
bit_and_split zero y = omega (arith, bit_and-bitwise 0 y, bit_and-bitwise 0 (y / 2))
bit_and_split (suc x) y =
    let same = refuel (λ _. 0) min x (suc x / 2) (suc x / 2) (y / 2) (omega arith) (omega arith) in
    omega (arith, same, bit_and-bitwise (suc x / 2) (y / 2), bit_and-bitwise (suc x) y)

-- `&` with a mask whose low bits are clear looks at the number without them.
pub bit_and_high : (k a m : ℕ) → bit_and a (m * 2 ^ k) ≡ bit_and (a / 2 ^ k) m * 2 ^ k
bit_and_high zero a m =
    let e : m * 2 ^ zero ≡ m = omega arith in
    let f : a / 2 ^ zero ≡ a = omega arith in rw (e, f) (omega arith)
bit_and_high (suc k) a m =
    let half : m * 2 ^ suc k ≡ m * 2 ^ k * 2 = omega (arith, ap (λ (t : ℕ). m * t) (pow-suc 2 k)) in
    let even : m * 2 ^ suc k / 2 ≡ m * 2 ^ k = omega (arith, half) in
    let quot : a / 2 / 2 ^ k ≡ a / 2 ^ suc k =
      div-div-eq-div-mul a 2 (2 ^ k) ∙ ap (λ (t : ℕ). a / t) (omega (arith, pow-suc 2 k)) in
    omega (
      arith,
      bit_and_split a (m * 2 ^ suc k),
      half,
      ap (λ (t : ℕ). bit_and (a / 2) t) even,
      bit_and_high k (a / 2) m,
      ap (λ (t : ℕ). bit_and t m * 2 ^ k) quot,
      ap (λ (t : ℕ). bit_and (a / 2 ^ suc k) m * t) (pow-suc 2 k),
    )

mod_double : (a k : ℕ) → a % 2 ^ suc k ≡ a / 2 % 2 ^ k * 2 + a % 2
mod_double a k =
    let split = div-add-mod (a / 2) (2 ^ k) in
    let rest = mod-lt (a / 2) {m = 2 ^ k} (one-le-pow k 2 (omega arith)) in
    (div_mod_unique a (2 ^ suc k) (a / 2 / 2 ^ k) (a / 2 % 2 ^ k * 2 + a % 2)
      (omega (arith, split, ap (λ (t : ℕ). a / 2 / 2 ^ k * t) (pow-suc 2 k)))
      (omega (arith, rest, pow-suc 2 k))).1

-- `&` with a mask of low bits is the remainder.
pub bit_and_low : (k a : ℕ) → bit_and a (2 ^ k - 1) ≡ a % 2 ^ k
bit_and_low zero a = omega (arith, bit_and-le a 0)
bit_and_low (suc k) a =
    let half : (2 ^ suc k - 1) / 2 ≡ 2 ^ k - 1 =
      omega (arith, pow-suc 2 k, one-le-pow k 2 (omega arith)) in
    omega (
      arith,
      bit_and_split a (2 ^ suc k - 1),
      ap (λ (t : ℕ). bit_and (a / 2) t) half,
      bit_and_low k (a / 2),
      pow-suc 2 k,
      one-le-pow k 2 (omega arith),
      mod_double a k,
    )
