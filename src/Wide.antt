-- ===== src/Wide.antt =====
-- The 128-bit arithmetic of libdtrace/dt_consume.c, for the aggregating action stddev().
--
-- A `uint64_t[2]` is a record of its two words, the low one first. A shift by a negative count
-- goes right. Shifts by 128 and more, which the callers never make, are not meant.
mod Words
pub mod Value
pub mod Shift
pub mod ShiftRight
pub mod Multiply
pub mod BitLength
pub mod Or
pub mod Divide
pub mod Sqrt
pub mod Stddev
mod Tests
use dtrace_utils.Common.{
  ℕ, zero, suc, ◌+◌, ◌-◌, ◌*◌, ◌/◌, ◌%◌, ◌^◌, ◌<◌, ◌≡◌, Bool, true, false, ◌&&◌, ◌||◌, Option, none,
  some, bit_or, ltb, leb, ◌==◌, if◌then◌else◌,
}

-- 2 ^ 64
abbrev pub word : ℕ
word = 0x1_0000_0000_0000_0000

pub record Wide : Type 0 where
  pub lo : ℕ
  pub hi : ℕ

abbrev pub wide : ℕ → ℕ → Wide
wide l h = record { lo = l; hi = h }

pub gt_128 : Wide → Wide → Bool
gt_128 a b = ltb b.hi a.hi || ((a.hi == b.hi) && ltb b.lo a.lo)

pub ge_128 : Wide → Wide → Bool
ge_128 a b = ltb b.hi a.hi || ((a.hi == b.hi) && leb b.lo a.lo)

pub le_128 : Wide → Wide → Bool
le_128 a b = ltb a.hi b.hi || ((a.hi == b.hi) && leb a.lo b.lo)

-- A signed shift count.
pub data ShiftCount : Type 0 where
  left : ℕ → ShiftCount
  right : ℕ → ShiftCount

shift_left : Wide → ℕ → Wide
shift_left a b =
    if leb 64 b
    then wide 0 (a.lo * 2 ^ (b - 64) % word)
    else wide (a.lo * 2 ^ b % word) (bit_or (a.hi * 2 ^ b % word) (a.lo / 2 ^ (64 - b)))

-- The mask keeps the low `64 - b` bits of the high word.
shift_right : Wide → ℕ → Wide
shift_right a b =
    if leb 64 b
    then wide (a.hi / 2 ^ (b - 64)) 0
    else wide (bit_or (a.lo / 2 ^ b) (a.hi % 2 ^ (64 - b) * 2 ^ (64 - b) % word)) (a.hi / 2 ^ b)

pub shift_128 : Wide → ShiftCount → Wide
unfolding shift_left shift_right
shift_128 a (left zero) = a
shift_128 a (left (suc b)) = shift_left a (suc b)
shift_128 a (right zero) = a
shift_128 a (right (suc b)) = shift_right a (suc b)

-- The loop of dt_nbits_128, on fuel; `nbits_128` starts it with 128 rounds.
pub nbits_loop : ℕ → Wide → ℕ → Option ℕ
nbits_loop zero tmp nbits = none
nbits_loop (suc n) tmp nbits =
    let rest = nbits_loop n (shift_128 tmp (right 1)) (nbits + 1) in
    if gt_128 tmp (wide 0 0) then rest else some nbits

pub nbits_128 : Wide → Option ℕ
nbits_128 a = nbits_loop 128 (shift_128 a (right 1)) 0

pub subtract_128 : Wide → Wide → Wide
subtract_128 m s =
    wide ((m.lo + word - s.lo) % word)
      ((m.hi + 2 * word - s.hi - (if ltb m.lo s.lo then 1 else 0)) % word)

pub add_128 : Wide → Wide → Wide
add_128 a b =
    let lo = (a.lo + b.lo) % word in
    wide lo ((a.hi + b.hi + (if ltb lo a.lo || ltb lo b.lo then 1 else 0)) % word)

-- Words are split at 32 bits; `tmp` is shifted up and added twice.
pub multiply_128 : ℕ → ℕ → Wide
multiply_128 factor1 factor2 =
    let half = 2 ^ 32 in
    let hi1 = factor1 / half in
    let hi2 = factor2 / half in
    let lo1 = factor1 % half in
    let lo2 = factor2 % half in
    let product = wide (lo1 * lo2 % word) (hi1 * hi2 % word) in
    let tmp = shift_128 (wide (hi1 * lo2 % word) 0) (left 32) in
    let product' = add_128 product tmp in
    add_128 product' (shift_128 (wide (hi2 * lo1 % word) 0) (left 32))

-- `while (divisor > 0) { log++; divisor >>= 1; }`, on fuel.
pub log_loop : ℕ → ℕ → ℕ → Option ℕ
log_loop zero divisor log = none
log_loop (suc n) divisor log =
    let rest = log_loop n (divisor / 2) (log + 1) in if ltb 0 divisor then rest else some log

pub or_128 : Wide → Wide → Wide
or_128 a b = wide (bit_or a.lo b.lo) (bit_or a.hi b.hi)

-- The loop of dt_divide_128, on fuel.
pub divide_loop : ℕ → (divisor remainder subtrahend mask result : Wide) → Option Wide
divide_loop zero divisor remainder subtrahend mask result = none
divide_loop (suc n) divisor remainder subtrahend mask result =
    let subtrahend' = shift_128 subtrahend (right 1) in
    let mask' = shift_128 mask (right 1) in
    let taken =
      divide_loop n divisor (subtract_128 remainder subtrahend) subtrahend' mask'
        (or_128 result mask) in
    let left_out = divide_loop n divisor remainder subtrahend' mask' result in
    if ge_128 remainder divisor
    then (if ge_128 remainder subtrahend then taken else left_out)
    else some result

-- `none` for the failed assertion `divisor != 0` (and if the fuel did not suffice).
pub divide_128 : Wide → ℕ → Option Wide
divide_128 dividend divisor = if divisor == 0 then none else elim (log_loop 65 divisor 0) [
  | none ↦ none
  | some log ↦
      divide_loop 129 (wide divisor 0) dividend (shift_128 (wide divisor 0) (left (128 - log)))
        (shift_128 (wide 1 0) (left (128 - log))) (wide 0 0)
]

-- One round of dt_sqrt_128, at the given `pair_shift`: (result, diff).
pub sqrt_step : Wide → ℕ → Wide × Wide → Wide × Wide
sqrt_step square pair_shift (result, diff) =
    let next_pair = wide ((shift_128 square (right pair_shift)).lo % 4) 0 in
    let diff' = add_128 (shift_128 diff (left 2)) next_pair in
    let next_try = add_128 (shift_128 result (left 2)) (wide 1 0) in
    if le_128 next_try diff'
    then (add_128 (shift_128 result (left 1)) (wide 1 0), subtract_128 diff' next_try)
    else (shift_128 result (left 1), diff')

-- The rounds that are left, the last of which has `pair_shift` 0.
pub sqrt_loop : ℕ → Wide → Wide × Wide → Wide × Wide
sqrt_loop zero square s = s
sqrt_loop (suc n) square s = sqrt_loop n square (sqrt_step square (n * 2) s)

-- `none` for the failed assertion `result[1] == 0`.
pub sqrt_128 : Wide → Option ℕ
sqrt_128 square = elim (nbits_128 square) [
  | none ↦ none
  | some nbits ↦
      let (result, _) = sqrt_loop (nbits / 2 + 1) square (wide 0 0, wide 0 0) in
      if result.hi == 0 then some result.lo else none
]

-- The magnitude of an int64_t.
pub abs_64 : ℕ → ℕ
abs_64 w = if ltb w (2 ^ 63) then w else word - w

-- `data` is the count, the sum and the two words of the sum of squares. The signed divisions
-- round to 0, and only the magnitude of the average is used.
pub stddev : (count sum : ℕ) → Wide → (normal : ℕ) → Option ℕ
unfolding abs_64
stddev count sum squares normal = elim (divide_128 squares normal) [
  | none ↦ none
  | some by_normal ↦ elim (divide_128 by_normal count) [
    | none ↦ none
    | some avg_of_squares ↦
        let norm_avg = abs_64 sum / abs_64 normal / abs_64 count in
        sqrt_128 (subtract_128 avg_of_squares (multiply_128 norm_avg norm_avg))
  ]
]
