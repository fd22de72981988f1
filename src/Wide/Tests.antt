-- ===== src/Wide/Tests.antt =====
-- The 128-bit arithmetic on concrete numbers.
use dtrace_utils.Common.{ℕ, ◌+◌, ◌-◌, ◌*◌, ◌/◌, ◌%◌, ◌^◌, ◌≤◌, ◌<◌, ◌≡◌, ◌≢◌, ◌↔◌, some, arith}
use dtrace_utils.Wide.{
  Wide, wide, word, right, shift_128, multiply_128, divide_128, sqrt_128, abs_64, stddev,
}
use dtrace_utils.Wide.Value.{value, IsWide}
use dtrace_utils.Wide.ShiftRight.{shift_right_near}
use dtrace_utils.Wide.Multiply.{multiply_128_lem}
use dtrace_utils.Wide.Divide.{Quotient, divide_128_lem}
use dtrace_utils.Wide.Sqrt.{sqrt_128_lem}
use dtrace_utils.Wide.Stddev.{stddev_lem}

abbrev big : Wide
big = wide 0xffff_ffff_ffff_fff7 0x8000_0000_0000_0005

abbrev mid : Wide
mid = wide 12 3

big-IsWide : IsWide big
big-IsWide = record { lo_lt = omega arith; hi_lt = omega arith }

mid-IsWide : IsWide mid
mid-IsWide = record { lo_lt = omega arith; hi_lt = omega arith }

-- Bits 32 to 39 of the high word are lost by a shift of 40.
abbrev lossy : Wide
lossy = wide 0 0xff_ffff_ffff

lossy-IsWide : IsWide lossy
lossy-IsWide = record { lo_lt = omega arith; hi_lt = omega arith }

shift_right_loses : value (shift_128 lossy (right 40)) ≢ value lossy / 2 ^ 40
shift_right_loses =
    λ e. let fits = (shift_right_near lossy 40 lossy-IsWide (omega arith)).1.0 e in omega arith

sqrt_128_lem_example :
    (r : ℕ) × (sqrt_128 big ≡ some r) × (r * r ≤ value big) × (value big < (r + 1) * (r + 1))
sqrt_128_lem_example = sqrt_128_lem big big-IsWide

divide_128_lem_example : Quotient (value big) 1000 (divide_128 big 1000)
divide_128_lem_example = divide_128_lem big 1000 big-IsWide (omega arith) (omega arith)

-- Twelve values with the sum -6 and the sum of squares 3 * 2 ^ 64 + 12.
stddev_lem_example :
    let avg = abs_64 (word - 6) / 2 / 12 in
    let var = value mid / 2 / 12 - avg * avg in
    (r : ℕ) × (stddev 12 (word - 6) mid 2 ≡ some r) × (r * r ≤ var) × (var < (r + 1) * (r + 1))
stddev_lem_example =
    stddev_lem 12 (word - 6) mid 2 mid-IsWide (omega arith) (omega arith) (omega arith)
      (omega arith) (omega arith) (unfold abs_64 in omega arith)

multiply_128_lem_example :
    IsWide (multiply_128 0xffff_ffff_ffff_fff1 0xffff_ffff_ffff_fff2)
    × (value (multiply_128 0xffff_ffff_ffff_fff1 0xffff_ffff_ffff_fff2)
        ≡ 0xffff_ffff_ffff_fff1 * 0xffff_ffff_ffff_fff2)
multiply_128_lem_example =
    multiply_128_lem 0xffff_ffff_ffff_fff1 0xffff_ffff_ffff_fff2 (omega arith) (omega arith)

shift_right_near_example :
    IsWide (shift_128 lossy (right 40))
    × ((value (shift_128 lossy (right 40)) ≡ value lossy / 2 ^ 40)
        ↔ (0xff_ffff_ffff % 2 ^ 40 < 2 ^ (64 - 40)))
shift_right_near_example = shift_right_near lossy 40 lossy-IsWide (omega arith)
