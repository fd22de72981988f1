-- ===== src/Cg/Stddev/Values.antt =====
-- dt_cg_agg_stddev: what the two words for the square come to.
use dtrace_utils.Common.{
  ℕ, ◌+◌, ◌-◌, ◌*◌, ◌/◌, ◌%◌, ◌^◌, ◌≤◌, ◌<◌, ◌≡◌, refl, ap, ap₂, ◌∙◌, inl, inr, ◌==◌, if◌then◌else◌,
  arith, Bool-cases,
}
use dtrace_utils.Bpf.Machine.{is_neg}
use dtrace_utils.Bpf.Block.{val, hi, low, Env, effects}
use dtrace_utils.Cg.Halves.{low_sum, high_sum, half, low_half, halves_lem}
use dtrace_utils.Cg.Stddev.Runs.{products, carried, absolute}

-- The absolute value of a word as a signed number.
abbrev pub abs : ℕ → ℕ
abs x = if is_neg x then (2 ^ 64 - x) % 2 ^ 64 else x

-- What the two words come to: where the lower half of the absolute value is 0, a carry too many.
unfoldable pub square_value : ℕ → ℕ
square_value x = abs x * abs x + (if abs x % half == 0 then 2 ^ 64 else 0)

absolute-low : (e : Env) → absolute e low ≡ abs (e val)
unfolding absolute
absolute-low e = elim (Bool-cases (is_neg (e val))) [ inl t ↦ rw (t) refl | inr t ↦ rw (t) refl ]

abs_bound : (x : ℕ) → x < 2 ^ 64 → abs x ≤ 2 ^ 63
abs_bound x h = ground arith

pub absolute-square :
    (e : Env)
    → e val < 2 ^ 64
    → let f = carried (effects products (absolute e)) in
      f hi * 2 ^ 64 + f low ≡ square_value (e val)
unfolding absolute square_value
absolute-square e h =
    let y = abs (e val) in
    let b = abs_bound (e val) h in
    let q : absolute e low * 2 ^ 32 % 2 ^ 64 / 2 ^ 32 ≡ y % half =
      ap (λ (k : ℕ). k * 2 ^ 32 % 2 ^ 64 / 2 ^ 32) (absolute-low e) ∙ low_half y (omega arith) in
    let r : absolute e low / 2 ^ 32 ≡ y / half = ap (λ (k : ℕ). k / half) (absolute-low e) in
    ap₂
      (λ (l k : ℕ).
        high_sum (l * k % 2 ^ 64) (l * l % 2 ^ 64) (k * k % 2 ^ 64) * 2 ^ 64
        + low_sum (l * k % 2 ^ 64) (l * l % 2 ^ 64))
      q r
    ∙ halves_lem y b

-- The argument stays in its register.
pub absolute-val : (e : Env) → carried (effects products (absolute e)) val ≡ e val
unfolding absolute
absolute-val e = elim (Bool-cases (is_neg (e val))) [ inl t ↦ rw (t) refl | inr t ↦ rw (t) refl ]
