-- ===== src/Bins.antt =====
-- bpf/agg_qbin.c and bpf/agg_lqbin.c: the bins of the quantize() and lquantize() aggregations.
--
-- A signed value is a sign and a magnitude; -2 ^ 63 is `neg (2 ^ 63)`.
pub mod Power
mod Tests
use dtrace_utils.Common.{
  ℕ, zero, suc, ◌+◌, ◌-◌, ◌*◌, ◌/◌, ◌%◌, ◌^◌, ◌<◌, Bool, true, false, ◌&&◌, Option, none, some,
  bit_and, ltb, ◌==◌, if◌then◌else◌,
}

pub data Signed : Type 0 where
  pos : ℕ → Signed
  neg : ℕ → Signed

-- `if (tmp & mask) { off += k; tmp >>= k; }`
unfoldable pub halve : (k mask : ℕ) → ℕ × ℕ → ℕ × ℕ
halve k mask (off, tmp) = if bit_and tmp mask == 0 then (off, tmp) else (off + k, tmp / 2 ^ k)

-- `off` for the magnitude, after the six tests.
unfoldable pub high_bit : ℕ → ℕ
unfolding halve
high_bit tmp =
    (halve 1 0x2 (
      halve 2 0xc (
        halve 4 0xf0
          (halve 8 0xff00 (halve 16 0xffff_0000 (halve 32 0x7fff_ffff_0000_0000 (1, tmp))))))).0

pub agg_qbin : Signed → ℕ
unfolding high_bit
agg_qbin (pos val) = if val == 0 then 63 else high_bit val + 63
agg_qbin (neg val) = if val == 0 then 63 else if val == 2 ^ 63 then 0 else 63 - high_bit val

-- `val - base`, if `val` is not less than `base`.
unfoldable pub above : Signed → Signed → Option ℕ
above (pos val) (pos base) = if ltb val base then none else some (val - base)
above (pos val) (neg base) = some (val + base)
above (neg val) (pos base) = if (val == 0) && (base == 0) then some 0 else none
above (neg val) (neg base) = if ltb base val then none else some (base - val)

pub agg_lqbin : (val base : Signed) → (levels step : ℕ) → ℕ
unfolding above
agg_lqbin val base levels step = if step == 0 then 0 else elim (above val base) [
  | none ↦ 0
  | some d ↦
      let level = d / step in
      if ltb levels level then (levels + 1) % 2 ^ 64 else (level + 1) % 2 ^ 64
]
