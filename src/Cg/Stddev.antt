-- ===== src/Cg/Stddev.antt =====
-- libdtrace/dt_cg.c: dt_cg_agg_stddev up to the update of the aggregation, which is the code that
-- squares the argument, and dt_cg_agg_stddev_impl. The registers of `Squared` are those of the
-- argument, and of the high and the low word of the square.
pub mod Runs
pub mod Values
pub mod Square
pub mod Correct
pub mod Words
pub mod Sums
pub mod Impl
mod Tests
use dtrace_utils.Common.{ℕ, ◌+◌}
use dtrace_utils.Bpf.{
  add_op, mul_op, lsh_op, rsh_op, jsge, jlt, jle, mov_imm, xadd_dw, load_dw, store_dw, alu64_reg,
  alu64_imm, neg_reg, mov_reg, branch_reg, branch_imm,
}
use dtrace_utils.Cg.{Gen, ◌>>=◌, pure, emit, emitl, new_label, alloc_reg, free_reg}

pub record Squared : Type 0 where
  pub arg_reg : ℕ
  pub hi_reg : ℕ
  pub low_reg : ℕ

-- `base` is that of the spill slots.
unfoldable pub stddev_square : (base : ℕ) → Gen ℕ → Gen Squared
stddev_square base arg = do
  lpos ← new_label
  lncy ← new_label
  val ← arg
  hi ← alloc_reg base
  low ← alloc_reg base
  mid ← alloc_reg base
  lmd ← alloc_reg base
  _ ← emit (mov_reg low val)
  _ ← emit (branch_imm jsge low 0 lpos)
  _ ← emit (neg_reg low)
  _ ← emitl lpos (mov_reg hi low)
  _ ← emit (alu64_imm lsh_op low 32)
  _ ← emit (alu64_imm rsh_op low 32)
  _ ← emit (alu64_imm rsh_op hi 32)
  _ ← emit (mov_reg mid low)
  _ ← emit (alu64_reg mul_op mid hi)
  _ ← emit (alu64_reg mul_op low low)
  _ ← emit (alu64_reg mul_op hi hi)
  _ ← emit (mov_reg lmd mid)
  _ ← emit (alu64_imm lsh_op lmd 33)
  _ ← emit (alu64_imm rsh_op mid 31)
  _ ← emit (alu64_reg add_op low lmd)
  _ ← emit (branch_reg jlt lmd low lncy)
  _ ← emit (alu64_imm add_op hi 1)
  _ ← emitl lncy (alu64_reg add_op hi mid)
  _ ← free_reg base lmd
  _ ← free_reg base mid
  pure (record { arg_reg = val; hi_reg = hi; low_reg = low })

-- The update of the data: the count, the sum, and the 128-bit sum of squares.
unfoldable pub stddev_impl : (base dreg vreg hreg lreg : ℕ) → Gen (Unit {0})
stddev_impl base dreg vreg hreg lreg = do
  lncr ← new_label
  onereg ← alloc_reg base
  lowreg ← alloc_reg base
  _ ← emit (mov_imm onereg 1)
  _ ← emit (xadd_dw dreg 0 onereg)
  _ ← emit (xadd_dw dreg 8 vreg)
  _ ← emit (load_dw lowreg dreg 16)
  _ ← emit (alu64_reg add_op lowreg lreg)
  _ ← emit (branch_reg jle lreg lowreg lncr)
  _ ← emit (xadd_dw dreg 24 onereg)
  _ ← emitl lncr (store_dw dreg 16 lowreg)
  _ ← emit (xadd_dw dreg 24 hreg)
  _ ← free_reg base onereg
  free_reg base lowreg
