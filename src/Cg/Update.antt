-- ===== src/Cg/Update.antt =====
-- libdtrace/dt_cg.c: the code that updates an aggregation: DT_CG_AGG_IMPL, for one copy of the
-- data, with dt_cg_agg_buf_prepare and the functions dt_cg_agg_*_impl of avg(), count(), max(),
-- min() and sum(). `dctx` and `agg` are DT_STK_DCTX and DCTX_AGG as the field `off`.
pub mod Nodes
pub mod Runs
pub mod Prepare
pub mod Impl
pub mod Correct
mod Tests
use dtrace_utils.Common.{ℕ, ◌+◌, ◌%◌, ◌^◌, Bool, true, false, if◌then◌else◌}
use dtrace_utils.Regset.{Status, done, in_use, ok, abort, xalloc}
use dtrace_utils.Bpf.{
  add_op, jsge, jsle, fp, alu64_imm, mov_imm, load_dw, store_dw, xadd_dw, branch_reg, nop,
}
use dtrace_utils.Cg.{
  Gen, Out, CgError, done, fail, ◌>>=◌, pure, emit, emitl, new_label, spill_store, alloc_reg,
  free_reg,
}

pub data AggFun : Type 0 where
  avg count max min sum : AggFun

-- `assert(reg != -1)` in place of the longjmp.
abbrev pub assert_reg : Out ℕ → Out ℕ
assert_reg (done reg c) = done reg c
assert_reg (fail e) = fail CgError.failed_assert

module _ (base : ℕ) where
  -- dt_regset_xalloc with its callback; the callers do not look at the result.
  unfoldable pub xalloc_reg : ℕ → Gen (Unit {0})
  xalloc_reg reg c = elim (xalloc reg c.regs) [
    | abort ↦ fail CgError.failed_assert
    | ok s regs ↦ elim s [
      | in_use ↦ done tt (record c { regs = regs })
      | done ↦
          if c.regs.active reg
          then spill_store base reg (record c { regs = regs })
          else done tt (record c { regs = regs })
    ]
  ]

  unfoldable pub buf_prepare : (dctx agg offset : ℕ) → Gen ℕ
  unfolding xalloc_reg
  buf_prepare dctx agg offset = do
    _ ← xalloc_reg 0
    rptr ← (λ c. assert_reg (alloc_reg base c))
    _ ← emit (load_dw rptr fp dctx)
    _ ← emit (load_dw rptr rptr agg)
    _ ← emit (mov_imm 0 1)
    _ ← emit (xadd_dw rptr (offset % 2 ^ 16) 0)
    _ ← emit (alu64_imm add_op rptr ((offset + 8) % 2 ^ 32))
    _ ← free_reg base 0
    pure rptr

  unfoldable pub avg_impl : (dreg vreg : ℕ) → Gen (Unit {0})
  unfolding xalloc_reg
  avg_impl dreg vreg = do
    _ ← xalloc_reg 0
    _ ← emit (mov_imm 0 1)
    _ ← emit (xadd_dw dreg 0 0)
    _ ← free_reg base 0
    emit (xadd_dw dreg 8 vreg)

  unfoldable pub count_impl : (dreg : ℕ) → Gen (Unit {0})
  unfolding xalloc_reg
  count_impl dreg = do
    _ ← xalloc_reg 0
    _ ← emit (mov_imm 0 1)
    _ ← emit (xadd_dw dreg 0 0)
    free_reg base 0

  unfoldable pub max_impl : (dreg vreg : ℕ) → Gen (Unit {0})
  max_impl dreg vreg = do
    lmax ← new_label
    treg ← alloc_reg base
    _ ← emit (load_dw treg dreg 0)
    _ ← emit (branch_reg jsge treg vreg lmax)
    _ ← emit (store_dw dreg 0 vreg)
    _ ← emitl lmax nop
    free_reg base treg

  unfoldable pub min_impl : (dreg vreg : ℕ) → Gen (Unit {0})
  min_impl dreg vreg = do
    lmin ← new_label
    treg ← alloc_reg base
    _ ← emit (load_dw treg dreg 0)
    _ ← emit (branch_reg jsle treg vreg lmin)
    _ ← emit (store_dw dreg 0 vreg)
    _ ← emitl lmin nop
    free_reg base treg

  unfoldable pub sum_impl : (dreg vreg : ℕ) → Gen (Unit {0})
  sum_impl dreg vreg = emit (xadd_dw dreg 0 vreg)

  unfoldable pub agg_impl : AggFun → (dreg vreg : ℕ) → Gen (Unit {0})
  unfolding avg_impl count_impl max_impl min_impl sum_impl
  agg_impl avg dreg vreg = avg_impl dreg vreg
  agg_impl count dreg vreg = count_impl dreg
  agg_impl max dreg vreg = max_impl dreg vreg
  agg_impl min dreg vreg = min_impl dreg vreg
  agg_impl sum dreg vreg = sum_impl dreg vreg

  unfoldable pub agg_update : AggFun → (dctx agg offset vreg : ℕ) → Gen (Unit {0})
  unfolding buf_prepare agg_impl
  agg_update f dctx agg offset vreg = do
    dreg ← buf_prepare dctx agg offset
    _ ← agg_impl f dreg vreg
    free_reg base dreg
