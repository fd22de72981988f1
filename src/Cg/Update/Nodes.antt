-- ===== src/Cg/Update/Nodes.antt =====
-- The update of an aggregation: its nodes, and the words of memory that it is to change.
use dtrace_utils.Common.{ℕ, ◌+◌, ◌%◌, ◌^◌, ◌≡◌, true, false, List, [], ◌∷◌, ◌==◌, if◌then◌else◌}
use dtrace_utils.As.{IrNode}
use dtrace_utils.Bpf.{
  add_op, jsge, jsle, fp, alu64_imm, mov_imm, load_dw, store_dw, xadd_dw, branch_reg, nop,
}
use dtrace_utils.Bpf.Machine.{below}
use dtrace_utils.Bpf.Runs.{node}
use dtrace_utils.Cg.Update.{AggFun, avg, count, max, min, sum}

unfoldable pub prepare_nodes : (dctx agg offset reg : ℕ) → List IrNode
prepare_nodes dctx agg offset reg =
    node 0 (load_dw reg fp dctx)
    ∷ node 0 (load_dw reg reg agg)
    ∷ node 0 (mov_imm 0 1)
    ∷ node 0 (xadd_dw reg (offset % 2 ^ 16) 0)
    ∷ node 0 (alu64_imm add_op reg ((offset + 8) % 2 ^ 32))
    ∷ []

abbrev pub extreme_nodes : (op reg v t lbl : ℕ) → List IrNode
extreme_nodes op reg v t lbl =
    node 0 (load_dw t reg 0)
    ∷ node 0 (branch_reg op t v lbl)
    ∷ node 0 (store_dw reg 0 v)
    ∷ node lbl nop
    ∷ []

-- `t` is the register taken for max() and min(), and `lbl` their label.
unfoldable pub impl_nodes : AggFun → (reg v t lbl : ℕ) → List IrNode
impl_nodes avg reg v t lbl =
    node 0 (mov_imm 0 1) ∷ node 0 (xadd_dw reg 0 0) ∷ node 0 (xadd_dw reg 8 v) ∷ []
impl_nodes count reg v t lbl = node 0 (mov_imm 0 1) ∷ node 0 (xadd_dw reg 0 0) ∷ []
impl_nodes max reg v t lbl = extreme_nodes jsge reg v t lbl
impl_nodes min reg v t lbl = extreme_nodes jsle reg v t lbl
impl_nodes sum reg v t lbl = node 0 (xadd_dw reg 0 v) ∷ []

-- The first two words of the data after an update with `x`, by what they were.
unfoldable pub first_word : AggFun → (x w : ℕ) → ℕ
first_word avg x w = (w + 1) % 2 ^ 64
first_word count x w = (w + 1) % 2 ^ 64
first_word max x w = if below true w x then x else w
first_word min x w = if below true x w then x else w
first_word sum x w = (w + x) % 2 ^ 64

unfoldable pub second_word : AggFun → (x w : ℕ) → ℕ
second_word avg x w = (w + x) % 2 ^ 64
second_word count x w = w
second_word max x w = w
second_word min x w = w
second_word sum x w = w

-- Memory with the words at `a` and `b` updated.
abbrev pub Stored : AggFun → (x a b : ℕ) → (me me' : ℕ → ℕ) → Type 0
Stored f x a b me me' =
    (me' a ≡ first_word f x (me a))
    × (me' b ≡ second_word f x (me b))
    × ((j : ℕ) → (j == a) ≡ false → (j == b) ≡ false → me' j ≡ me j)
