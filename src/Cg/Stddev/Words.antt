-- ===== src/Cg/Stddev/Words.antt =====
-- dt_cg_agg_stddev_impl: its nodes, and the words that they are to change.
use dtrace_utils.Common.{
  ℕ, ◌+◌, ◌*◌, ◌%◌, ◌^◌, ◌<◌, ◌≡◌, false, List, [], ◌∷◌, leb, ◌==◌, if◌then◌else◌, arith,
}
use dtrace_utils.As.{IrNode}
use dtrace_utils.Bpf.{add_op, jle, alu64_reg, mov_imm, load_dw, store_dw, xadd_dw, branch_reg}
use dtrace_utils.Bpf.Machine.{address}
use dtrace_utils.Bpf.Runs.{node}
use dtrace_utils.Cg.Emit.{}

unfoldable pub add_nodes : (d v l one low : ℕ) → List IrNode
add_nodes d v l one low =
    node 0 (mov_imm one 1)
    ∷ node 0 (xadd_dw d 0 one)
    ∷ node 0 (xadd_dw d 8 v)
    ∷ node 0 (load_dw low d 16)
    ∷ node 0 (alu64_reg add_op low l)
    ∷ []

unfoldable pub high_nodes : (d h l one low lbl : ℕ) → List IrNode
high_nodes d h l one low lbl =
    node 0 (branch_reg jle l low lbl)
    ∷ node 0 (xadd_dw d 24 one)
    ∷ node lbl (store_dw d 16 low)
    ∷ node 0 (xadd_dw d 24 h)
    ∷ []

-- Words at `a` to `d` of which the last two are the low and the high word of a sum.
abbrev pub Summed : (v h l a b c d : ℕ) → (me me' : ℕ → ℕ) → Type 0
Summed v h l a b c d me me' =
    (me' a ≡ (me a + 1) % 2 ^ 64)
    × (me' b ≡ (me b + v) % 2 ^ 64)
    × (me' d * 2 ^ 64 + me' c ≡ (me d * 2 ^ 64 + me c + (h * 2 ^ 64 + l)) % 2 ^ 128)
    × ((j : ℕ)
        → (j == a) ≡ false
        → (j == b) ≡ false
        → (j == c) ≡ false
        → (j == d) ≡ false
        → me' j ≡ me j)

pub address-ne : (x i j : ℕ) → i < j → j < 2 ^ 15 → (address x i == address x j) ≡ false
address-ne x i j h k = ground arith

-- Words with a carry, where the sum of the low words is less than one of them.
pub wide_sum :
    (x y h l : ℕ)
    → x < 2 ^ 64
    → l < 2 ^ 64
    → let s = (x + l) % 2 ^ 64 in
      ((if leb l s then y else (y + 1) % 2 ^ 64) + h) % 2 ^ 64 * 2 ^ 64 + s
      ≡ (y * 2 ^ 64 + x + (h * 2 ^ 64 + l)) % 2 ^ 128
wide_sum x y h l b k = ground arith
