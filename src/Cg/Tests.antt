-- ===== src/Cg/Tests.antt =====
-- dt_cg.c on small expressions.
use dtrace_utils.Common.{ℕ, ◌≡◌, refl, true, false, List, [], ◌∷◌, ◌==◌, if◌then◌else◌, arith}
use dtrace_utils.As.{IrNode, irlist_append, irlist_label}
use dtrace_utils.Regset.{alloc, free}
use dtrace_utils.Bpf.{add_op, alu64_reg, mov_imm, mov_reg}
use dtrace_utils.Bpf.Machine.{Regs, idle, run}
use dtrace_utils.Bpf.Runs.{node}
use dtrace_utils.Cg.{
  Pcb, Node, Out, done, fail, int, saved, binary, comparison, lneg, question, add, lt, arith_op,
  jump_op, cg_node,
}
use dtrace_utils.Cg.Pool.{frees}
use dtrace_utils.Cg.Emit.{Emission}
use dtrace_utils.Cg.Correct.{value, need, cg_node-Emission}

-- Register 6 holds a variable, 0 to 5, 7 and 8 are free.
abbrev started : Pcb
started = record {
  ir = record { nodes = []; len = 0; next_label = 1 };
  regs = record { size = 9; active = λ j. j == 6; spilled = λ _. false; calls = [] };
}

-- `(x < 5) ? x + 2 : !x`
abbrev sample : Node
sample =
    question (comparison lt true (saved 6) (int 5)) (binary add (saved 6) (int 2)) (lneg (saved 6))

abbrev code_of : Out ℕ → List IrNode
code_of (done reg c) = c.ir.nodes
code_of (fail e) = []

sum_code :
    code_of (cg_node 80 (binary add (saved 6) (int 2)) started)
    ≡ node 0 (mov_reg 8 6) ∷ node 0 (mov_imm 7 2) ∷ node 0 (alu64_reg add_op 8 7) ∷ []
unfolding cg_node alloc free irlist_append arith_op
sum_code = refl

abbrev registers : ℕ → Regs
registers x = λ j. if j == 6 then x else 0

runs_true : (run (code_of (cg_node 80 sample started)) (idle (registers 3) (λ _. 0))).regs 8 ≡ 5
unfolding cg_node run alloc free irlist_append irlist_label jump_op arith_op
runs_true = refl

runs_false : (run (code_of (cg_node 80 sample started)) (idle (registers 9) (λ _. 0))).regs 8 ≡ 0
unfolding cg_node run alloc free irlist_append irlist_label jump_op arith_op
runs_false = refl

cg_node-Emission_example : Emission (value sample) (cg_node 80 sample) started
unfolding frees need
cg_node-Emission_example =
    cg_node-Emission 80 sample started (record { labels = omega arith; valid = λ j h. cc })
      ((refl, tt), (refl, tt), refl) (omega arith)
