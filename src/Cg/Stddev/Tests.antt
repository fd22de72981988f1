-- ===== src/Cg/Stddev/Tests.antt =====
-- dt_cg_agg_stddev on small arguments.
use dtrace_utils.Common.{
  true, leb, ℕ, ◌-◌, ◌^◌, ◌≡◌, refl, false, List, [], ◌++◌, ◌==◌, if◌then◌else◌, arith,
}
use dtrace_utils.As.{IrNode, irlist_append, irlist_label}
use dtrace_utils.Regset.{alloc, free}
use dtrace_utils.Bpf.Machine.{Regs, idle, run}
use dtrace_utils.Cg.{Pcb, Out, done, fail, saved, cg_node, alloc_reg, free_reg}
use dtrace_utils.Cg.Pool.{frees, Alike}
use dtrace_utils.Cg.Correct.{value, need}
use dtrace_utils.Cg.Stddev.{Squared, stddev_square, stddev_impl}
use dtrace_utils.Cg.Stddev.Impl.{Sums, stddev_impl-Sums}
use dtrace_utils.Cg.Stddev.Correct.{Squares, stddev_square-Squared}

-- Register 6 holds the argument, 0 to 5, 7 and 8 are free.
abbrev started : Pcb
started = record {
  ir = record { nodes = []; len = 0; next_label = 1 };
  regs = record { size = 9; active = λ j. j == 6; spilled = λ _. false; calls = [] };
}

abbrev code_of : Out Squared → List IrNode
code_of (done q c) = c.ir.nodes
code_of (fail e) = []

abbrev hi_of : Out Squared → ℕ
hi_of (done q c) = q.hi_reg
hi_of (fail e) = 0

abbrev low_of : Out Squared → ℕ
low_of (done q c) = q.low_reg
low_of (fail e) = 0

abbrev registers : ℕ → Regs
registers x = λ j. if j == 6 then x else 0

-- The two words that the code for the square leaves.
abbrev words : ℕ → ℕ × ℕ
words x =
    let o = stddev_square 80 (cg_node 80 (saved 6)) started in
    let m = run (code_of o) (idle (registers x) (λ _. 0)) in (m.regs (hi_of o), m.regs (low_of o))

words_small : words 5 ≡ (0, 25)
unfolding stddev_square cg_node run alloc free irlist_append irlist_label
words_small = refl

words_negative : words (2 ^ 64 - 3) ≡ (0, 9)
unfolding stddev_square cg_node run alloc free irlist_append irlist_label
words_negative = refl

-- The carry that is counted although there is none.
words_zero : words 0 ≡ (1, 0)
unfolding stddev_square cg_node run alloc free irlist_append irlist_label
words_zero = refl

stddev_square-Squared_example :
    (q : Squared) × (c' : Pcb) × (code : List IrNode) × (stddev_square 80
        (cg_node 80 (saved 6))
        started
      ≡ done q c')
    × (c'.ir.nodes ≡ started.ir.nodes ++ code)
    × Squares (value (saved 6) (registers 5)) started q code (registers 5) (λ _. 0)
unfolding frees need value
stddev_square-Squared_example =
    stddev_square-Squared 80 (saved 6) started (registers 5) (λ _. 0)
      (record { labels = omega arith; valid = λ j h. cc }) refl (omega arith) (omega arith)
      (omega arith)

-- Registers 1, 2, 3 and 6 hold the high word, the low word, the pointer and the argument.
abbrev squared : Pcb
squared = record {
  ir = record { nodes = []; len = 0; next_label = 1 };
  regs = record {
    size = 9;
    active = λ j. if j == 6 then true else if j == 0 then false else leb j 3;
    spilled = λ _. false;
    calls = [];
  };
}

abbrev values : Regs
values = λ j. if j == 1 then 2 else if j == 2 then 2 ^ 64 - 1 else if j == 3 then 800 else 5

abbrev impl_code : Out (Unit {0}) → List IrNode
impl_code (done q c) = c.ir.nodes
impl_code (fail e) = []

-- A low word of 3 and 2 ^ 64 - 1 make 2 and a carry.
abbrev sums : (ℕ → ℕ) → ℕ × ℕ × ℕ × ℕ
sums me =
    let m = run (impl_code (stddev_impl 80 3 6 1 2 squared)) (idle values me) in
    (m.mem 800, m.mem 808, m.mem 816, m.mem 824)

sums_carry : sums (λ j. 3) ≡ (4, 8, 2, 6)
unfolding stddev_impl run alloc_reg free_reg alloc free irlist_append irlist_label
sums_carry = refl

stddev_impl-Sums_example :
    (c' : Pcb) × (code : List IrNode) × (stddev_impl 80 3 6 1 2 squared ≡ done tt c')
    × (c'.ir.nodes ≡ squared.ir.nodes ++ code)
    × Alike squared.regs c'.regs
    × Sums 3 6 1 2 squared code values (λ _. 3)
unfolding frees
stddev_impl-Sums_example =
    stddev_impl-Sums 80 3 6 1 2 squared (record { labels = omega arith; valid = λ j h. cc }) values
      (λ _. 3) (omega arith) refl refl refl refl (omega arith) (omega arith)
