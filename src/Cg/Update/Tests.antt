-- ===== src/Cg/Update/Tests.antt =====
-- The update of an aggregation, run on small memories.
use dtrace_utils.Common.{ℕ, ◌-◌, ◌^◌, ◌≡◌, refl, false, List, [], ◌++◌, ◌==◌, if◌then◌else◌, arith}
use dtrace_utils.As.{IrNode, irlist_append, irlist_label}
use dtrace_utils.Regset.{alloc, free, xalloc}
use dtrace_utils.Bpf.Machine.{Regs, idle, run}
use dtrace_utils.Cg.{Pcb, Out, done, fail, alloc_reg, free_reg}
use dtrace_utils.Cg.Pool.{frees, Alike}
use dtrace_utils.Cg.Update.{AggFun, avg, max, min, sum, agg_update}
use dtrace_utils.Cg.Update.Correct.{Updates, agg_update-Updates}

-- Register 6 holds the argument, 0 to 5, 7 and 8 are free.
abbrev started : Pcb
started = record {
  ir = record { nodes = []; len = 0; next_label = 1 };
  regs = record { size = 9; active = λ j. j == 6; spilled = λ _. false; calls = [] };
}

abbrev code_of : Out (Unit {0}) → List IrNode
code_of (done q c) = c.ir.nodes
code_of (fail e) = []

-- The frame pointer is 1000, the context at 900 points to 2000, and the buffer at 3000 is found at
-- 2008. An aggregation at offset 16 has been updated three times, with the words 40 and 50.
abbrev registers : ℕ → Regs
registers x = λ j. if j == 6 then x else if j == 10 then 1000 else 0

abbrev memory : ℕ → ℕ
memory j =
    if j == 900
    then 2000
    else if j == 2008
    then 3000
    else if j == 3016
    then 3
    else if j == 3024
    then 40
    else if j == 3032
    then 50
    else 0

-- The count of updates and the two words after an update with `x`.
abbrev after : AggFun → ℕ → ℕ × ℕ × ℕ
after f x =
    let code = code_of (agg_update 80 f (2 ^ 16 - 100) 8 16 6 started) in
    let m = run code (idle (registers x) memory) in (m.mem 3016, m.mem 3024, m.mem 3032)

after_avg : after avg 7 ≡ (4, 41, 57)
unfolding agg_update alloc_reg free_reg run alloc free xalloc irlist_append irlist_label
after_avg = refl

after_max : after max 41 ≡ (4, 41, 50)
unfolding agg_update alloc_reg free_reg run alloc free xalloc irlist_append irlist_label
after_max = refl

after_max_negative : after max (2 ^ 64 - 1) ≡ (4, 40, 50)
unfolding agg_update alloc_reg free_reg run alloc free xalloc irlist_append irlist_label
after_max_negative = refl

after_min : after min (2 ^ 64 - 1) ≡ (4, 2 ^ 64 - 1, 50)
unfolding agg_update alloc_reg free_reg run alloc free xalloc irlist_append irlist_label
after_min = refl

after_sum : after sum (2 ^ 64 - 1) ≡ (4, 39, 50)
unfolding agg_update alloc_reg free_reg run alloc free xalloc irlist_append irlist_label
after_sum = refl

agg_update-Updates_example :
    (d : Pcb) × (code : List IrNode) × (agg_update 80 max (2 ^ 16 - 100) 8 16 6 started ≡ done tt d)
    × (d.ir.nodes ≡ started.ir.nodes ++ code)
    × Alike started.regs d.regs
    × ((rs : Regs) (me : ℕ → ℕ) → Updates max (2 ^ 16 - 100) 8 16 6 started code rs me)
unfolding frees
agg_update-Updates_example =
    agg_update-Updates 80 max (2 ^ 16 - 100) 8 16 6 started
      (record {
        ready = record { labels = omega arith; valid = λ j h. cc };
        zeroth = refl;
        size = omega arith;
        free = omega arith;
      })
      refl (omega arith)
