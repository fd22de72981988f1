-- ===== src/Bpf/Runs.antt =====
-- Steps of the machine: instructions of which the operands are variables, and code with labels.
use dtrace_utils.Common.{
  ℕ, ◌+◌, ◌*◌, ◌/◌, ◌%◌, ◌^◌, ◌<◌, ◌≡◌, refl, ap, ◌∙◌, true, false, none, ltb, List, [], ◌∷◌, ◌++◌,
  ◌==◌, arith,
}
use dtrace_utils.As.{Insn, IrNode}
use dtrace_utils.Bpf.{mov_imm, lddw_low, lddw_high, jump_to, nop}
use dtrace_utils.Bpf.Machine.{Regs, Machine, idle, jumping, set_reg, exec, step, run}

-- A node without a symbol.
abbrev pub node : ℕ → Insn → IrNode
node label x = record { label = label; instr = x; extern = none }

pub eq_self : (a : ℕ) → (a == a) ≡ true
eq_self a = ground arith

pub eq_comm : (a b : ℕ) → (a == b) ≡ false → (b == a) ≡ false
eq_comm a b h = ground arith

pub zero_ne : (l : ℕ) → 0 < l → (0 == l) ≡ false
zero_ne l h = ground arith

pub set_reg_self : (reg x : ℕ) (r : Regs) → set_reg reg x r reg ≡ x
set_reg_self reg x r = rw (eq_self reg) refl

pub run-append : (a b : List IrNode) (m : Machine) → run (a ++ b) m ≡ run b (run a m)
unfolding run
run-append [] b m = refl
run-append (n ∷ a) b m = run-append a b (step n m)

module _ (n : IrNode) (ns : List IrNode) (l : ℕ) (r : Regs) (me : ℕ → ℕ) where
  pub run-past : (n.label == l) ≡ false → run (n ∷ ns) (jumping l r me) ≡ run ns (jumping l r me)
  unfolding run
  run-past e = rw (e) refl

  pub run-at :
      (n.label == l) ≡ true → run (n ∷ ns) (jumping l r me) ≡ run ns (exec n.instr (idle r me))
  unfolding run
  run-at e = rw (e) refl

-- A node where no label is looked for.
pub run-next :
    (n : IrNode) (ns : List IrNode) (r : Regs) (me : ℕ → ℕ) (m : Machine)
    → exec n.instr (idle r me) ≡ m
    → run (n ∷ ns) (idle r me) ≡ run ns m
unfolding run
run-next n ns r me m e = ap (run ns) e

pub run-branch :
    (x : Insn) (ns : List IrNode) (r : Regs) (me : ℕ → ℕ) (m : Machine)
    → exec x (idle r me) ≡ m
    → run (node 0 x ∷ ns) (idle r me) ≡ run ns m
run-branch x ns r me m e = run-next (node 0 x) ns r me m e

-- The registers after the two halves of BPF_LDDW.
unfoldable pub set_wide : (reg x : ℕ) → Regs → Regs
set_wide reg x r =
    let r' = set_reg reg (x % 2 ^ 32) r in set_reg reg (r' reg + x % 2 ^ 64 / 2 ^ 32 * 2 ^ 32) r'

pub run-lddw :
    (reg x : ℕ) (ns : List IrNode) (r : Regs) (me : ℕ → ℕ)
    → run (node 0 (lddw_low reg x) ∷ node 0 (lddw_high x) ∷ ns) (idle r me)
      ≡ run ns (idle (set_wide reg x r) me)
unfolding run set_wide
run-lddw reg x ns r me = refl

pub set_wide_self : (reg x : ℕ) (r : Regs) → set_wide reg x r reg ≡ x % 2 ^ 64
unfolding set_wide
set_wide_self reg x r = rw (eq_self reg) (omega arith)

pub set_wide-ne : (reg x j : ℕ) (r : Regs) → (j == reg) ≡ false → set_wide reg x r j ≡ r j
unfolding set_wide
set_wide-ne reg x j r e = rw (e) refl

pub exec-jump_to :
    (l : ℕ) (r : Regs) (me : ℕ → ℕ)
    → (l == 0) ≡ false
    → exec (jump_to l) (idle r me) ≡ jumping l r me
exec-jump_to l r me e = rw (e) refl

-- The end of code that gives one of two values: `JA post; other: mov reg, x; post: nop`.
unfoldable pub choice : (other post reg x : ℕ) → List IrNode
choice other post reg x = node 0 (jump_to post) ∷ node other (mov_imm reg x) ∷ node post nop ∷ []

module _ (other reg x : ℕ) (h : 0 < other) (small : x < 2) (r : Regs) (me : ℕ → ℕ) where
  pub choice-first : run (choice other (other + 1) reg x) (idle r me) ≡ idle r me
  unfolding choice
  choice-first =
      let post = other + 1 in
      let mid = node other (mov_imm reg x) in
      let z : (post == 0) ≡ false = ground arith in
      let a : (other == post) ≡ false = ground arith in
      let b : (post == post) ≡ true = ground arith in
      run-branch (jump_to post) (mid ∷ node post nop ∷ []) r me (jumping post r me)
        (exec-jump_to post r me z)
      ∙ run-past mid (node post nop ∷ []) post r me a
      ∙ run-at (node post nop) [] post r me b
      ∙ end
    where
      end : run [] (exec nop (idle r me)) ≡ idle r me
      end = unfold run in refl

  pub choice-other :
      run (choice other (other + 1) reg x) (jumping other r me) ≡ idle (set_reg reg x r) me
  unfolding choice
  choice-other =
      let post = other + 1 in
      let mid = node other (mov_imm reg x) in
      let a : (0 == other) ≡ false = ground arith in
      let b : (other == other) ≡ true = ground arith in
      let c : ltb x (2 ^ 31) ≡ true = ground arith in
      run-past (node 0 (jump_to post)) (mid ∷ node post nop ∷ []) other r me a
      ∙ run-at mid (node post nop ∷ []) other r me b
      ∙ end c
    where
      end :
          ltb x (2 ^ 31) ≡ true
          → run (node (other + 1) nop ∷ []) (exec (mov_imm reg x) (idle r me))
            ≡ idle (set_reg reg x r) me
      end c = unfold run in rw (c) refl
