-- ===== src/Bpf/Block.antt =====
-- Straight-line code on named registers, run by its effect on the values of the names.
use dtrace_utils.Common.{
  ℕ, ◌+◌, ◌-◌, ◌*◌, ◌/◌, ◌%◌, ◌^◌, ◌≡◌, refl, ap, ap₂, ◌∙◌, Bool, true, false, List, [], ◌∷◌, ◌==◌,
  if◌then◌else◌,
}
use dtrace_utils.As.{Insn, IrNode}
use dtrace_utils.Bpf.{add_op, mul_op, lsh_op, rsh_op, alu64_reg, alu64_imm, neg_reg, mov_reg}
use dtrace_utils.Bpf.Machine.{Regs, idle, exec, run, set_reg}
use dtrace_utils.Bpf.Runs.{node, run-next}

pub data Role : Type 0 where
  val hi low mid lmd : Role

abbrev pub same : Role → Role → Bool
same val val = true
same hi hi = true
same low low = true
same mid mid = true
same lmd lmd = true
same _ _ = false

-- Shifts by the counts of the code, and the addition of 1.
pub data Op : Type 0 where
  move plus times : Role → Role → Op
  negate incr lsh_32 rsh_32 lsh_33 rsh_31 : Role → Op

abbrev pub Env : Type 0
Env = Role → ℕ

abbrev pub upd : Role → ℕ → Env → Env
upd i x e = λ j. if same j i then x else e j

abbrev pub effect : Op → Env → Env
effect (move i j) e = upd i (e j) e
effect (plus i j) e = upd i ((e i + e j) % 2 ^ 64) e
effect (times i j) e = upd i (e i * e j % 2 ^ 64) e
effect (negate i) e = upd i ((2 ^ 64 - e i) % 2 ^ 64) e
effect (incr i) e = upd i ((e i + 1) % 2 ^ 64) e
effect (lsh_32 i) e = upd i (e i * 2 ^ 32 % 2 ^ 64) e
effect (rsh_32 i) e = upd i (e i / 2 ^ 32) e
effect (lsh_33 i) e = upd i (e i * 2 ^ 33 % 2 ^ 64) e
effect (rsh_31 i) e = upd i (e i / 2 ^ 31) e

abbrev pub effects : List Op → Env → Env
effects [] e = e
effects (o ∷ os) e = effects os (effect o e)

module _ (reg : Role → ℕ) where
  abbrev pub insn : Op → Insn
  insn (move i j) = mov_reg (reg i) (reg j)
  insn (plus i j) = alu64_reg add_op (reg i) (reg j)
  insn (times i j) = alu64_reg mul_op (reg i) (reg j)
  insn (negate i) = neg_reg (reg i)
  insn (incr i) = alu64_imm add_op (reg i) 1
  insn (lsh_32 i) = alu64_imm lsh_op (reg i) 32
  insn (rsh_32 i) = alu64_imm rsh_op (reg i) 32
  insn (lsh_33 i) = alu64_imm lsh_op (reg i) 33
  insn (rsh_31 i) = alu64_imm rsh_op (reg i) 31

  abbrev pub block : List Op → List IrNode
  block [] = []
  block (o ∷ os) = node 0 (insn o) ∷ block os

  -- The registers hold the values of their names.
  abbrev pub Holds : Env → Regs → Type 0
  Holds e rs = (i : Role) → rs (reg i) ≡ e i

  -- The other registers are as they were.
  abbrev pub Keeps : Regs → Regs → Type 0
  Keeps rs rs' = (j : ℕ) → ((i : Role) → (j == reg i) ≡ false) → rs' j ≡ rs j

module _ (reg : Role → ℕ) (apart : (i j : Role) → (reg i == reg j) ≡ same i j) where
  Holds-set_reg :
      (e : Env) (rs : Regs) (i : Role) (x y : ℕ)
      → Holds reg e rs
      → x ≡ y
      → Holds reg (upd i y e) (set_reg (reg i) x rs)
  Holds-set_reg e rs i x y h p j =
      rw (apart j i) (ap₂ (λ (a b : ℕ). if same j i then a else b) p (h j))

  Keeps-set_reg : (rs : Regs) (i : Role) (x : ℕ) → Keeps reg rs (set_reg (reg i) x rs)
  Keeps-set_reg rs i x j h = rw (h i) refl

  -- One instruction.
  pub exec-effect :
      (o : Op) (e : Env) (rs : Regs) (me : ℕ → ℕ)
      → Holds reg e rs
      → (rs' : Regs) × (exec (insn reg o) (idle rs me) ≡ idle rs' me)
        × Holds reg (effect o e) rs'
        × Keeps reg rs rs'
  exec-effect (move i j) e rs me h =
      (_, refl, Holds-set_reg e rs i _ _ h (h j), Keeps-set_reg rs i _)
  exec-effect (plus i j) e rs me h = (
    _,
    refl,
    Holds-set_reg e rs i _ _ h (ap₂ (λ (a b : ℕ). (a + b) % 2 ^ 64) (h i) (h j)),
    Keeps-set_reg rs i _,
  )
  exec-effect (times i j) e rs me h = (
    _,
    refl,
    Holds-set_reg e rs i _ _ h (ap₂ (λ (a b : ℕ). a * b % 2 ^ 64) (h i) (h j)),
    Keeps-set_reg rs i _,
  )
  exec-effect (negate i) e rs me h = (
    _,
    refl,
    Holds-set_reg e rs i _ _ h (ap (λ (a : ℕ). (2 ^ 64 - a) % 2 ^ 64) (h i)),
    Keeps-set_reg rs i _,
  )
  exec-effect (incr i) e rs me h = (
    _,
    refl,
    Holds-set_reg e rs i _ _ h (ap (λ (a : ℕ). (a + 1) % 2 ^ 64) (h i)),
    Keeps-set_reg rs i _,
  )
  exec-effect (lsh_32 i) e rs me h = (
    _,
    refl,
    Holds-set_reg e rs i _ _ h (ap (λ (a : ℕ). a * 2 ^ 32 % 2 ^ 64) (h i)),
    Keeps-set_reg rs i _,
  )
  exec-effect (rsh_32 i) e rs me h =
      (_, refl, Holds-set_reg e rs i _ _ h (ap (λ (a : ℕ). a / 2 ^ 32) (h i)), Keeps-set_reg rs i _)
  exec-effect (lsh_33 i) e rs me h = (
    _,
    refl,
    Holds-set_reg e rs i _ _ h (ap (λ (a : ℕ). a * 2 ^ 33 % 2 ^ 64) (h i)),
    Keeps-set_reg rs i _,
  )
  exec-effect (rsh_31 i) e rs me h =
      (_, refl, Holds-set_reg e rs i _ _ h (ap (λ (a : ℕ). a / 2 ^ 31) (h i)), Keeps-set_reg rs i _)

  pub run-effects :
      (os : List Op) (e : Env) (rs : Regs) (me : ℕ → ℕ)
      → Holds reg e rs
      → (rs' : Regs) × (run (block reg os) (idle rs me) ≡ idle rs' me)
        × Holds reg (effects os e) rs'
        × Keeps reg rs rs'
  unfolding run
  run-effects [] e rs me h = (rs, refl, h, λ j k. refl)
  run-effects (o ∷ os) e rs me h =
      let (r1, e1, h1, k1) = exec-effect o e rs me h in
      let (r2, e2, h2, k2) = run-effects os (effect o e) r1 me h1 in
      (
        r2,
        run-next (node 0 (insn reg o)) (block reg os) rs me (idle r1 me) e1 ∙ e2,
        h2,
        λ j k. k2 j k ∙ k1 j k,
      )
