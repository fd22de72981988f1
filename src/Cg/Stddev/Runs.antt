-- ===== src/Cg/Stddev/Runs.antt =====
-- dt_cg_agg_stddev: what the code that squares a register does.
use dtrace_utils.Common.{
  ℕ, ◌+◌, ◌%◌, ◌^◌, ◌<◌, ◌≡◌, refl, ap, ap₂, ◌∙◌, inl, inr, true, false, List, [], ◌∷◌, ◌++◌, ltb,
  ◌==◌, if◌then◌else◌, arith, Bool-cases,
}
use dtrace_utils.As.{IrNode}
use dtrace_utils.Bpf.{jsge, jlt, branch_imm, branch_reg}
use dtrace_utils.Bpf.Machine.{Regs, Machine, idle, jumping, exec, run, is_neg}
use dtrace_utils.Bpf.Runs.{node, run-append, run-past, run-at, run-next, run-branch}
use dtrace_utils.Bpf.Block.{
  Role, val, hi, low, mid, lmd, same, Op, move, plus, times, negate, incr, lsh_32, rsh_32, lsh_33,
  rsh_31, Env, upd, effect, effects, insn, block, Holds, Keeps, exec-effect, run-effects,
}

-- From the place where `low` holds the absolute value.
abbrev pub products : List Op
products =
    lsh_32 low
    ∷ rsh_32 low
    ∷ rsh_32 hi
    ∷ move mid low
    ∷ times mid hi
    ∷ times low low
    ∷ times hi hi
    ∷ move lmd mid
    ∷ lsh_33 lmd
    ∷ rsh_31 mid
    ∷ plus low lmd
    ∷ []

module _ (reg : Role → ℕ) (ln : ℕ) where
  unfoldable pub carry_nodes : List IrNode
  carry_nodes =
      node 0 (branch_reg jlt (reg lmd) (reg low) ln)
      ∷ node 0 (insn reg (incr hi))
      ∷ node ln (insn reg (plus hi mid))
      ∷ []

  unfoldable pub product_nodes : List IrNode
  unfolding carry_nodes
  product_nodes = block reg products ++ carry_nodes

  unfoldable pub square_nodes : ℕ → List IrNode
  unfolding product_nodes
  square_nodes lp =
      node 0 (insn reg (move low val))
      ∷ node 0 (branch_imm jsge (reg low) 0 lp)
      ∷ node 0 (insn reg (negate low))
      ∷ node lp (insn reg (move hi low))
      ∷ product_nodes

-- Code that ends with the given values of the registers, and keeps all others.
abbrev pub Leads : (Role → ℕ) → List IrNode → Machine → Regs → (ℕ → ℕ) → Env → Type 0
Leads reg ns m rs me e =
    (rs' : Regs) × (run ns m ≡ idle rs' me) × Holds reg e rs' × Keeps reg rs rs'

abbrev pub carried : Env → Env
carried e =
    upd hi (((if ltb (e lmd) (e low) then e hi else (e hi + 1) % 2 ^ 64) + e mid) % 2 ^ 64) e

collapse :
    (reg : Role → ℕ) (v w : ℕ) (e : Env) (rs : Regs)
    → Holds reg (upd hi v (upd hi w e)) rs
    → Holds reg (upd hi v e) rs
collapse reg v w e rs h val = h val
collapse reg v w e rs h hi = h hi
collapse reg v w e rs h low = h low
collapse reg v w e rs h mid = h mid
collapse reg v w e rs h lmd = h lmd

-- The environment before the products.
unfoldable pub absolute : Env → Env
absolute e = effect (move hi low) (
    if is_neg (e val)
    then effect (negate low) (effect (move low val) e)
    else effect (move low val) e)

module _ (reg : Role → ℕ) (apart : (i j : Role) → (reg i == reg j) ≡ same i j) (ln : ℕ) (h : 0 < ln)
    (me : ℕ → ℕ) where
  carry-Leads :
      (e : Env) (rs : Regs)
      → Holds reg e rs
      → Leads reg (carry_nodes reg ln) (idle rs me) rs me (carried e)
  unfolding carry_nodes run
  carry-Leads e rs ho =
      let last = node ln (insn reg (plus hi mid)) in
      let x = branch_reg jlt (reg lmd) (reg low) ln in
      let z : (ln == 0) ≡ false = ground arith in
      let w : (0 == ln) ≡ false = ground arith in
      let s : (ln == ln) ≡ true = ground arith in
      let cmp : ltb (rs (reg lmd)) (rs (reg low)) ≡ ltb (e lmd) (e low) =
        ap₂ ltb (ho lmd) (ho low) in
      elim (Bool-cases (ltb (e lmd) (e low))) [
        | inl t ↦
            let br : exec x (idle rs me) ≡ jumping ln rs me = rw (cmp ∙ t, z) refl in
            let (r1, e1, h1, k1) = exec-effect reg apart (plus hi mid) e rs me ho in
            (
              r1,
              run-branch x (node 0 (insn reg (incr hi)) ∷ last ∷ []) rs me (jumping ln rs me) br
                  ∙ run-past (node 0 (insn reg (incr hi))) (last ∷ []) ln rs me w
                  ∙ run-at last [] ln rs me s
                  ∙ ap (run []) e1,
              rw (t) h1,
              k1,
            )
        | inr t ↦
            let br : exec x (idle rs me) ≡ idle rs me = rw (cmp ∙ t) refl in
            let (r1, e1, h1, k1) = exec-effect reg apart (incr hi) e rs me ho in
            let (r2, e2, h2, k2) =
              exec-effect reg apart (plus hi mid) (effect (incr hi) e) r1 me h1 in
            (
              r2,
              run-branch x (node 0 (insn reg (incr hi)) ∷ last ∷ []) rs me (idle rs me) br
                  ∙ run-next (node 0 (insn reg (incr hi))) (last ∷ []) rs me (idle r1 me) e1
                  ∙ run-next last [] r1 me (idle r2 me) e2,
              rw (t) (
                  collapse reg (((e hi + 1) % 2 ^ 64 + e mid) % 2 ^ 64) ((e hi + 1) % 2 ^ 64) e r2
                    h2),
              λ j k. k2 j k ∙ k1 j k,
            )
      ]

  product-Leads :
      (e : Env) (rs : Regs)
      → Holds reg e rs
      → Leads reg (product_nodes reg ln) (idle rs me) rs me (carried (effects products e))
  unfolding product_nodes
  product-Leads e rs ho =
      let (r1, e1, h1, k1) = run-effects reg apart products e rs me ho in
      let (r2, e2, h2, k2) = carry-Leads (effects products e) r1 h1 in
      (
        r2,
        run-append (block reg products) (carry_nodes reg ln) (idle rs me)
            ∙ ap (run (carry_nodes reg ln)) e1
            ∙ e2,
        h2,
        λ j k. k2 j k ∙ k1 j k,
      )

  pub square-Leads :
      (lp : ℕ) (e : Env) (rs : Regs)
      → 0 < lp
      → Holds reg e rs
      → Leads reg
          (square_nodes reg ln lp)
          (idle rs me)
          rs
          me
          (carried (effects products (absolute e)))
  unfolding square_nodes absolute
  square-Leads lp e rs pl ho =
      let rest = product_nodes reg ln in
      let mv = node lp (insn reg (move hi low)) in
      let neg = node 0 (insn reg (negate low)) in
      let x = branch_imm jsge (reg low) 0 lp in
      let z : (lp == 0) ≡ false = ground arith in
      let w : (0 == lp) ≡ false = ground arith in
      let s : (lp == lp) ≡ true = ground arith in
      let (r1, e1, h1, k1) = exec-effect reg apart (move low val) e rs me ho in
      let start =
        run-next (node 0 (insn reg (move low val))) (node 0 x ∷ neg ∷ mv ∷ rest) rs me (idle r1 me)
          e1 in
      let sign : is_neg (r1 (reg low)) ≡ is_neg (e val) = ap is_neg (h1 low) in
      elim (Bool-cases (is_neg (e val))) [
        | inl t ↦
            let br : exec x (idle r1 me) ≡ idle r1 me = rw (sign ∙ t) refl in
            let (r2, e2, h2, k2) =
              exec-effect reg apart (negate low) (effect (move low val) e) r1 me h1 in
            let a = effect (negate low) (effect (move low val) e) in
            let (r3, e3, h3, k3) = exec-effect reg apart (move hi low) a r2 me h2 in
            let (r4, e4, h4, k4) = product-Leads (effect (move hi low) a) r3 h3 in
            (
              r4,
              start
                  ∙ run-branch x (neg ∷ mv ∷ rest) r1 me (idle r1 me) br
                  ∙ run-next neg (mv ∷ rest) r1 me (idle r2 me) e2
                  ∙ run-next mv rest r2 me (idle r3 me) e3
                  ∙ e4,
              rw (t) h4,
              λ j k. k4 j k ∙ k3 j k ∙ k2 j k ∙ k1 j k,
            )
        | inr t ↦
            let nz : ltb (r1 (reg low)) 0 ≡ false = ground arith in
            let br : exec x (idle r1 me) ≡ jumping lp r1 me = rw (sign ∙ t, nz, z) refl in
            let a = effect (move low val) e in
            let (r3, e3, h3, k3) = exec-effect reg apart (move hi low) a r1 me h1 in
            let (r4, e4, h4, k4) = product-Leads (effect (move hi low) a) r3 h3 in
            (
              r4,
              start
                  ∙ run-branch x (neg ∷ mv ∷ rest) r1 me (jumping lp r1 me) br
                  ∙ run-past neg (mv ∷ rest) lp r1 me w
                  ∙ run-at mv rest lp r1 me s
                  ∙ ap (run rest) e3
                  ∙ e4,
              rw (t) h4,
              λ j k. k4 j k ∙ k3 j k ∙ k1 j k,
            )
      ]
