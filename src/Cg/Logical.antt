-- ===== src/Cg/Logical.antt =====
-- dt_cg.c: operators that evaluate the right operand only where the left one does not decide.
use dtrace_utils.Common.{
  ℕ, ◌≤◌, ◌<◌, ◌≡◌, inl, inr, refl, sym, ap, subst, ◌∙◌, Bool, true, false, not, List, [], ◌∷◌,
  ◌++◌, append_assoc, ◌==◌, if◌then◌else◌, arith, Bool-cases,
}
use dtrace_utils.As.{Insn, IrNode}
use dtrace_utils.Regset.{Regset, Bitmap}
use dtrace_utils.Bpf.{jeq, jne, branch_imm}
use dtrace_utils.Bpf.Machine.{Regs, idle, jumping, exec, run, set_reg}
use dtrace_utils.Bpf.Runs.{node, run-append, run-branch}
use dtrace_utils.Cg.{Pcb}
use dtrace_utils.Cg.Pool.{Took, Alike, Alike-Took}
use dtrace_utils.Cg.Emit.{Sealed, Sealed-append, Sealed-widen, run-skip, Code, IsLive, Took-ne}
use dtrace_utils.Cg.Binary.{labelled}

-- An instruction that branches to `lbl` where the value of `reg` is one of those of `stop`.
abbrev pub Stops : (ℕ → Bool) → (reg lbl : ℕ) → Insn → Type 0
Stops stop reg lbl x =
    (rs : Regs) (me : ℕ → ℕ)
    → exec x (idle rs me) ≡ (if stop (rs reg) then jumping lbl rs me else idle rs me)

pub jeq-Stops : (reg lbl : ℕ) → 0 < lbl → Stops (λ v. v == 0) reg lbl (branch_imm jeq reg 0 lbl)
jeq-Stops reg lbl h rs me = ground arith

pub jne-Stops :
    (reg lbl : ℕ) → 0 < lbl → Stops (λ v. not (v == 0)) reg lbl (branch_imm jne reg 0 lbl)
jne-Stops reg lbl h rs me = ground arith

-- The rest of the code turns the value of `reg`, reached without a branch.
abbrev pub Turns : (ℕ → ℕ) → ℕ → List IrNode → Type 0
Turns f reg tail =
    (rs : Regs) (me : ℕ → ℕ)
    → (rs' : Regs) × (run tail (idle rs me) ≡ idle rs' me)
      × (rs' reg ≡ f (rs reg))
      × ((j : ℕ) → (j == reg) ≡ false → rs' j ≡ rs j)

-- The rest of the code sets `reg` to `w`, reached by the branch to `lbl`.
abbrev pub Lands : (lbl reg w : ℕ) → List IrNode → Type 0
Lands lbl reg w tail =
    (rs : Regs) (me : ℕ → ℕ) → run tail (jumping lbl rs me) ≡ idle (set_reg reg w rs) me

module _ (live : Bitmap) where
  -- Left operand, branch, right operand and the rest; the left register is given back first.
  pub shorted-Code :
      (stop : ℕ → Bool) (w : ℕ) (f : ℕ → ℕ) (vl vr : Regs → ℕ)
      → ((r s : Regs) → ((j : ℕ) → live j ≡ true → r j ≡ s j) → vr r ≡ vr s)
      → (n lbl : ℕ) (x : Insn) (c c1 d1 c2 d : Pcb) (l r : ℕ) (cl cr tail : List IrNode)
      → IsLive live c
      → 0 < lbl
      → c.ir.next_label ≤ n
      → lbl < n
      → Code vl (labelled n c) l c1 cl
      → d1.ir.nodes ≡ c1.ir.nodes ++ (node 0 x ∷ [])
      → d1.ir.next_label ≡ c1.ir.next_label
      → Alike c.regs d1.regs
      → Code vr d1 r c2 cr
      → d.ir.nodes ≡ c2.ir.nodes ++ tail
      → d.ir.next_label ≡ c2.ir.next_label
      → d.regs ≡ c2.regs
      → Sealed c.ir.next_label c2.ir.next_label tail
      → Stops stop l lbl x
      → Turns f r tail
      → Lands lbl r w tail
      → Code (λ rs. if stop (vl rs) then w else f (vr rs)) c r d (cl ++ (node 0 x ∷ (cr ++ tail)))
  shorted-Code stop w f vl vr resp n lbl x c c1 d1 c2 d l r cl cr tail lv h0 hn hl a bn bl bk b dn
        dl dr st ss tu la =
      let lo = c.ir.next_label in
      let hi = c2.ir.next_label in
      let tk : Took r c.regs c2.regs = Alike-Took r c.regs d1.regs c2.regs bk b.taken in
      let code = cl ++ (node 0 x ∷ (cr ++ tail)) in
      let inner : Sealed lo hi code =
        Sealed-append lo hi cl (node 0 x ∷ (cr ++ tail))
          (Sealed-widen n c1.ir.next_label lo hi cl hn (omega (arith, b.labels)) a.bounds)
          (
            inl refl,
            Sealed-append lo hi cr tail
                (Sealed-widen d1.ir.next_label hi lo hi cr (omega (arith, a.labels)) (omega arith)
                  b.bounds)
                st,
          ) in
      record {
        nodes =
            dn
            ∙ ap (λ (ns : List IrNode). ns ++ tail)
                (b.nodes
                  ∙ ap (λ (ns : List IrNode). ns ++ cr)
                      (bn ∙ ap (λ (ns : List IrNode). ns ++ (node 0 x ∷ [])) a.nodes))
            ∙ simp append_assoc;
        labels = omega (arith, a.labels, b.labels);
        bounds = subst (λ (k : ℕ). Sealed lo k code) (sym dl) inner;
        taken = subst (λ (t : Regset). Took r c.regs t) (sym dr) tk;
        computes = λ rs me.
            let (r1, e1, v1, k1) = a.computes rs me in
            let (r2, e2, v2, k2) = b.computes r1 me in
            let (r3, e3, v3, k3) = tu r2 me in
            let start =
              run-append cl (node 0 x ∷ (cr ++ tail)) (idle rs me)
              ∙ ap (run (node 0 x ∷ (cr ++ tail))) e1 in
            let same : vr r1 ≡ vr rs = resp r1 rs (λ j h. k1 j (lv j h)) in
            elim (Bool-cases (stop (vl rs))) [
              | inl t ↦
                  let t' : stop (r1 l) ≡ true = ap stop v1 ∙ t in
                  let br : exec x (idle r1 me) ≡ jumping lbl r1 me = ss r1 me ∙ rw (t') refl in
                  (
                    set_reg r w r1,
                    start
                        ∙ run-branch x (cr ++ tail) r1 me (jumping lbl r1 me) br
                        ∙ run-append cr tail (jumping lbl r1 me)
                        ∙ ap (run tail) (
                            run-skip d1.ir.next_label hi lbl cr r1 me b.bounds h0
                              (inl (omega (arith, a.labels))))
                        ∙ la r1 me,
                    rw (t) (ground arith),
                    λ j k. ground (arith, Took-ne tk j k, k1 j k),
                  )
              | inr t ↦
                  let t' : stop (r1 l) ≡ false = ap stop v1 ∙ t in
                  let br : exec x (idle r1 me) ≡ idle r1 me = ss r1 me ∙ rw (t') refl in
                  (
                    r3,
                    start
                        ∙ run-branch x (cr ++ tail) r1 me (idle r1 me) br
                        ∙ run-append cr tail (idle r1 me)
                        ∙ ap (run tail) e2
                        ∙ e3,
                    rw (t) (v3 ∙ ap f (v2 ∙ same)),
                    λ j k. k3 j (Took-ne tk j k) ∙ k2 j (bk.active j ∙ k) ∙ k1 j k,
                  )
            ];
      }
