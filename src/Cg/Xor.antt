-- ===== src/Cg/Xor.antt =====
-- dt_cg_logical_xor, and the operator `,`.
use dtrace_utils.Common.{
  ℕ, ◌+◌, ◌≤◌, ◌<◌, ◌≡◌, inl, inr, refl, sym, ap, ap₂, ◌∙◌, max, true, false, List, [], ◌∷◌, ◌++◌,
  append_assoc, bit_xor, ◌==◌, ==_iff, arith, Bool-cases,
}
use dtrace_utils.As.{Insn, IrNode, irlist_label}
use dtrace_utils.Regset.{Regset, Bitmap, ok, free}
use dtrace_utils.Bpf.{jeq, xor_op, alu64_reg, branch_imm, lddw_low, lddw_high, nop}
use dtrace_utils.Bpf.Machine.{Regs, idle, jumping, exec, run, set_reg}
use dtrace_utils.Bpf.Runs.{
  node, run-append, run-past, run-at, run-branch, run-lddw, set_wide, set_wide_self, set_wide-ne,
}
use dtrace_utils.Cg.{Pcb, Gen, done, comma_op, logical_xor, setx}
use dtrace_utils.Cg.Pool.{frees, Took-frees, Alike-frees, Alike-IsValid, Alike-Took, free-Took}
use dtrace_utils.Cg.Emit.{
  Sealed-append, Sealed-widen, IsReady, Emits, emitted, emitted-nodes, emitted-label, Took-keeps,
  Code-IsReady, free_reg-done,
}
use dtrace_utils.Cg.Binary.{labelled, Ends, held-Code}
use dtrace_utils.Cg.Logical.{Turns, jeq-Stops}
use dtrace_utils.Cg.Tails.{truth}
use dtrace_utils.Cg.Unary.{turned-Code}

left_tail : (ln l : ℕ) → List IrNode
left_tail ln l =
    node 0 (branch_imm jeq l 0 ln) ∷ node 0 (lddw_low l 1) ∷ node 0 (lddw_high 1) ∷ node ln nop ∷ []

right_tail : (lt l r : ℕ) → List IrNode
right_tail lt l r =
    node 0 (branch_imm jeq r 0 lt)
    ∷ node 0 (lddw_low r 1)
    ∷ node 0 (lddw_high 1)
    ∷ node lt (alu64_reg xor_op l r)
    ∷ []

-- Up to the node with the label, where the operand is 0.
passed_over :
    (lbl reg : ℕ) (x : Insn) (rs : Regs) (me : ℕ → ℕ)
    → 0 < lbl
    → (rs reg == 0) ≡ true
    → run
        (node 0 (branch_imm jeq reg 0 lbl)
          ∷ node 0 (lddw_low reg 1)
          ∷ node 0 (lddw_high 1)
          ∷ node lbl x
          ∷ [])
        (idle rs me)
      ≡ exec x (idle rs me)
unfolding run
passed_over lbl reg x rs me h z =
    let last = node lbl x ∷ [] in
    let rest = node 0 (lddw_low reg 1) ∷ node 0 (lddw_high 1) ∷ last in
    let e : (0 == lbl) ≡ false = ground arith in
    let s : (lbl == lbl) ≡ true = ground arith in
    run-branch (branch_imm jeq reg 0 lbl) rest rs me (jumping lbl rs me)
      (jeq-Stops reg lbl h rs me ∙ rw (z) refl)
    ∙ run-past (node 0 (lddw_low reg 1)) (node 0 (lddw_high 1) ∷ last) lbl rs me e
    ∙ run-past (node 0 (lddw_high 1)) last lbl rs me e
    ∙ run-at (node lbl x) [] lbl rs me s

-- The same where it is not.
made_one :
    (lbl reg : ℕ) (x : Insn) (rs : Regs) (me : ℕ → ℕ)
    → 0 < lbl
    → (rs reg == 0) ≡ false
    → run
        (node 0 (branch_imm jeq reg 0 lbl)
          ∷ node 0 (lddw_low reg 1)
          ∷ node 0 (lddw_high 1)
          ∷ node lbl x
          ∷ [])
        (idle rs me)
      ≡ exec x (idle (set_wide reg 1 rs) me)
unfolding run
made_one lbl reg x rs me h z =
    let last = node lbl x ∷ [] in
    let rest = node 0 (lddw_low reg 1) ∷ node 0 (lddw_high 1) ∷ last in
    run-branch (branch_imm jeq reg 0 lbl) rest rs me (idle rs me)
      (jeq-Stops reg lbl h rs me ∙ rw (z) refl)
    ∙ run-lddw reg 1 last rs me

left_tail-Turns : (ln l : ℕ) → 0 < ln → Turns truth l (left_tail ln l)
unfolding left_tail
left_tail-Turns ln l h rs me = elim (Bool-cases (rs l == 0)) [
  | inl z ↦ (rs, passed_over ln l nop rs me h z, rw (z) ((==_iff (rs l) 0).0 z), λ j k. refl)
  | inr z ↦ (
    set_wide l 1 rs,
    made_one ln l nop rs me h z,
    rw (z) (set_wide_self l 1 rs),
    λ j k. set_wide-ne l 1 j rs k,
  )
]

right_tail-Ends : (lt l r : ℕ) → 0 < lt → Ends (λ a b. bit_xor a (truth b)) l r (right_tail lt l r)
unfolding right_tail
right_tail-Ends lt l r h rs me ne =
    let x = alu64_reg xor_op l r in
    elim (Bool-cases (rs r == 0)) [
      | inl z ↦
          let q = (==_iff (rs r) 0).0 z in
          let t : truth (rs r) ≡ rs r = rw (z) (sym q) in
          (
            set_reg l (bit_xor (rs l) (rs r)) rs,
            passed_over lt r x rs me h z,
            ground (arith, ap (bit_xor (rs l)) t),
            λ j k k'. rw (k) refl,
          )
      | inr z ↦
          let rs1 = set_wide r 1 rs in
          let a : rs1 l ≡ rs l = set_wide-ne r 1 l rs ne in
          let t : rs1 r ≡ truth (rs r) = set_wide_self r 1 rs ∙ rw (z) refl in
          (
            set_reg l (bit_xor (rs1 l) (rs1 r)) rs1,
            made_one lt r x rs me h z,
            ground (arith, ap₂ bit_xor a t),
            λ j k k'. rw (k) (set_wide-ne r 1 j rs k'),
          )
    ]

module _ (base : ℕ) (live : Bitmap) where
  logical_xor-done :
      (left right : Gen ℕ) (c c1 c2 : Pcb) (l r : ℕ) (u : Regset)
      → left (labelled (c.ir.next_label + 1 + 1) c) ≡ done l c1
      → right (record c1 { ir = emitted (left_tail c.ir.next_label l) c1.ir }) ≡ done r c2
      → free r c2.regs ≡ ok tt u
      → c2.regs.spilled r ≡ false
      → logical_xor base left right c
        ≡ done l (record c2 { ir = emitted (right_tail (c.ir.next_label + 1) l r) c2.ir; regs = u })
  unfolding logical_xor irlist_label emitted left_tail right_tail setx
  logical_xor-done left right c c1 c2 l r u el er ef es =
      let x = record c2 { ir = emitted (right_tail (c.ir.next_label + 1) l r) c2.ir } in
      let e = free_reg-done base x r u ef es in rw (logical_xor, el, er, e) refl

  pub logical_xor-Emits :
      (kl kr : ℕ) (vl vr : Regs → ℕ) (left right : Gen ℕ)
      → Emits live kl vl left
      → Emits live kr vr right
      → Emits live
          (max kl (kr + 1))
          (λ rs. bit_xor (truth (vl rs)) (truth (vr rs)))
          (logical_xor base left right)
  unfolding left_tail right_tail
  logical_xor-Emits kl kr vl vr left right p q = record {
    respects = λ r s h.
        ap₂ (λ (a b : ℕ). bit_xor (truth a) (truth b)) (p.respects r s h) (q.respects r s h);
    emits = λ c y lv k.
        let lo = c.ir.next_label in
        let c0 = labelled (lo + 1 + 1) c in
        let y0 : IsReady c0 = record { labels = omega arith; valid = y.valid } in
        let (l, c1, cl, el, a) = p.emits c0 y0 lv (omega arith) in
        let tl = left_tail lo l in
        let d1 = record c1 { ir = emitted tl c1.ir } in
        let a1 =
          turned-Code truth vl (lo + 1 + 1) c c1 l cl tl (omega arith) a
            (inl refl, (inl refl, (inl refl, (inr (omega arith, omega (arith, a.labels)), tt))))
            (left_tail-Turns lo l y.labels) in
        let y1 = Code-IsReady (λ rs. truth (vl rs)) c l d1 (cl ++ tl) y a1 in
        let lv1 = λ (j : ℕ) (h : live j ≡ true). Took-keeps a1.taken j (lv j h) in
        let fr : kr ≤ frees d1.regs = omega (arith, Took-frees l c.regs c1.regs a1.taken) in
        let (r, c2, cr, er, b) = q.emits d1 y1 lv1 fr in
        let (u, ef, es, al) = free-Took r d1.regs c2.regs y1.valid b.taken in
        let tr = right_tail (lo + 1) l r in
        let d = record c2 { ir = emitted tr c2.ir; regs = u } in
        let hi : lo + 1 < c2.ir.next_label =
          omega (arith, a.labels, b.labels, emitted-label tl c1.ir) in
        (
          l,
          d,
          (cl ++ tl) ++ (cr ++ tr),
          logical_xor-done left right c c1 c2 l r u el er ef es,
          held-Code live (λ m n. bit_xor m (truth n)) (λ rs. truth (vl rs)) vr q.respects lo c d1 c2
              d l r (cl ++ tl) cr tr lv (omega arith) a1 b (emitted-nodes tr c2.ir)
              (emitted-label tr c2.ir)
              (inl refl, (inl refl, (inl refl, (inr (omega arith, hi), tt)))) al
              (right_tail-Ends (lo + 1) l r (omega arith)),
        );
  }

  comma_op-done :
      (left right : Gen ℕ) (c c1 c2 : Pcb) (l r : ℕ) (u : Regset)
      → left c ≡ done l c1
      → free l c1.regs ≡ ok tt u
      → c1.regs.spilled l ≡ false
      → right (record c1 { regs = u }) ≡ done r c2
      → comma_op base left right c ≡ done r c2
  unfolding comma_op
  comma_op-done left right c c1 c2 l r u el ef es er =
      let e = free_reg-done base c1 l u ef es in rw (comma_op, el, e, er) refl

  pub comma_op-Emits :
      (kl kr : ℕ) (vl vr : Regs → ℕ) (left right : Gen ℕ)
      → Emits live kl vl left
      → Emits live kr vr right
      → Emits live (max kl kr) vr (comma_op base left right)
  comma_op-Emits kl kr vl vr left right p q = record {
    respects = q.respects;
    emits = λ c y lv k.
        let (l, c1, cl, el, a) = p.emits c y lv (omega arith) in
        let (u, ef, es, al) = free-Took l c.regs c1.regs y.valid a.taken in
        let d1 = record c1 { regs = u } in
        let y1 : IsReady d1 = record {
          labels = omega (arith, a.labels, y.labels);
          valid = Alike-IsValid c.regs u y.valid al;
        } in
        let lv1 = λ (j : ℕ) (h : live j ≡ true). al.active j ∙ lv j h in
        let fr : kr ≤ frees u = omega (arith, Alike-frees c.regs u al) in
        let (r, c2, cr, er, b) = q.emits d1 y1 lv1 fr in
        let lo = c.ir.next_label in
        let hi = c2.ir.next_label in
        (
          r,
          c2,
          cl ++ cr,
          comma_op-done left right c c1 c2 l r u el ef es er,
          record {
            nodes =
                b.nodes
                ∙ ap (λ (ns : List IrNode). ns ++ cr) a.nodes
                ∙ append_assoc c.ir.nodes cl cr;
            labels = omega (arith, a.labels, b.labels);
            bounds =
                Sealed-append lo hi cl cr
                  (Sealed-widen lo c1.ir.next_label lo hi cl (omega arith) b.labels a.bounds)
                  (Sealed-widen c1.ir.next_label hi lo hi cr a.labels (omega arith) b.bounds);
            taken = Alike-Took r c.regs u c2.regs al b.taken;
            computes = λ rs me.
                let (r1, e1, v1, k1) = a.computes rs me in
                let (r2, e2, v2, k2) = b.computes r1 me in
                (
                  r2,
                  run-append cl cr (idle rs me) ∙ ap (run cr) e1 ∙ e2,
                  v2 ∙ q.respects r1 rs (λ j h. k1 j (lv j h)),
                  λ j h. k2 j (al.active j ∙ h) ∙ k1 j h,
                );
          },
        );
  }
