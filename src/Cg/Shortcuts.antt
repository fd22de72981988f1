-- ===== src/Cg/Shortcuts.antt =====
-- dt_cg_logical_and and dt_cg_logical_or.
use dtrace_utils.Common.{
  ℕ, ◌+◌, ◌≤◌, ◌≡◌, refl, ap₂, ◌∙◌, max, true, false, not, ◌∷◌, ◌++◌, ◌==◌, if◌then◌else◌, arith,
}
use dtrace_utils.As.{Insn, irlist_append, irlist_label}
use dtrace_utils.Regset.{Regset, Bitmap, ok, free}
use dtrace_utils.Bpf.{jeq, jne, branch_imm}
use dtrace_utils.Bpf.Machine.{Regs}
use dtrace_utils.Bpf.Runs.{node, choice}
use dtrace_utils.Cg.{Pcb, Gen, done, logical_and, logical_or, setx}
use dtrace_utils.Cg.Pool.{frees, Alike, Alike-frees, Alike-IsValid, free-Took}
use dtrace_utils.Cg.Emit.{IsReady, Emits, emitted, emitted-nodes, emitted-label, free_reg-done}
use dtrace_utils.Cg.Binary.{labelled}
use dtrace_utils.Cg.Logical.{shorted-Code, jeq-Stops, jne-Stops}
use dtrace_utils.Cg.Tails.{
  truth, and_tail, or_tail, and_tail-Turns, and_tail-Lands, and_tail-Sealed, or_tail-Turns,
  or_tail-Lands, or_tail-Sealed,
}

-- The state behind the branch, with the left register given back.
abbrev pub branched : Insn → Pcb → Regset → Pcb
branched x c u = record c { ir = irlist_append (node 0 x) c.ir; regs = u }

pub branched-IsReady :
    (x : Insn) (c c1 : Pcb) (u : Regset)
    → IsReady c
    → c.ir.next_label ≤ c1.ir.next_label
    → Alike c.regs u
    → IsReady (branched x c1 u)
unfolding irlist_append
branched-IsReady x c c1 u y h al = record {
  labels = omega (arith, y.labels);
  valid = Alike-IsValid c.regs u y.valid al;
}

module _ (base : ℕ) (live : Bitmap) where
  logical_and-done :
      (left right : Gen ℕ) (c c1 c2 : Pcb) (l r : ℕ) (u : Regset)
      → left (labelled (c.ir.next_label + 1 + 1) c) ≡ done l c1
      → free l c1.regs ≡ ok tt u
      → c1.regs.spilled l ≡ false
      → right (branched (branch_imm jeq l 0 c.ir.next_label) c1 u) ≡ done r c2
      → logical_and base left right c
        ≡ done r (record c2 { ir = emitted (and_tail c.ir.next_label r) c2.ir })
  unfolding logical_and irlist_label emitted and_tail choice setx
  logical_and-done left right c c1 c2 l r u el ef es er =
      let x = record c1 {
        ir = irlist_append (node 0 (branch_imm jeq l 0 c.ir.next_label)) c1.ir;
      } in
      let e = free_reg-done base x l u ef es in rw (logical_and, el, e, er) refl

  pub logical_and-Emits :
      (kl kr : ℕ) (vl vr : Regs → ℕ) (left right : Gen ℕ)
      → Emits live kl vl left
      → Emits live kr vr right
      → Emits live
          (max kl kr)
          (λ rs. if vl rs == 0 then 0 else truth (vr rs))
          (logical_and base left right)
  unfolding irlist_append
  logical_and-Emits kl kr vl vr left right p q = record {
    respects = λ r s h.
        ap₂ (λ (a b : ℕ). if a == 0 then 0 else truth b) (p.respects r s h) (q.respects r s h);
    emits = λ c y lv k.
        let lf = c.ir.next_label in
        let c0 = labelled (lf + 1 + 1) c in
        let y0 : IsReady c0 = record { labels = omega arith; valid = y.valid } in
        let (l, c1, cl, el, a) = p.emits c0 y0 lv (omega arith) in
        let (u, ef, es, al) = free-Took l c.regs c1.regs y.valid a.taken in
        let x = branch_imm jeq l 0 lf in
        let d1 = branched x c1 u in
        let y1 = branched-IsReady x c c1 u y (omega (arith, a.labels)) al in
        let lv1 = λ (j : ℕ) (h : live j ≡ true). al.active j ∙ lv j h in
        let fr : kr ≤ frees d1.regs = omega (arith, Alike-frees c.regs u al) in
        let (r, c2, cr, er, b) = q.emits d1 y1 lv1 fr in
        let tail = and_tail lf r in
        let d = record c2 { ir = emitted tail c2.ir } in
        let st =
          and_tail-Sealed lf r lf c2.ir.next_label (omega arith)
            (omega (arith, a.labels, b.labels)) in
        (
          r,
          d,
          cl ++ (node 0 x ∷ (cr ++ tail)),
          logical_and-done left right c c1 c2 l r u el ef es er,
          shorted-Code live (λ v. v == 0) 0 truth vl vr q.respects (lf + 1 + 1) lf x c c1 d1 c2 d l
              r cl cr tail lv y.labels (omega arith) (omega arith) a refl refl al b
              (emitted-nodes tail c2.ir) (emitted-label tail c2.ir) refl st
              (jeq-Stops l lf y.labels) (and_tail-Turns lf r y.labels)
              (and_tail-Lands lf r y.labels),
        );
  }

  logical_or-done :
      (left right : Gen ℕ) (c c1 c2 : Pcb) (l r : ℕ) (u : Regset)
      → left (labelled (c.ir.next_label + 1 + 1 + 1) c) ≡ done l c1
      → free l c1.regs ≡ ok tt u
      → c1.regs.spilled l ≡ false
      → right (branched (branch_imm jne l 0 c.ir.next_label) c1 u) ≡ done r c2
      → logical_or base left right c
        ≡ done r (record c2 { ir = emitted (or_tail c.ir.next_label r) c2.ir })
  unfolding logical_or irlist_label emitted or_tail choice
  logical_or-done left right c c1 c2 l r u el ef es er =
      let x = record c1 {
        ir = irlist_append (node 0 (branch_imm jne l 0 c.ir.next_label)) c1.ir;
      } in
      let e = free_reg-done base x l u ef es in rw (logical_or, el, e, er) refl

  pub logical_or-Emits :
      (kl kr : ℕ) (vl vr : Regs → ℕ) (left right : Gen ℕ)
      → Emits live kl vl left
      → Emits live kr vr right
      → Emits live
          (max kl kr)
          (λ rs. if not (vl rs == 0) then 1 else truth (vr rs))
          (logical_or base left right)
  unfolding irlist_append
  logical_or-Emits kl kr vl vr left right p q = record {
    respects = λ r s h.
        ap₂ (λ (a b : ℕ). if not (a == 0) then 1 else truth b) (p.respects r s h)
          (q.respects r s h);
    emits = λ c y lv k.
        let lt = c.ir.next_label in
        let c0 = labelled (lt + 1 + 1 + 1) c in
        let y0 : IsReady c0 = record { labels = omega arith; valid = y.valid } in
        let (l, c1, cl, el, a) = p.emits c0 y0 lv (omega arith) in
        let (u, ef, es, al) = free-Took l c.regs c1.regs y.valid a.taken in
        let x = branch_imm jne l 0 lt in
        let d1 = branched x c1 u in
        let y1 = branched-IsReady x c c1 u y (omega (arith, a.labels)) al in
        let lv1 = λ (j : ℕ) (h : live j ≡ true). al.active j ∙ lv j h in
        let fr : kr ≤ frees d1.regs = omega (arith, Alike-frees c.regs u al) in
        let (r, c2, cr, er, b) = q.emits d1 y1 lv1 fr in
        let tail = or_tail lt r in
        let d = record c2 { ir = emitted tail c2.ir } in
        let st =
          or_tail-Sealed lt r lt c2.ir.next_label (omega arith)
            (omega (arith, a.labels, b.labels)) in
        (
          r,
          d,
          cl ++ (node 0 x ∷ (cr ++ tail)),
          logical_or-done left right c c1 c2 l r u el ef es er,
          shorted-Code live (λ v. not (v == 0)) 1 truth vl vr q.respects (lt + 1 + 1 + 1) lt x c c1
              d1 c2 d l r cl cr tail lv y.labels (omega arith) (omega arith) a refl refl al b
              (emitted-nodes tail c2.ir) (emitted-label tail c2.ir) refl st
              (jne-Stops l lt y.labels) (or_tail-Turns lt r y.labels) (or_tail-Lands lt r y.labels),
        );
  }
