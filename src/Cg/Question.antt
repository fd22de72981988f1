-- ===== src/Cg/Question.antt =====
-- dt_cg_ternary_op: the states of the generator and what it emits.
use dtrace_utils.Common.{
  ℕ, ◌+◌, ◌≤◌, ◌<◌, ◌≡◌, inl, inr, refl, ap, subst, ◌∙◌, max, true, false, List, [], ◌∷◌, ◌++◌,
  append_assoc, length, set, arith,
}
use dtrace_utils.As.{IrNode, irlist_append, irlist_label}
use dtrace_utils.Regset.{Regset, Bitmap, ok, free}
use dtrace_utils.Bpf.{jeq, branch_imm, mov_imm, mov_reg, jump_to, nop}
use dtrace_utils.Bpf.Machine.{Regs}
use dtrace_utils.Bpf.Runs.{node}
use dtrace_utils.Cg.{Pcb, Gen, done, ternary_op, patch_nodes}
use dtrace_utils.Cg.Pool.{Took, Alike, Alike-frees, Alike-IsValid, Alike-Took, free-Took}
use dtrace_utils.Cg.Emit.{
  Sealed, Sealed-append, Sealed-widen, Code, IsReady, IsLive, Emits, emitted, emitted-nodes,
  emitted-label, Took-ne, free_reg-done,
}
use dtrace_utils.Cg.Binary.{labelled}
use dtrace_utils.Cg.Shortcuts.{branched, branched-IsReady}
use dtrace_utils.Cg.Ternary.{middle, last_part, choose, ternary_code, ternary-Computes}

set-length_append :
    (a : List IrNode) (x y : IrNode) (b : List IrNode)
    → set (a ++ (x ∷ b)) (length a) y ≡ a ++ (y ∷ b)
set-length_append [] x y b = refl
set-length_append (z ∷ a) x y b = ap (λ (l : List IrNode). z ∷ l) (set-length_append a x y b)

-- The list with the instruction patched and the last node appended.
abbrev finished : (lf l r : ℕ) → Pcb → Pcb → Pcb
finished lf l r c2 c3 = record c3 {
  ir =
      irlist_append (node (lf + 1) nop)
        (record (c3.ir) { nodes = patch_nodes (length c2.ir.nodes) (mov_reg r l) c3.ir.nodes });
}

-- The state before the second value.
abbrev between : (lf l : ℕ) → Pcb → Regset → Pcb
between lf l c u = record c { ir = emitted (middle (mov_imm l 0) lf) c.ir; regs = u }

finished-nodes :
    (lf l r : ℕ) (c2 c3 : Pcb) (u : Regset) (cr : List IrNode)
    → c3.ir.nodes ≡ (between lf l c2 u).ir.nodes ++ cr
    → (finished lf l r c2 c3).ir.nodes ≡ c2.ir.nodes ++ (middle (mov_reg r l) lf ++ last_part cr lf)
unfolding irlist_append middle last_part
finished-nodes lf l r c2 c3 u cr e =
    let rest = node 0 (jump_to (lf + 1)) ∷ node lf nop ∷ cr in
    let q : c3.ir.nodes ≡ c2.ir.nodes ++ (node 0 (mov_imm l 0) ∷ rest) =
      e
      ∙ ap (λ (ns : List IrNode). ns ++ cr) (emitted-nodes (middle (mov_imm l 0) lf) c2.ir)
      ∙ append_assoc c2.ir.nodes (middle (mov_imm l 0) lf) cr in
    ap
      (λ (ns : List IrNode).
        set ns (length c2.ir.nodes) (node 0 (mov_reg r l)) ++ (node (lf + 1) nop ∷ []))
      q
    ∙ ap (λ (ns : List IrNode). ns ++ (node (lf + 1) nop ∷ []))
        (set-length_append c2.ir.nodes (node 0 (mov_imm l 0)) (node 0 (mov_reg r l)) rest)
    ∙ append_assoc c2.ir.nodes (node 0 (mov_reg r l) ∷ rest) (node (lf + 1) nop ∷ [])

ternary_code-Sealed :
    (e lf r l lo m1 m2 hi : ℕ) (ce cl cr : List IrNode)
    → lo ≤ lf
    → lf + 1 < m1
    → m1 ≤ m2
    → m2 ≤ hi
    → Sealed (lf + 1 + 1) m1 ce
    → Sealed m1 m2 cl
    → Sealed m2 hi cr
    → Sealed lo hi (ternary_code e lf r l ce cl cr)
unfolding ternary_code middle last_part
ternary_code-Sealed e lf r l lo m1 m2 hi ce cl cr a b c d se sl sr =
    let wide = λ (x y : ℕ) (ns : List IrNode) (p : lo ≤ x) (q : y ≤ hi) (s : Sealed x y ns).
      Sealed-widen x y lo hi ns p q s in
    let end : Sealed lo hi (cr ++ (node (lf + 1) nop ∷ [])) =
      Sealed-append lo hi cr (node (lf + 1) nop ∷ []) (wide m2 hi cr (omega arith) (omega arith) sr)
        (inr (omega arith, omega arith), tt) in
    Sealed-append lo hi ce
      (node 0 (branch_imm jeq e 0 lf) ∷ (cl ++ (middle (mov_reg r l) lf ++ last_part cr lf)))
      (wide (lf + 1 + 1) m1 ce (omega arith) (omega arith) se)
      (
        inl refl,
        Sealed-append lo hi cl (middle (mov_reg r l) lf ++ last_part cr lf)
            (wide m1 m2 cl (omega arith) (omega arith) sl)
            (inl refl, (inl refl, (inr (a, omega arith), end))),
      )

module _ (base : ℕ) (live : Bitmap) where
  ternary_op-done :
      (expr left right : Gen ℕ) (c c1 c2 c3 : Pcb) (e l r : ℕ) (u1 u2 : Regset)
      → expr (labelled (c.ir.next_label + 1 + 1) c) ≡ done e c1
      → free e c1.regs ≡ ok tt u1
      → c1.regs.spilled e ≡ false
      → left (branched (branch_imm jeq e 0 c.ir.next_label) c1 u1) ≡ done l c2
      → free l c2.regs ≡ ok tt u2
      → c2.regs.spilled l ≡ false
      → right (between c.ir.next_label l c2 u2) ≡ done r c3
      → ternary_op base expr left right c ≡ done r (finished c.ir.next_label l r c2 c3)
  unfolding ternary_op irlist_label emitted middle
  ternary_op-done expr left right c c1 c2 c3 e l r u1 u2 ee fe se el fl sl er =
      let x1 = record c1 {
        ir = irlist_append (node 0 (branch_imm jeq e 0 c.ir.next_label)) c1.ir;
      } in
      let x2 = record c2 { ir = irlist_append (node 0 (mov_imm l 0)) c2.ir } in
      let g1 = free_reg-done base x1 e u1 fe se in
      let g2 = free_reg-done base x2 l u2 fl sl in rw (ternary_op, ee, g1, el, g2, er) refl

  ternary-Code :
      (ve vl vr : Regs → ℕ)
      → ((r s : Regs) → ((j : ℕ) → live j ≡ true → r j ≡ s j) → vl r ≡ vl s)
      → ((r s : Regs) → ((j : ℕ) → live j ≡ true → r j ≡ s j) → vr r ≡ vr s)
      → (c c1 c2 c3 : Pcb) (e l r : ℕ) (u1 u2 : Regset) (ce cl cr : List IrNode) → IsReady c
      → IsLive live c
      → Code ve (labelled (c.ir.next_label + 1 + 1) c) e c1 ce
      → Alike c.regs u1
      → Code vl (branched (branch_imm jeq e 0 c.ir.next_label) c1 u1) l c2 cl
      → Alike u1 u2
      → Code vr (between c.ir.next_label l c2 u2) r c3 cr
      → Code
          (λ rs. choose (ve rs) (vl rs) (vr rs))
          c
          r
          (finished c.ir.next_label l r c2 c3)
          (ternary_code e c.ir.next_label r l ce cl cr)
  unfolding irlist_append ternary_code
  ternary-Code ve vl vr rl rr c c1 c2 c3 e l r u1 u2 ce cl cr y lv a al1 b al2 d =
      let lf = c.ir.next_label in
      let m = emitted-label (middle (mov_imm l 0) lf) c2.ir in
      let al : Alike c.regs u2 = record {
        size = al2.size ∙ al1.size;
        active = λ j. al2.active j ∙ al1.active j;
        spilled = λ j. al2.spilled j ∙ al1.spilled j;
      } in
      let tk : Took r c.regs c3.regs = Alike-Took r c.regs u2 c3.regs al d.taken in
      let sr : Sealed c2.ir.next_label c3.ir.next_label cr =
        subst (λ (k : ℕ). Sealed k c3.ir.next_label cr) m d.bounds in
      let x = node 0 (branch_imm jeq e 0 lf) in
      let back = middle (mov_reg r l) lf ++ last_part cr lf in
      record {
        nodes =
            finished-nodes lf l r c2 c3 u2 cr d.nodes
            ∙ ap (λ (ns : List IrNode). ns ++ back)
                (b.nodes ∙ ap (λ (ns : List IrNode). (ns ++ (x ∷ [])) ++ cl) a.nodes)
            ∙ simp append_assoc;
        labels = omega (arith, a.labels, b.labels, d.labels, m);
        bounds =
            ternary_code-Sealed e lf r l lf c1.ir.next_label c2.ir.next_label c3.ir.next_label ce cl
              cr (omega arith) (omega (arith, a.labels)) b.labels (omega (arith, d.labels, m))
              a.bounds b.bounds sr;
        taken = tk;
        computes =
            ternary-Computes live ve vl vr c.regs u1 u2 e lf l r c1.ir.next_label c2.ir.next_label
              c2.ir.next_label c3.ir.next_label ce cl cr lv rl rr y.labels al1 al
              (λ j h. Took-ne tk j h) a.computes b.bounds (omega (arith, a.labels)) b.computes sr
              (omega (arith, a.labels, b.labels)) d.computes;
      }

  pub ternary_op-Emits :
      (ke kl kr : ℕ) (ve vl vr : Regs → ℕ) (expr left right : Gen ℕ)
      → Emits live ke ve expr
      → Emits live kl vl left
      → Emits live kr vr right
      → Emits live
          (max ke (max kl kr))
          (λ rs. choose (ve rs) (vl rs) (vr rs))
          (ternary_op base expr left right)
  unfolding irlist_append choose
  ternary_op-Emits ke kl kr ve vl vr expr left right o p q = record {
    respects = λ r s h. rw (o.respects r s h, p.respects r s h, q.respects r s h) refl;
    emits = λ c y lv k.
        let lf = c.ir.next_label in
        let c0 = labelled (lf + 1 + 1) c in
        let y0 : IsReady c0 = record { labels = omega arith; valid = y.valid } in
        let (e, c1, ce, ee, a) = o.emits c0 y0 lv (omega arith) in
        let (u1, fe, se, al1) = free-Took e c.regs c1.regs y.valid a.taken in
        let x = branch_imm jeq e 0 lf in
        let d1 = branched x c1 u1 in
        let y1 = branched-IsReady x c c1 u1 y (omega (arith, a.labels)) al1 in
        let lv1 = λ (j : ℕ) (h : live j ≡ true). al1.active j ∙ lv j h in
        let f1 = Alike-frees c.regs u1 al1 in
        let (l, c2, cl, el, b) = p.emits d1 y1 lv1 (omega arith) in
        let (u2, fl, sl, al2) = free-Took l u1 c2.regs y1.valid b.taken in
        let d2 = between lf l c2 u2 in
        let y2 : IsReady d2 = record {
          labels =
              omega (
                arith,
                emitted-label (middle (mov_imm l 0) lf) c2.ir,
                y.labels,
                a.labels,
                b.labels,
              );
          valid = Alike-IsValid u1 u2 y1.valid al2;
        } in
        let lv2 = λ (j : ℕ) (h : live j ≡ true). al2.active j ∙ lv1 j h in
        let (r, c3, cr, er, d) = q.emits d2 y2 lv2 (omega (arith, Alike-frees u1 u2 al2)) in
        (
          r,
          finished lf l r c2 c3,
          ternary_code e lf r l ce cl cr,
          ternary_op-done expr left right c c1 c2 c3 e l r u1 u2 ee fe se el fl sl er,
          ternary-Code ve vl vr p.respects q.respects c c1 c2 c3 e l r u1 u2 ce cl cr y lv a al1 b
              al2 d,
        );
  }
