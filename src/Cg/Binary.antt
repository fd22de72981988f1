-- ===== src/Cg/Binary.antt =====
-- dt_cg.c: operators whose operands are both held in registers.
use dtrace_utils.Common.{
  ℕ, ◌+◌, ◌≤◌, ◌<◌, ◌≡◌, inl, inr, refl, sym, ap, ap₂, ◌∙◌, max, subst, Bool, true, false, List, [],
  ◌∷◌, ◌++◌, append_assoc, ◌==◌, if◌then◌else◌, arith, Bool-cases,
}
use dtrace_utils.As.{IrNode, irlist_append, irlist_label}
use dtrace_utils.Regset.{Regset, Bitmap, ok, free}
use dtrace_utils.Bpf.{alu64_reg, branch_reg, mov_imm}
use dtrace_utils.Bpf.Machine.{Regs, idle, jumping, exec, run, set_reg}
use dtrace_utils.Bpf.Runs.{
  node, run-append, run-past, run-branch, choice, choice-first, choice-other,
}
use dtrace_utils.Cg.{Pcb, Gen, done, node_alloc, arithmetic_op, compare_op}
use dtrace_utils.Cg.Pool.{frees, Alike, Took-frees, Took-Alike, free-Took}
use dtrace_utils.Cg.Emit.{
  Sealed, Sealed-append, Sealed-widen, Code, IsReady, IsLive, Emits, emitted, emitted-nodes,
  emitted-label, Took-keeps, Took-self, Took-ne, Code-IsReady, free_reg-done,
}

-- With labels taken up to `n`.
abbrev pub labelled : ℕ → Pcb → Pcb
labelled n c = record c { ir = record (c.ir) { next_label = n } }

-- What the rest of the code does from a state where both operands are in registers.
abbrev pub Ends : (ℕ → ℕ → ℕ) → (l r : ℕ) → List IrNode → Type 0
Ends f l r tail =
    (rs : Regs) (me : ℕ → ℕ)
    → (l == r) ≡ false
    → (rs' : Regs) × (run tail (idle rs me) ≡ idle rs' me)
      × (rs' l ≡ f (rs l) (rs r))
      × ((j : ℕ) → (j == l) ≡ false → (j == r) ≡ false → rs' j ≡ rs j)

module _ (live : Bitmap) where
  -- Both operands, then the rest, and the right register is given back.
  pub held-Code :
      (f : ℕ → ℕ → ℕ) (vl vr : Regs → ℕ)
      → ((r s : Regs) → ((j : ℕ) → live j ≡ true → r j ≡ s j) → vr r ≡ vr s)
      → (n : ℕ) (c c1 c2 d : Pcb) (l r : ℕ) (cl cr tail : List IrNode) → IsLive live c
      → c.ir.next_label ≤ n
      → Code vl (labelled n c) l c1 cl
      → Code vr c1 r c2 cr
      → d.ir.nodes ≡ c2.ir.nodes ++ tail
      → d.ir.next_label ≡ c2.ir.next_label
      → Sealed c.ir.next_label c2.ir.next_label tail
      → Alike c1.regs d.regs
      → Ends f l r tail
      → Code (λ rs. f (vl rs) (vr rs)) c l d (cl ++ (cr ++ tail))
  held-Code f vl vr resp n c c1 c2 d l r cl cr tail lv ln a b dn dl st k en =
      let lo = c.ir.next_label in
      let hi = c2.ir.next_label in
      let inner : Sealed lo hi (cl ++ (cr ++ tail)) =
        Sealed-append lo hi cl (cr ++ tail)
          (Sealed-widen n c1.ir.next_label lo hi cl ln b.labels a.bounds)
          (Sealed-append lo hi cr tail
            (Sealed-widen c1.ir.next_label hi lo hi cr (omega (arith, a.labels)) (omega arith)
              b.bounds)
            st) in
      record {
        nodes =
            dn
            ∙ ap (λ (ns : List IrNode). ns ++ tail)
                (b.nodes ∙ ap (λ (ns : List IrNode). ns ++ cr) a.nodes)
            ∙ append_assoc (c.ir.nodes ++ cl) cr tail
            ∙ append_assoc c.ir.nodes cl (cr ++ tail);
        labels = omega (arith, a.labels, b.labels);
        bounds = subst (λ (h : ℕ). Sealed lo h (cl ++ (cr ++ tail))) (sym dl) inner;
        taken = Took-Alike l c.regs c1.regs d.regs a.taken k;
        computes = λ rs me.
            let (r1, e1, v1, k1) = a.computes rs me in
            let (r2, e2, v2, k2) = b.computes r1 me in
            let ne = Took-ne b.taken l (Took-self a.taken) in
            let (r3, e3, v3, k3) = en r2 me ne in
            let held : r2 l ≡ vl rs = k2 l (Took-self a.taken) ∙ v1 in
            let same : vr r1 ≡ vr rs = resp r1 rs (λ j h. k1 j (lv j h)) in
            (
              r3,
              run-append cl (cr ++ tail) (idle rs me)
                  ∙ ap (run (cr ++ tail)) e1
                  ∙ run-append cr tail (idle r1 me)
                  ∙ ap (run tail) e2
                  ∙ e3,
              v3 ∙ ap₂ f held (v2 ∙ same),
              λ j h.
                  k3 j (Took-ne a.taken j h) (Took-ne b.taken j (Took-keeps a.taken j h))
                  ∙ k2 j (Took-keeps a.taken j h)
                  ∙ k1 j h,
            );
      }

module _ (base : ℕ) (live : Bitmap) where
  arithmetic_op-done :
      (op : ℕ) (left right : Gen ℕ) (c c1 c2 : Pcb) (l r : ℕ) (u : Regset)
      → left c ≡ done l c1
      → right c1 ≡ done r c2
      → free r c2.regs ≡ ok tt u
      → c2.regs.spilled r ≡ false
      → arithmetic_op base op left right c
        ≡ done l
            (record c2 { ir = irlist_append (node_alloc 0 (alu64_reg op l r)) c2.ir; regs = u })
  unfolding arithmetic_op
  arithmetic_op-done op left right c c1 c2 l r u el er ef es =
      let d = record c2 { ir = irlist_append (node_alloc 0 (alu64_reg op l r)) c2.ir } in
      let e = free_reg-done base d r u ef es in rw (arithmetic_op, el, er, e) refl

  pub arithmetic_op-Emits :
      (op : ℕ) (f : ℕ → ℕ → ℕ) (kl kr : ℕ) (vl vr : Regs → ℕ) (left right : Gen ℕ)
      → ((l r : ℕ) (rs : Regs) (me : ℕ → ℕ)
          → exec (alu64_reg op l r) (idle rs me) ≡ idle (set_reg l (f (rs l) (rs r)) rs) me)
      → Emits live kl vl left
      → Emits live kr vr right
      → Emits live (max kl (kr + 1)) (λ rs. f (vl rs) (vr rs)) (arithmetic_op base op left right)
  unfolding irlist_append run
  arithmetic_op-Emits op f kl kr vl vr left right ex p q = record {
    respects = λ r s h. ap₂ f (p.respects r s h) (q.respects r s h);
    emits = λ c y lv k.
        let (l, c1, cl, el, a) = p.emits c y lv (omega arith) in
        let y1 = Code-IsReady vl c l c1 cl y a in
        let lv1 = λ (j : ℕ) (h : live j ≡ true). Took-keeps a.taken j (lv j h) in
        let fr : kr ≤ frees c1.regs = omega (arith, Took-frees l c.regs c1.regs a.taken) in
        let (r, c2, cr, er, b) = q.emits c1 y1 lv1 fr in
        let (u, ef, es, al) = free-Took r c1.regs c2.regs y1.valid b.taken in
        let tail = node_alloc 0 (alu64_reg op l r) ∷ [] in
        let d = record c2 {
          ir = irlist_append (node_alloc 0 (alu64_reg op l r)) c2.ir;
          regs = u;
        } in
        let en : Ends f l r tail = λ rs me ne.
          (set_reg l (f (rs l) (rs r)) rs, ex l r rs me, ground arith, λ j h h'. rw (h) refl) in
        (
          l,
          d,
          _,
          arithmetic_op-done op left right c c1 c2 l r u el er ef es,
          held-Code live f vl vr q.respects c.ir.next_label c c1 c2 d l r cl cr tail lv
              (omega arith) a b refl refl (inl refl, tt) al en,
        );
  }

compare_tail : (op lt l r : ℕ) → List IrNode
compare_tail op lt l r =
    node 0 (branch_reg op l r lt) ∷ node 0 (mov_imm l 0) ∷ choice lt (lt + 1) l 1

-- A branch on two registers that is taken where `test` says so.
abbrev pub Tests : (ℕ → ℕ → Bool) → ℕ → Type 0
Tests test op =
    (l r lbl : ℕ) (rs : Regs) (me : ℕ → ℕ)
    → 0 < lbl
    → exec (branch_reg op l r lbl) (idle rs me)
      ≡ (if test (rs l) (rs r) then jumping lbl rs me else idle rs me)

compare_tail-Ends :
    (op : ℕ) (test : ℕ → ℕ → Bool) (lt l r : ℕ)
    → 0 < lt
    → Tests test op
    → Ends (λ a b. if test a b then 1 else 0) l r (compare_tail op lt l r)
unfolding compare_tail
compare_tail-Ends op test lt l r h ex rs me ne =
    let rest = node 0 (mov_imm l 0) ∷ choice lt (lt + 1) l 1 in
    let w : (0 == lt) ≡ false = ground arith in
    let e = ex l r lt rs me h in
    elim (Bool-cases (test (rs l) (rs r))) [
      | inl t ↦
          let e1 : exec (branch_reg op l r lt) (idle rs me) ≡ jumping lt rs me = e ∙ rw (t) refl in
          (
            set_reg l 1 rs,
            run-branch (branch_reg op l r lt) rest rs me (jumping lt rs me) e1
                ∙ run-past (node 0 (mov_imm l 0)) (choice lt (lt + 1) l 1) lt rs me w
                ∙ choice-other lt l 1 h (omega arith) rs me,
            ground arith,
            λ j k k'. rw (k) refl,
          )
      | inr t ↦
          let e1 : exec (branch_reg op l r lt) (idle rs me) ≡ idle rs me = e ∙ rw (t) refl in
          (
            set_reg l 0 rs,
            run-branch (branch_reg op l r lt) rest rs me (idle rs me) e1
                ∙ run-branch (mov_imm l 0) (choice lt (lt + 1) l 1) rs me (idle (set_reg l 0 rs) me)
                    refl
                ∙ choice-first lt l 1 h (omega arith) (set_reg l 0 rs) me,
            ground arith,
            λ j k k'. rw (k) refl,
          )
    ]

compare_tail-Sealed :
    (op lt l r lo hi : ℕ) → lo ≤ lt → lt + 1 < hi → Sealed lo hi (compare_tail op lt l r)
unfolding compare_tail choice
compare_tail-Sealed op lt l r lo hi p q =
    (inl refl, (inl refl, (inl refl, (inr (p, omega arith), (inr (omega arith, q), tt)))))

module _ (base : ℕ) (live : Bitmap) where
  compare_op-done :
      (op : ℕ) (left right : Gen ℕ) (c c1 c2 : Pcb) (l r : ℕ) (u : Regset)
      → left (labelled (c.ir.next_label + 1 + 1) c) ≡ done l c1
      → right c1 ≡ done r c2
      → free r c2.regs ≡ ok tt u
      → c2.regs.spilled r ≡ false
      → compare_op base op left right c
        ≡ done l (record c2 { ir = emitted (compare_tail op c.ir.next_label l r) c2.ir; regs = u })
  unfolding compare_op irlist_label emitted compare_tail choice
  compare_op-done op left right c c1 c2 l r u el er ef es =
      let x = record c2 {
        ir = irlist_append (node_alloc 0 (branch_reg op l r c.ir.next_label)) c2.ir;
      } in
      let e = free_reg-done base x r u ef es in rw (compare_op, el, er, e) refl

  pub compare_op-Emits :
      (op : ℕ) (test : ℕ → ℕ → Bool) (kl kr : ℕ) (vl vr : Regs → ℕ) (left right : Gen ℕ)
      → Tests test op
      → Emits live kl vl left
      → Emits live kr vr right
      → Emits live
          (max kl (kr + 1))
          (λ rs. if test (vl rs) (vr rs) then 1 else 0)
          (compare_op base op left right)
  compare_op-Emits op test kl kr vl vr left right ex p q = record {
    respects =
        λ r s h. ap₂ (λ (a b : ℕ). if test a b then 1 else 0) (p.respects r s h) (q.respects r s h);
    emits = λ c y lv k.
        let lt = c.ir.next_label in
        let c0 = labelled (lt + 1 + 1) c in
        let y0 : IsReady c0 = record { labels = omega arith; valid = y.valid } in
        let (l, c1, cl, el, a) = p.emits c0 y0 lv (omega arith) in
        let y1 = Code-IsReady vl c0 l c1 cl y0 a in
        let lv1 = λ (j : ℕ) (h : live j ≡ true). Took-keeps a.taken j (lv j h) in
        let fr : kr ≤ frees c1.regs = omega (arith, Took-frees l c.regs c1.regs a.taken) in
        let (r, c2, cr, er, b) = q.emits c1 y1 lv1 fr in
        let (u, ef, es, al) = free-Took r c1.regs c2.regs y1.valid b.taken in
        let tail = compare_tail op lt l r in
        let d = record c2 { ir = emitted tail c2.ir; regs = u } in
        let st =
          compare_tail-Sealed op lt l r lt c2.ir.next_label (omega arith)
            (omega (arith, a.labels, b.labels)) in
        (
          l,
          d,
          cl ++ (cr ++ tail),
          compare_op-done op left right c c1 c2 l r u el er ef es,
          held-Code live (λ m n. if test m n then 1 else 0) vl vr q.respects (lt + 1 + 1) c c1 c2 d
              l r cl cr tail lv (omega arith) a b (emitted-nodes tail c2.ir)
              (emitted-label tail c2.ir) st al (compare_tail-Ends op test lt l r y.labels ex),
        );
  }
