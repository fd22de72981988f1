-- ===== src/Cg/Unary.antt =====
-- dt_cg.c: operators on one operand, `,` and constants.
use dtrace_utils.Common.{
  ℕ, ◌+◌, ◌%◌, ◌^◌, ◌≤◌, ◌≡◌, inl, inr, refl, sym, ap, subst, ◌∙◌, true, List, [], ◌∷◌, ◌++◌,
  append_assoc, leb, ltb, ◌==◌, if◌then◌else◌, arith, Bool-cases,
}
use dtrace_utils.As.{Insn, IrNode, irlist_label}
use dtrace_utils.Regset.{Regset, Bitmap}
use dtrace_utils.Bpf.{mov_imm, lddw_low, lddw_high}
use dtrace_utils.Bpf.Machine.{Regs, idle, exec, run, set_reg}
use dtrace_utils.Bpf.Runs.{node, run-append, run-lddw, set_wide, set_wide_self, set_wide-ne, choice}
use dtrace_utils.Cg.{Pcb, Gen, done, alloc_reg, setx, const_int, logical_neg, with_insn}
use dtrace_utils.Cg.Pool.{}
use dtrace_utils.Cg.Emit.{
  Sealed, Sealed-append, Sealed-widen, Code, IsReady, Emits, emitted, emitted-nodes, emitted-label,
  Took-ne, alloc_reg-done,
}
use dtrace_utils.Cg.Binary.{labelled}
use dtrace_utils.Cg.Logical.{Turns}
use dtrace_utils.Cg.Tails.{neg_tail, neg_tail-Turns, neg_tail-Sealed}

-- An operand, then code that turns its register.
pub turned-Code :
    (f : ℕ → ℕ) (v : Regs → ℕ) (n : ℕ) (c c1 : Pcb) (l : ℕ) (cl tail : List IrNode)
    → c.ir.next_label ≤ n
    → Code v (labelled n c) l c1 cl
    → Sealed c.ir.next_label c1.ir.next_label tail
    → Turns f l tail
    → Code (λ rs. f (v rs)) c l (record c1 { ir = emitted tail c1.ir }) (cl ++ tail)
turned-Code f v n c c1 l cl tail hn a st tu =
    let lo = c.ir.next_label in
    let hi = c1.ir.next_label in
    record {
      nodes =
          emitted-nodes tail c1.ir
          ∙ ap (λ (ns : List IrNode). ns ++ tail) a.nodes
          ∙ append_assoc c.ir.nodes cl tail;
      labels = omega (arith, a.labels, emitted-label tail c1.ir);
      bounds =
          subst (λ (h : ℕ). Sealed lo h (cl ++ tail)) (sym (emitted-label tail c1.ir))
            (Sealed-append lo hi cl tail (Sealed-widen n hi lo hi cl hn (omega arith) a.bounds) st);
      taken = a.taken;
      computes = λ rs me.
          let (r1, e1, v1, k1) = a.computes rs me in
          let (r2, e2, v2, k2) = tu r1 me in
          (
            r2,
            run-append cl tail (idle rs me) ∙ ap (run tail) e1 ∙ e2,
            v2 ∙ ap f v1,
            λ j h. k2 j (Took-ne a.taken j h) ∙ k1 j h,
          );
    }

-- BPF_MOV_IMM, or BPF_LDDW where the constant is too large.
const_nodes : (reg x : ℕ) → List IrNode
const_nodes reg x =
    if leb (2 ^ 31) x
    then node 0 (lddw_low reg x) ∷ node 0 (lddw_high x) ∷ []
    else node 0 (mov_imm reg x) ∷ []

const_nodes-Sealed : (reg x lo hi : ℕ) → Sealed lo hi (const_nodes reg x)
unfolding const_nodes
const_nodes-Sealed reg x lo hi = elim (Bool-cases (leb (2 ^ 31) x)) [
  | inl e ↦ rw (e) (inl refl, (inl refl, tt))
  | inr e ↦ rw (e) (inl refl, tt)
]

const_nodes-Turns : (reg x : ℕ) → Turns (λ _. x % 2 ^ 64) reg (const_nodes reg x)
unfolding const_nodes run
const_nodes-Turns reg x rs me = elim (Bool-cases (leb (2 ^ 31) x)) [
  | inl e ↦ (
    set_wide reg x rs,
    rw (e) (run-lddw reg x [] rs me),
    set_wide_self reg x rs,
    λ j k. set_wide-ne reg x j rs k,
  )
  | inr e ↦
      let s : ltb x (2 ^ 31) ≡ true = ground arith in
      (set_reg reg x rs, rw (e, s) refl, ground arith, λ j k. rw (k) refl)
]

module _ (base : ℕ) (live : Bitmap) where
  const_int-done :
      (x : ℕ) (c : Pcb) (reg : ℕ) (t : Regset)
      → alloc_reg base c ≡ done reg (record c { regs = t })
      → const_int base x c ≡ done reg (record c { ir = emitted (const_nodes reg x) c.ir; regs = t })
  unfolding const_int setx emitted const_nodes
  const_int-done x c reg t e = elim (Bool-cases (leb (2 ^ 31) x)) [
    | inl h ↦ rw (const_int, e, h) refl
    | inr h ↦ rw (const_int, e, h) refl
  ]

  pub const_int-Emits : (x : ℕ) → Emits live 1 (λ _. x % 2 ^ 64) (const_int base x)
  const_int-Emits x = record {
    respects = λ r s h. refl;
    emits = λ c y lv k.
        let (reg, t, e, a) = alloc_reg-done base c (omega arith) in
        let ns = const_nodes reg x in
        let lo = c.ir.next_label in
        (
          reg,
          record c { ir = emitted ns c.ir; regs = t },
          ns,
          const_int-done x c reg t e,
          record {
            nodes = emitted-nodes ns c.ir;
            labels = omega (arith, emitted-label ns c.ir);
            bounds = const_nodes-Sealed reg x lo (emitted ns c.ir).next_label;
            taken = a;
            computes = λ rs me.
                let (r1, e1, v1, k1) = const_nodes-Turns reg x rs me in
                (r1, e1, v1, λ j h. k1 j (Took-ne a j h));
          },
        );
  }

  with_insn-done :
      (f : ℕ → Insn) (child : Gen ℕ) (c c1 : Pcb) (l : ℕ)
      → child c ≡ done l c1
      → with_insn base f child c ≡ done l (record c1 { ir = emitted (node 0 (f l) ∷ []) c1.ir })
  unfolding with_insn emitted
  with_insn-done f child c c1 l e = rw (with_insn, e) refl

  pub with_insn-Emits :
      (f : ℕ → Insn) (g : ℕ → ℕ) (k : ℕ) (v : Regs → ℕ) (child : Gen ℕ)
      → ((l : ℕ) (rs : Regs) (me : ℕ → ℕ)
          → exec (f l) (idle rs me) ≡ idle (set_reg l (g (rs l)) rs) me)
      → Emits live k v child
      → Emits live k (λ rs. g (v rs)) (with_insn base f child)
  unfolding run
  with_insn-Emits f g k v child ex p = record {
    respects = λ r s h. ap g (p.respects r s h);
    emits = λ c y lv h.
        let (l, c1, cl, el, a) = p.emits c y lv h in
        let tail = node 0 (f l) ∷ [] in
        let tu : Turns g l tail =
          λ rs me. (set_reg l (g (rs l)) rs, ex l rs me, ground arith, λ j q. rw (q) refl) in
        (
          l,
          record c1 { ir = emitted tail c1.ir },
          cl ++ tail,
          with_insn-done f child c c1 l el,
          turned-Code g v c.ir.next_label c c1 l cl tail (omega arith) a (inl refl, tt) tu,
        );
  }

  logical_neg-done :
      (child : Gen ℕ) (c c1 : Pcb) (l : ℕ)
      → child (labelled (c.ir.next_label + 1 + 1) c) ≡ done l c1
      → logical_neg base child c
        ≡ done l (record c1 { ir = emitted (neg_tail c.ir.next_label l) c1.ir })
  unfolding logical_neg irlist_label emitted neg_tail choice
  logical_neg-done child c c1 l e = rw (logical_neg, e) refl

  pub logical_neg-Emits :
      (k : ℕ) (v : Regs → ℕ) (child : Gen ℕ)
      → Emits live k v child
      → Emits live k (λ rs. if v rs == 0 then 1 else 0) (logical_neg base child)
  logical_neg-Emits k v child p = record {
    respects = λ r s h. ap (λ (a : ℕ). if a == 0 then 1 else 0) (p.respects r s h);
    emits = λ c y lv h.
        let lz = c.ir.next_label in
        let c0 = labelled (lz + 1 + 1) c in
        let y0 : IsReady c0 = record { labels = omega arith; valid = y.valid } in
        let (l, c1, cl, el, a) = p.emits c0 y0 lv h in
        let tail = neg_tail lz l in
        (
          l,
          record c1 { ir = emitted tail c1.ir },
          cl ++ tail,
          logical_neg-done child c c1 l el,
          turned-Code (λ a. if a == 0 then 1 else 0) v (lz + 1 + 1) c c1 l cl tail (omega arith) a
              (neg_tail-Sealed lz l lz c1.ir.next_label (omega arith) (omega (arith, a.labels)))
              (neg_tail-Turns lz l y.labels),
        );
  }
