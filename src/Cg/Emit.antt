-- ===== src/Cg/Emit.antt =====
-- dt_cg.c: what it means that generated code computes a value.
use dtrace_utils.Common.{
  ℕ, ◌≤◌, ◌<◌, ◌≡◌, ◌⊎◌, inl, inr, refl, sym, ap, ◌∙◌, true, false, Option, some, List, [], ◌∷◌,
  ◌++◌, append-nil, append_assoc, if◌then◌else◌, ◌==◌, ==_iff, arith, Bool-cases,
}
use dtrace_utils.As.{IrNode, IrList, irlist_append}
use dtrace_utils.Regset.{Regset, Bitmap, ok, alloc, free}
use dtrace_utils.Regset.Levels.{IsValid}
use dtrace_utils.Bpf.Machine.{Regs, idle, jumping, run}
use dtrace_utils.Cg.{Pcb, Gen, Out, done, alloc_reg, free_reg}
use dtrace_utils.Cg.Pool.{frees, Took, Took-IsValid, alloc-Took}

-- Labels are 0 or within bounds.
abbrev pub Sealed : (lo hi : ℕ) → List IrNode → Type 0
Sealed lo hi [] = Unit
Sealed lo hi (n ∷ ns) = ((n.label ≡ 0) ⊎ ((lo ≤ n.label) × (n.label < hi))) × Sealed lo hi ns

pub Sealed-append :
    (lo hi : ℕ) (a b : List IrNode) → Sealed lo hi a → Sealed lo hi b → Sealed lo hi (a ++ b)
Sealed-append lo hi [] b p q = q
Sealed-append lo hi (n ∷ a) b (h, p) q = (h, Sealed-append lo hi a b p q)

pub Sealed-widen :
    (lo hi lo' hi' : ℕ) (a : List IrNode) → lo' ≤ lo → hi ≤ hi' → Sealed lo hi a → Sealed lo' hi' a
Sealed-widen lo hi lo' hi' [] l h p = tt
Sealed-widen lo hi lo' hi' (n ∷ a) l h (inl e, p) = (inl e, Sealed-widen lo hi lo' hi' a l h p)
Sealed-widen lo hi lo' hi' (n ∷ a) l h (inr (x, y), p) =
    (inr (omega arith, omega arith), Sealed-widen lo hi lo' hi' a l h p)

-- The list after the nodes have been appended to it one by one.
unfoldable pub emitted : List IrNode → IrList → IrList
emitted [] l = l
emitted (n ∷ ns) l = emitted ns (irlist_append n l)

pub emitted-nodes : (ns : List IrNode) (l : IrList) → (emitted ns l).nodes ≡ l.nodes ++ ns
unfolding emitted irlist_append
emitted-nodes [] l = sym (append-nil l.nodes)
emitted-nodes (n ∷ ns) l = emitted-nodes ns (irlist_append n l) ∙ append_assoc l.nodes (n ∷ []) ns

pub emitted-label : (ns : List IrNode) (l : IrList) → (emitted ns l).next_label ≡ l.next_label
unfolding emitted irlist_append
emitted-label [] l = refl
emitted-label (n ∷ ns) l = emitted-label ns (irlist_append n l)

-- A branch to a label elsewhere passes over the code.
pub run-skip :
    (lo hi l : ℕ) (a : List IrNode) (r : Regs) (me : ℕ → ℕ)
    → Sealed lo hi a
    → 0 < l
    → (l < lo) ⊎ (hi ≤ l)
    → run a (jumping l r me) ≡ jumping l r me
unfolding run
run-skip lo hi l [] r me p h o = refl
run-skip lo hi l (n ∷ a) r me (q, p) h o =
    let e : (n.label == l) ≡ false = ground arith in rw (e) (run-skip lo hi l a r me p h o)

-- The code leaves the value in `reg` and keeps memory and the registers in use.
abbrev pub Computes : (Regs → ℕ) → Regset → ℕ → List IrNode → Type 0
Computes v s reg code =
    (r : Regs) (me : ℕ → ℕ)
    → (r' : Regs) × (run code (idle r me) ≡ idle r' me)
      × (r' reg ≡ v r)
      × ((j : ℕ) → s.active j ≡ true → r' j ≡ r j)

pub record Code (v : Regs → ℕ) (c : Pcb) (reg : ℕ) (c' : Pcb) (code : List IrNode) : Type 0 where
  pub nodes : c'.ir.nodes ≡ c.ir.nodes ++ code
  pub labels : c.ir.next_label ≤ c'.ir.next_label
  pub bounds : Sealed c.ir.next_label c'.ir.next_label code
  pub taken : Took reg c.regs c'.regs
  pub computes : Computes v c.regs reg code

pub record IsReady (c : Pcb) : Type 0 where
  pub labels : 0 < c.ir.next_label
  pub valid : IsValid c.regs

abbrev pub IsLive : Bitmap → Pcb → Type 0
IsLive live c = (j : ℕ) → live j ≡ true → c.regs.active j ≡ true

abbrev pub Emission : (Regs → ℕ) → Gen ℕ → Pcb → Type 0
Emission v g c =
    (reg : ℕ) × (c' : Pcb) × (code : List IrNode) × (g c ≡ done reg c') × Code v c reg c' code

-- With `k` free registers and the ones of `live` in use, the generator succeeds, without a spill,
-- and its code computes `v`, which depends on the registers of `live` only.
pub record Emits (live : Bitmap) (k : ℕ) (v : Regs → ℕ) (g : Gen ℕ) : Type 0 where
  pub respects : (r s : Regs) → ((j : ℕ) → live j ≡ true → r j ≡ s j) → v r ≡ v s
  pub emits : (c : Pcb) → IsReady c → IsLive live c → k ≤ frees c.regs → Emission v g c

module _ {s t : Regset} {reg : ℕ} (a : Took reg s t) where
  pub Took-keeps : (j : ℕ) → s.active j ≡ true → t.active j ≡ true
  Took-keeps j h = ground (arith, a.active j)

  pub Took-self : t.active reg ≡ true
  Took-self = ground (arith, a.active reg)

  pub Took-ne : (j : ℕ) → s.active j ≡ true → (j == reg) ≡ false
  Took-ne j h = elim (Bool-cases (j == reg)) [
    | inr e ↦ e
    | inl e ↦
        let q = (==_iff j reg).0 e in let z : s.active j ≡ false = rw (q) (a.fresh) in absurd (cc)
  ]

-- Two registers that are taken can be given back in either order.
pub Took-swap :
    (a b : ℕ) (s t u : Regset) → Took a s t → Took b t u → (s' : Regset) × Took b s s' × Took a s' u
Took-swap a b s t u p q =
    let ab : (a == b) ≡ false = Took-ne q a (Took-self p) in
    (
      record s { active = λ j. if j == b then true else s.active j },
      record {
        size = refl;
        below = omega (arith, p.size, q.below);
        fresh = ground (arith, q.fresh, p.active b);
        active = λ j. refl;
        spilled = λ j. refl;
      },
      record {
        size = q.size ∙ p.size;
        below = p.below;
        fresh = rw (ab) (p.fresh);
        active = λ j. ground (arith, q.active j, p.active j);
        spilled = λ j. q.spilled j ∙ p.spilled j;
      },
    )

pub Code-IsReady :
    (v : Regs → ℕ) (c : Pcb) (reg : ℕ) (c' : Pcb) (code : List IrNode)
    → IsReady c
    → Code v c reg c' code
    → IsReady c'
Code-IsReady v c reg c' code p q = record {
  labels = omega (arith, p.labels, q.labels);
  valid = Took-IsValid reg c.regs c'.regs p.valid q.taken;
}

abbrev with_regs : ℕ → Pcb → Regset → Out ℕ
with_regs reg c u = done reg (record c { regs = u })

module _ (base : ℕ) where
  pub alloc_reg-done :
      (c : Pcb)
      → 0 < frees c.regs
      → (reg : ℕ) × (t : Regset) × (alloc_reg base c ≡ done reg (record c { regs = t }))
        × Took reg c.regs t
  unfolding alloc_reg
  alloc_reg-done c h =
      let (reg, t, e, a) = alloc-Took c.regs h in
      let e0 : (alloc c.regs).0 ≡ some reg = ap (λ (p : Option ℕ × Regset). p.0) e in
      let e1 : (alloc c.regs).1 ≡ t = ap (λ (p : Option ℕ × Regset). p.1) e in
      (reg, t, rw (alloc_reg, e0, a.fresh) (ap (λ (u : Regset). with_regs reg c u) e1), a)

  pub free_reg-done :
      (c : Pcb) (reg : ℕ) (u : Regset)
      → free reg c.regs ≡ ok tt u
      → c.regs.spilled reg ≡ false
      → free_reg base reg c ≡ done tt (record c { regs = u })
  unfolding free_reg
  free_reg-done c reg u e f = rw (free_reg, e, f) refl
