-- ===== src/Cg/Stddev/Impl.antt =====
-- dt_cg_agg_stddev_impl: the code for it is generated, and does what it is to do.
use dtrace_utils.Common.{
  ℕ, ◌+◌, ◌^◌, ◌≤◌, ◌<◌, ◌≡◌, refl, ap, ◌∙◌, true, false, List, ◌++◌, ◌==◌, arith,
}
use dtrace_utils.As.{IrNode, irlist_label}
use dtrace_utils.Regset.{Regset}
use dtrace_utils.Bpf.Machine.{Regs, idle, run, address}
use dtrace_utils.Bpf.Runs.{run-append}
use dtrace_utils.Cg.{Pcb, done}
use dtrace_utils.Cg.Pool.{frees, Took, Alike, Took-IsValid, Took-frees, Took-Alike, free-Took}
use dtrace_utils.Cg.Emit.{
  IsReady, emitted, emitted-nodes, Took-keeps, Took-self, Took-ne, Took-swap, alloc_reg-done,
  free_reg-done,
}
use dtrace_utils.Cg.Binary.{labelled}
use dtrace_utils.Cg.Stddev.{stddev_impl}
use dtrace_utils.Cg.Stddev.Words.{add_nodes, high_nodes, Summed}
use dtrace_utils.Cg.Stddev.Sums.{add-run, high-run, final-Summed, summed-other}

abbrev pub impl_nodes : (d v h l one low lbl : ℕ) → List IrNode
impl_nodes d v h l one low lbl = add_nodes d v l one low ++ high_nodes d h l one low lbl

-- What the code for the update with the registers `v`, `h` and `l` does, by the pointer in `d`.
abbrev pub Sums : (d v h l : ℕ) → Pcb → List IrNode → Regs → (ℕ → ℕ) → Type 0
Sums d v h l c code rs me =
    (rs' : Regs) × (me' : ℕ → ℕ) × (run code (idle rs me) ≡ idle rs' me')
    × Summed (rs v) (rs h) (rs l) (address (rs d) 0) (address (rs d) 8) (address (rs d) 16)
        (address (rs d) 24) me me'
    × ((j : ℕ) → c.regs.active j ≡ true → rs' j ≡ rs j)

module _ (base d v h l : ℕ) (c : Pcb) (y : IsReady c) where
  stddev_impl-done :
      2 ≤ frees c.regs
      → (one : ℕ) × (low : ℕ) × (t : Regset) × (t' : Regset) × (c' : Pcb) × (stddev_impl base d v h
            l c
          ≡ done tt c')
        × (c'.ir.nodes ≡ c.ir.nodes ++ impl_nodes d v h l one low c.ir.next_label)
        × Alike c.regs c'.regs
        × Took one c.regs t
        × Took low t t'
  unfolding stddev_impl emitted add_nodes high_nodes irlist_label
  stddev_impl-done k =
      let c0 = labelled (c.ir.next_label + 1) c in
      let (one, t, e1, a1) = alloc_reg-done base c0 (omega arith) in
      let f1 = Took-frees one c.regs t a1 in
      let (low, t', e2, a2) = alloc_reg-done base (record c0 { regs = t }) (omega (arith, f1)) in
      let (s', b2, b1) = Took-swap one low c.regs t t' a1 a2 in
      let (u, g1, p1, al1) = free-Took one s' t' (Took-IsValid low c.regs s' y.valid b2) b1 in
      let (w, g2, p2, al2) = free-Took low c.regs u y.valid (Took-Alike low c.regs s' u b2 al1) in
      let ns = impl_nodes d v h l one low c.ir.next_label in
      let ir = emitted ns c0.ir in
      let r1 = free_reg-done base (record c0 { ir = ir; regs = t' }) one u g1 p1 in
      let r2 = free_reg-done base (record c0 { ir = ir; regs = u }) low w g2 p2 in
      (
        one,
        low,
        t,
        t',
        record c0 { ir = ir; regs = w },
        rw (stddev_impl, e1, e2, r1, r2) refl,
        emitted-nodes ns c0.ir,
        al2,
        a1,
        a2,
      )

  -- With two registers free and the pointer to the data, the argument, and the high and the low
  -- word of its square in registers in use, dt_cg_agg_stddev_impl succeeds without a spill and
  -- leaves the register set as it was. Where the low words are 64-bit words, a BPF machine that
  -- runs its code adds one to the first word of the data, the argument to the second, and the
  -- square to the 128-bit number whose low word is the third and whose high word is the fourth,
  -- modulo 2 ^ 128. All other words of memory and the registers in use are kept.
  pub stddev_impl-Sums :
      (rs : Regs) (me : ℕ → ℕ)
      → 2 ≤ frees c.regs
      → c.regs.active d ≡ true
      → c.regs.active v ≡ true
      → c.regs.active h ≡ true
      → c.regs.active l ≡ true
      → me (address (rs d) 16) < 2 ^ 64
      → rs l < 2 ^ 64
      → (c' : Pcb) × (code : List IrNode) × (stddev_impl base d v h l c ≡ done tt c')
        × (c'.ir.nodes ≡ c.ir.nodes ++ code)
        × Alike c.regs c'.regs
        × Sums d v h l c code rs me
  stddev_impl-Sums rs me k hd hv hh hl b bl =
      let (one, low, t, t', c', e, n, al, a1, a2) = stddev_impl-done k in
      let lbl = c.ir.next_label in
      let p : (j : ℕ) → c.regs.active j ≡ true → (j == one) ≡ false = λ j z. Took-ne a1 j z in
      let q : (j : ℕ) → c.regs.active j ≡ true → (j == low) ≡ false =
        λ j z. Took-ne a2 j (Took-keeps a1 j z) in
      let ol = Took-ne a2 one (Took-self a1) in
      (
        c',
        impl_nodes d v h l one low lbl,
        e,
        n,
        al,
        (
          _,
          _,
          run-append (add_nodes d v l one low) (high_nodes d h l one low lbl) (idle rs me)
              ∙ ap (run (high_nodes d h l one low lbl)) (
                  add-run rs me d v h l one low lbl y.labels (p d hd) (p v hv) (p h hh) (p l hl)
                    (q d hd) (q v hv) (q h hh) (q l hl) ol)
              ∙ high-run rs me d v h l one low lbl y.labels (p d hd) (p v hv) (p h hh) (p l hl)
                  (q d hd) (q v hv) (q h hh) (q l hl) ol,
          final-Summed rs me d v h l one low lbl y.labels (p d hd) (p v hv) (p h hh) (p l hl)
              (q d hd) (q v hv) (q h hh) (q l hl) ol b bl,
          λ j z.
              summed-other rs me d v h l one low lbl y.labels (p d hd) (p v hv) (p h hh) (p l hl)
                (q d hd) (q v hv) (q h hh) (q l hl) ol j (p j z) (q j z),
        ),
      )
