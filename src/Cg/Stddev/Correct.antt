-- ===== src/Cg/Stddev/Correct.antt =====
-- dt_cg_agg_stddev: the words that the generated code leaves for the square of the argument.
use dtrace_utils.Common.{
  ℕ, ◌+◌, ◌*◌, ◌^◌, ◌≤◌, ◌<◌, ◌≡◌, refl, sym, ap, ap₂, subst, ◌∙◌, true, false, List, ◌++◌,
  append_assoc, arith,
}
use dtrace_utils.As.{IrNode}
use dtrace_utils.Regset.{Regset, ok, free}
use dtrace_utils.Bpf.Machine.{Regs, idle, run}
use dtrace_utils.Bpf.Runs.{run-append}
use dtrace_utils.Bpf.Block.{Env, val, hi, low}
use dtrace_utils.Cg.{Pcb, Node, done, alloc_reg, cg_node}
use dtrace_utils.Cg.Pool.{frees, Took-IsValid, Took-frees, Took-Alike, free-Took}
use dtrace_utils.Cg.Emit.{
  Code, IsReady, emitted-nodes, Took-keeps, Took-self, Took-ne, Code-IsReady, alloc_reg-done,
}
use dtrace_utils.Cg.Binary.{labelled}
use dtrace_utils.Cg.Correct.{Reads, need, value, cg_node-Emission}
use dtrace_utils.Cg.Stddev.{Squared, stddev_square}
use dtrace_utils.Cg.Stddev.Runs.{square_nodes, square-Leads}
use dtrace_utils.Cg.Stddev.Values.{square_value, absolute-square, absolute-val}
use dtrace_utils.Cg.Stddev.Square.{regs_of, Taken, Taken-apart, Taken-ne, stddev_square-done}

-- From `rs`, the code leaves the square of `x` in two registers and `x` in a third.
abbrev pub Squares : ℕ → Pcb → Squared → List IrNode → Regs → (ℕ → ℕ) → Type 0
Squares x c q code rs me =
    (rs' : Regs) × (run code (idle rs me) ≡ idle rs' me)
    × (rs' q.hi_reg * 2 ^ 64 + rs' q.low_reg ≡ square_value x)
    × (rs' q.arg_reg ≡ x)
    × ((j : ℕ) → c.regs.active j ≡ true → rs' j ≡ rs j)

-- The registers of the four that are taken, from a state with as many free.
record Four (base v : ℕ) (c : Pcb) : Type 0 where
  h : ℕ
  l : ℕ
  m : ℕ
  d : ℕ
  t1 : Regset
  t2 : Regset
  t3 : Regset
  t4 : Regset
  u3 : Regset
  u2 : Regset
  taken : Taken v h l m d c.regs t1 t2 t3 t4
  alloc_h : alloc_reg base c ≡ done h (record c { regs = t1 })
  alloc_l : alloc_reg base (record c { regs = t1 }) ≡ done l (record c { regs = t2 })
  alloc_m : alloc_reg base (record c { regs = t2 }) ≡ done m (record c { regs = t3 })
  alloc_d : alloc_reg base (record c { regs = t3 }) ≡ done d (record c { regs = t4 })
  free_d : free d t4 ≡ ok tt u3
  kept_d : t4.spilled d ≡ false
  free_m : free m u3 ≡ ok tt u2
  kept_m : u3.spilled m ≡ false

four :
    (base v : ℕ) (c : Pcb) → IsReady c → c.regs.active v ≡ true → 4 ≤ frees c.regs → Four base v c
four base v c y b k =
    let (h, t1, e1, a1) = alloc_reg-done base c (omega arith) in
    let f1 = Took-frees h c.regs t1 a1 in
    let c1 = record c { regs = t1 } in
    let (l, t2, e2, a2) = alloc_reg-done base c1 (omega (arith, f1)) in
    let f2 = Took-frees l t1 t2 a2 in
    let c2 = record c { regs = t2 } in
    let (m, t3, e3, a3) = alloc_reg-done base c2 (omega (arith, f1, f2)) in
    let f3 = Took-frees m t2 t3 a3 in
    let c3 = record c { regs = t3 } in
    let (d, t4, e4, a4) = alloc_reg-done base c3 (omega (arith, f1, f2, f3)) in
    let v2 = Took-IsValid l t1 t2 (Took-IsValid h c.regs t1 y.valid a1) a2 in
    let v3 = Took-IsValid m t2 t3 v2 a3 in
    let (u3, g3, s3, k3) = free-Took d t3 t4 v3 a4 in
    let (u2, g2, s2, k2) = free-Took m t2 u3 v2 (Took-Alike m t2 t3 u3 a3 k3) in
    record {
      h = h;
      l = l;
      m = m;
      d = d;
      t1 = t1;
      t2 = t2;
      t3 = t3;
      t4 = t4;
      u3 = u3;
      u2 = u2;
      taken = record { busy = b; first = a1; second = a2; third = a3; fourth = a4 };
      alloc_h = e1;
      alloc_l = e2;
      alloc_m = e3;
      alloc_d = e4;
      free_d = g3;
      kept_d = s3;
      free_m = g2;
      kept_m = s2;
    }

square_nodes-Squares :
    (x : Regs → ℕ) (c c1 : Pcb) (v h l m d lo : ℕ) (cl : List IrNode) (t1 t2 t3 t4 : Regset)
    → 0 < lo
    → Code x (labelled (lo + 1 + 1) c) v c1 cl
    → Taken v h l m d c1.regs t1 t2 t3 t4
    → (rs : Regs) (me : ℕ → ℕ) → x rs < 2 ^ 64
    → Squares
        (x rs)
        c
        (record { arg_reg = v; hi_reg = h; low_reg = l })
        (cl ++ square_nodes (regs_of v h l m d) (lo + 1) lo)
        rs
        me
square_nodes-Squares x c c1 v h l m d lo cl t1 t2 t3 t4 p a t rs me b =
    let reg = regs_of v h l m d in
    let (r1, e1, x1, k1) = a.computes rs me in
    let env : Env = λ i. r1 (reg i) in
    let b1 : env val < 2 ^ 64 = subst (λ (n : ℕ). n < 2 ^ 64) (sym x1) b in
    let (r2, e2, h2, k2) =
      square-Leads reg (Taken-apart t) (lo + 1) (omega arith) me lo env r1 p (λ i. refl) in
    (
      r2,
      run-append cl (square_nodes reg (lo + 1) lo) (idle rs me)
          ∙ ap (run (square_nodes reg (lo + 1) lo)) e1
          ∙ e2,
      ap₂ (λ (i j : ℕ). i * 2 ^ 64 + j) (h2 hi) (h2 low)
          ∙ absolute-square env b1
          ∙ ap square_value x1,
      h2 val ∙ absolute-val env ∙ x1,
      λ j k. k2 j (Taken-ne t j (Took-keeps a.taken j k) (Took-ne a.taken j k)) ∙ k1 j k,
    )

-- With an argument whose variables are in registers in use and whose value is a 64-bit word, and
-- with as many registers free as it needs and at least five, dt_cg_agg_stddev succeeds up to the
-- update of the aggregation. A BPF machine that runs the code it appends comes to its end, with
-- memory and all registers in use kept and the argument in its register. The two words of the
-- result are the square of the argument as a signed number, but 2 ^ 64 more than the square where
-- the lower 32 bits of its absolute value are 0.
pub stddev_square-Squared :
    (base : ℕ) (e : Node) (c : Pcb) (rs : Regs) (me : ℕ → ℕ)
    → IsReady c
    → Reads c.regs.active e
    → need e ≤ frees c.regs
    → 5 ≤ frees c.regs
    → value e rs < 2 ^ 64
    → (q : Squared) × (c' : Pcb) × (code : List IrNode) × (stddev_square base (cg_node base e) c
        ≡ done q c')
      × (c'.ir.nodes ≡ c.ir.nodes ++ code)
      × Squares (value e rs) c q code rs me
stddev_square-Squared base e c rs me y r n k b =
    let lo = c.ir.next_label in
    let c0 = labelled (lo + 1 + 1) c in
    let y0 : IsReady c0 = record { labels = omega arith; valid = y.valid } in
    let (v, c1, cl, ea, a) = cg_node-Emission base e c0 y0 r n in
    let f0 = Took-frees v c.regs c1.regs a.taken in
    let f =
      four base v c1 (Code-IsReady (value e) c0 v c1 cl y0 a) (Took-self a.taken)
        (omega (arith, f0)) in
    let ns = square_nodes (regs_of v f.h f.l f.m f.d) (lo + 1) lo in
    (
      _,
      _,
      cl ++ ns,
      stddev_square-done base (cg_node base e) c c1 v f.h f.l f.m f.d f.t1 f.t2 f.t3 f.t4 f.u3 f.u2
          ea f.alloc_h f.alloc_l f.alloc_m f.alloc_d f.free_d f.kept_d f.free_m f.kept_m,
      emitted-nodes ns c1.ir
          ∙ ap (λ (z : List IrNode). z ++ ns) a.nodes
          ∙ append_assoc c.ir.nodes cl ns,
      square_nodes-Squares (value e) c c1 v f.h f.l f.m f.d lo cl f.t1 f.t2 f.t3 f.t4 y.labels a
          f.taken rs me b,
    )
