-- ===== src/Cg/Update/Correct.antt =====
-- The update of an aggregation: its code, and the words of memory that it changes.
use dtrace_utils.Common.{
  ℕ, ◌+◌, ◌%◌, ◌^◌, ◌<◌, ◌≡◌, refl, ap, ap₂, subst, ◌∙◌, true, false, inl, inr, ==_iff, Bool-cases,
  List, ◌++◌, append_assoc, ◌==◌, arith,
}
use dtrace_utils.Regset.{Regset, Bitmap, done}
use dtrace_utils.As.{IrNode}
use dtrace_utils.Bpf.Machine.{Regs, idle, run, set_reg, address}
use dtrace_utils.Bpf.Runs.{eq_comm, set_reg_self, run-append}
use dtrace_utils.Cg.{Pcb, done}
use dtrace_utils.Cg.Pool.{Took, Alike, Took-IsValid, Took-frees, Took-Alike, free-Took}
use dtrace_utils.Cg.Emit.{
  IsReady, emitted, emitted-nodes, emitted-label, Took-ne, Took-self, Took-keeps, free_reg-done,
}
use dtrace_utils.Cg.Update.{AggFun, agg_update}
use dtrace_utils.Cg.Update.Nodes.{prepare_nodes, impl_nodes, first_word, second_word, Stored}
use dtrace_utils.Cg.Update.Runs.{impl-run}
use dtrace_utils.Cg.Update.Prepare.{buffer, prepare-run, prepare-done}
use dtrace_utils.Cg.Update.Impl.{IsFree, agg_impl-done}

-- Memory where the count of updates at `seq` has gone up, and the two words behind it are updated.
abbrev pub Updated : AggFun → (x seq a b : ℕ) → (me me' : ℕ → ℕ) → Type 0
Updated f x seq a b me me' =
    (me' seq ≡ (me seq + 1) % 2 ^ 64)
    × (me' a ≡ first_word f x (me a))
    × (me' b ≡ second_word f x (me b))
    × ((j : ℕ) → (j == seq) ≡ false → (j == a) ≡ false → (j == b) ≡ false → me' j ≡ me j)

Stored-Updated :
    (f : AggFun) (x seq a b : ℕ) (me me' : ℕ → ℕ)
    → (seq == a) ≡ false
    → (seq == b) ≡ false
    → Stored f x a b (set_reg seq ((me seq + 1) % 2 ^ 64) me) me'
    → Updated f x seq a b me me'
Stored-Updated f x seq a b me me' p q (e1, e2, k) = (
  k seq p q ∙ set_reg_self seq _ me,
  e1 ∙ rw (eq_comm seq a p) refl,
  e2 ∙ rw (eq_comm seq b q) refl,
  λ j n m o. k j m o ∙ rw (n) refl,
)

Stored-along :
    (f : AggFun) (x x' a a' b b' : ℕ) (me me' : ℕ → ℕ)
    → x ≡ x'
    → a ≡ a'
    → b ≡ b'
    → Stored f x a b me me'
    → Stored f x' a' b' me me'
Stored-along f x x' a a' b b' me me' p q r h =
    subst (λ (z : ℕ). Stored f x' a' z me me') r
      (subst (λ (z : ℕ). Stored f x' z b me me') q (subst (λ (z : ℕ). Stored f z a b me me') p h))

apart_by : (m : Bitmap) (j k : ℕ) → m j ≡ true → m k ≡ false → (j == k) ≡ false
apart_by m j k h n = elim (Bool-cases (j == k)) [
  | inr e ↦ e
  | inl e ↦ let q = (==_iff j k).0 e in let z : m j ≡ false = rw (q) n in absurd (cc)
]

module _ (a offset : ℕ) where
  seq-first : ((a + offset) % 2 ^ 64 == (a + offset + 8) % 2 ^ 64) ≡ false
  seq-first = ground arith

  seq-second : ((a + offset) % 2 ^ 64 == (a + offset + 16) % 2 ^ 64) ≡ false
  seq-second = ground arith

  first-second : ((a + offset + 8) % 2 ^ 64 == (a + offset + 16) % 2 ^ 64) ≡ false
  first-second = ground arith

  first_address :
      (x : ℕ) → x ≡ (a + (offset + 8)) % 2 ^ 64 → address x 0 ≡ (a + offset + 8) % 2 ^ 64
  first_address x h = omega (arith, h)

  second_address :
      (x : ℕ) → x ≡ (a + (offset + 8)) % 2 ^ 64 → address x 8 ≡ (a + offset + 16) % 2 ^ 64
  second_address x h = omega (arith, h)

-- What the code of an update does to a machine.
abbrev pub Updates : AggFun → (dctx agg offset v : ℕ) → Pcb → List IrNode → Regs → (ℕ → ℕ) → Type 0
Updates f dctx agg offset v c code rs me =
    let a = buffer dctx agg rs me in
    (rs' : Regs) × (me' : ℕ → ℕ) × (run code (idle rs me) ≡ idle rs' me')
    × Updated f (rs v) ((a + offset) % 2 ^ 64) ((a + offset + 8) % 2 ^ 64)
        ((a + offset + 16) % 2 ^ 64) me me'
    × ((j : ℕ) → c.regs.active j ≡ true → rs' j ≡ rs j)

module _ (f : AggFun) (dctx agg offset reg v t lbl : ℕ) (near : offset + 8 < 2 ^ 15) (c : Pcb)
    (u : Regset) (l : 0 < lbl) (zero : c.regs.active 0 ≡ false) (av : c.regs.active v ≡ true)
    (a : Took reg c.regs u) (r0 : (reg == 0) ≡ false) (free : u.active t ≡ false) (rs : Regs)
    (me : ℕ → ℕ) where
  nodes-Updates :
      Updates f dctx agg offset v c
        (prepare_nodes dctx agg offset reg ++ impl_nodes f reg v t lbl)
        rs
        me
  nodes-Updates =
      let p = prepare_nodes dctx agg offset reg in
      let i = impl_nodes f reg v t lbl in
      let start = buffer dctx agg rs me in
      let (r1, e1, x1, k1) = prepare-run dctx agg offset reg near r0 rs me in
      let d0 = first_address start offset (r1 reg) x1 in
      let d1 = second_address start offset (r1 reg) x1 in
      let ne : (address (r1 reg) 0 == address (r1 reg) 8) ≡ false =
        ap₂ (λ (x y : ℕ). x == y) d0 d1 ∙ first-second start offset in
      let apart : (j k : ℕ) → u.active j ≡ true → u.active k ≡ false → (j == k) ≡ false =
        λ j k. apart_by u.active j k in
      let live : (j : ℕ) → c.regs.active j ≡ true → (j == 0) ≡ false =
        λ j h. apart_by c.regs.active j 0 h zero in
      let v0 = live v av in
      let tv = apart v t (Took-keeps a v av) free in
      let tr = apart reg t (Took-self a) free in
      let (r2, m2, e2, s2, k2) = impl-run r1 _ reg v t lbl l r0 v0 tv tr ne f in
      let same : r1 v ≡ rs v = k1 v v0 (Took-ne a v av) in
      (
        r2,
        m2,
        run-append p i (idle rs me) ∙ ap (run i) e1 ∙ e2,
        Stored-Updated f (rs v) ((start + offset) % 2 ^ 64) ((start + offset + 8) % 2 ^ 64)
            ((start + offset + 16) % 2 ^ 64) me m2 (seq-first start offset)
            (seq-second start offset)
            (Stored-along f (r1 v) (rs v) (address (r1 reg) 0) _ (address (r1 reg) 8) _ _ m2 same d0
              d1 s2),
        λ j h.
            k2 j (live j h) (apart j t (Took-keeps a j h) free) ∙ k1 j (live j h) (Took-ne a j h),
      )

-- Where register 0 and one register more are free, and the aggregation lies within the reach of a
-- signed 16-bit offset, the code for an update of avg(), count(), max(), min() or sum() is
-- generated without a spill and leaves the register set as it was. A BPF machine that runs it, with
-- any registers and memory, adds one to the count of updates of the aggregation, and changes the
-- data words behind it as the function says: one more and the argument added for avg(), one more
-- for count(), the greater or the smaller of the word and the argument as signed numbers for max()
-- and min(), and the argument added for sum(). All other words of memory and the registers in use
-- are kept.
pub agg_update-Updates :
    (base : ℕ) (f : AggFun) (dctx agg offset v : ℕ) (c : Pcb)
    → IsFree 2 c
    → c.regs.active v ≡ true
    → offset + 8 < 2 ^ 15
    → (d : Pcb) × (code : List IrNode) × (agg_update base f dctx agg offset v c ≡ done tt d)
      × (d.ir.nodes ≡ c.ir.nodes ++ code)
      × Alike c.regs d.regs
      × ((rs : Regs) (me : ℕ → ℕ) → Updates f dctx agg offset v c code rs me)
unfolding agg_update
agg_update-Updates base f dctx agg offset v c h av near =
    let (reg, u, e1, a, r0) = prepare-done base dctx agg offset c h.ready h.zeroth h.size h.free in
    let p = prepare_nodes dctx agg offset reg in
    let c1 = record c { ir = emitted p c.ir; regs = u } in
    let z1 : u.active 0 ≡ false = a.active 0 ∙ rw (eq_comm reg 0 r0) h.zeroth in
    let l1 : c1.ir.next_label ≡ c.ir.next_label = emitted-label p c.ir in
    let ready : IsReady c1 = record {
      labels = omega (arith, l1, h.ready.labels);
      valid = Took-IsValid reg c.regs u h.ready.valid a;
    } in
    let h1 : IsFree 1 c1 = record {
      ready = ready;
      zeroth = z1;
      size = omega (arith, a.size, h.size);
      free = omega (arith, Took-frees reg c.regs u a, h.free);
    } in
    let (t, d, e2, n2, al, ft) = agg_impl-done base reg v c1 h1 f in
    let i = impl_nodes f reg v t c1.ir.next_label in
    let (w, g, s, al') =
      free-Took reg c.regs d.regs h.ready.valid (Took-Alike reg c.regs u d.regs a al) in
    (
      record d { regs = w },
      p ++ i,
      rw (agg_update, e1, e2) (free_reg-done base d reg w g s),
      n2 ∙ ap (λ (z : List IrNode). z ++ i) (emitted-nodes p c.ir) ∙ append_assoc c.ir.nodes p i,
      al',
      nodes-Updates f dctx agg offset reg v t c1.ir.next_label near c u ready.labels h.zeroth av a
          r0 ft,
    )
