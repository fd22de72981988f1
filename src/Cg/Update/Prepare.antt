-- ===== src/Cg/Update/Prepare.antt =====
-- dt_cg_agg_buf_prepare: what its code does, and the registers it takes.
use dtrace_utils.Common.{
  ℕ, ◌+◌, ◌%◌, ◌^◌, ◌≤◌, ◌<◌, ◌≡◌, refl, ap, ap₂, ◌∙◌, true, false, ◌==◌, arith,
}
use dtrace_utils.Regset.{Regset, done, xalloc, set_active}
use dtrace_utils.Bpf.{fp}
use dtrace_utils.Bpf.Machine.{Regs, idle, run, set_reg, address, extend_32}
use dtrace_utils.Bpf.Runs.{eq_self, eq_comm, set_reg_self}
use dtrace_utils.Cg.{Pcb, done}
use dtrace_utils.Cg.Pool.{frees, Took, Took-IsValid, Took-frees, Took-Alike, free-Took}
use dtrace_utils.Cg.Emit.{
  Took-swap, IsReady, emitted, Took-ne, Took-self, alloc_reg-done, free_reg-done,
}
use dtrace_utils.Cg.Update.{xalloc_reg, buf_prepare}
use dtrace_utils.Cg.Update.Nodes.{prepare_nodes}

address_near :
    (a offset : ℕ) → offset < 2 ^ 15 → address a (offset % 2 ^ 16) ≡ (a + offset) % 2 ^ 64
address_near a offset h = ground arith

extend_near : (n : ℕ) → n < 2 ^ 15 → extend_32 (n % 2 ^ 32) ≡ n
extend_near n h = ground arith

-- Where the data of aggregations starts, by the stack and the context.
abbrev pub buffer : (dctx agg : ℕ) → Regs → (ℕ → ℕ) → ℕ
buffer dctx agg rs me = me (address (me (address (rs fp) dctx)) agg)

module _ (dctx agg offset reg : ℕ) (near : offset + 8 < 2 ^ 15) (r0 : (reg == 0) ≡ false)
    (rs : Regs) (me : ℕ → ℕ) where
  abbrev first : Regs
  first = set_reg reg (me (address (rs fp) dctx)) rs

  abbrev second : Regs
  second = set_reg reg (me (address (first reg) agg)) first

  abbrev third : Regs
  third = set_reg 0 1 second

  third-reg : third reg ≡ buffer dctx agg rs me
  third-reg = rw (r0, eq_self reg) refl

  -- The count of updates goes up by one, and `reg` points to the data behind it.
  pub prepare-run :
      let a = buffer dctx agg rs me in
      let seq = (a + offset) % 2 ^ 64 in
      (rs' : Regs) × (run (prepare_nodes dctx agg offset reg) (idle rs me)
        ≡ idle rs' (set_reg seq ((me seq + 1) % 2 ^ 64) me))
      × (rs' reg ≡ (a + (offset + 8)) % 2 ^ 64)
      × ((j : ℕ) → (j == 0) ≡ false → (j == reg) ≡ false → rs' j ≡ rs j)
  unfolding run prepare_nodes
  prepare-run =
      let a = buffer dctx agg rs me in
      let e : address (third reg) (offset % 2 ^ 16) ≡ (a + offset) % 2 ^ 64 =
        ap (λ (z : ℕ). address z (offset % 2 ^ 16)) third-reg
        ∙ address_near a offset (omega arith) in
      let last = set_reg reg ((third reg + extend_32 ((offset + 8) % 2 ^ 32)) % 2 ^ 64) third in
      (
        last,
        ap (λ (z : ℕ). idle last (set_reg z ((me z + 1) % 2 ^ 64) me)) e,
        set_reg_self reg _ third
            ∙ (ap₂ (λ (x y : ℕ). (x + y) % 2 ^ 64) third-reg (extend_near (offset + 8) near)),
        λ j p q. rw (q, p) refl,
      )

module _ (base : ℕ) where
  -- Register 0, where it is free, is taken without a spill.
  pub xalloc_reg-done :
      (c : Pcb)
      → c.regs.active 0 ≡ false
      → 0 < c.regs.size
      → (t : Regset) × (xalloc_reg base 0 c ≡ done tt (record c { regs = t })) × Took 0 c.regs t
  unfolding xalloc_reg xalloc set_active
  xalloc_reg-done c f h = (
    set_active 0 true c.regs,
    ground (arith, xalloc_reg, f),
    record { size = refl; below = h; fresh = f; active = λ j. refl; spilled = λ j. refl },
  )

  pub prepare-done :
      (dctx agg offset : ℕ) (c : Pcb)
      → IsReady c
      → c.regs.active 0 ≡ false
      → 0 < c.regs.size
      → 2 ≤ frees c.regs
      → (reg : ℕ) × (u : Regset) × (buf_prepare base dctx agg offset c
          ≡ done reg (record c { ir = emitted (prepare_nodes dctx agg offset reg) c.ir; regs = u }))
        × Took reg c.regs u
        × ((reg == 0) ≡ false)
  unfolding buf_prepare emitted prepare_nodes
  prepare-done dctx agg offset c y f h k =
      let (s, e0, a0) = xalloc_reg-done c f h in
      let f0 = Took-frees 0 c.regs s a0 in
      let (reg, t, e1, a1) = alloc_reg-done base (record c { regs = s }) (omega (arith, f0)) in
      let (s', b1, b0) = Took-swap 0 reg c.regs s t a0 a1 in
      let v' = Took-IsValid reg c.regs s' y.valid b1 in
      let (u, g, p, al) = free-Took 0 s' t v' b0 in
      let ir = emitted (prepare_nodes dctx agg offset reg) c.ir in
      let fr = free_reg-done base (record c { ir = ir; regs = t }) 0 u g p in
      let ne : (0 == reg) ≡ false = Took-ne a1 0 (Took-self a0) in
      (
        reg,
        u,
        rw (buf_prepare, e0, e1, fr) refl,
        Took-Alike reg c.regs s' u b1 al,
        eq_comm 0 reg ne,
      )
