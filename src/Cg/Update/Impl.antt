-- ===== src/Cg/Update/Impl.antt =====
-- dt_cg_agg_*_impl: the nodes that they append, and the registers they take and give back.
use dtrace_utils.Common.{ℕ, ◌+◌, ◌≤◌, ◌<◌, ◌≡◌, refl, false, ◌++◌, arith}
use dtrace_utils.Regset.{Regset, ok, done, free}
use dtrace_utils.As.{irlist_label}
use dtrace_utils.Cg.{Pcb, done}
use dtrace_utils.Cg.Pool.{frees, Alike, Alike-refl, free-Took}
use dtrace_utils.Cg.Emit.{IsReady, emitted, emitted-nodes, alloc_reg-done, free_reg-done}
use dtrace_utils.Cg.Binary.{labelled}
use dtrace_utils.Cg.Update.{AggFun, avg, count, max, min, sum, xalloc_reg, agg_impl}
use dtrace_utils.Cg.Update.Nodes.{impl_nodes}
use dtrace_utils.Cg.Update.Prepare.{xalloc_reg-done}

-- Register 0 can be used, and `k` registers are free.
pub record IsFree (k : ℕ) (c : Pcb) : Type 0 where
  pub ready : IsReady c
  pub zeroth : c.regs.active 0 ≡ false
  pub size : 0 < c.regs.size
  pub free : k ≤ frees c.regs

module _ (base reg v : ℕ) (c : Pcb) (h : IsFree 1 c) where
  abbrev pub Made : AggFun → Type 0
  Made f =
      (t : ℕ) × (d : Pcb) × (agg_impl base f reg v c ≡ done tt d)
      × (d.ir.nodes ≡ c.ir.nodes ++ impl_nodes f reg v t c.ir.next_label)
      × Alike c.regs d.regs
      × (c.regs.active t ≡ false)

  with_zero :
      (t : Regset) × (u : Regset) × (xalloc_reg base 0 c ≡ done tt (record c { regs = t }))
      × (free 0 t ≡ ok tt u)
      × (t.spilled 0 ≡ false)
      × Alike c.regs u
  with_zero =
      let (t, e, a) = xalloc_reg-done base c h.zeroth h.size in
      let (u, g, p, al) = free-Took 0 c.regs t h.ready.valid a in (t, u, e, g, p, al)

  pub agg_impl-done : (f : AggFun) → Made f
  unfolding agg_impl impl_nodes emitted irlist_label
  agg_impl-done avg =
      let (t, u, e, g, p, al) = with_zero in
      let ns = impl_nodes count reg v 0 0 in
      let fr = free_reg-done base (record c { ir = emitted ns c.ir; regs = t }) 0 u g p in
      let all = impl_nodes avg reg v 0 0 in
      (
        0,
        record c { ir = emitted all c.ir; regs = u },
        rw (agg_impl, e, fr) refl,
        emitted-nodes all c.ir,
        al,
        h.zeroth,
      )
  agg_impl-done count =
      let (t, u, e, g, p, al) = with_zero in
      let ns = impl_nodes count reg v 0 0 in
      let fr = free_reg-done base (record c { ir = emitted ns c.ir; regs = t }) 0 u g p in
      (
        0,
        record c { ir = emitted ns c.ir; regs = u },
        rw (agg_impl, e, fr) refl,
        emitted-nodes ns c.ir,
        al,
        h.zeroth,
      )
  agg_impl-done sum =
      let ns = impl_nodes sum reg v 0 0 in
      (
        0,
        record c { ir = emitted ns c.ir },
        refl,
        emitted-nodes ns c.ir,
        Alike-refl c.regs,
        h.zeroth,
      )
  agg_impl-done max =
      let c0 = labelled (c.ir.next_label + 1) c in
      let (t, s, e, a) = alloc_reg-done base c0 (omega (arith, h.free)) in
      let (u, g, p, al) = free-Took t c.regs s h.ready.valid a in
      let ns = impl_nodes max reg v t c.ir.next_label in
      let fr = free_reg-done base (record c0 { ir = emitted ns c0.ir; regs = s }) t u g p in
      (
        t,
        record c0 { ir = emitted ns c0.ir; regs = u },
        rw (agg_impl, e, fr) refl,
        emitted-nodes ns c0.ir,
        al,
        a.fresh,
      )
  agg_impl-done min =
      let c0 = labelled (c.ir.next_label + 1) c in
      let (t, s, e, a) = alloc_reg-done base c0 (omega (arith, h.free)) in
      let (u, g, p, al) = free-Took t c.regs s h.ready.valid a in
      let ns = impl_nodes min reg v t c.ir.next_label in
      let fr = free_reg-done base (record c0 { ir = emitted ns c0.ir; regs = s }) t u g p in
      (
        t,
        record c0 { ir = emitted ns c0.ir; regs = u },
        rw (agg_impl, e, fr) refl,
        emitted-nodes ns c0.ir,
        al,
        a.fresh,
      )
