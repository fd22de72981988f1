-- ===== src/Cg/Leaves.antt =====
-- dt_cg.c: constants, variables in registers, and operators on one operand.
use dtrace_utils.Common.{ℕ, ◌≡◌, inl, refl, true, [], ◌∷◌, arith}
use dtrace_utils.As.{irlist_append}
use dtrace_utils.Regset.{Regset, Bitmap}
use dtrace_utils.Bpf.{mov_reg}
use dtrace_utils.Bpf.Machine.{run, set_reg}
use dtrace_utils.Cg.{Pcb, done, alloc_reg, node_alloc, copy_saved}
use dtrace_utils.Cg.Pool.{Took}
use dtrace_utils.Cg.Emit.{Code, Emits, Took-ne, alloc_reg-done}

module _ (base : ℕ) (live : Bitmap) where
  copy-Code :
      (id : ℕ) (c : Pcb) (reg : ℕ) (t : Regset)
      → c.regs.active id ≡ true
      → Took reg c.regs t
      → Code
          (λ r. r id)
          c
          reg
          (record c { ir = irlist_append (node_alloc 0 (mov_reg reg id)) c.ir; regs = t })
          (node_alloc 0 (mov_reg reg id) ∷ [])
  unfolding irlist_append run
  copy-Code id c reg t l a = record {
    nodes = refl;
    labels = omega arith;
    bounds = (inl refl, tt);
    taken = a;
    computes =
        λ r me. (set_reg reg (r id) r, refl, ground arith, λ j h. ground (arith, Took-ne a j h));
  }

  copy_saved-done :
      (id : ℕ) (c : Pcb) (reg : ℕ) (t : Regset)
      → alloc_reg base c ≡ done reg (record c { regs = t })
      → copy_saved base id c
        ≡ done reg (record c { ir = irlist_append (node_alloc 0 (mov_reg reg id)) c.ir; regs = t })
  unfolding copy_saved
  copy_saved-done id c reg t e = rw (copy_saved, e) refl

  pub copy_saved-Emits : (id : ℕ) → live id ≡ true → Emits live 1 (λ r. r id) (copy_saved base id)
  copy_saved-Emits id l = record {
    respects = λ r s h. h id l;
    emits = λ c p q k.
        let (reg, t, e, a) = alloc_reg-done base c (omega arith) in
        (reg, _, _, copy_saved-done id c reg t e, copy-Code id c reg t (q id l) a);
  }
