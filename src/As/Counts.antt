-- ===== src/As/Counts.antt =====
-- dt_as.c: the lists and tables are as long as was counted, so no assertion of dt_as fails.
use dtrace_utils.Common.{
  ℕ, ◌+◌, ◌≡◌, refl, sym, subst, ◌∙◌, inl, inr, Bool, true, false, List, [], ◌∷◌, if◌then◌else◌,
  arith, Option-cases,
}
use dtrace_utils.As.{
  Insn, Ident, IrNode, Res, done, ◌>>=◌, Masks, Table, Pass, is_nop, is_kept, place, table_of,
  count_up, count_table, count_extern, first_pass,
}
use dtrace_utils.As.Labels.{bind_done}
use dtrace_utils.As.Steps.{entries, node_table, to_bpf, to_kernel, to_user}

count_table-table :
    (ms : Masks) (x : Insn) (d : Ident) (t : Table)
    → count_table ms x d ≡ done t
    → (t ≡ table_of ms d) × (is_nop x ≡ false)
unfolding count_table table_of is_nop
count_table-table ms x d t e = ground arith

-- The counts go up by those of a node with an entry in table `t`, if it is kept.
abbrev Counted : Bool → Table → Pass → Pass → Type 0
Counted b t p q =
    (q.brel ≡ p.brel + (if b then to_bpf t else 0))
    × (q.krel ≡ p.krel + (if b then to_kernel t else 0))
    × (q.urel ≡ p.urel + (if b then to_user t else 0))

count_up-Counted : (t : Table) (n : IrNode) (p : Pass) → Counted true t p (count_up t (place n p))
unfolding count_up place
count_up-Counted Table.bpf_table n p = (omega arith, omega arith, omega arith)
count_up-Counted Table.kernel_table n p = (omega arith, omega arith, omega arith)
count_up-Counted Table.user_table n p = (omega arith, omega arith, omega arith)
count_up-Counted Table.no_table n p = (omega arith, omega arith, omega arith)

place-Counted : (b : Bool) (n : IrNode) (p : Pass) → Counted b Table.no_table p (place n p)
unfolding place
place-Counted true n p = (omega arith, omega arith, omega arith)
place-Counted false n p = (omega arith, omega arith, omega arith)

is_kept_lem : (n : IrNode) → is_nop n.instr ≡ false → is_kept n ≡ true
unfolding is_kept
is_kept_lem n h = ground arith

count_extern-Counted :
    (ms : Masks) (n : IrNode) (p q : Pass)
    → count_extern ms n (place n p) ≡ done q
    → Counted (is_kept n) (node_table ms n) p q
unfolding count_extern place
count_extern-Counted ms n p q e = elim (Option-cases n.extern) [
  | inl h ↦
      let z : count_extern ms n (place n p) ≡ done (place n p) = rw (count_extern, h) refl in
      let s : place n p ≡ q = cc in
      rw (h) (subst (Counted (is_kept n) Table.no_table p) s (place-Counted (is_kept n) n p))
  | inr (d, h) ↦
      let f : Table → Res Pass = λ t. done (count_up t (place n p)) in
      let z : count_extern ms n (place n p) ≡ (count_table ms n.instr d >>= f) =
        rw (count_extern, h) refl in
      let (t, e1, e2) = bind_done (count_table ms n.instr d) f q (sym z ∙ e) in
      let (tt', nop) = count_table-table ms n.instr d t e1 in
      let k = is_kept_lem n nop in
      let s : count_up t (place n p) ≡ q = cc in
      rw (h, k, ← tt') (subst (Counted true t p) s (count_up-Counted t n p))
]

-- The counts go up by the entries of the nodes.
abbrev pub Tallied : ℕ → ℕ → ℕ → Pass → Pass → Type 0
Tallied nb nk nu p q = (q.brel ≡ p.brel + nb) × (q.krel ≡ p.krel + nk) × (q.urel ≡ p.urel + nu)

Counted-if :
    (ms : Masks) (n : IrNode) (ns : List IrNode) (p r q : Pass) (b : Bool) (t : Table)
    → Counted b t p r
    → Tallied (entries to_bpf ms ns) (entries to_kernel ms ns) (entries to_user ms ns) r q
    → Tallied
        (if b then to_bpf t + entries to_bpf ms ns else entries to_bpf ms ns)
        (if b then to_kernel t + entries to_kernel ms ns else entries to_kernel ms ns)
        (if b then to_user t + entries to_user ms ns else entries to_user ms ns)
        p
        q
Counted-if ms n ns p r q true t (a', b', c') (a, b, c) = (omega arith, omega arith, omega arith)
Counted-if ms n ns p r q false t (a', b', c') (a, b, c) = (omega arith, omega arith, omega arith)

-- The counts after all nodes are those of their entries.
pub first_pass-counts :
    (ms : Masks) (ns : List IrNode) (p q : Pass)
    → first_pass ms ns p ≡ done q
    → Tallied (entries to_bpf ms ns) (entries to_kernel ms ns) (entries to_user ms ns) p q
unfolding first_pass entries
first_pass-counts ms [] p q e =
    let s : p ≡ q = cc in rw (← s) (omega arith, omega arith, omega arith)
first_pass-counts ms (n ∷ ns) p q e =
    let (r, e1, e2) = bind_done (count_extern ms n (place n p)) (first_pass ms ns) q e in
    let (a, b, c) = first_pass-counts ms ns r q e2 in
    let k = count_extern-Counted ms n p r e1 in
    Counted-if ms n ns p r q (is_kept n) (node_table ms n) k (a, b, c)
