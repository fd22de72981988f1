-- ===== src/As/Steps.antt =====
-- dt_as.c: what the relocation pass writes for one node.
use dtrace_utils.Common.{
  ℕ, zero, suc, ◌+◌, ◌-◌, ◌^◌, ◌%◌, ◌≡◌, refl, sym, subst, ◌∙◌, inl, inr, Bool, true, false, Option,
  none, some, List, [], ◌∷◌, if◌then◌else◌, length, length-append, get_or, set, arith, Bool-cases,
  Option-cases,
}
use dtrace_utils.As.{
  Insn, Ident, IrNode, AsError, done, fail, ◌>>=◌, Masks, Table, is_kept, table_of,
}
use dtrace_utils.As.Reloc.{
  Rel, Relocated, third_pass, third_step, relocate, write_entry, enter, entry, patch, store,
  is_func, no_insn,
}
use dtrace_utils.As.Labels.{bind_done, kept}

off-set :
    (buf : List Insn) (i n v : ℕ)
    → (get_or (set buf i (record (get_or buf i no_insn) { imm = v })) n no_insn).off
      ≡ (get_or buf n no_insn).off
off-set [] i n v = refl
off-set (b ∷ buf) zero zero v = refl
off-set (b ∷ buf) zero (suc n) v = refl
off-set (b ∷ buf) (suc i) zero v = refl
off-set (b ∷ buf) (suc i) (suc n) v = off-set buf i n v

off-set_if :
    (b : Bool) (buf : List Insn) (i n v : ℕ)
    → (get_or
        (if b then set buf i (record (get_or buf i no_insn) { imm = v }) else buf)
        n
        no_insn).off
      ≡ (get_or buf n no_insn).off
off-set_if true buf i n v = off-set buf i n v
off-set_if false buf i n v = refl

off-patch :
    (labels : List ℕ) (i n : ℕ) (d : Ident) (buf : List Insn)
    → (get_or (patch labels i d buf) n no_insn).off ≡ (get_or buf n no_insn).off
unfolding patch
off-patch labels i n d buf =
    off-set_if (is_func d) buf i n ((get_or labels d.id 0 + (2 ^ 32 - (i + 1))) % 2 ^ 32)

-- The offset in the instruction at index `n`.
abbrev pub off_at : ℕ → List Insn → ℕ
off_at n buf = (get_or buf n no_insn).off

-- The number of entries for a table that the node has.
abbrev pub to_bpf : Table → ℕ
to_bpf Table.bpf_table = 1
to_bpf Table.kernel_table = 0
to_bpf Table.user_table = 0
to_bpf Table.no_table = 0

abbrev pub to_kernel : Table → ℕ
to_kernel Table.bpf_table = 0
to_kernel Table.kernel_table = 1
to_kernel Table.user_table = 0
to_kernel Table.no_table = 0

abbrev pub to_user : Table → ℕ
to_user Table.bpf_table = 0
to_user Table.kernel_table = 0
to_user Table.user_table = 1
to_user Table.no_table = 0

-- One entry in table `t`, and no other offset in the instructions.
abbrev pub Entered : {S : Type 0} → Table → Relocated S → Relocated S → Type 0
Entered t st st' =
    (length st'.breltab ≡ length st.breltab + to_bpf t)
    × (length st'.kreltab ≡ length st.kreltab + to_kernel t)
    × (length st'.ureltab ≡ length st.ureltab + to_user t)
    × (st'.index ≡ st.index)
    × ((n : ℕ) → off_at n st'.buf ≡ off_at n st.buf)

store-Entered :
    {S : Type 0} (t : Table) (r : Rel) (st : Relocated S) (buf : List Insn) (s : S)
    → ((n : ℕ) → off_at n buf ≡ off_at n st.buf)
    → Entered t st (store t r (record st { buf = buf; strs = s }))
unfolding store
store-Entered Table.bpf_table r st buf s e =
    (length-append st.breltab (r ∷ []), omega arith, omega arith, refl, e)
store-Entered Table.kernel_table r st buf s e =
    (omega arith, length-append st.kreltab (r ∷ []), omega arith, refl, e)
store-Entered Table.user_table r st buf s e =
    (omega arith, omega arith, length-append st.ureltab (r ∷ []), refl, e)
store-Entered Table.no_table r st buf s e = (omega arith, omega arith, omega arith, refl, e)

not-Entered : {S : Type 0} (st : Relocated S) → Entered Table.no_table st st
not-Entered st = (omega arith, omega arith, omega arith, refl, (λ n. refl))

-- The table that the node has an entry in.
abbrev pub node_table : Masks → IrNode → Table
node_table ms n = elim n.extern [ none ↦ Table.no_table | some d ↦ table_of ms d ]

-- The entries of the nodes for a table, counted by `f`.
unfoldable pub entries : (Table → ℕ) → Masks → List IrNode → ℕ
unfolding is_kept
entries f ms [] = 0
entries f ms (n ∷ ns) = if is_kept n then f (node_table ms n) + entries f ms ns else entries f ms ns

-- What the relocation pass has done after the nodes.
abbrev pub Passed : {S : Type 0} → Masks → List IrNode → Relocated S → Relocated S → Type 0
Passed ms ns st st' =
    (length st'.breltab ≡ length st.breltab + entries to_bpf ms ns)
    × (length st'.kreltab ≡ length st.kreltab + entries to_kernel ms ns)
    × (length st'.ureltab ≡ length st.ureltab + entries to_user ms ns)
    × (st'.index ≡ st.index + length (kept ns))
    × ((n : ℕ) → off_at n st'.buf ≡ off_at n st.buf)

Passed-kept :
    {S : Type 0} (ms : Masks) (n : IrNode) (ns : List IrNode) (st st' st'' : Relocated S)
    → is_kept n ≡ true
    → Entered (node_table ms n) st st'
    → Passed ms ns (record st' { index = st'.index + 1 }) st''
    → Passed ms (n ∷ ns) st st''
unfolding entries kept
Passed-kept ms n ns st st' st'' e (a, b, c, d, f) (a', b', c', d', f') =
    rw (e) (omega arith, omega arith, omega arith, omega arith, (λ n. f' n ∙ f n))

Passed-skipped :
    {S : Type 0} (ms : Masks) (n : IrNode) (ns : List IrNode) (st st' : Relocated S)
    → is_kept n ≡ false
    → Passed ms ns st st'
    → Passed ms (n ∷ ns) st st'
unfolding entries kept
Passed-skipped ms n ns st st' e p = rw (e) p

module _ {S : Type 0} (insert : List ℕ → S → Option (ℕ × S)) where
  write_entry-Entered :
      (labels : List ℕ) (k : ℕ) (t : Table) (x : Insn) (d : Ident) (st st' : Relocated S)
      → write_entry insert labels k t x d st ≡ done st'
      → Entered t st st'
  unfolding write_entry
  write_entry-Entered labels k t x d st st' e =
      let (r, e1, f1) =
        bind_done (entry insert labels k st.index x d st.strs)
          (λ (r : Rel × S).
            done (store t (r.0) (record st { buf = patch labels st.index d st.buf; strs = r.1 })))
          st' e in
      let q : store t (r.0) (record st { buf = patch labels st.index d st.buf; strs = r.1 }) ≡ st' =
        cc in
      subst (Entered t st) q (
        store-Entered t (r.0) st (patch labels st.index d st.buf) (r.1)
          (λ n. off-patch labels st.index n d st.buf))

  permitted-Entered :
      (labels : List ℕ) (k : ℕ) (b : Bool) (t : Table) (x : Insn) (d : Ident) (st st' : Relocated S)
      → (if b then write_entry insert labels k t x d st else fail AsError.undefined_symbol)
        ≡ done st'
      → Entered t st st'
  permitted-Entered labels k true t x d st st' e = write_entry-Entered labels k t x d st st' e
  permitted-Entered labels k false t x d st st' e = absurd (cc)

  enter-Entered :
      (labels : List ℕ) (k : ℕ) (kn un : Bool) (t : Table) (x : Insn) (d : Ident)
      (st st' : Relocated S)
      → enter insert labels k kn un t x d st ≡ done st'
      → Entered t st st'
  unfolding enter
  enter-Entered labels k kn un Table.no_table x d st st' e =
      let q : st ≡ st' = cc in subst (Entered Table.no_table st) q (not-Entered st)
  enter-Entered labels k kn un Table.bpf_table x d st st' e =
      write_entry-Entered labels k Table.bpf_table x d st st' e
  enter-Entered labels k kn un Table.kernel_table x d st st' e =
      permitted-Entered labels k kn Table.kernel_table x d st st' e
  enter-Entered labels k kn un Table.user_table x d st st' e =
      permitted-Entered labels k un Table.user_table x d st st' e

  relocate-Entered :
      (labels : List ℕ) (k : ℕ) (ms : Masks) (kn un : Bool) (n : IrNode) (st st' : Relocated S)
      → relocate insert labels k ms kn un n st ≡ done st'
      → Entered (node_table ms n) st st'
  unfolding relocate
  relocate-Entered labels k ms kn un n st st' e = elim (Option-cases n.extern) [
    | inl p ↦
        let q : relocate insert labels k ms kn un n st ≡ done st = rw (relocate, p) refl in
        let z : st ≡ st' = cc in rw (p) (subst (Entered Table.no_table st) z (not-Entered st))
    | inr (d, p) ↦
        let q : relocate insert labels k ms kn un n st
            ≡ enter insert labels k kn un (table_of ms d) n.instr d st =
          rw (relocate, p) refl in
        rw (p) (enter-Entered labels k kn un (table_of ms d) n.instr d st st' (sym q ∙ e))
  ]

  pub third_pass-Passed :
      (labels : List ℕ) (k : ℕ) (ms : Masks) (kn un : Bool) (ns : List IrNode)
      (st st' : Relocated S)
      → third_pass insert labels k ms kn un ns st ≡ done st'
      → Passed ms ns st st'
  unfolding third_pass entries kept
  third_pass-Passed labels k ms kn un [] st st' e =
      let q : st ≡ st' = cc in
      subst (Passed ms [] st) q (omega arith, omega arith, omega arith, omega arith, (λ n. refl))
  third_pass-Passed labels k ms kn un (n ∷ ns) st st' e =
      let (s, e1, f1) =
        bind_done (third_step insert labels k ms kn un n st)
          (third_pass insert labels k ms kn un ns) st' e in
      let ih = third_pass-Passed labels k ms kn un ns s st' f1 in
      elim (Bool-cases (is_kept n)) [
        | inl h ↦
            let q : third_step insert labels k ms kn un n st ≡ (
                relocate insert labels k ms kn un n st >>= λ (r : Relocated S).
                done (record r { index = r.index + 1 })) =
              rw (third_step, h) refl in
            let (r, e2, f2) =
              bind_done (relocate insert labels k ms kn un n st)
                (λ (r : Relocated S). done (record r { index = r.index + 1 })) s (sym q ∙ e1) in
            let z : s ≡ record r { index = r.index + 1 } = cc in
            Passed-kept ms n ns st r st' h (relocate-Entered labels k ms kn un n st r e2)
              (subst (λ (u : Relocated S). Passed ms ns u st') z ih)
        | inr h ↦
            let q : third_step insert labels k ms kn un n st ≡ done st = rw (third_step, h) refl in
            let z : s ≡ st = cc in
            Passed-skipped ms n ns st st' h (subst (λ (u : Relocated S). Passed ms ns u st') z ih)
      ]
