-- ===== src/As/Asserts.antt =====
-- dt_as.c: no assertion of dt_as fails.
use dtrace_utils.Common.{
  ℕ, ◌+◌, ◌*◌, ◌≡◌, refl, sym, ap, subst, ◌∙◌, inl, inr, Bool, true, false, Option, List, [], ◌∷◌,
  ltb, ◌==◌, if◌then◌else◌, length, arith, Bool-cases, ==_iff, Option-cases,
}
use dtrace_utils.As.{
  Insn, Ident, IrNode, IrList, LinkMode, AsError, Res, done, fail, ◌>>=◌, Masks, Table, Pass,
  is_kept, table_of, first_pass, second_pass, link_masks,
}
use dtrace_utils.As.Reloc.{
  Rel, Relocated, assemble, passes, relocations, third_pass, third_step, relocate, enter,
  write_entry, entry, store, patch, reloc_type, reloc_data, string_offset, initial, untouched,
  tables_full,
}
use dtrace_utils.As.Labels.{kept, first_pass-buf}
use dtrace_utils.As.Jumps.{length-second_pass}
use dtrace_utils.As.Steps.{third_pass-Passed, entries, to_bpf, to_kernel, to_user}
use dtrace_utils.As.Counts.{first_pass-counts, Tallied}
use dtrace_utils.As.Errors.{
  Asserts, done-Asserts, bind-Asserts, Resolvable, IsSound, IsSoundExtern, AllSound,
  first_pass-Asserts, second_pass-Asserts, reloc_data-Asserts, reloc_type-Asserts, IsCounted,
}

module _ {S : Type 0} (insert : List ℕ → S → Option (ℕ × S)) where
  short_enough :
      (b : Bool) (r : ℕ × S) → Asserts (if b then fail AsError.string_too_big else done r)
  short_enough true r = λ e. absurd (cc)
  short_enough false r = done-Asserts r

  string_offset-Asserts : (name : List ℕ) (s : S) → Asserts (string_offset insert name s)
  string_offset-Asserts name s = elim (Option-cases (insert name s)) [
    | inl h ↦ λ e.
        let z : string_offset insert name s ≡ fail AsError.no_memory = rw (string_offset, h) refl in
        absurd (cc)
    | inr (r, h) ↦
        let z : string_offset insert name s
            ≡ (if ltb 32767 (r.0) then fail AsError.string_too_big else done r) =
          rw (string_offset, h) refl in
        subst Asserts (sym z) (short_enough (ltb 32767 (r.0)) r)
  ]

  write_entry-Asserts :
      (labels : List ℕ) (k : ℕ) (t : Table) (x : Insn) (d : Ident) (st : Relocated S)
      → IsSound k d
      → Asserts (write_entry insert labels k t x d st)
  unfolding write_entry entry
  write_entry-Asserts labels k t x d st h =
      bind-Asserts (entry insert labels k st.index x d st.strs)
        (λ (r : Rel × S).
          done (store t (r.0) (record st { buf = patch labels st.index d st.buf; strs = r.1 })))
        (bind-Asserts (reloc_type x)
          (λ ty. string_offset insert d.name st.strs >>= λ r. reloc_data labels k d >>= λ v.
            done (record { rtype = ty; name = r.0; offset = st.index * 8; rdata = v }, r.1))
          (reloc_type-Asserts x)
          (λ ty e1.
            bind-Asserts (string_offset insert d.name st.strs)
              (λ r. reloc_data labels k d >>= λ v.
                done (record { rtype = ty; name = r.0; offset = st.index * 8; rdata = v }, r.1))
              (string_offset-Asserts d.name st.strs)
              (λ r e2.
                bind-Asserts (reloc_data labels k d)
                  (λ v.
                    done (record { rtype = ty; name = r.0; offset = st.index * 8; rdata = v }, r.1))
                  (reloc_data-Asserts labels k d h)
                  (λ v e3.
                    done-Asserts
                      (record { rtype = ty; name = r.0; offset = st.index * 8; rdata = v }, r.1)))))
        (λ r e.
          done-Asserts
            (store t (r.0) (record st { buf = patch labels st.index d st.buf; strs = r.1 })))

  enter-Asserts :
      (labels : List ℕ) (k : ℕ) (kn un : Bool) (t : Table) (x : Insn) (d : Ident) (st : Relocated S)
      → IsSound k d
      → Asserts (enter insert labels k kn un t x d st)
  unfolding enter
  enter-Asserts labels k kn un Table.no_table x d st h = done-Asserts st
  enter-Asserts labels k kn un Table.bpf_table x d st h =
      write_entry-Asserts labels k Table.bpf_table x d st h
  enter-Asserts labels k true un Table.kernel_table x d st h =
      write_entry-Asserts labels k Table.kernel_table x d st h
  enter-Asserts labels k false un Table.kernel_table x d st h = λ e. absurd (cc)
  enter-Asserts labels k kn true Table.user_table x d st h =
      write_entry-Asserts labels k Table.user_table x d st h
  enter-Asserts labels k kn false Table.user_table x d st h = λ e. absurd (cc)

  relocate-Asserts :
      (labels : List ℕ) (k : ℕ) (ms : Masks) (kn un : Bool) (n : IrNode) (st : Relocated S)
      → IsSoundExtern k n.extern
      → Asserts (relocate insert labels k ms kn un n st)
  unfolding relocate
  relocate-Asserts labels k ms kn un n st h = elim (Option-cases n.extern) [
    | inl p ↦
        let q : relocate insert labels k ms kn un n st ≡ done st = rw (relocate, p) refl in
        subst Asserts (sym q) (done-Asserts st)
    | inr (d, p) ↦
        let q : relocate insert labels k ms kn un n st
            ≡ enter insert labels k kn un (table_of ms d) n.instr d st =
          rw (relocate, p) refl in
        subst Asserts (sym q)
          (enter-Asserts labels k kn un (table_of ms d) n.instr d st (subst (IsSoundExtern k) p h))
  ]

  third_step-Asserts :
      (labels : List ℕ) (k : ℕ) (ms : Masks) (kn un : Bool) (n : IrNode) (st : Relocated S)
      → IsSoundExtern k n.extern
      → Asserts (third_step insert labels k ms kn un n st)
  unfolding third_step
  third_step-Asserts labels k ms kn un n st h = elim (Bool-cases (is_kept n)) [
    | inl b ↦
        let f : Relocated S → Res (Relocated S) =
          λ st'. done (record st' { index = st'.index + 1 }) in
        let q : third_step insert labels k ms kn un n st
            ≡ (relocate insert labels k ms kn un n st >>= f) =
          rw (third_step, b) refl in
        subst Asserts (sym q) (
          bind-Asserts (relocate insert labels k ms kn un n st) f
            (relocate-Asserts labels k ms kn un n st h)
            (λ r e. done-Asserts (record r { index = r.index + 1 })))
    | inr b ↦
        let q : third_step insert labels k ms kn un n st ≡ done st = rw (third_step, b) refl in
        subst Asserts (sym q) (done-Asserts st)
  ]

  third_pass-Asserts :
      (labels : List ℕ) (k : ℕ) (ms : Masks) (kn un : Bool) (ns : List IrNode) (st : Relocated S)
      → AllSound k ns
      → Asserts (third_pass insert labels k ms kn un ns st)
  unfolding third_pass
  third_pass-Asserts labels k ms kn un [] st h = done-Asserts st
  third_pass-Asserts labels k ms kn un (n ∷ ns) st (h, hs) =
      bind-Asserts (third_step insert labels k ms kn un n st)
        (third_pass insert labels k ms kn un ns) (third_step-Asserts labels k ms kn un n st h)
        (λ s e. third_pass-Asserts labels k ms kn un ns s hs)

  relocations-Asserts :
      (ms : Masks) (kn un : Bool) (l : IrList) (s : S) (p : Pass) (buf : List Insn)
      → AllSound l.next_label l.nodes
      → Tallied
          (entries to_bpf ms l.nodes)
          (entries to_kernel ms l.nodes)
          (entries to_user ms l.nodes)
          (initial l)
          p
      → length buf ≡ length (kept l.nodes)
      → Asserts (relocations insert ms kn un l s p buf)
  unfolding relocations
  relocations-Asserts ms kn un l s p buf h (a, b, c) e =
      elim (Bool-cases (p.brel + p.krel + p.urel == 0)) [
        | inl z ↦
            let q : relocations insert ms kn un l s p buf ≡ done (untouched buf s) =
              rw (relocations, z) refl in
            subst Asserts (sym q) (done-Asserts (untouched buf s))
        | inr z ↦
            let r = third_pass insert p.labels l.next_label ms kn un l.nodes (untouched buf s) in
            let f : Relocated S → Res (Relocated S) =
              λ st. if tables_full p buf st then done st else fail AsError.failed_assert in
            let q : relocations insert ms kn un l s p buf ≡ (r >>= f) = rw (relocations, z) refl in
            subst Asserts (sym q) (
              bind-Asserts r f
                (third_pass-Asserts p.labels l.next_label ms kn un l.nodes (untouched buf s) h)
                (λ st u.
                  let (g1, g2, g3, g4, g5) =
                    third_pass-Passed insert p.labels l.next_label ms kn un l.nodes
                      (untouched buf s) st u in
                  let full : tables_full p buf st ≡ true = ground arith in
                  let w : f st ≡ done st = rw (full) refl in
                  subst Asserts (sym w) (done-Asserts st)))
      ]

  passes-Asserts :
      (mode : LinkMode) (kn un : Bool) (l : IrList) (s : S)
      → IsCounted l
      → Resolvable l.next_label (kept l.nodes)
      → AllSound l.next_label l.nodes
      → Asserts (passes insert mode kn un l s)
  unfolding passes
  passes-Asserts mode kn un l s c h hs =
      let g : (p : Pass) → List Insn → Res (Relocated S) =
        λ p buf. relocations insert (link_masks mode) kn un l s p buf in
      let f : Pass → Res (Relocated S) = λ p.
        if length p.buf == l.len
        then (second_pass p.labels l.next_label 0 p.buf >>= g p)
        else fail AsError.failed_assert in
      bind-Asserts (first_pass (link_masks mode) l.nodes (initial l)) f
        (first_pass-Asserts (link_masks mode) l.nodes (initial l))
        (λ p e.
          let (pb, pl) = first_pass-buf (link_masks mode) l.nodes (initial l) p e in
          let k : length p.buf ≡ l.len = ap length pb ∙ sym c in
          let full : (length p.buf == l.len) ≡ true = (==_iff (length p.buf) l.len).1 k in
          let w : f p ≡ (second_pass p.labels l.next_label 0 p.buf >>= g p) = rw (full) refl in
          subst Asserts (sym w) (
            bind-Asserts (second_pass p.labels l.next_label 0 p.buf) (g p)
              (second_pass-Asserts p.labels l.next_label 0 p.buf
                (subst (Resolvable l.next_label) (sym pb) h))
              (λ buf u.
                relocations-Asserts (link_masks mode) kn un l s p buf hs
                  (first_pass-counts (link_masks mode) l.nodes (initial l) p e)
                  (length-second_pass p.labels l.next_label 0 p.buf buf u ∙ ap length pb))))

  -- Where pcb_difo is NULL, on a list whose dl_len counts its instructions, as dt_irlist_append
  -- keeps it, whose branches and whose references to functions are to labels that dt_irlist_label
  -- has given out, and whose references to other symbols have data, no assertion of dt_as fails:
  -- the buffer and the relocation tables are filled exactly, and no label is looked up out of
  -- range.
  pub assemble-Asserts :
      (mode : LinkMode) (kn un hd : Bool) (l : IrList) (s : S)
      → hd ≡ false
      → IsCounted l
      → Resolvable l.next_label (kept l.nodes)
      → AllSound l.next_label l.nodes
      → Asserts (assemble insert mode kn un hd l s)
  unfolding assemble
  assemble-Asserts mode kn un true l s e c h hs = absurd (cc)
  assemble-Asserts mode kn un false l s e c h hs = passes-Asserts mode kn un l s c h hs
