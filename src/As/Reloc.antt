-- ===== src/As/Reloc.antt =====
-- dt_as.c: the relocation pass of dt_as, and dt_as as a whole.
--
-- `insert` is the insertion of a string into the table of strings, whose state is of type `S`; it
-- returns the offset of the string, and nothing when memory is lacking.
use dtrace_utils.Common.{
  ℕ, ◌+◌, ◌-◌, ◌*◌, ◌%◌, ◌^◌, Bool, ◌&&◌, ◌||◌, Option, none, some, List, [], ◌∷◌, ◌++◌, ltb, ◌==◌,
  if◌then◌else◌, length, get_or, set, replicate,
}
use dtrace_utils.As.{
  Insn, Ident, IrNode, IrList, LinkMode, AsError, Res, done, fail, ◌>>=◌, Masks, Table, Pass,
  is_bpf, is_kept, table_of, link_masks, first_pass, second_pass, call, lddw, stw, stdw, mov,
  ident_func,
}

pub record Rel : Type 0 where
  pub rtype : ℕ
  pub name : ℕ
  pub offset : ℕ
  pub rdata : ℕ

pub record Relocated (S : Type 0) : Type 0 where
  pub index : ℕ
  pub buf : List Insn
  pub breltab : List Rel
  pub kreltab : List Rel
  pub ureltab : List Rel
  pub strs : S

-- R_BPF_64_64 is 1, R_BPF_64_32 is 10.
unfoldable pub reloc_type : Insn → Res ℕ
reloc_type x =
    if x.code == lddw
    then done 1
    else if (x.code == stw) || (x.code == stdw) || (x.code == mov)
    then done 10
    else if (x.code == call) && (x.src_reg == 1)
    then done 10
    else fail AsError.unexpected

unfoldable pub is_func : Ident → Bool
unfolding is_bpf
is_func d = is_bpf d && (d.kind == ident_func)

unfoldable pub reloc_data : List ℕ → ℕ → Ident → Res ℕ
unfolding is_bpf
reloc_data labels k d =
    if is_bpf d
    then if d.kind == ident_func
      then if ltb d.id k then done (get_or labels d.id 0) else fail AsError.failed_assert
      else done d.id
    else elim d.syminfo [ none ↦ fail AsError.failed_assert | some s ↦ done s ]

abbrev pub no_insn : Insn
no_insn = record { code = 0; dst_reg = 0; src_reg = 0; off = 0; imm = 0 }

-- `buf[i].imm = labels[id] - (i + 1)` for a function of the program itself.
unfoldable pub patch : List ℕ → ℕ → Ident → List Insn → List Insn
unfolding is_func
patch labels i d buf =
    if is_func d
    then set buf i (record (get_or buf i no_insn) {
      imm = (get_or labels d.id 0 + (2 ^ 32 - (i + 1))) % 2 ^ 32;
    })
    else buf

unfoldable pub store : {S : Type 0} → Table → Rel → Relocated S → Relocated S
store Table.bpf_table r st = record st { breltab = st.breltab ++ (r ∷ []) }
store Table.kernel_table r st = record st { kreltab = st.kreltab ++ (r ∷ []) }
store Table.user_table r st = record st { ureltab = st.ureltab ++ (r ∷ []) }
store Table.no_table r st = st

abbrev pub initial : IrList → Pass
initial l = record { labels = replicate l.next_label 0; buf = []; brel = 0; krel = 0; urel = 0 }

abbrev pub untouched : {S : Type 0} → List Insn → S → Relocated S
untouched buf s = record {
  index = 0;
  buf = buf;
  breltab = [];
  kreltab = [];
  ureltab = [];
  strs = s;
}

-- The assertions at the end of the relocation pass.
abbrev pub tables_full : {S : Type 0} → Pass → List Insn → Relocated S → Bool
tables_full p buf st =
    (length st.breltab == p.brel)
    && (length st.kreltab == p.krel)
    && (length st.ureltab == p.urel)
    && (st.index == length buf)

module _ {S : Type 0} (insert : List ℕ → S → Option (ℕ × S)) where
  abbrev pub string_offset : List ℕ → S → Res (ℕ × S)
  string_offset name s = elim (insert name s) [
    | none ↦ fail AsError.no_memory
    | some r ↦ if ltb 32767 (r.0) then fail AsError.string_too_big else done r
  ]

  -- The relocation for identifier `d` at the instruction of index `i`, and the table of strings.
  unfoldable pub entry : List ℕ → ℕ → ℕ → Insn → Ident → S → Res (Rel × S)
  unfolding reloc_type reloc_data
  entry labels k i x d s = reloc_type x >>= λ ty. string_offset d.name s >>= λ r.
      reloc_data labels k d >>= λ v.
      done (record { rtype = ty; name = r.0; offset = i * 8; rdata = v }, r.1)

  unfoldable pub write_entry : List ℕ → ℕ → Table → Insn → Ident → Relocated S → Res (Relocated S)
  unfolding entry patch store
  write_entry labels k t x d st = entry labels k st.index x d st.strs >>= λ r.
      done (store t (r.0) (record st { buf = patch labels st.index d st.buf; strs = r.1 }))

  -- A reference to a kernel or user symbol is an error, unless the policy permits it.
  unfoldable pub enter :
      List ℕ → ℕ → (knodef unodef : Bool) → Table → Insn → Ident → Relocated S → Res (Relocated S)
  unfolding write_entry
  enter labels k knodef unodef Table.no_table x d st = done st
  enter labels k knodef unodef Table.bpf_table x d st = write_entry labels k Table.bpf_table x d st
  enter labels k knodef unodef Table.kernel_table x d st =
      if knodef
      then write_entry labels k Table.kernel_table x d st
      else fail AsError.undefined_symbol
  enter labels k knodef unodef Table.user_table x d st =
      if unodef then write_entry labels k Table.user_table x d st else fail AsError.undefined_symbol

  unfoldable pub relocate :
      List ℕ → ℕ → Masks → (knodef unodef : Bool) → IrNode → Relocated S → Res (Relocated S)
  unfolding enter table_of
  relocate labels k ms knodef unodef n st = elim n.extern [
    | none ↦ done st
    | some d ↦ enter labels k knodef unodef (table_of ms d) n.instr d st
  ]

  unfoldable pub third_step :
      List ℕ → ℕ → Masks → (knodef unodef : Bool) → IrNode → Relocated S → Res (Relocated S)
  unfolding relocate is_kept
  third_step labels k ms knodef unodef n st =
      if is_kept n
      then (relocate labels k ms knodef unodef n st >>= λ st'.
          done (record st' { index = st'.index + 1 }))
      else done st

  unfoldable pub third_pass :
      List ℕ → ℕ → Masks → (knodef unodef : Bool) → List IrNode → Relocated S → Res (Relocated S)
  unfolding third_step
  third_pass labels k ms knodef unodef [] st = done st
  third_pass labels k ms knodef unodef (n ∷ ns) st =
      third_step labels k ms knodef unodef n st >>= third_pass labels k ms knodef unodef ns

  unfoldable pub relocations :
      Masks → (knodef unodef : Bool) → IrList → S → Pass → List Insn → Res (Relocated S)
  unfolding third_pass
  relocations ms knodef unodef l s p buf =
      if p.brel + p.krel + p.urel == 0
      then done (untouched buf s)
      else third_pass p.labels l.next_label ms knodef unodef l.nodes (untouched buf s) >>= λ st.
          if tables_full p buf st then done st else fail AsError.failed_assert

  -- dt_as from the first pass on.
  unfoldable pub passes : LinkMode → (knodef unodef : Bool) → IrList → S → Res (Relocated S)
  unfolding first_pass second_pass relocations link_masks
  passes mode knodef unodef l s = first_pass (link_masks mode) l.nodes (initial l) >>= λ p.
      if length p.buf == l.len
      then (second_pass p.labels l.next_label 0 p.buf >>= λ buf.
          relocations (link_masks mode) knodef unodef l s p buf)
      else fail AsError.failed_assert

  -- `has_difo` says that pcb_difo is not NULL.
  unfoldable pub assemble :
      LinkMode → (knodef unodef has_difo : Bool) → IrList → S → Res (Relocated S)
  unfolding passes
  assemble mode knodef unodef has_difo l s =
      if has_difo then fail AsError.failed_assert else passes mode knodef unodef l s
