-- ===== src/As.antt =====
-- libdtrace/dt_as.c: the list of instructions that the code generator appends to, and the passes
-- of dt_as that turn it into a program with relocation tables.
--
-- Fields of an instruction are their bit patterns: `off` of 16 bits, `imm` of 32. The list is the
-- nodes from dl_list on. A buffer or table that is filled from its start is the list of what has
-- been written to it. Memory is taken to be given. The table of strings is an interface.
pub mod Reloc
pub mod Labels
pub mod Steps
pub mod Jumps
pub mod Counts
pub mod Errors
pub mod Asserts
mod Tests
use dtrace_utils.Common.{
  ℕ, ◌+◌, ◌-◌, ◌*◌, ◌%◌, ◌^◌, Bool, true, false, not, ◌&&◌, ◌||◌, Option, none, some, List, [], ◌∷◌,
  ◌++◌, bit_and, ltb, ◌==◌, if◌then◌else◌, length, get_or, set, max,
}

pub record Insn : Type 0 where
  pub code : ℕ
  pub dst_reg : ℕ
  pub src_reg : ℕ
  pub off : ℕ
  pub imm : ℕ

-- `syminfo` is the id of the symbol in di_data.
pub record Ident : Type 0 where
  pub name : List ℕ
  pub flags : ℕ
  pub kind : ℕ
  pub id : ℕ
  pub syminfo : Option ℕ

pub record IrNode : Type 0 where
  pub label : ℕ
  pub instr : Insn
  pub extern : Option Ident

pub record IrList : Type 0 where
  pub nodes : List IrNode
  pub len : ℕ
  pub next_label : ℕ

pub data LinkMode : Type 0 where
  link_kernel link_dynamic link_static : LinkMode

pub data AsError : Type 0 where
  unexpected undefined_symbol no_memory string_too_big failed_assert : AsError

pub data Res (A : Type 0) : Type 0 where
  done : A → Res A
  fail : AsError → Res A

infixl 5 ◌>>=◌
abbrev pub ◌>>=◌ : {A B : Type 0} → Res A → (A → Res B) → Res B
done a >>= f = f a
fail e >>= f = fail e

abbrev pub jmp : ℕ
jmp = 5

abbrev pub call : ℕ
call = 133

abbrev pub lddw : ℕ
lddw = 24

abbrev pub stw : ℕ
stw = 98

abbrev pub stdw : ℕ
stdw = 122

abbrev pub mov : ℕ
mov = 183

abbrev pub user_flag : ℕ
user_flag = 512

abbrev pub bpf_flag : ℕ
bpf_flag = 4096

abbrev pub ident_func : ℕ
ident_func = 3

unfoldable pub is_nop : Insn → Bool
is_nop x = (x.code == jmp) && (x.off == 0)

-- The node stands for an instruction, and is no forward reference of a label.
unfoldable pub is_kept : IrNode → Bool
unfolding is_nop
is_kept n = (n.label == 0) || not (is_nop n.instr)

unfoldable pub irlist_create : IrList
irlist_create = record { nodes = []; len = 0; next_label = 1 }

unfoldable pub irlist_append : IrNode → IrList → IrList
unfolding is_kept
irlist_append n l = record l {
  nodes = l.nodes ++ (n ∷ []);
  len = if is_kept n then l.len + 1 else l.len;
}

unfoldable pub irlist_label : IrList → ℕ × IrList
irlist_label l = (l.next_label, record l { next_label = l.next_label + 1 })

pub record Masks : Type 0 where
  pub kmask : ℕ
  pub kbits : ℕ
  pub umask : ℕ
  pub ubits : ℕ

-- `-1u` is 2 ^ 32 - 1.
unfoldable pub link_masks : LinkMode → Masks
link_masks LinkMode.link_kernel = record {
  kmask = 0;
  kbits = 2 ^ 32 - 1;
  umask = user_flag;
  ubits = user_flag;
}
link_masks LinkMode.link_dynamic = record {
  kmask = user_flag;
  kbits = 0;
  umask = user_flag;
  ubits = user_flag;
}
link_masks LinkMode.link_static = record {
  kmask = 0;
  kbits = 2 ^ 32 - 1;
  umask = 0;
  ubits = 2 ^ 32 - 1;
}

-- The table that the relocation for an identifier goes to.
pub data Table : Type 0 where
  bpf_table kernel_table user_table no_table : Table

unfoldable pub is_bpf : Ident → Bool
is_bpf i = not (bit_and i.flags bpf_flag == 0)

unfoldable pub table_of : Masks → Ident → Table
unfolding is_bpf
table_of ms i =
    if is_bpf i
    then Table.bpf_table
    else if bit_and i.flags ms.kmask == ms.kbits
    then Table.kernel_table
    else if bit_and i.flags ms.umask == ms.ubits
    then Table.user_table
    else Table.no_table

-- The switch of the first pass: which count goes up.
unfoldable pub count_table : Masks → Insn → Ident → Res Table
unfolding is_bpf table_of
count_table ms x i =
    if (x.code == stw) || (x.code == stdw) || (x.code == mov)
    then if is_bpf i then done Table.bpf_table else fail AsError.unexpected
    else if x.code == lddw
    then done (table_of ms i)
    else if x.code == call
    then if (x.src_reg == 1) && is_bpf i then done Table.bpf_table else fail AsError.unexpected
    else fail AsError.unexpected

pub record Pass : Type 0 where
  pub labels : List ℕ
  pub buf : List Insn
  pub brel : ℕ
  pub krel : ℕ
  pub urel : ℕ

unfoldable pub count_up : Table → Pass → Pass
count_up Table.bpf_table p = record p { brel = p.brel + 1 }
count_up Table.kernel_table p = record p { krel = p.krel + 1 }
count_up Table.user_table p = record p { urel = p.urel + 1 }
count_up Table.no_table p = p

-- The index `i` of the source is the length of what is in the buffer.
unfoldable pub place : IrNode → Pass → Pass
unfolding is_kept
place n p = record p {
  labels = if n.label == 0 then p.labels else set p.labels n.label (length p.buf);
  buf = if is_kept n then p.buf ++ (n.instr ∷ []) else p.buf;
}

unfoldable pub count_extern : Masks → IrNode → Pass → Res Pass
unfolding count_table count_up
count_extern ms n p = elim n.extern [
  | none ↦ done p
  | some i ↦ count_table ms n.instr i >>= λ t. done (count_up t p)
]

unfoldable pub first_pass : Masks → List IrNode → Pass → Res Pass
unfolding place count_extern
first_pass ms [] p = done p
first_pass ms (n ∷ ns) p = count_extern ms n (place n p) >>= first_pass ms ns

-- The conversion of a signed 16-bit number to an unsigned one of 32 bits.
unfoldable pub extend_16 : ℕ → ℕ
extend_16 v = if ltb v (2 ^ 15) then v else v + (2 ^ 32 - 2 ^ 16)

-- `labels[instr.off] - i - 1`, of 32 bits, stored in 16.
unfoldable pub relative : ℕ → ℕ → ℕ
relative target i = ((target + (2 ^ 32 - (i + 1))) % 2 ^ 32) % 2 ^ 16

unfoldable pub is_branch : Insn → Bool
unfolding is_nop
is_branch x =
    (bit_and x.code 7 == jmp)
    && not (is_nop x)
    && not ((bit_and x.code 240 == 128) || (bit_and x.code 240 == 144))

unfoldable pub resolve : List ℕ → (next_label i : ℕ) → Insn → Res Insn
unfolding is_branch extend_16 relative
resolve labels k i x =
    if is_branch x
    then if ltb (extend_16 x.off) k
      then done (record x { off = relative (get_or labels x.off 0) i })
      else fail AsError.failed_assert
    else done x

unfoldable pub second_pass : List ℕ → (next_label i : ℕ) → List Insn → Res (List Insn)
unfolding resolve
second_pass labels k i [] = done []
second_pass labels k i (x ∷ xs) =
    resolve labels k i x >>= λ y. second_pass labels k (i + 1) xs >>= λ ys. done (y ∷ ys)
