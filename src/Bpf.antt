-- ===== src/Bpf.antt =====
-- include/bpf_asm.h and the operation codes of linux/bpf.h: the instructions that the code
-- generator builds. Fields are bit patterns, as in As.
pub mod Machine
pub mod Runs
pub mod Block
use dtrace_utils.Common.{ℕ, ◌+◌, ◌/◌, ◌%◌, ◌^◌, List, [], ◌∷◌}
use dtrace_utils.As.{Insn}

-- The operations of BPF_ALU64.
abbrev pub add_op : ℕ
add_op = 0x00

abbrev pub sub_op : ℕ
sub_op = 0x10

abbrev pub mul_op : ℕ
mul_op = 0x20

abbrev pub div_op : ℕ
div_op = 0x30

abbrev pub or_op : ℕ
or_op = 0x40

abbrev pub and_op : ℕ
and_op = 0x50

abbrev pub lsh_op : ℕ
lsh_op = 0x60

abbrev pub rsh_op : ℕ
rsh_op = 0x70

abbrev pub mod_op : ℕ
mod_op = 0x90

abbrev pub xor_op : ℕ
xor_op = 0xa0

abbrev pub mov_op : ℕ
mov_op = 0xb0

abbrev pub arsh_op : ℕ
arsh_op = 0xc0

-- The conditions of BPF_JMP.
abbrev pub jeq : ℕ
jeq = 0x10

abbrev pub jgt : ℕ
jgt = 0x20

abbrev pub jge : ℕ
jge = 0x30

abbrev pub jne : ℕ
jne = 0x50

abbrev pub jsgt : ℕ
jsgt = 0x60

abbrev pub jsge : ℕ
jsge = 0x70

abbrev pub jlt : ℕ
jlt = 0xa0

abbrev pub jle : ℕ
jle = 0xb0

abbrev pub jslt : ℕ
jslt = 0xc0

abbrev pub jsle : ℕ
jsle = 0xd0

abbrev pub fp : ℕ
fp = 10

-- `-1` as the field `imm`.
abbrev pub minus_one : ℕ
minus_one = 0xffffffff

abbrev pub alu64_reg : (op dst src : ℕ) → Insn
alu64_reg op dst src = record { code = op + 15; dst_reg = dst; src_reg = src; off = 0; imm = 0 }

abbrev pub alu64_imm : (op dst val : ℕ) → Insn
alu64_imm op dst val = record { code = op + 7; dst_reg = dst; src_reg = 0; off = 0; imm = val }

abbrev pub neg_reg : ℕ → Insn
neg_reg dst = record { code = 0x87; dst_reg = dst; src_reg = 0; off = 0; imm = 0 }

abbrev pub mov_reg : (dst src : ℕ) → Insn
mov_reg dst src = alu64_reg mov_op dst src

abbrev pub mov_imm : (dst val : ℕ) → Insn
mov_imm dst val = alu64_imm mov_op dst val

-- BPF_LOAD, BPF_STORE and BPF_XADD_REG for BPF_DW.
abbrev pub load_dw : (dst src ofs : ℕ) → Insn
load_dw dst src ofs = record { code = 0x79; dst_reg = dst; src_reg = src; off = ofs; imm = 0 }

abbrev pub store_dw : (dst ofs src : ℕ) → Insn
store_dw dst ofs src = record { code = 0x7b; dst_reg = dst; src_reg = src; off = ofs; imm = 0 }

abbrev pub xadd_dw : (dst ofs src : ℕ) → Insn
xadd_dw dst ofs src = record { code = 0xdb; dst_reg = dst; src_reg = src; off = ofs; imm = 0 }

-- The two instructions of BPF_LDDW.
abbrev pub lddw_low : (dst val : ℕ) → Insn
lddw_low dst val = record { code = 0x18; dst_reg = dst; src_reg = 0; off = 0; imm = val % 2 ^ 32 }

abbrev pub lddw_high : ℕ → Insn
lddw_high val = record { code = 0; dst_reg = 0; src_reg = 0; off = 0; imm = val % 2 ^ 64 / 2 ^ 32 }

abbrev pub branch_reg : (op r1 r2 ofs : ℕ) → Insn
branch_reg op r1 r2 ofs = record { code = op + 13; dst_reg = r1; src_reg = r2; off = ofs; imm = 0 }

abbrev pub branch_imm : (op r1 val ofs : ℕ) → Insn
branch_imm op r1 val ofs = record { code = op + 5; dst_reg = r1; src_reg = 0; off = ofs; imm = val }

abbrev pub jump_to : ℕ → Insn
jump_to ofs = record { code = 5; dst_reg = 0; src_reg = 0; off = ofs; imm = 0 }

abbrev pub nop : Insn
nop = jump_to 0
