-- ===== src/Cg.antt =====
-- libdtrace/dt_cg.c: the code for expressions on integers.
--
-- dt_cg_node and the functions that it calls for constants, variables whose value is in a register,
-- arithmetic, comparisons, logical operators, `?:` and `,`, on operands that are neither pointers
-- nor strings. Division and remainder are those of unsigned operands. A longjmp is `fail`, and so
-- is a failed assertion of the register set.
pub mod Pool
pub mod Emit
pub mod Leaves
pub mod Binary
pub mod Logical
pub mod Tails
pub mod Shortcuts
pub mod Unary
pub mod Xor
pub mod Ternary
pub mod Question
pub mod Correct
pub mod Halves
pub mod Stddev
pub mod Update
mod Tests
use dtrace_utils.Common.{
  ℕ, ◌+◌, ◌-◌, ◌*◌, ◌^◌, Bool, true, false, ◌&&◌, Option, none, some, List, [], ◌∷◌, leb,
  if◌then◌else◌, length, set,
}
use dtrace_utils.As.{Insn, Ident, IrNode, IrList, irlist_append, irlist_label}
use dtrace_utils.Regset.{Regset, ok, abort, alloc, free}
use dtrace_utils.Bpf.{
  add_op, sub_op, mul_op, div_op, or_op, and_op, lsh_op, rsh_op, mod_op, xor_op, arsh_op, jeq, jgt,
  jge, jne, jsgt, jsge, jlt, jle, jslt, jsle, fp, minus_one, alu64_reg, alu64_imm, neg_reg, mov_reg,
  mov_imm, load_dw, store_dw, lddw_low, lddw_high, branch_reg, branch_imm, jump_to, nop,
}

-- What the parse control block holds for the code generator: pcb_ir and pcb_regs.
pub record Pcb : Type 0 where
  pub ir : IrList
  pub regs : Regset

pub data CgError : Type 0 where
  no_reg failed_assert : CgError

pub data Out (A : Type 0) : Type 0 where
  done : A → Pcb → Out A
  fail : CgError → Out A

abbrev pub Gen : Type 0 → Type 0
Gen A = Pcb → Out A

abbrev pub and_then : {A B : Type 0} → Out A → (A → Gen B) → Out B
and_then (done a c) f = f a c
and_then (fail e) f = fail e

infixl 5 ◌>>=◌
abbrev pub ◌>>=◌ : {A B : Type 0} → Gen A → (A → Gen B) → Gen B
g >>= f = λ c. and_then (g c) f

abbrev pub pure : {A : Type 0} → A → Gen A
pure a = λ c. done a c

-- dt_cg_node_alloc, where there is memory.
abbrev pub node_alloc : ℕ → Insn → IrNode
node_alloc label x = record { label = label; instr = x; extern = none }

-- emitl and emit.
abbrev pub emitl : ℕ → Insn → Gen (Unit {0})
emitl label x = λ c. done tt (record c { ir = irlist_append (node_alloc label x) c.ir })

abbrev pub emit : Insn → Gen (Unit {0})
emit x = emitl 0 x

abbrev pub new_label : Gen ℕ
new_label = λ c. let (l, ir) = irlist_label c.ir in done l (record c { ir = ir })

-- DT_STK_SPILL(reg), as the field `off`.
abbrev pub spill_slot : ℕ → ℕ → ℕ
spill_slot base reg = 2 ^ 16 - base - reg * 8

-- The store on `fp` for dt_cg_spill_store, and the load for dt_cg_spill_load; `base` is
-- -DT_STK_SPILL_BASE.
unfoldable pub spill_store : (base reg : ℕ) → Gen (Unit {0})
spill_store base reg = emit (store_dw fp (spill_slot base reg) reg)

unfoldable pub spill_load : (base reg : ℕ) → Gen (Unit {0})
spill_load base reg = emit (load_dw reg fp (spill_slot base reg))

pub data Arith : Type 0 where
  add sub mul div mod_ band bor xor lsh : Arith
  rsh : (signed : Bool) → Arith

pub data Compare : Type 0 where
  equ neq lt le gt ge : Compare

-- A node of the parse tree. `saved` is a variable whose value is in a register (DT_IDFLG_CGREG);
-- the flag of `comparison` is what dt_cg_compare_signed says of it.
pub data Node : Type 0 where
  int : ℕ → Node
  saved : ℕ → Node
  comma lor lxor land : Node → Node → Node
  binary : Arith → Node → Node → Node
  comparison : Compare → (signed : Bool) → Node → Node → Node
  lneg bneg ipos ineg : Node → Node
  question : Node → Node → Node → Node

unfoldable pub arith_op : Arith → ℕ
arith_op add = add_op
arith_op sub = sub_op
arith_op mul = mul_op
arith_op div = div_op
arith_op mod_ = mod_op
arith_op band = and_op
arith_op bor = or_op
arith_op xor = xor_op
arith_op lsh = lsh_op
arith_op (rsh signed) = if signed then arsh_op else rsh_op

unfoldable pub jump_op : Compare → (signed : Bool) → ℕ
jump_op equ signed = jeq
jump_op neq signed = jne
jump_op lt signed = if signed then jslt else jlt
jump_op le signed = if signed then jsle else jle
jump_op gt signed = if signed then jsgt else jgt
jump_op ge signed = if signed then jsge else jge

unfoldable pub setx : (reg x : ℕ) → Gen (Unit {0})
setx reg x = do _ ← emit (lddw_low reg x); emit (lddw_high x)

-- `dip->di_instr = x`, by the place of the node.
abbrev pub patch_nodes : ℕ → Insn → List IrNode → List IrNode
patch_nodes at x ns = set ns at (node_alloc 0 x)

abbrev pub patch : ℕ → Insn → Gen (Unit {0})
patch at x = λ c. done tt (record c { ir = record (c.ir) { nodes = patch_nodes at x c.ir.nodes } })

abbrev pub next_node : Gen ℕ
next_node = λ c. done (length c.ir.nodes) c

-- `base` is that of the spill slots.
module _ (base : ℕ) where
  -- dt_regset_alloc with its callback, and the longjmp where there is none.
  unfoldable pub alloc_reg : Gen ℕ
  unfolding spill_store
  alloc_reg c =
      let (o, regs) = alloc c.regs in
      elim o [
        | none ↦ fail CgError.no_reg
        | some reg ↦
            if c.regs.active reg
            then (spill_store base reg >>= λ _. pure reg) (record c { regs = regs })
            else done reg (record c { regs = regs })
      ]

  -- dt_regset_free with its callback.
  unfoldable pub free_reg : ℕ → Gen (Unit {0})
  unfolding spill_load
  free_reg reg c = elim (free reg c.regs) [
    | abort ↦ fail CgError.failed_assert
    | ok _ regs ↦
        if c.regs.spilled reg
        then spill_load base reg (record c { regs = regs })
        else done tt (record c { regs = regs })
  ]

  unfoldable pub const_int : ℕ → Gen ℕ
  unfolding alloc_reg setx
  const_int value = do
    reg ← alloc_reg
    _ ← (if leb (2 ^ 31) value then setx reg value else emit (mov_imm reg value))
    pure reg

  unfoldable pub copy_saved : ℕ → Gen ℕ
  unfolding alloc_reg
  copy_saved id = do reg ← alloc_reg; _ ← emit (mov_reg reg id); pure reg

  unfoldable pub comma_op : Gen ℕ → Gen ℕ → Gen ℕ
  unfolding free_reg
  comma_op left right = do l ← left; _ ← free_reg l; right

  unfoldable pub arithmetic_op : ℕ → Gen ℕ → Gen ℕ → Gen ℕ
  unfolding free_reg
  arithmetic_op op left right = do
    l ← left
    r ← right
    _ ← emit (alu64_reg op l r)
    _ ← free_reg r
    pure l

  unfoldable pub compare_op : ℕ → Gen ℕ → Gen ℕ → Gen ℕ
  unfolding free_reg
  compare_op op left right = do
    lbl_true ← new_label
    lbl_post ← new_label
    l ← left
    r ← right
    _ ← emit (branch_reg op l r lbl_true)
    _ ← free_reg r
    _ ← emit (mov_imm l 0)
    _ ← emit (jump_to lbl_post)
    _ ← emitl lbl_true (mov_imm l 1)
    _ ← emitl lbl_post nop
    pure l

  unfoldable pub logical_and : Gen ℕ → Gen ℕ → Gen ℕ
  unfolding free_reg setx
  logical_and left right = do
    lbl_false ← new_label
    lbl_post ← new_label
    l ← left
    _ ← emit (branch_imm jeq l 0 lbl_false)
    _ ← free_reg l
    r ← right
    _ ← emit (branch_imm jeq r 0 lbl_false)
    _ ← setx r 1
    _ ← emit (jump_to lbl_post)
    _ ← emitl lbl_false (mov_imm r 0)
    _ ← emitl lbl_post nop
    pure r

  unfoldable pub logical_xor : Gen ℕ → Gen ℕ → Gen ℕ
  unfolding free_reg setx
  logical_xor left right = do
    lbl_next ← new_label
    lbl_tail ← new_label
    l ← left
    _ ← emit (branch_imm jeq l 0 lbl_next)
    _ ← setx l 1
    _ ← emitl lbl_next nop
    r ← right
    _ ← emit (branch_imm jeq r 0 lbl_tail)
    _ ← setx r 1
    _ ← emitl lbl_tail (alu64_reg xor_op l r)
    _ ← free_reg r
    pure l

  unfoldable pub logical_or : Gen ℕ → Gen ℕ → Gen ℕ
  unfolding free_reg
  logical_or left right = do
    lbl_true ← new_label
    lbl_false ← new_label
    lbl_post ← new_label
    l ← left
    _ ← emit (branch_imm jne l 0 lbl_true)
    _ ← free_reg l
    r ← right
    _ ← emit (branch_imm jeq r 0 lbl_false)
    _ ← emitl lbl_true (mov_imm r 1)
    _ ← emit (jump_to lbl_post)
    _ ← emitl lbl_false (mov_imm r 0)
    _ ← emitl lbl_post nop
    pure r

  unfoldable pub ternary_op : Gen ℕ → Gen ℕ → Gen ℕ → Gen ℕ
  unfolding free_reg
  ternary_op expr left right = do
    lbl_false ← new_label
    lbl_post ← new_label
    e ← expr
    _ ← emit (branch_imm jeq e 0 lbl_false)
    _ ← free_reg e
    l ← left
    dip ← next_node
    _ ← emit (mov_imm l 0)
    _ ← free_reg l
    _ ← emit (jump_to lbl_post)
    _ ← emitl lbl_false nop
    r ← right
    _ ← patch dip (mov_reg r l)
    _ ← emitl lbl_post nop
    pure r

  unfoldable pub logical_neg : Gen ℕ → Gen ℕ
  logical_neg child = do
    lbl_zero ← new_label
    lbl_post ← new_label
    reg ← child
    _ ← emit (branch_imm jeq reg 0 lbl_zero)
    _ ← emit (mov_imm reg 0)
    _ ← emit (jump_to lbl_post)
    _ ← emitl lbl_zero (mov_imm reg 1)
    _ ← emitl lbl_post nop
    pure reg

  unfoldable pub with_insn : (ℕ → Insn) → Gen ℕ → Gen ℕ
  with_insn f child = do reg ← child; _ ← emit (f reg); pure reg

  -- dt_cg_node. The result is dn_reg.
  unfoldable pub cg_node : Node → Gen ℕ
  unfolding const_int copy_saved comma_op arithmetic_op compare_op logical_and logical_xor
      logical_or ternary_op logical_neg with_insn
  cg_node (int value) = const_int value
  cg_node (saved id) = copy_saved id
  cg_node (comma l r) = comma_op (cg_node l) (cg_node r)
  cg_node (lor l r) = logical_or (cg_node l) (cg_node r)
  cg_node (lxor l r) = logical_xor (cg_node l) (cg_node r)
  cg_node (land l r) = logical_and (cg_node l) (cg_node r)
  cg_node (binary op l r) = arithmetic_op (arith_op op) (cg_node l) (cg_node r)
  cg_node (comparison op signed l r) = compare_op (jump_op op signed) (cg_node l) (cg_node r)
  cg_node (lneg e) = logical_neg (cg_node e)
  cg_node (bneg e) = with_insn (λ reg. alu64_imm xor_op reg minus_one) (cg_node e)
  cg_node (ipos e) = cg_node e
  cg_node (ineg e) = with_insn neg_reg (cg_node e)
  cg_node (question e l r) = ternary_op (cg_node e) (cg_node l) (cg_node r)
