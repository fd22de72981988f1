-- ===== src/Bpf/Machine.antt =====
-- A BPF machine that runs a list of nodes, as the kernel documents the instructions that the code
-- generator emits. It describes what the generated code means, and is no code of the repository.
--
-- A branch names a label, and goes on at the next node with that label; while it looks for it, the
-- machine holds the label in `jump`. Only branches forward are described. The first half of
-- BPF_LDDW leaves its register in `wide` for the second. Memory is words of 64 bits by address.
-- Calls and returns are left out.
use dtrace_utils.Common.{
  ℕ, ◌+◌, ◌-◌, ◌*◌, ◌/◌, ◌%◌, ◌^◌, Bool, true, false, not, ◌&&◌, Option, none, some, List, [], ◌∷◌,
  bit_and, bit_or, bit_xor, ltb, leb, ◌==◌, if◌then◌else◌,
}
use dtrace_utils.As.{Insn, IrNode}

abbrev pub Regs : Type 0
Regs = ℕ → ℕ

pub record Machine : Type 0 where
  pub regs : Regs
  pub mem : ℕ → ℕ
  pub jump : Option ℕ
  pub wide : Option ℕ

abbrev pub idle : Regs → (ℕ → ℕ) → Machine
idle r me = record { regs = r; mem = me; jump = none; wide = none }

abbrev pub jumping : ℕ → Regs → (ℕ → ℕ) → Machine
jumping l r me = record { regs = r; mem = me; jump = some l; wide = none }

abbrev pub set_reg : ℕ → ℕ → Regs → Regs
set_reg reg v r = λ j. if j == reg then v else r j

-- A field `imm` as a word.
abbrev pub extend_32 : ℕ → ℕ
extend_32 imm = if ltb imm (2 ^ 31) then imm else imm + (2 ^ 64 - 2 ^ 32)

-- A field `off` added to an address.
abbrev pub address : (base off : ℕ) → ℕ
address base off = (base + (if ltb off (2 ^ 15) then off else off + (2 ^ 64 - 2 ^ 16))) % 2 ^ 64

abbrev pub is_neg : ℕ → Bool
is_neg a = leb (2 ^ 63) a

-- `<` of two words, signed or not.
abbrev pub below : Bool → ℕ → ℕ → Bool
below false a b = ltb a b
below true a b =
    if is_neg a then (if is_neg b then ltb a b else true) else (if is_neg b then false else ltb a b)

abbrev pub shift_right_signed : ℕ → ℕ → ℕ
shift_right_signed a k = if is_neg a then 2 ^ 64 - 1 - (2 ^ 64 - 1 - a) / 2 ^ k else a / 2 ^ k

abbrev pub alu : (op a b : ℕ) → ℕ
alu op a b =
    if op == 0x00
    then (a + b) % 2 ^ 64
    else if op == 0x10
    then (a + (2 ^ 64 - b)) % 2 ^ 64
    else if op == 0x20
    then a * b % 2 ^ 64
    else if op == 0x30
    then (if b == 0 then 0 else a / b)
    else if op == 0x40
    then bit_or a b
    else if op == 0x50
    then bit_and a b
    else if op == 0x60
    then a * 2 ^ (b % 64) % 2 ^ 64
    else if op == 0x70
    then a / 2 ^ (b % 64)
    else if op == 0x80
    then (2 ^ 64 - a) % 2 ^ 64
    else if op == 0x90
    then (if b == 0 then a else a % b)
    else if op == 0xa0
    then bit_xor a b
    else if op == 0xb0
    then b
    else shift_right_signed a (b % 64)

abbrev pub is_taken : (op a b : ℕ) → Bool
is_taken op a b =
    if op == 0x00
    then true
    else if op == 0x10
    then a == b
    else if op == 0x20
    then ltb b a
    else if op == 0x30
    then leb b a
    else if op == 0x50
    then not (a == b)
    else if op == 0x60
    then below true b a
    else if op == 0x70
    then not (below true a b)
    else if op == 0xa0
    then ltb a b
    else if op == 0xb0
    then leb a b
    else if op == 0xc0
    then below true a b
    else not (below true b a)

abbrev pub operand : Insn → Regs → ℕ
operand x r = if x.code / 8 % 2 == 1 then r x.src_reg else extend_32 x.imm

abbrev pub set_high : Option ℕ → ℕ → Machine → Machine
set_high none imm m = m
set_high (some d) imm m = record m {
  regs = set_reg d (m.regs d + imm * 2 ^ 32) m.regs;
  wide = none;
}

abbrev pub exec : Insn → Machine → Machine
exec x m =
    if x.code % 8 == 7
    then record m {
      regs =
          set_reg x.dst_reg (alu (x.code / 16 * 16) (m.regs x.dst_reg) (operand x m.regs)) m.regs;
    }
    else if x.code % 8 == 5
    then (if is_taken (x.code / 16 * 16) (m.regs x.dst_reg) (operand x m.regs) && not (x.off == 0)
        then record m { jump = some x.off }
        else m)
    else if x.code == 0x18
    then record m { regs = set_reg x.dst_reg x.imm m.regs; wide = some x.dst_reg }
    else if x.code == 0x79
    then record m { regs = set_reg x.dst_reg (m.mem (address (m.regs x.src_reg) x.off)) m.regs }
    else if x.code == 0x7b
    then record m { mem = set_reg (address (m.regs x.dst_reg) x.off) (m.regs x.src_reg) m.mem }
    else if x.code == 0xdb
    then record m {
      mem =
          set_reg (address (m.regs x.dst_reg) x.off)
            ((m.mem (address (m.regs x.dst_reg) x.off) + m.regs x.src_reg) % 2 ^ 64) m.mem;
    }
    else set_high m.wide x.imm m

abbrev pub step : IrNode → Machine → Machine
step n m = elim m.jump [
  | none ↦ exec n.instr m
  | some l ↦ if n.label == l then exec n.instr (record m { jump = none }) else m
]

unfoldable pub run : List IrNode → Machine → Machine
run [] m = m
run (n ∷ ns) m = run ns (step n m)
