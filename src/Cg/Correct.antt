-- ===== src/Cg/Correct.antt =====
-- dt_cg_node: the code for an expression computes its value.
use dtrace_utils.Common.{
  ℕ, ◌+◌, ◌-◌, ◌*◌, ◌/◌, ◌%◌, ◌^◌, ◌≤◌, ◌≡◌, refl, max, Bool, true, false, not, bit_and, bit_or,
  bit_xor, leb, ◌==◌, if◌then◌else◌, arith,
}
use dtrace_utils.Regset.{Bitmap}
use dtrace_utils.Bpf.{alu64_reg}
use dtrace_utils.Bpf.Machine.{Regs, idle, exec, set_reg, below, shift_right_signed}
use dtrace_utils.Cg.{
  Pcb, Arith, Compare, Node, add, sub, mul, div, mod_, band, bor, xor, lsh, rsh, equ, neq, lt, le,
  gt, ge, int, saved, comma, lor, lxor, land, binary, comparison, lneg, bneg, ipos, ineg, question,
  arith_op, jump_op, cg_node,
}
use dtrace_utils.Cg.Pool.{frees}
use dtrace_utils.Cg.Emit.{IsReady, Emission, Emits}
use dtrace_utils.Cg.Binary.{Tests, arithmetic_op-Emits, compare_op-Emits}
use dtrace_utils.Cg.Tails.{truth}
use dtrace_utils.Cg.Leaves.{copy_saved-Emits}
use dtrace_utils.Cg.Unary.{const_int-Emits, with_insn-Emits, logical_neg-Emits}
use dtrace_utils.Cg.Shortcuts.{logical_and-Emits, logical_or-Emits}
use dtrace_utils.Cg.Xor.{logical_xor-Emits, comma_op-Emits}
use dtrace_utils.Cg.Ternary.{choose}
use dtrace_utils.Cg.Question.{ternary_op-Emits}

-- Operators of D on words of 64 bits. An unsigned division by 0 gives 0, a remainder the dividend.
abbrev pub apply : Arith → ℕ → ℕ → ℕ
apply add a b = (a + b) % 2 ^ 64
apply sub a b = (a + (2 ^ 64 - b)) % 2 ^ 64
apply mul a b = a * b % 2 ^ 64
apply div a b = if b == 0 then 0 else a / b
apply mod_ a b = if b == 0 then a else a % b
apply band a b = bit_and a b
apply bor a b = bit_or a b
apply xor a b = bit_xor a b
apply lsh a b = a * 2 ^ (b % 64) % 2 ^ 64
apply (rsh signed) a b = if signed then shift_right_signed a (b % 64) else a / 2 ^ (b % 64)

abbrev pub holds : Compare → Bool → ℕ → ℕ → Bool
holds equ signed a b = a == b
holds neq signed a b = not (a == b)
holds lt signed a b = below signed a b
holds le signed a b = if signed then not (below true b a) else leb a b
holds gt signed a b = below signed b a
holds ge signed a b = if signed then not (below true a b) else leb b a

-- The value of an expression, by the registers of the variables in it.
unfoldable pub value : Node → Regs → ℕ
value (int x) rs = x % 2 ^ 64
value (saved id) rs = rs id
value (comma l r) rs = value r rs
value (lor l r) rs = if not (value l rs == 0) then 1 else truth (value r rs)
value (lxor l r) rs = bit_xor (truth (value l rs)) (truth (value r rs))
value (land l r) rs = if value l rs == 0 then 0 else truth (value r rs)
value (binary op l r) rs = apply op (value l rs) (value r rs)
value (comparison op signed l r) rs = if holds op signed (value l rs) (value r rs) then 1 else 0
value (lneg e) rs = if value e rs == 0 then 1 else 0
value (bneg e) rs = bit_xor (value e rs) (2 ^ 64 - 1)
value (ipos e) rs = value e rs
value (ineg e) rs = (2 ^ 64 - value e rs) % 2 ^ 64
value (question e l r) rs = if value e rs == 0 then value r rs else value l rs

-- The registers that are needed at once.
unfoldable pub need : Node → ℕ
need (int x) = 1
need (saved id) = 1
need (comma l r) = max (need l) (need r)
need (lor l r) = max (need l) (need r)
need (lxor l r) = max (need l) (need r + 1)
need (land l r) = max (need l) (need r)
need (binary op l r) = max (need l) (need r + 1)
need (comparison op signed l r) = max (need l) (need r + 1)
need (lneg e) = need e
need (bneg e) = need e
need (ipos e) = need e
need (ineg e) = need e
need (question e l r) = max (need e) (max (need l) (need r))

-- The registers of variables are in `live`.
abbrev pub Reads : Bitmap → Node → Type 0
Reads live (int x) = Unit
Reads live (saved id) = live id ≡ true
Reads live (comma l r) = Reads live l × Reads live r
Reads live (lor l r) = Reads live l × Reads live r
Reads live (lxor l r) = Reads live l × Reads live r
Reads live (land l r) = Reads live l × Reads live r
Reads live (binary op l r) = Reads live l × Reads live r
Reads live (comparison op signed l r) = Reads live l × Reads live r
Reads live (lneg e) = Reads live e
Reads live (bneg e) = Reads live e
Reads live (ipos e) = Reads live e
Reads live (ineg e) = Reads live e
Reads live (question e l r) = Reads live e × Reads live l × Reads live r

exec-arith_op :
    (op : Arith) (l r : ℕ) (rs : Regs) (me : ℕ → ℕ)
    → exec (alu64_reg (arith_op op) l r) (idle rs me)
      ≡ idle (set_reg l (apply op (rs l) (rs r)) rs) me
unfolding arith_op
exec-arith_op add l r rs me = refl
exec-arith_op sub l r rs me = refl
exec-arith_op mul l r rs me = refl
exec-arith_op div l r rs me = refl
exec-arith_op mod_ l r rs me = refl
exec-arith_op band l r rs me = refl
exec-arith_op bor l r rs me = refl
exec-arith_op xor l r rs me = refl
exec-arith_op lsh l r rs me = refl
exec-arith_op (rsh true) l r rs me = refl
exec-arith_op (rsh false) l r rs me = refl

jump_op-Tests : (op : Compare) (signed : Bool) → Tests (holds op signed) (jump_op op signed)
unfolding jump_op
jump_op-Tests equ s l r lbl rs me h = ground arith
jump_op-Tests neq s l r lbl rs me h = ground arith
jump_op-Tests lt true l r lbl rs me h = ground arith
jump_op-Tests lt false l r lbl rs me h = ground arith
jump_op-Tests le true l r lbl rs me h = ground arith
jump_op-Tests le false l r lbl rs me h = ground arith
jump_op-Tests gt true l r lbl rs me h = ground arith
jump_op-Tests gt false l r lbl rs me h = ground arith
jump_op-Tests ge true l r lbl rs me h = ground arith
jump_op-Tests ge false l r lbl rs me h = ground arith

module _ (base : ℕ) (live : Bitmap) where
  cg_node-Emits : (e : Node) → Reads live e → Emits live (need e) (value e) (cg_node base e)
  unfolding cg_node need value choose
  cg_node-Emits (int x) h = const_int-Emits base live x
  cg_node-Emits (saved id) h = copy_saved-Emits base live id h
  cg_node-Emits (comma l r) (h, k) =
      comma_op-Emits base live (need l) (need r) (value l) (value r) (cg_node base l)
        (cg_node base r) (cg_node-Emits l h) (cg_node-Emits r k)
  cg_node-Emits (lor l r) (h, k) =
      logical_or-Emits base live (need l) (need r) (value l) (value r) (cg_node base l)
        (cg_node base r) (cg_node-Emits l h) (cg_node-Emits r k)
  cg_node-Emits (lxor l r) (h, k) =
      logical_xor-Emits base live (need l) (need r) (value l) (value r) (cg_node base l)
        (cg_node base r) (cg_node-Emits l h) (cg_node-Emits r k)
  cg_node-Emits (land l r) (h, k) =
      logical_and-Emits base live (need l) (need r) (value l) (value r) (cg_node base l)
        (cg_node base r) (cg_node-Emits l h) (cg_node-Emits r k)
  cg_node-Emits (binary op l r) (h, k) =
      arithmetic_op-Emits base live (arith_op op) (apply op) (need l) (need r) (value l) (value r)
        (cg_node base l) (cg_node base r) (exec-arith_op op) (cg_node-Emits l h) (cg_node-Emits r k)
  cg_node-Emits (comparison op signed l r) (h, k) =
      compare_op-Emits base live (jump_op op signed) (holds op signed) (need l) (need r) (value l)
        (value r) (cg_node base l) (cg_node base r) (jump_op-Tests op signed) (cg_node-Emits l h)
        (cg_node-Emits r k)
  cg_node-Emits (lneg e) h =
      logical_neg-Emits base live (need e) (value e) (cg_node base e) (cg_node-Emits e h)
  cg_node-Emits (bneg e) h =
      with_insn-Emits base live _ (λ v. bit_xor v (2 ^ 64 - 1)) (need e) (value e) (cg_node base e)
        (λ l rs me. refl) (cg_node-Emits e h)
  cg_node-Emits (ipos e) h = cg_node-Emits e h
  cg_node-Emits (ineg e) h =
      with_insn-Emits base live _ (λ v. (2 ^ 64 - v) % 2 ^ 64) (need e) (value e) (cg_node base e)
        (λ l rs me. refl) (cg_node-Emits e h)
  cg_node-Emits (question e l r) (h, k, m) =
      ternary_op-Emits base live (need e) (need l) (need r) (value e) (value l) (value r)
        (cg_node base e) (cg_node base l) (cg_node base r) (cg_node-Emits e h) (cg_node-Emits l k)
        (cg_node-Emits r m)

-- For an expression on integers whose variables are in registers that are in use, and with as many
-- registers free as it needs at once, dt_cg_node succeeds and takes one free register. It appends
-- code to the list; a BPF machine that runs it, with any values in its registers, leaves the value
-- of the expression in the register taken, and keeps memory and all registers that were in use. All
-- labels in the code are new, and no register is spilled.
pub cg_node-Emission :
    (base : ℕ) (e : Node) (c : Pcb)
    → IsReady c
    → Reads c.regs.active e
    → need e ≤ frees c.regs
    → Emission (value e) (cg_node base e) c
cg_node-Emission base e c y h k = (cg_node-Emits base c.regs.active e h).emits c y (λ j q. q) k
