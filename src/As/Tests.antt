-- ===== src/As/Tests.antt =====
-- dt_as.c on a program that jumps over one instruction, and its witnesses.
use dtrace_utils.Common.{
  ℕ, ◌+◌, ◌≡◌, ◌≢◌, refl, true, false, Option, none, some, List, [], ◌∷◌, length, arith,
}
use dtrace_utils.As.{
  Insn, Ident, IrNode, IrList, LinkMode, AsError, done, fail, is_kept, is_nop, is_branch, extend_16,
  is_bpf, link_masks, first_pass, second_pass,
}
use dtrace_utils.As.Reloc.{Relocated, assemble, relocations, is_func}
use dtrace_utils.As.Labels.{kept}
use dtrace_utils.As.Jumps.{target, branch-target}
use dtrace_utils.As.Steps.{off_at}
use dtrace_utils.As.Asserts.{assemble-Asserts}

-- The table of strings: a counter.
abbrev count_strings : List ℕ → ℕ → Option (ℕ × ℕ)
count_strings name s = some (s, s + length name + 1)

abbrev op : ℕ → ℕ → Insn
op code off = record { code = code; dst_reg = 0; src_reg = 0; off = off; imm = 0 }

abbrev plain : ℕ → Insn → IrNode
plain label x = record { label = label; instr = x; extern = none }

abbrev symbol : Ident
symbol = record { name = 7 ∷ []; flags = 0; kind = 8; id = 0; syminfo = some 9 }

-- A branch to label 3, a load with a kernel symbol, the label.
abbrev jump_nodes : List IrNode
jump_nodes =
    plain 0 (op 85 3)
    ∷ record { label = 0; instr = op 24 0; extern = some symbol }
    ∷ plain 3 (op 5 0)
    ∷ plain 0 (op 149 0)
    ∷ []

abbrev jump_list : IrList
jump_list = record { nodes = jump_nodes; len = 3; next_label = 4 }

abbrev jump_out : Relocated ℕ
jump_out = record {
  index = 3;
  buf = op 85 1 ∷ op 24 0 ∷ op 149 0 ∷ [];
  breltab = [];
  kreltab = record { rtype = 1; name = 0; offset = 8; rdata = 9 } ∷ [];
  ureltab = [];
  strs = 2;
}

assemble_test :
    assemble count_strings LinkMode.link_dynamic true true false jump_list 0 ≡ done jump_out
unfolding assemble first_pass second_pass relocations link_masks
assemble_test = refl

undefined_test :
    assemble count_strings LinkMode.link_dynamic false true false jump_list 0
    ≡ fail AsError.undefined_symbol
unfolding assemble first_pass second_pass relocations link_masks
undefined_test = refl

branch-target_example :
    target (length (kept [])) (off_at (length (kept [])) jump_out.buf)
    ≡ length (
        kept (plain 0 (op 85 3) ∷ record { label = 0; instr = op 24 0; extern = some symbol } ∷ []))
unfolding kept is_kept is_branch is_nop
branch-target_example =
    branch-target count_strings LinkMode.link_dynamic true true false jump_list 0 jump_out []
      (plain 0 (op 85 3))
      (record { label = 0; instr = op 24 0; extern = some symbol }
        ∷ plain 3 (op 5 0)
        ∷ plain 0 (op 149 0)
        ∷ [])
      (plain 0 (op 85 3) ∷ record { label = 0; instr = op 24 0; extern = some symbol } ∷ [])
      (plain 3 (op 5 0)) (plain 0 (op 149 0) ∷ []) assemble_test refl refl refl refl refl
      (omega arith) (omega arith) (omega arith, tt) (omega arith) (omega arith) (omega arith)

assemble-Asserts_example :
    assemble count_strings LinkMode.link_dynamic false true false jump_list 0
    ≢ fail AsError.failed_assert
unfolding kept is_kept is_branch is_nop extend_16 is_bpf is_func
assemble-Asserts_example =
    assemble-Asserts count_strings LinkMode.link_dynamic false true false jump_list 0 refl refl
      ((λ e. omega arith), ((λ e. omega arith), ((λ e. omega arith), tt)))
      (tt, (((λ e. absurd (cc)), (λ e f. absurd (cc))), (tt, (tt, tt))))
