-- ===== src/Cg/Ternary.antt =====
-- dt_cg_ternary_op: the code whose instruction is patched once the result's register is known.
use dtrace_utils.Common.{
  ℕ, ◌+◌, ◌<◌, ◌≡◌, inl, inr, refl, ap, ◌∙◌, true, false, List, [], ◌∷◌, ◌++◌, ◌==◌, if◌then◌else◌,
  arith, Bool-cases,
}
use dtrace_utils.As.{Insn, IrNode}
use dtrace_utils.Regset.{Regset, Bitmap}
use dtrace_utils.Bpf.{jeq, branch_imm, mov_reg, jump_to, nop}
use dtrace_utils.Bpf.Machine.{Regs, idle, jumping, exec, run, set_reg}
use dtrace_utils.Bpf.Runs.{node, run-append, run-past, run-at, run-next, run-branch, exec-jump_to}
use dtrace_utils.Cg.Pool.{Alike}
use dtrace_utils.Cg.Emit.{Sealed, run-skip, Computes}
use dtrace_utils.Cg.Logical.{jeq-Stops}

-- The nodes between the two values: `first` is patched, then the way past the other value.
unfoldable pub middle : Insn → (lf : ℕ) → List IrNode
middle first lf = node 0 first ∷ node 0 (jump_to (lf + 1)) ∷ node lf nop ∷ []

module _ (lf : ℕ) (h : 0 < lf) (rs : Regs) (me : ℕ → ℕ) where
  middle-jumping : (first : Insn) → run (middle first lf) (jumping lf rs me) ≡ idle rs me
  unfolding middle run
  middle-jumping first =
      let e : (0 == lf) ≡ false = ground arith in
      let s : (lf == lf) ≡ true = ground arith in
      run-past (node 0 first) (node 0 (jump_to (lf + 1)) ∷ node lf nop ∷ []) lf rs me e
      ∙ run-past (node 0 (jump_to (lf + 1))) (node lf nop ∷ []) lf rs me e
      ∙ run-at (node lf nop) [] lf rs me s

  middle-idle :
      (r l : ℕ)
      → run (middle (mov_reg r l) lf) (idle rs me) ≡ jumping (lf + 1) (set_reg r (rs l) rs) me
  unfolding middle run
  middle-idle r l =
      let rs' = set_reg r (rs l) rs in
      let n : (lf == lf + 1) ≡ false = ground arith in
      let z : (lf + 1 == 0) ≡ false = ground arith in
      run-next (node 0 (mov_reg r l)) (node 0 (jump_to (lf + 1)) ∷ node lf nop ∷ []) rs me
        (idle rs' me) refl
      ∙ run-branch (jump_to (lf + 1)) (node lf nop ∷ []) rs' me (jumping (lf + 1) rs' me)
          (exec-jump_to (lf + 1) rs' me z)
      ∙ run-past (node lf nop) [] (lf + 1) rs' me n

-- The code of the second value and its end.
unfoldable pub last_part : List IrNode → (lf : ℕ) → List IrNode
last_part cr lf = cr ++ (node (lf + 1) nop ∷ [])

last_part-jumping :
    (cr : List IrNode) (lf lo hi : ℕ) (rs : Regs) (me : ℕ → ℕ)
    → Sealed lo hi cr
    → lf + 1 < lo
    → run (last_part cr lf) (jumping (lf + 1) rs me) ≡ idle rs me
unfolding last_part run
last_part-jumping cr lf lo hi rs me st h =
    let s : (lf + 1 == lf + 1) ≡ true = ground arith in
    run-append cr (node (lf + 1) nop ∷ []) (jumping (lf + 1) rs me)
    ∙ ap (run (node (lf + 1) nop ∷ [])) (run-skip lo hi (lf + 1) cr rs me st (omega arith) (inl h))
    ∙ run-at (node (lf + 1) nop) [] (lf + 1) rs me s

last_part-idle :
    (cr : List IrNode) (lf : ℕ) (rs rs' : Regs) (me : ℕ → ℕ)
    → run cr (idle rs me) ≡ idle rs' me
    → run (last_part cr lf) (idle rs me) ≡ idle rs' me
unfolding last_part run
last_part-idle cr lf rs rs' me e =
    run-append cr (node (lf + 1) nop ∷ []) (idle rs me) ∙ ap (run (node (lf + 1) nop ∷ [])) e

unfoldable pub choose : ℕ → ℕ → ℕ → ℕ
choose e a b = if e == 0 then b else a

unfoldable pub ternary_code : (e lf r l : ℕ) (ce cl cr : List IrNode) → List IrNode
ternary_code e lf r l ce cl cr =
    ce ++ (node 0 (branch_imm jeq e 0 lf) ∷ (cl ++ (middle (mov_reg r l) lf ++ last_part cr lf)))

pub ternary-Computes :
    (live : Bitmap) (ve vl vr : Regs → ℕ) (s u1 u2 : Regset) (e lf l r lo2 hi2 lo3 hi3 : ℕ)
    (ce cl cr : List IrNode)
    → ((j : ℕ) → live j ≡ true → s.active j ≡ true)
    → ((r s : Regs) → ((j : ℕ) → live j ≡ true → r j ≡ s j) → vl r ≡ vl s)
    → ((r s : Regs) → ((j : ℕ) → live j ≡ true → r j ≡ s j) → vr r ≡ vr s)
    → 0 < lf
    → Alike s u1
    → Alike s u2
    → ((j : ℕ) → s.active j ≡ true → (j == r) ≡ false)
    → Computes ve s e ce
    → Sealed lo2 hi2 cl
    → lf < lo2
    → Computes vl u1 l cl
    → Sealed lo3 hi3 cr
    → lf + 1 < lo3
    → Computes vr u2 r cr
    → Computes (λ rs. choose (ve rs) (vl rs) (vr rs)) s r (ternary_code e lf r l ce cl cr)
unfolding ternary_code choose
ternary-Computes live ve vl vr s u1 u2 e lf l r lo2 hi2 lo3 hi3 ce cl cr lv el er h a1 a2 ne ke s2
      h2 kl s3 h3 kr rs me =
    let (r1, e1, v1, k1) = ke rs me in
    let x = branch_imm jeq e 0 lf in
    let back = middle (mov_reg r l) lf ++ last_part cr lf in
    let same = λ (j : ℕ) (q : live j ≡ true). k1 j (lv j q) in
    let start =
      run-append ce (node 0 x ∷ (cl ++ back)) (idle rs me)
      ∙ ap (run (node 0 x ∷ (cl ++ back))) e1 in
    elim (Bool-cases (ve rs == 0)) [
      | inl z ↦
          let z' : (r1 e == 0) ≡ true = ap (λ (v : ℕ). v == 0) v1 ∙ z in
          let br : exec x (idle r1 me) ≡ jumping lf r1 me = jeq-Stops e lf h r1 me ∙ rw (z') refl in
          let (r3, e3, v3, k3) = kr r1 me in
          (
            r3,
            start
                ∙ run-branch x (cl ++ back) r1 me (jumping lf r1 me) br
                ∙ run-append cl back (jumping lf r1 me)
                ∙ ap (run back) (run-skip lo2 hi2 lf cl r1 me s2 h (inl h2))
                ∙ run-append (middle (mov_reg r l) lf) (last_part cr lf) (jumping lf r1 me)
                ∙ ap (run (last_part cr lf)) (middle-jumping lf h r1 me (mov_reg r l))
                ∙ last_part-idle cr lf r1 r3 me e3,
            rw (z) (v3 ∙ er r1 rs same),
            λ j q. k3 j (a2.active j ∙ q) ∙ k1 j q,
          )
      | inr z ↦
          let z' : (r1 e == 0) ≡ false = ap (λ (v : ℕ). v == 0) v1 ∙ z in
          let br : exec x (idle r1 me) ≡ idle r1 me = jeq-Stops e lf h r1 me ∙ rw (z') refl in
          let (r2, e2, v2, k2) = kl r1 me in
          let w : set_reg r (r2 l) r2 r ≡ r2 l = ground arith in
          (
            set_reg r (r2 l) r2,
            start
                ∙ run-branch x (cl ++ back) r1 me (idle r1 me) br
                ∙ run-append cl back (idle r1 me)
                ∙ ap (run back) e2
                ∙ run-append (middle (mov_reg r l) lf) (last_part cr lf) (idle r2 me)
                ∙ ap (run (last_part cr lf)) (middle-idle lf h r2 me r l)
                ∙ last_part-jumping cr lf lo3 hi3 (set_reg r (r2 l) r2) me s3 h3,
            rw (z) (w ∙ v2 ∙ el r1 rs same),
            λ j q. rw (ne j q) (k2 j (a1.active j ∙ q) ∙ k1 j q),
          )
    ]
