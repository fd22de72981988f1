-- ===== src/Cg/Tails.antt =====
-- dt_cg.c: the ends of the code for `&&`, `||` and `!`.
use dtrace_utils.Common.{
  ℕ, ◌+◌, ◌≤◌, ◌<◌, ◌≡◌, inl, inr, refl, ◌∙◌, true, false, List, ◌∷◌, ◌==◌, if◌then◌else◌, arith,
  Bool-cases,
}
use dtrace_utils.As.{IrNode}
use dtrace_utils.Bpf.{jeq, branch_imm, mov_imm, lddw_low, lddw_high}
use dtrace_utils.Bpf.Machine.{Regs, idle, jumping, exec, run, set_reg}
use dtrace_utils.Bpf.Runs.{
  node, run-past, run-at, run-next, run-branch, run-lddw, set_wide, set_wide_self, set_wide-ne,
  choice, choice-first, choice-other,
}
use dtrace_utils.Cg.Emit.{Sealed}
use dtrace_utils.Cg.Logical.{Turns, Lands, jeq-Stops}

-- For `&&` with setx, for `||`, and for `!`.
unfoldable pub and_tail : (lf r : ℕ) → List IrNode
and_tail lf r =
    node 0 (branch_imm jeq r 0 lf)
    ∷ node 0 (lddw_low r 1)
    ∷ node 0 (lddw_high 1)
    ∷ choice lf (lf + 1) r 0

unfoldable pub or_tail : (lt r : ℕ) → List IrNode
or_tail lt r =
    node 0 (branch_imm jeq r 0 (lt + 1)) ∷ node lt (mov_imm r 1) ∷ choice (lt + 1) (lt + 1 + 1) r 0

unfoldable pub neg_tail : (lz r : ℕ) → List IrNode
neg_tail lz r = node 0 (branch_imm jeq r 0 lz) ∷ node 0 (mov_imm r 0) ∷ choice lz (lz + 1) r 1

-- 1 for what is not 0.
abbrev pub truth : ℕ → ℕ
truth v = if v == 0 then 0 else 1

module _ (l r : ℕ) (h : 0 < l) (rs : Regs) (me : ℕ → ℕ) where
  skipped : (0 == l) ≡ false
  skipped = ground arith

  branched : (rs r == 0) ≡ true → exec (branch_imm jeq r 0 l) (idle rs me) ≡ jumping l rs me
  branched z = jeq-Stops r l h rs me ∙ rw (z) refl

  passed : (rs r == 0) ≡ false → exec (branch_imm jeq r 0 l) (idle rs me) ≡ idle rs me
  passed z = jeq-Stops r l h rs me ∙ rw (z) refl

  and_rest :
      run (node 0 (lddw_low r 1) ∷ node 0 (lddw_high 1) ∷ choice l (l + 1) r 0) (jumping l rs me)
      ≡ idle (set_reg r 0 rs) me
  and_rest =
      let last = choice l (l + 1) r 0 in
      run-past (node 0 (lddw_low r 1)) (node 0 (lddw_high 1) ∷ last) l rs me skipped
      ∙ run-past (node 0 (lddw_high 1)) last l rs me skipped
      ∙ choice-other l r 0 h (omega arith) rs me

  self : (v : ℕ) → set_reg r v rs r ≡ v
  self v = ground arith

pub and_tail-Turns : (l r : ℕ) → 0 < l → Turns truth r (and_tail l r)
unfolding and_tail
and_tail-Turns l r h rs me =
    let last = choice l (l + 1) r 0 in
    let rest = node 0 (lddw_low r 1) ∷ node 0 (lddw_high 1) ∷ last in
    elim (Bool-cases (rs r == 0)) [
      | inl z ↦ (
        set_reg r 0 rs,
        run-branch (branch_imm jeq r 0 l) rest rs me (jumping l rs me) (branched l r h rs me z)
            ∙ and_rest l r h rs me,
        rw (z) (self l r h rs me 0),
        λ j k. rw (k) refl,
      )
      | inr z ↦ (
        set_wide r 1 rs,
        run-branch (branch_imm jeq r 0 l) rest rs me (idle rs me) (passed l r h rs me z)
            ∙ run-lddw r 1 last rs me
            ∙ choice-first l r 0 h (omega arith) (set_wide r 1 rs) me,
        rw (z) (set_wide_self r 1 rs),
        λ j k. set_wide-ne r 1 j rs k,
      )
    ]

pub and_tail-Lands : (l r : ℕ) → 0 < l → Lands l r 0 (and_tail l r)
unfolding and_tail
and_tail-Lands l r h rs me =
    let rest = node 0 (lddw_low r 1) ∷ node 0 (lddw_high 1) ∷ choice l (l + 1) r 0 in
    run-past (node 0 (branch_imm jeq r 0 l)) rest l rs me (skipped l r h rs me)
    ∙ and_rest l r h rs me

pub or_tail-Turns : (l r : ℕ) → 0 < l → Turns truth r (or_tail l r)
unfolding or_tail
or_tail-Turns l r h rs me =
    let last = choice (l + 1) (l + 1 + 1) r 0 in
    let h1 : 0 < l + 1 = omega arith in
    let ne : (l == l + 1) ≡ false = ground arith in
    elim (Bool-cases (rs r == 0)) [
      | inl z ↦ (
        set_reg r 0 rs,
        run-branch (branch_imm jeq r 0 (l + 1)) (node l (mov_imm r 1) ∷ last) rs me
              (jumping (l + 1) rs me) (branched (l + 1) r h1 rs me z)
            ∙ run-past (node l (mov_imm r 1)) last (l + 1) rs me ne
            ∙ choice-other (l + 1) r 0 h1 (omega arith) rs me,
        rw (z) (self l r h rs me 0),
        λ j k. rw (k) refl,
      )
      | inr z ↦ (
        set_reg r 1 rs,
        run-branch (branch_imm jeq r 0 (l + 1)) (node l (mov_imm r 1) ∷ last) rs me (idle rs me)
              (passed (l + 1) r h1 rs me z)
            ∙ run-next (node l (mov_imm r 1)) last rs me (idle (set_reg r 1 rs) me) refl
            ∙ choice-first (l + 1) r 0 h1 (omega arith) (set_reg r 1 rs) me,
        rw (z) (self l r h rs me 1),
        λ j k. rw (k) refl,
      )
    ]

pub or_tail-Lands : (l r : ℕ) → 0 < l → Lands l r 1 (or_tail l r)
unfolding or_tail
or_tail-Lands l r h rs me =
    let last = choice (l + 1) (l + 1 + 1) r 0 in
    let e : (l == l) ≡ true = ground arith in
    run-past (node 0 (branch_imm jeq r 0 (l + 1))) (node l (mov_imm r 1) ∷ last) l rs me
      (skipped l r h rs me)
    ∙ run-at (node l (mov_imm r 1)) last l rs me e
    ∙ choice-first (l + 1) r 0 (omega arith) (omega arith) (set_reg r 1 rs) me

pub neg_tail-Turns : (l r : ℕ) → 0 < l → Turns (λ v. if v == 0 then 1 else 0) r (neg_tail l r)
unfolding neg_tail
neg_tail-Turns l r h rs me =
    let last = choice l (l + 1) r 1 in
    elim (Bool-cases (rs r == 0)) [
      | inl z ↦ (
        set_reg r 1 rs,
        run-branch (branch_imm jeq r 0 l) (node 0 (mov_imm r 0) ∷ last) rs me (jumping l rs me)
              (branched l r h rs me z)
            ∙ run-past (node 0 (mov_imm r 0)) last l rs me (skipped l r h rs me)
            ∙ choice-other l r 1 h (omega arith) rs me,
        rw (z) (self l r h rs me 1),
        λ j k. rw (k) refl,
      )
      | inr z ↦ (
        set_reg r 0 rs,
        run-branch (branch_imm jeq r 0 l) (node 0 (mov_imm r 0) ∷ last) rs me (idle rs me)
              (passed l r h rs me z)
            ∙ run-next (node 0 (mov_imm r 0)) last rs me (idle (set_reg r 0 rs) me) refl
            ∙ choice-first l r 1 h (omega arith) (set_reg r 0 rs) me,
        rw (z) (self l r h rs me 0),
        λ j k. rw (k) refl,
      )
    ]

module _ (l r lo hi : ℕ) (p : lo ≤ l) where
  pub and_tail-Sealed : l + 1 < hi → Sealed lo hi (and_tail l r)
  unfolding and_tail choice
  and_tail-Sealed q = (
    inl refl,
    (inl refl, (inl refl, (inl refl, (inr (p, omega arith), (inr (omega arith, q), tt))))),
  )

  pub or_tail-Sealed : l + 1 + 1 < hi → Sealed lo hi (or_tail l r)
  unfolding or_tail choice
  or_tail-Sealed q = (
    inl refl,
    (
      inr (p, omega arith),
      (inl refl, (inr (omega arith, omega arith), (inr (omega arith, q), tt))),
    ),
  )

  pub neg_tail-Sealed : l + 1 < hi → Sealed lo hi (neg_tail l r)
  unfolding neg_tail choice
  neg_tail-Sealed q =
      (inl refl, (inl refl, (inl refl, (inr (p, omega arith), (inr (omega arith, q), tt)))))
