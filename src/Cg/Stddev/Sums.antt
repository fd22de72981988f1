-- ===== src/Cg/Stddev/Sums.antt =====
-- dt_cg_agg_stddev_impl: the 128-bit sum of squares, and the words before it.
use dtrace_utils.Common.{
  ℕ, ◌+◌, ◌*◌, ◌%◌, ◌^◌, ◌<◌, ◌≡◌, refl, sym, ap, ap₂, ◌∙◌, inl, inr, Bool, true, false, [], ◌∷◌,
  leb, ◌==◌, if◌then◌else◌, arith, Bool-cases,
}
use dtrace_utils.Bpf.{jle, store_dw, xadd_dw, branch_reg}
use dtrace_utils.Bpf.Machine.{Regs, Machine, idle, jumping, exec, run, set_reg, address}
use dtrace_utils.Bpf.Runs.{zero_ne, node, eq_self, eq_comm, run-past, run-at, run-next, run-branch}
use dtrace_utils.Cg.Emit.{}
use dtrace_utils.Cg.Stddev.Words.{add_nodes, high_nodes, Summed, address-ne, wide_sum}

module _ (rs : Regs) (me : ℕ → ℕ) (d v h l one low lbl : ℕ) (pos : 0 < lbl)
    (d1 : (d == one) ≡ false) (v1 : (v == one) ≡ false) (h1 : (h == one) ≡ false)
    (l1 : (l == one) ≡ false) (d2 : (d == low) ≡ false) (v2 : (v == low) ≡ false)
    (h2 : (h == low) ≡ false) (l2 : (l == low) ≡ false) (ol : (one == low) ≡ false) where
  abbrev pub at : ℕ → ℕ
  at i = address (rs d) i

  abbrev pub counted : ℕ → ℕ
  counted = set_reg (at 0) ((me (at 0) + 1) % 2 ^ 64) me

  abbrev pub added : ℕ → ℕ
  added = set_reg (at 8) ((counted (at 8) + rs v) % 2 ^ 64) counted

  abbrev pub low_total : ℕ
  low_total = (added (at 16) + rs l) % 2 ^ 64

  abbrev pub loaded : Regs
  loaded = set_reg low (added (at 16)) (set_reg one 1 rs)

  abbrev pub summed : Regs
  summed = set_reg low ((loaded low + loaded l) % 2 ^ 64) loaded

  pub add-run : run (add_nodes d v l one low) (idle rs me) ≡ idle summed added
  unfolding run add_nodes
  add-run = rw (d1, v1, eq_self one) refl

  summed-low : summed low ≡ low_total
  summed-low = rw (eq_self low, l2, l1) refl

  summed-one : summed one ≡ 1
  summed-one = rw (ol, eq_self one) refl

  pub summed-other : (j : ℕ) → (j == one) ≡ false → (j == low) ≡ false → summed j ≡ rs j
  summed-other j p q = rw (q, p) refl

  abbrev pub carried : Bool → ℕ → ℕ
  carried c = if c then added else set_reg (at 24) ((added (at 24) + 1) % 2 ^ 64) added

  -- Memory after the last two instructions, from `m`.
  abbrev pub final : (ℕ → ℕ) → ℕ → ℕ
  final m =
      set_reg (at 24) ((set_reg (at 16) low_total m (at 24) + rs h) % 2 ^ 64)
        (set_reg (at 16) low_total m)

  abbrev pub ending : (x y z : ℕ) → (ℕ → ℕ) → Machine
  ending x y z m = idle summed (
      set_reg (address x 24) ((set_reg (address x 16) y m (address x 24) + z) % 2 ^ 64)
        (set_reg (address x 16) y m))

  end-run :
      (m : ℕ → ℕ)
      → run (node lbl (store_dw d 16 low) ∷ node 0 (xadd_dw d 24 h) ∷ []) (idle summed m)
        ≡ idle summed (final m)
  unfolding run
  end-run m =
      ap₂ (λ (x y : ℕ). ending x y (summed h) m) (summed-other d d1 d2) summed-low
      ∙ ap (λ (z : ℕ). ending (rs d) low_total z m) (summed-other h h1 h2)

  pub high-run :
      run (high_nodes d h l one low lbl) (idle summed added)
      ≡ idle summed (final (carried (leb (rs l) low_total)))
  unfolding high_nodes
  high-run =
      let x = branch_reg jle l low lbl in
      let up = node 0 (xadd_dw d 24 one) in
      let store = node lbl (store_dw d 16 low) in
      let rest = node 0 (xadd_dw d 24 h) ∷ [] in
      let w = zero_ne lbl pos in
      let z = eq_comm 0 lbl w in
      let test : leb (summed l) (summed low) ≡ leb (rs l) low_total =
        ap₂ leb (summed-other l l1 l2) summed-low in
      elim (Bool-cases (leb (rs l) low_total)) [
        | inl e ↦
            let br : exec x (idle summed added) ≡ jumping lbl summed added =
              rw (test ∙ e, z) refl in
            rw (e) (
              run-branch x (up ∷ store ∷ rest) summed added (jumping lbl summed added) br
              ∙ run-past up (store ∷ rest) lbl summed added w
              ∙ run-at store rest lbl summed added (eq_self lbl)
              ∙ sym (run-next store rest summed added _ refl)
              ∙ end-run added)
        | inr e ↦
            let br : exec x (idle summed added) ≡ idle summed added = rw (test ∙ e) refl in
            let go : exec (xadd_dw d 24 one) (idle summed added) ≡ idle summed (carried false) =
              ap₂
                (λ (p q : ℕ).
                  idle summed (set_reg (address p 24) ((added (address p 24) + q) % 2 ^ 64) added))
                (summed-other d d1 d2) summed-one in
            rw (e) (
              run-branch x (up ∷ store ∷ rest) summed added (idle summed added) br
              ∙ run-next up (store ∷ rest) summed added (idle summed (carried false)) go
              ∙ end-run (carried false))
      ]

  ne : (i j : ℕ) → i < j → j < 2 ^ 15 → (at i == at j) ≡ false
  ne i j = address-ne (rs d) i j

  added-ne : (j : ℕ) → (j == at 0) ≡ false → (j == at 8) ≡ false → added j ≡ me j
  added-ne j p q = rw (q, p) refl

  carried-ne : (c : Bool) (j : ℕ) → (j == at 24) ≡ false → carried c j ≡ added j
  carried-ne true j p = refl
  carried-ne false j p = rw (p) refl

  final-ne :
      (c : Bool) (j : ℕ)
      → (j == at 16) ≡ false
      → (j == at 24) ≡ false
      → final (carried c) j ≡ added j
  final-ne c j p q = rw (q, p) (carried-ne c j q)

  added-third : added (at 16) ≡ me (at 16)
  added-third =
      added-ne (at 16) (eq_comm (at 0) (at 16) (ne 0 16 (omega arith) (omega arith)))
        (eq_comm (at 8) (at 16) (ne 8 16 (omega arith) (omega arith)))

  added-fourth : added (at 24) ≡ me (at 24)
  added-fourth =
      added-ne (at 24) (eq_comm (at 0) (at 24) (ne 0 24 (omega arith) (omega arith)))
        (eq_comm (at 8) (at 24) (ne 8 24 (omega arith) (omega arith)))

  final-third : (c : Bool) → final (carried c) (at 16) ≡ (me (at 16) + rs l) % 2 ^ 64
  final-third c =
      rw (ne 16 24 (omega arith) (omega arith), eq_self (at 16))
        (ap (λ (x : ℕ). (x + rs l) % 2 ^ 64) added-third)

  carried-fourth :
      (c : Bool) → carried c (at 24) ≡ (if c then me (at 24) else (me (at 24) + 1) % 2 ^ 64)
  carried-fourth true = added-fourth
  carried-fourth false = rw (eq_self (at 24)) (ap (λ (x : ℕ). (x + 1) % 2 ^ 64) added-fourth)

  final-fourth :
      (c : Bool)
      → final (carried c) (at 24)
        ≡ ((if c then me (at 24) else (me (at 24) + 1) % 2 ^ 64) + rs h) % 2 ^ 64
  final-fourth c =
      let n = eq_comm (at 16) (at 24) (ne 16 24 (omega arith) (omega arith)) in
      rw (eq_self (at 24), n) (ap (λ (x : ℕ). (x + rs h) % 2 ^ 64) (carried-fourth c))

  pub final-Summed :
      me (at 16) < 2 ^ 64
      → rs l < 2 ^ 64
      → Summed
          (rs v)
          (rs h)
          (rs l)
          (at 0)
          (at 8)
          (at 16)
          (at 24)
          me
          (final (carried (leb (rs l) low_total)))
  final-Summed b k =
      let c = leb (rs l) low_total in
      let n08 = ne 0 8 (omega arith) (omega arith) in
      let first : added (at 0) ≡ (me (at 0) + 1) % 2 ^ 64 = rw (n08, eq_self (at 0)) refl in
      let second : added (at 8) ≡ (me (at 8) + rs v) % 2 ^ 64 =
        rw (eq_self (at 8), eq_comm (at 0) (at 8) n08) refl in
      let test : c ≡ leb (rs l) ((me (at 16) + rs l) % 2 ^ 64) =
        ap (λ (x : ℕ). leb (rs l) ((x + rs l) % 2 ^ 64)) added-third in
      (
        final-ne c (at 0) (ne 0 16 (omega arith) (omega arith))
              (ne 0 24 (omega arith) (omega arith))
            ∙ first,
        final-ne c (at 8) (ne 8 16 (omega arith) (omega arith))
              (ne 8 24 (omega arith) (omega arith))
            ∙ second,
        ap₂ (λ (x y : ℕ). x * 2 ^ 64 + y)
              (final-fourth c
                ∙ ap
                    (λ (x : Bool).
                      ((if x then me (at 24) else (me (at 24) + 1) % 2 ^ 64) + rs h) % 2 ^ 64)
                    test)
              (final-third c)
            ∙ wide_sum (me (at 16)) (me (at 24)) (rs h) (rs l) b k,
        λ j p q r s. final-ne c j r s ∙ added-ne j p q,
      )
