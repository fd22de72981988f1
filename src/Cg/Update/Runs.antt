-- ===== src/Cg/Update/Runs.antt =====
-- The update of an aggregation: what its code does to memory.
use dtrace_utils.Common.{
  ℕ, ◌+◌, ◌%◌, ◌^◌, ◌<◌, ◌≡◌, refl, sym, ap, ap₂, ◌∙◌, inl, inr, true, false, [], ◌∷◌, ◌==◌,
  Bool-cases,
}
use dtrace_utils.Bpf.{jsge, jsle, store_dw, branch_reg, nop}
use dtrace_utils.Bpf.Machine.{Regs, idle, jumping, exec, run, set_reg, below, address}
use dtrace_utils.Bpf.Runs.{zero_ne, eq_self, eq_comm, node, run-past, run-at, run-branch}
use dtrace_utils.Cg.Update.{AggFun, avg, count, max, min, sum}
use dtrace_utils.Cg.Update.Nodes.{extreme_nodes, impl_nodes, first_word, second_word, Stored}

module _ (f : AggFun) (x a b : ℕ) (me : ℕ → ℕ) (n : (a == b) ≡ false) where
  -- Memory where only the word at `a` is written.
  store-one :
      (y : ℕ)
      → y ≡ first_word f x (me a)
      → ((w : ℕ) → second_word f x w ≡ w)
      → Stored f x a b me (set_reg a y me)
  store-one y h k = (rw (eq_self a) h, rw (eq_comm a b n) (sym (k (me b))), λ j p q. rw (p) refl)

  -- Memory that is left as it is.
  store-none :
      me a ≡ first_word f x (me a) → ((w : ℕ) → second_word f x w ≡ w) → Stored f x a b me me
  store-none h k = (h, sym (k (me b)), λ j p q. refl)

store-avg :
    (x a b : ℕ) (me : ℕ → ℕ)
    → (a == b) ≡ false
    → let m = set_reg a ((me a + 1) % 2 ^ 64) me in
      Stored avg x a b me (set_reg b ((m b + x) % 2 ^ 64) m)
unfolding first_word second_word
store-avg x a b me n =
    (rw (n, eq_self a) refl, rw (eq_self b, eq_comm a b n) refl, λ j p q. rw (q, p) refl)

module _ (rs : Regs) (me : ℕ → ℕ) (reg v t lbl : ℕ) (l : 0 < lbl) (r0 : (reg == 0) ≡ false)
    (v0 : (v == 0) ≡ false) (tv : (v == t) ≡ false) (tr : (reg == t) ≡ false) where
  abbrev at : ℕ
  at = address (rs reg) 0

  abbrev one : Regs
  one = set_reg 0 1 rs

  one-reg : one reg ≡ rs reg
  one-reg = rw (r0) refl

  one-v : one v ≡ rs v
  one-v = rw (v0) refl

  count-run :
      run (impl_nodes count reg v t lbl) (idle rs me)
      ≡ idle one (set_reg at ((me at + 1) % 2 ^ 64) me)
  unfolding run impl_nodes
  count-run =
      ap (λ (z : ℕ). idle one (set_reg (address z 0) ((me (address z 0) + 1) % 2 ^ 64) me)) one-reg

  avg-run :
      let m = set_reg at ((me at + 1) % 2 ^ 64) me in
      let b = address (rs reg) 8 in
      run (impl_nodes avg reg v t lbl) (idle rs me) ≡ idle one (set_reg b ((m b + rs v) % 2 ^ 64) m)
  unfolding run impl_nodes
  avg-run =
      ap₂
        (λ (z y : ℕ).
          let m = set_reg (address z 0) ((me (address z 0) + 1) % 2 ^ 64) me in
          idle one (set_reg (address z 8) ((m (address z 8) + y) % 2 ^ 64) m))
        one-reg one-v

  -- The register that holds the first word.
  abbrev held : Regs
  held = set_reg t (me at) rs

  held-t : held t ≡ me at
  held-t = rw (eq_self t) refl

  held-v : held v ≡ rs v
  held-v = rw (tv) refl

  held-reg : held reg ≡ rs reg
  held-reg = rw (tr) refl

  store-run :
      (op : ℕ)
      → exec (branch_reg op t v lbl) (idle held me) ≡ idle held me
      → run (extreme_nodes op reg v t lbl) (idle rs me) ≡ idle held (set_reg at (rs v) me)
  unfolding run
  store-run op h =
      run-branch (branch_reg op t v lbl) (node 0 (store_dw reg 0 v) ∷ node lbl nop ∷ []) held me
        (idle held me) h
      ∙ ap₂ (λ (z y : ℕ). idle held (set_reg (address z 0) y me)) held-reg held-v

  pass-run :
      (op : ℕ)
      → exec (branch_reg op t v lbl) (idle held me) ≡ jumping lbl held me
      → run (extreme_nodes op reg v t lbl) (idle rs me) ≡ idle held me
  unfolding run
  pass-run op h =
      let w = zero_ne lbl l in
      run-branch (branch_reg op t v lbl) (node 0 (store_dw reg 0 v) ∷ node lbl nop ∷ []) held me
        (jumping lbl held me) h
      ∙ run-past (node 0 (store_dw reg 0 v)) (node lbl nop ∷ []) lbl held me w
      ∙ run-at (node lbl nop) [] lbl held me (eq_self lbl)

  abbrev pub Result : AggFun → Type 0
  Result f =
      (rs' : Regs) × (me' : ℕ → ℕ) × (run (impl_nodes f reg v t lbl) (idle rs me) ≡ idle rs' me')
      × Stored f (rs v) at (address (rs reg) 8) me me'
      × ((j : ℕ) → (j == 0) ≡ false → (j == t) ≡ false → rs' j ≡ rs j)

  module _ (n : (at == address (rs reg) 8) ≡ false) where
    max-run : Result max
    unfolding impl_nodes first_word second_word
    max-run =
        let z = eq_comm 0 lbl (zero_ne lbl l) in
        elim (Bool-cases (below true (me at) (rs v))) [
          | inl e ↦
              let g : below true (held t) (held v) ≡ true = ap₂ (below true) held-t held-v ∙ e in
              (
                _,
                _,
                store-run jsge (rw (g) refl),
                store-one max (rs v) at _ me n (rs v) (rw (e) refl) (λ w. refl),
                λ j p q. rw (q) refl,
              )
          | inr e ↦
              let g : below true (held t) (held v) ≡ false = ap₂ (below true) held-t held-v ∙ e in
              (
                _,
                _,
                pass-run jsge (rw (g, z) refl),
                store-none max (rs v) at _ me n (rw (e) refl) (λ w. refl),
                λ j p q. rw (q) refl,
              )
        ]

    min-run : Result min
    unfolding impl_nodes first_word second_word
    min-run =
        let z = eq_comm 0 lbl (zero_ne lbl l) in
        elim (Bool-cases (below true (rs v) (me at))) [
          | inl e ↦
              let g : below true (held v) (held t) ≡ true = ap₂ (below true) held-v held-t ∙ e in
              (
                _,
                _,
                store-run jsle (rw (g) refl),
                store-one min (rs v) at _ me n (rs v) (rw (e) refl) (λ w. refl),
                λ j p q. rw (q) refl,
              )
          | inr e ↦
              let g : below true (held v) (held t) ≡ false = ap₂ (below true) held-v held-t ∙ e in
              (
                _,
                _,
                pass-run jsle (rw (g, z) refl),
                store-none min (rs v) at _ me n (rw (e) refl) (λ w. refl),
                λ j p q. rw (q) refl,
              )
        ]

    pub impl-run : (f : AggFun) → Result f
    unfolding run impl_nodes first_word second_word
    impl-run count =
        (_, _, count-run, store-one count (rs v) at _ me n _ refl (λ w. refl), λ j p q. rw (p) refl)
    impl-run sum = (_, _, refl, store-one sum (rs v) at _ me n _ refl (λ w. refl), λ j p q. refl)
    impl-run avg = (_, _, avg-run, store-avg (rs v) at _ me n, λ j p q. rw (p) refl)
    impl-run max = max-run
    impl-run min = min-run
