-- ===== src/Symtab/Form.antt =====
-- dt_symtab.c: dt_symtab_form_ranges ends, and its ranges lead to the innermost symbol.
use dtrace_utils.Common.{
  ℕ, zero, suc, ◌+◌, ◌-◌, ◌^◌, ◌≡◌, ◌≤◌, ◌<◌, refl, sym, ap, subst, ◌∙◌, inl, inr, Bool, true,
  false, Option, none, some, List, [], ◌∷◌, ltb, if◌then◌else◌, arith, Bool-cases, length,
}
use native.Mathlib.Decide.{dec_lt}
use dtrace_utils.Symtab.{Symbol, Range, Loop, sym_end, narrow, is_skipped, emit, step, form}
use dtrace_utils.Symtab.Narrow.{spans, innermost, innermost-AllFrom, IsSorted, narrow_lem}
use dtrace_utils.Symtab.Ranges.{
  Chain, lookup, owner, lookup-above, add_range-Chain, add_range-Added,
}

-- No symbol reaches over the end of the address space, and none behind `m`.
abbrev pub AllWithin : ℕ → List Symbol → Type 0
AllWithin m [] = Unit
AllWithin m (s ∷ rest) = (s.addr + s.size < 2 ^ 64) × (sym_end s ≤ m) × AllWithin m rest

pub sym_end_lem : (s : Symbol) → s.addr + s.size < 2 ^ 64 → sym_end s ≡ s.addr + s.size
unfolding sym_end
sym_end_lem s h = omega arith

-- The state of the loop: the ranges end at `hi` at the latest, below `hi` they lead to what `ref`
-- gives, and from `hi` on `ref` gives the innermost symbol of those that are left.
abbrev pub Invariant : (ℕ → Option ℕ) → Loop → Type 0
Invariant ref l =
    Chain 0 l.formed l.hi
    × ((a : ℕ) → a < l.hi → owner (lookup l.formed a) ≡ ref a)
    × ((a : ℕ) → l.hi ≤ a → owner (innermost none l.left a) ≡ ref a)

skip-Invariant :
    (ref : ℕ → Option ℕ) (s : Symbol) (rest : List Symbol) (hi : ℕ) (rs : List Range)
    → s.addr + s.size < 2 ^ 64
    → is_skipped s hi ≡ true
    → Invariant ref (record { left = s ∷ rest; hi = hi; formed = rs })
    → Invariant ref (record { left = rest; hi = hi; formed = rs })
unfolding is_skipped innermost
skip-Invariant ref s rest hi rs w k (c, f, g) = (
  c,
  f,
  (λ a h.
      let e = sym_end_lem s w in
      let z : spans s a ≡ false = ground arith in
      let q : owner (innermost (if spans s a then some s else none) rest a) ≡ ref a = g a h in
      subst (λ (b : Bool). owner (innermost (if b then some s else none) rest a) ≡ ref a) z q),
)

innermost-spans :
    (s : Symbol) (rest : List Symbol) (a : ℕ)
    → spans s a ≡ true
    → innermost none (s ∷ rest) a ≡ innermost (some s) rest a
unfolding innermost
innermost-spans s rest a z = rw (z) refl

emit-Invariant :
    (ref : ℕ → Option ℕ) (s : Symbol) (rest : List Symbol) (hi : ℕ) (rs : List Range)
    → s.addr + s.size < 2 ^ 64
    → IsSorted (s ∷ rest)
    → is_skipped s hi ≡ false
    → Invariant ref (record { left = s ∷ rest; hi = hi; formed = rs })
    → Invariant ref (emit s rest hi rs)
      × (hi < (emit s rest hi rs).hi)
      × ((emit s rest hi rs).hi ≤ sym_end s)
unfolding is_skipped emit
emit-Invariant ref s rest hi rs w (sf, ss) k (c, f, g) =
    let e = sym_end_lem s w in
    let lo = if ltb s.addr hi then hi else s.addr in
    let r = narrow lo rest (sym_end s) s in
    let k1 : lo < sym_end s = ground arith in
    let k2 : hi ≤ lo = ground arith in
    let (i1, i2, i3) = narrow_lem lo rest (sym_end s) s ss k1 in
    (
      (
        add_range-Chain 0 lo (r.0) (r.1) rs hi c k2 i1,
        (λ a h.
            let (j1, j2) = add_range-Added 0 lo (r.0) (r.1) rs hi a c k2 i1 in
            elim (dec_lt a lo) [
              | yes l ↦ elim (dec_lt a hi) [
                | yes u ↦ j1 l ∙ f a u
                | no u ↦
                    let v : a < s.addr = ground arith in
                    j1 l
                    ∙ ap owner (lookup-above 0 rs hi a c (omega arith))
                    ∙ ap owner
                        (sym (innermost-AllFrom none s.addr a (s ∷ rest) (omega arith, sf) v))
                    ∙ g a (omega arith)
              ]
              | no l ↦
                  let z : spans s a ≡ true = ground arith in
                  j2 (omega arith) h
                  ∙ ap owner (sym (i3 a (omega arith) h))
                  ∙ ap owner (sym (innermost-spans s rest a z))
                  ∙ g a (omega arith)
            ]),
        (λ a h. g a (omega arith)),
      ),
      omega arith,
      i2,
    )

-- With as much fuel as there are symbols and addresses the loop ends; its ranges lie in order and
-- apart, and lead each address to what `ref` gives.
pub form-Invariant :
    (ref : ℕ → Option ℕ) (m n : ℕ) (ss : List Symbol) (hi : ℕ) (rs : List Range)
    → AllWithin m ss
    → IsSorted ss
    → Invariant ref (record { left = ss; hi = hi; formed = rs })
    → hi ≤ m
    → length ss + (m - hi) ≤ n
    → (new : List Range) × (form n ss hi rs ≡ some new)
      × ((a : ℕ) → owner (lookup new a) ≡ ref a)
      × ((e : ℕ) × Chain 0 new e)
unfolding form step innermost
form-Invariant ref m n [] hi rs w s (c, f, g) k fuel = (
  rs,
  refl,
  (λ a. elim (dec_lt a hi) [
    | yes u ↦ f a u
    | no u ↦ ap owner (lookup-above 0 rs hi a c (omega arith)) ∙ g a (omega arith)
  ]),
  (hi, c),
)
form-Invariant ref m zero (s ∷ rest) hi rs w so i k fuel = absurd (omega arith)
form-Invariant ref m (suc n) (s ∷ rest) hi rs (w1, w2, w) (sf, so) i k fuel =
    elim (Bool-cases (is_skipped s hi)) [
      | inl z ↦
          rw (form, z)
            (form-Invariant ref m n rest hi rs w so (skip-Invariant ref s rest hi rs w1 z i) k
              (omega arith))
      | inr z ↦
          let (j, j1, j2) = emit-Invariant ref s rest hi rs w1 (sf, so) z i in
          let l = emit s rest hi rs in
          rw (form, z)
            (form-Invariant ref m n (s ∷ rest) l.hi l.formed (w1, w2, w) (sf, so) j (omega arith)
              (omega arith))
    ]
