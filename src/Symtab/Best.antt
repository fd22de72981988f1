-- ===== src/Symtab/Best.antt =====
-- dt_symtab.c: the innermost symbol of an address, described by all symbols that span it.
use dtrace_utils.Common.{
  In, ℕ, ◌≡◌, ◌⊎◌, refl, sym, subst, inl, inr, Bool, true, false, Option, none, some, List, [], ◌∷◌,
  if◌then◌else◌, arith, Bool-cases,
}
use dtrace_utils.Symtab.{Symbol}
use dtrace_utils.Symtab.Narrow.{spans, inner, innermost}

-- The innermost of `c` and the symbols.
abbrev pub Best : Option Symbol → List Symbol → ℕ → Option Symbol → Type 0
Best c ss a none = (c ≡ none) × ((s : Symbol) → In s ss → spans s a ≡ false)
Best c ss a (some x) =
    ((c ≡ some x) ⊎ (In x ss × (spans x a ≡ true)))
    × ((t : Symbol) → c ≡ some t → inner t x ≡ false)
    × ((s : Symbol) → In s ss → spans s a ≡ true → inner s x ≡ false)

inner_self : (s : Symbol) → inner s s ≡ false
inner_self s = ground arith

skip_Best :
    (c : Option Symbol) (s : Symbol) (rest : List Symbol) (a : ℕ) (o : Option Symbol)
    → spans s a ≡ false
    → Best c rest a o
    → Best c (s ∷ rest) a o
skip_Best c s rest a none z (e, f) =
    (e, (λ u i. elim i [ inl q ↦ subst (λ v. spans v a ≡ false) (sym q) z | inr k ↦ f u k ]))
skip_Best c s rest a (some x) z (p, q, f) = (
  elim p [ inl e ↦ inl e | inr (i, k) ↦ inr (inr i, k) ],
  q,
  (λ u i k. elim i [
    | inl e ↦ let v : spans u a ≡ false = subst (λ v. spans v a ≡ false) (sym e) z in absurd (cc)
    | inr l ↦ f u l k
  ]),
)

first_Best :
    (s : Symbol) (rest : List Symbol) (a : ℕ) (o : Option Symbol)
    → spans s a ≡ true
    → Best (some s) rest a o
    → Best none (s ∷ rest) a o
first_Best s rest a none z (e, f) = absurd (cc)
first_Best s rest a (some x) z (p, q, f) = (
  elim p [
    | inl e ↦ let v : x ≡ s = cc in inr (inl v, subst (λ w. spans w a ≡ true) (sym v) z)
    | inr (i, k) ↦ inr (inr i, k)
  ],
  (λ t e. absurd (cc)),
  (λ u i k. elim i [ inl e ↦ subst (λ w. inner w x ≡ false) (sym e) (q s refl) | inr l ↦ f u l k ]),
)

-- Neither of the two lies inside of `x` when the better one does not.
inner_both :
    (s t x : Symbol)
    → inner (if inner s t then s else t) x ≡ false
    → (inner s x ≡ false) × (inner t x ≡ false)
inner_both s t x h = elim (Bool-cases (inner s t)) [
  | inl e ↦
      let k : inner s x ≡ false = subst (λ (b : Bool). inner (if b then s else t) x ≡ false) e h in
      (k, ground arith)
  | inr e ↦
      let k : inner t x ≡ false = subst (λ (b : Bool). inner (if b then s else t) x ≡ false) e h in
      (ground arith, k)
]

next_Best :
    (t s : Symbol) (rest : List Symbol) (a : ℕ) (o : Option Symbol)
    → spans s a ≡ true
    → Best (some (if inner s t then s else t)) rest a o
    → Best (some t) (s ∷ rest) a o
next_Best t s rest a none z (e, f) = absurd (cc)
next_Best t s rest a (some x) z (p, q, f) =
    let (ws, wt) = inner_both s t x (q (if inner s t then s else t) refl) in
    (
      elim p [
        | inl e ↦ elim (Bool-cases (inner s t)) [
          | inl w ↦
              let v : x ≡ s =
                let r : some s ≡ some x =
                  subst (λ (b : Bool). some (if b then s else t) ≡ some x) w e in
                cc in
              inr (inl v, subst (λ w. spans w a ≡ true) (sym v) z)
          | inr w ↦ inl (subst (λ (b : Bool). some (if b then s else t) ≡ some x) w e)
        ]
        | inr (i, k) ↦ inr (inr i, k)
      ],
      (λ u e. let v : u ≡ t = cc in subst (λ w. inner w x ≡ false) (sym v) wt),
      (λ u i k. elim i [ inl e ↦ subst (λ w. inner w x ≡ false) (sym e) ws | inr l ↦ f u l k ]),
    )

pub innermost-Best : (c : Option Symbol) (ss : List Symbol) (a : ℕ) → Best c ss a (innermost c ss a)
unfolding innermost
innermost-Best none [] a = (refl, (λ s i. elim i [ ]))
innermost-Best (some x) [] a = (
  inl refl,
  (λ t e. let v : t ≡ x = cc in subst (λ w. inner w x ≡ false) (sym v) (inner_self x)),
  (λ s i. elim i [ ]),
)
innermost-Best none (s ∷ rest) a = elim (Bool-cases (spans s a)) [
  | inl z ↦
      rw (z) (first_Best s rest a (innermost (some s) rest a) z (innermost-Best (some s) rest a))
  | inr z ↦ rw (z) (skip_Best none s rest a (innermost none rest a) z (innermost-Best none rest a))
]
innermost-Best (some t) (s ∷ rest) a = elim (Bool-cases (spans s a)) [
  | inl z ↦
      let u = if inner s t then s else t in
      rw (z) (next_Best t s rest a (innermost (some u) rest a) z (innermost-Best (some u) rest a))
  | inr z ↦
      rw (z)
        (skip_Best (some t) s rest a (innermost (some t) rest a) z (innermost-Best (some t) rest a))
]
