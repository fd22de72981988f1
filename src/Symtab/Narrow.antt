-- ===== src/Symtab/Narrow.antt =====
-- dt_symtab.c: the loop over `j` of dt_symtab_form_ranges finds the innermost symbol.
use dtrace_utils.Common.{
  ℕ, ◌≡◌, ◌≤◌, ◌<◌, refl, sym, ap, ◌==◌, subst, inl, inr, Bool, true, false, ◌&&◌, Option, none,
  some, List, [], ◌∷◌, ltb, leb, ltb_iff, leb_iff, if◌then◌else◌, arith, Bool-cases,
}
use dtrace_utils.Symtab.{Symbol, sym_end, wins, narrow}

abbrev pub spans : Symbol → ℕ → Bool
spans s a = leb s.addr a && ltb a (sym_end s)

-- The first symbol lies further inside: it begins later, or at the same address and is smaller.
abbrev pub inner : Symbol → Symbol → Bool
inner s t = if s.addr == t.addr then ltb s.size t.size else ltb t.addr s.addr

wins-inner : (s t : Symbol) → wins s t ≡ inner s t
wins-inner s t = ground arith

abbrev pub better : Option Symbol → Symbol → Option Symbol
better none s = some s
better (some t) s = some (if inner s t then s else t)

-- Among `c` and the symbols that span the address, the one that begins last, and of those the one
-- that is smallest; the first of several.
unfoldable pub innermost : Option Symbol → List Symbol → ℕ → Option Symbol
innermost c [] a = c
innermost c (s ∷ rest) a = innermost (if spans s a then better c s else c) rest a

abbrev pub AllFrom : ℕ → List Symbol → Type 0
AllFrom k [] = Unit
AllFrom k (s ∷ rest) = (k ≤ s.addr) × AllFrom k rest

-- Sorted by address.
abbrev pub IsSorted : List Symbol → Type 0
IsSorted [] = Unit
IsSorted (s ∷ rest) = AllFrom s.addr rest × IsSorted rest

AllFrom-le : (k l : ℕ) (ss : List Symbol) → l ≤ k → AllFrom k ss → AllFrom l ss
AllFrom-le k l [] h f = tt
AllFrom-le k l (s ∷ rest) h (e, f) = (omega arith, AllFrom-le k l rest h f)

-- No symbol that begins behind the address spans it.
pub innermost-AllFrom :
    (c : Option Symbol) (k a : ℕ) (ss : List Symbol) → AllFrom k ss → a < k → innermost c ss a ≡ c
unfolding innermost
innermost-AllFrom c k a [] f h = refl
innermost-AllFrom c k a (s ∷ rest) (e, f) h =
    let z : spans s a ≡ false = ground arith in rw (z) (innermost-AllFrom c k a rest f h)

-- What the loop over `j` gives from `hi` and the symbol `t` on.
abbrev pub Narrowed : ℕ → List Symbol → ℕ → Symbol → ℕ × Symbol → Type 0
Narrowed lo rest hi t r =
    (lo < r.0) × (r.0 ≤ hi) × ((a : ℕ) → lo ≤ a → a < r.0 → innermost (some t) rest a ≡ some (r.1))

pub narrow_lem :
    (lo : ℕ) (rest : List Symbol) (hi : ℕ) (t : Symbol)
    → IsSorted rest
    → lo < hi
    → Narrowed lo rest hi t (narrow lo rest hi t)
unfolding narrow innermost
narrow_lem lo [] hi t s h = (h, omega arith, (λ a p q. refl))
narrow_lem lo (s2 ∷ rest) hi t (f, s) h = elim (Bool-cases (leb hi s2.addr)) [
  | inl e ↦
      let q : narrow lo (s2 ∷ rest) hi t ≡ (hi, t) = rw (narrow, e) refl in
      let k : hi ≤ s2.addr = (leb_iff hi s2.addr).0 e in
      subst (Narrowed lo (s2 ∷ rest) hi t) (sym q) (
        h,
        omega arith,
        (λ a l u.
            innermost-AllFrom (some t) hi a (s2 ∷ rest) (k, AllFrom-le s2.addr hi rest k f) u),
      )
  | inr e ↦ elim (Bool-cases (ltb lo s2.addr)) [
    | inl e2 ↦
        let q : narrow lo (s2 ∷ rest) hi t ≡ (s2.addr, t) = rw (narrow, e, e2) refl in
        let k : lo < s2.addr = (ltb_iff lo s2.addr).0 e2 in
        subst (Narrowed lo (s2 ∷ rest) hi t) (sym q) (
          k,
          ground arith,
          (λ a l u. innermost-AllFrom (some t) s2.addr a (s2 ∷ rest) (omega arith, f) u),
        )
    | inr e2 ↦ elim (Bool-cases (leb (sym_end s2) lo)) [
      | inl e3 ↦
          let q : narrow lo (s2 ∷ rest) hi t ≡ narrow lo rest hi t = rw (narrow, e, e2, e3) refl in
          let (i1, i2, i3) = narrow_lem lo rest hi t s h in
          subst (Narrowed lo (s2 ∷ rest) hi t) (sym q)
            (i1, i2, (λ a l u. let z : spans s2 a ≡ false = ground arith in rw (z) (i3 a l u)))
      | inr e3 ↦
          let t1 = if wins s2 t then s2 else t in
          let hi1 = if ltb (sym_end s2) hi then sym_end s2 else hi in
          let q : narrow lo (s2 ∷ rest) hi t ≡ narrow lo rest hi1 t1 =
            rw (narrow, e, e2, e3) refl in
          let same : t1 ≡ (if inner s2 t then s2 else t) =
            ap (λ (b : Bool). if b then s2 else t) (wins-inner s2 t) in
          let k : lo < hi1 = ground arith in
          let k2 : hi1 ≤ hi = ground arith in
          let k3 : hi1 ≤ sym_end s2 = ground arith in
          let (i1, i2, i3) = narrow_lem lo rest hi1 t1 s k in
          subst (Narrowed lo (s2 ∷ rest) hi t) (sym q) (
            i1,
            omega arith,
            (λ a l u.
                let z : spans s2 a ≡ true = ground arith in
                rw (z) (
                  subst
                    (λ (w : Symbol). innermost (some w) rest a ≡ some ((narrow lo rest hi1 t1).1))
                    same (i3 a l u))),
          )
    ]
  ]
]
