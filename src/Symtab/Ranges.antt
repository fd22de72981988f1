-- ===== src/Symtab/Ranges.antt =====
-- dt_symtab.c: the new ranges, in order and apart, and the addition of one.
use dtrace_utils.Common.{
  ℕ, ◌≡◌, ◌≤◌, ◌<◌, refl, inl, inr, Bool, false, ◌&&◌, Option, none, some, List, [], ◌∷◌, ltb, leb,
  ◌==◌, if◌then◌else◌, arith, Bool-cases,
}
use dtrace_utils.Symtab.{Symbol, Range, add_range}

-- The ranges lie in order, without overlap and none empty, from `b` to `e`.
abbrev pub Chain : ℕ → List Range → ℕ → Type 0
Chain b [] e = b ≤ e
Chain b (r ∷ rs) e = (b ≤ r.lo) × (r.lo < r.hi) × Chain r.hi rs e

abbrev pub holds : Range → ℕ → Bool
holds r a = leb r.lo a && ltb a r.hi

-- The symbol of the first range that holds the address.
unfoldable pub lookup : List Range → ℕ → Option Symbol
lookup [] a = none
lookup (r ∷ rs) a = if holds r a then some r.sym else lookup rs a

-- The record that is found.
abbrev pub owner : Option Symbol → Option ℕ
owner none = none
owner (some s) = some s.at

pub Chain_le : (b : ℕ) (rs : List Range) (e : ℕ) → Chain b rs e → b ≤ e
Chain_le b [] e c = c
Chain_le b (r ∷ rs) e (c1, c2, c3) = let k = Chain_le r.hi rs e c3 in omega arith

pub lookup-above : (b : ℕ) (rs : List Range) (e a : ℕ) → Chain b rs e → e ≤ a → lookup rs a ≡ none
unfolding lookup
lookup-above b [] e a c h = refl
lookup-above b (r ∷ rs) e a (c1, c2, c3) h =
    let k = Chain_le r.hi rs e c3 in
    let z : holds r a ≡ false = ground arith in rw (z) (lookup-above r.hi rs e a c3 h)

pub lookup-below : (b : ℕ) (rs : List Range) (e a : ℕ) → Chain b rs e → a < b → lookup rs a ≡ none
unfolding lookup
lookup-below b [] e a c h = refl
lookup-below b (r ∷ rs) e a (c1, c2, c3) h =
    let z : holds r a ≡ false = ground arith in rw (z) (lookup-below r.hi rs e a c3 (omega arith))

-- The range is put behind all others: they stay, and its addresses get its symbol.
abbrev pub Added : ℕ → ℕ → Symbol → List Range → List Range → ℕ → Type 0
Added lo hi s rs new a =
    (a < lo → owner (lookup new a) ≡ owner (lookup rs a))
    × (lo ≤ a → a < hi → owner (lookup new a) ≡ some s.at)

pub add_range-Chain :
    (b lo hi : ℕ) (s : Symbol) (rs : List Range) (e : ℕ)
    → Chain b rs e
    → e ≤ lo
    → lo < hi
    → Chain b (add_range lo hi s rs) hi
unfolding add_range
add_range-Chain b lo hi s [] e c h k = (omega arith, k, omega arith)
add_range-Chain b lo hi s (r ∷ []) e (c1, c2, c3) h k =
    elim (Bool-cases ((r.hi == lo) && (r.sym.at == s.at))) [
      | inl z ↦ rw (z) (c1, omega arith, omega arith)
      | inr z ↦ rw (z) (c1, c2, (omega arith, k, omega arith))
    ]
add_range-Chain b lo hi s (r ∷ r2 ∷ rs) e (c1, c2, c3) h k =
    (c1, c2, add_range-Chain r.hi lo hi s (r2 ∷ rs) e c3 h k)

pub add_range-Added :
    (b lo hi : ℕ) (s : Symbol) (rs : List Range) (e a : ℕ)
    → Chain b rs e
    → e ≤ lo
    → lo < hi
    → Added lo hi s rs (add_range lo hi s rs) a
unfolding add_range lookup
add_range-Added b lo hi s [] e a c h k = ((λ l. ground arith), (λ l u. ground arith))
add_range-Added b lo hi s (r ∷ []) e a (c1, c2, c3) h k =
    elim (Bool-cases ((r.hi == lo) && (r.sym.at == s.at))) [
      | inl z ↦ rw (z) ((λ l. ground arith), (λ l u. ground arith))
      | inr z ↦ rw (z) ((λ l. ground arith), (λ l u. ground arith))
    ]
add_range-Added b lo hi s (r ∷ r2 ∷ rs) e a (c1, c2, c3) h k =
    let (i1, i2) = add_range-Added r.hi lo hi s (r2 ∷ rs) e a c3 h k in
    let m = Chain_le r.hi (r2 ∷ rs) e c3 in
    (
      (λ l. elim (Bool-cases (holds r a)) [ inl z ↦ rw (z) refl | inr z ↦ rw (z) (i1 l) ]),
      (λ l u. let z : holds r a ≡ false = ground arith in rw (z) (i2 l u)),
    )
