-- ===== src/Symtab/Search.antt =====
-- dt_symtab.c: the search in the new ranges, and what qsort and bsearch are taken to do.
use dtrace_utils.Common.{
  In, ℕ, ◌+◌, ◌≡◌, ◌≢◌, ◌≤◌, ◌<◌, ◌↔◌, ◌⊎◌, refl, sym, ap, subst, inl, inr, true, false, Option,
  none, some, List, [], ◌∷◌, arith, length,
}
use Prim.Native.Nat.{Ordering}
use dtrace_utils.Symtab.{Symbol, Range, form, search_cmp, sym_of}
use dtrace_utils.Symtab.Narrow.{innermost, IsSorted}
use dtrace_utils.Symtab.Ranges.{Chain, lookup, owner, holds}
use dtrace_utils.Symtab.Form.{AllWithin, form-Invariant}

-- For symbols that are sorted by address and do not wrap around, and where memory is given, the
-- loops of dt_symtab_form_ranges end within as many rounds as there are symbols and addresses up to
-- the last end. The new ranges lie in order, none is empty and none overlap, and the symbol of the
-- range that holds an address is the innermost symbol that spans it: the one that begins last, and
-- of those the smallest; an address that no symbol spans is in no range.
pub form-innermost :
    (m n : ℕ) (ss : List Symbol)
    → AllWithin m ss
    → IsSorted ss
    → length ss + m ≤ n
    → (new : List Range) × (form n ss 0 [] ≡ some new)
      × ((a : ℕ) → owner (lookup new a) ≡ owner (innermost none ss a))
      × ((e : ℕ) × Chain 0 new e)
unfolding lookup
form-innermost m n ss w so k =
    form-Invariant (λ a. owner (innermost none ss a)) m n ss 0 [] w so
      (omega arith, (λ a h. absurd (omega arith)), (λ a h. refl)) (omega arith) (omega arith)

-- What the C library documents of qsort, for one array.
abbrev pub NotAfter : (Range → Range → Ordering) → Range → List Range → Type 0
NotAfter cmp r [] = Unit
NotAfter cmp r (x ∷ rs) = (cmp r x ≢ Ordering.gt) × NotAfter cmp r rs

abbrev pub InOrder : (Range → Range → Ordering) → List Range → Type 0
InOrder cmp [] = Unit
InOrder cmp (r ∷ rs) = NotAfter cmp r rs × InOrder cmp rs

abbrev pub IsSorting : (Range → Range → Ordering) → List Range → List Range → Type 0
IsSorting cmp rs new =
    InOrder cmp new × ((r : Range) → In r new ↔ In r rs) × (length new ≡ length rs)

-- What the C library documents of bsearch: the elements are less than, equal to or greater than
-- the key, in this order.
abbrev pub rank : Ordering → ℕ
rank Ordering.gt = 0
rank Ordering.eq = 1
rank Ordering.lt = 2

abbrev pub Ranked : (Range → Ordering) → ℕ → List Range → Type 0
Ranked cmp k [] = Unit
Ranked cmp k (r ∷ rs) = (k ≤ rank (cmp r)) × Ranked cmp (rank (cmp r)) rs

abbrev pub FoundBy : (Range → Ordering) → List Range → Option Range → Type 0
FoundBy cmp rs none = (r : Range) → In r rs → cmp r ≢ Ordering.eq
FoundBy cmp rs (some r) = In r rs × (cmp r ≡ Ordering.eq)

abbrev pub IsSearching : ((Range → Ordering) → List Range → Option Range) → Type 0
IsSearching bsearch =
    (cmp : Range → Ordering) (rs : List Range) → Ranked cmp 0 rs → FoundBy cmp rs (bsearch cmp rs)

pub search_cmp-Ranked :
    (a k b : ℕ) (rs : List Range) (e : ℕ)
    → Chain b rs e
    → k ≤ 2
    → (k ≡ 0) ⊎ (a < b)
    → Ranked (search_cmp a) k rs
unfolding search_cmp
search_cmp-Ranked a k b [] e c h d = tt
search_cmp-Ranked a k b (r ∷ rs) e (c1, c2, c3) h d = (
  ground arith,
  search_cmp-Ranked a (rank (search_cmp a r)) r.hi rs e c3 (ground arith) (ground arith),
)

search_cmp-holds : (a : ℕ) (r : Range) → search_cmp a r ≡ Ordering.eq → holds r a ≡ true
unfolding search_cmp
search_cmp-holds a r h = ground arith

search_cmp-misses : (a : ℕ) (r : Range) → search_cmp a r ≢ Ordering.eq → holds r a ≡ false
unfolding search_cmp
search_cmp-misses a r h = ground arith

In-Chain : (r : Range) (b : ℕ) (rs : List Range) (e : ℕ) → Chain b rs e → In r rs → b ≤ r.lo
In-Chain r b [] e c i = elim i [ ]
In-Chain r b (x ∷ rs) e (c1, c2, c3) (inl q) = subst (λ (u : Range). b ≤ u.lo) (sym q) c1
In-Chain r b (x ∷ rs) e (c1, c2, c3) (inr i) = let k = In-Chain r x.hi rs e c3 i in omega arith

lookup-In :
    (r : Range) (b : ℕ) (rs : List Range) (e a : ℕ)
    → Chain b rs e
    → In r rs
    → holds r a ≡ true
    → lookup rs a ≡ some r.sym
unfolding lookup
lookup-In r b [] e a c i h = elim i [ ]
lookup-In r b (x ∷ rs) e a (c1, c2, c3) (inl q) h =
    let z : holds x a ≡ true = subst (λ (u : Range). holds u a ≡ true) q h in
    rw (z) (ap (λ (u : Range). some u.sym) (sym q))
lookup-In r b (x ∷ rs) e a (c1, c2, c3) (inr i) h =
    let k = In-Chain r x.hi rs e c3 i in
    let z : holds x a ≡ false = ground arith in rw (z) (lookup-In r x.hi rs e a c3 i h)

lookup-missing :
    (rs : List Range) (a : ℕ) → ((r : Range) → In r rs → holds r a ≡ false) → lookup rs a ≡ none
unfolding lookup
lookup-missing [] a f = refl
lookup-missing (r ∷ rs) a f = rw (f r (inl refl)) (lookup-missing rs a (λ u i. f u (inr i)))

pub found-lookup :
    (b : ℕ) (rs : List Range) (e a : ℕ) (o : Option Range)
    → Chain b rs e
    → FoundBy (search_cmp a) rs o
    → sym_of o ≡ lookup rs a
found-lookup b rs e a none c f = sym (lookup-missing rs a (λ r i. search_cmp-misses a r (f r i)))
found-lookup b rs e a (some r) c (i, q) = sym (lookup-In r b rs e a c i (search_cmp-holds a r q))
