-- ===== src/Symtab/Sort.antt =====
-- dt_symtab.c: dt_symtab_sort and dt_symbol_by_addr together find the innermost symbol.
use dtrace_utils.Common.{
  zero, ltb, ◌⊎◌, In, ℕ, suc, ◌+◌, ◌^◌, ◌≡◌, ◌≢◌, ◌≤◌, ◌<◌, ◌↔◌, refl, sym, ap, subst, ◌∙◌, inl,
  inr, Bool, true, false, Option, none, some, List, [], ◌∷◌, ◌==◌, arith, Bool-cases, if◌then◌else◌,
  length,
}
use Prim.Native.Nat.{Ordering}
use dtrace_utils.Symtab.{
  Symbol, Range, Symtab, sym_end, form, form_ranges, symbols, sort, by_addr, sort_cmp, search_cmp,
  grown, rooms, if_formed, set_sorted, sym_of,
}
use dtrace_utils.Symtab.Narrow.{spans, inner, innermost, AllFrom, IsSorted}
use dtrace_utils.Symtab.Ranges.{Chain, lookup, owner}
use dtrace_utils.Symtab.Best.{Best, innermost-Best}
use dtrace_utils.Symtab.Form.{AllWithin}
use dtrace_utils.Symtab.Search.{
  form-innermost, NotAfter, InOrder, IsSorting, IsSearching, search_cmp-Ranked, found-lookup,
}

-- `s` begins later than `u`, or at the same address and is not larger.
abbrev pub Within : Symbol → Symbol → Type 0
Within s u = (u.addr < s.addr) ⊎ ((u.addr ≡ s.addr) × (s.size ≤ u.size))

-- The answer for an address: a symbol of the table that spans it, and lies within each that spans
-- it, or none when no symbol of the table spans it.
abbrev pub Answer : List Symbol → ℕ → Option Symbol → Type 0
Answer ss a none = (s : Symbol) → In s ss → spans s a ≡ false
Answer ss a (some x) =
    (s : Symbol) × (s.at ≡ x.at)
    × In s ss
    × (spans s a ≡ true)
    × ((u : Symbol) → In u ss → spans u a ≡ true → Within s u)

inner-Within : (s u : Symbol) → inner u s ≡ false → Within s u
inner-Within s u h = elim (Bool-cases (ltb u.addr s.addr)) [
  | inl e ↦ inl (ground arith)
  | inr e ↦ inr (ground arith, ground arith)
]

Best-Answer :
    (ss : List Symbol) (a : ℕ) (o p : Option Symbol)
    → owner o ≡ owner p
    → Best none ss a p
    → Answer ss a o
Best-Answer ss a none none e (q, f) = f
Best-Answer ss a none (some x) e b = absurd (cc)
Best-Answer ss a (some x) none e b = absurd (cc)
Best-Answer ss a (some x) (some y) e (inl q, r, f) = absurd (cc)
Best-Answer ss a (some x) (some y) e (inr (i, k), r, f) =
    (y, cc, i, k, λ u m n. inner-Within y u (f u m n))

symbols-In : (r : Range) (rs : List Range) → In r rs → In r.sym (symbols rs)
symbols-In r [] i = i
symbols-In r (x ∷ rs) (inl q) = inl (ap (λ (u : Range). u.sym) q)
symbols-In r (x ∷ rs) (inr i) = inr (symbols-In r rs i)

In-symbols :
    (s : Symbol) (rs : List Range) → In s (symbols rs) → (r : Range) × In r rs × (r.sym ≡ s)
In-symbols s [] i = elim i [ ]
In-symbols s (x ∷ rs) (inl q) = (x, inl refl, sym q)
In-symbols s (x ∷ rs) (inr i) = let (r, k, e) = In-symbols s rs i in (r, inr k, e)

-- An array with the same elements has the same symbols.
same_symbols :
    (rs new : List Range) (s : Symbol)
    → ((r : Range) → In r new → In r rs)
    → In s (symbols new)
    → In s (symbols rs)
same_symbols rs new s f i =
    let (r, k, e) = In-symbols s new i in
    subst (λ (u : Symbol). In u (symbols rs)) e (symbols-In r rs (f r k))

AllWithin-In :
    (m : ℕ) (s : Symbol) (ss : List Symbol)
    → AllWithin m ss
    → In s ss
    → (s.addr + s.size < 2 ^ 64) × (sym_end s ≤ m)
AllWithin-In m s [] w i = elim i [ ]
AllWithin-In m s (x ∷ ss) (w1, w2, w) (inl q) =
    subst (λ (u : Symbol). (u.addr + u.size < 2 ^ 64) × (sym_end u ≤ m)) (sym q) (w1, w2)
AllWithin-In m s (x ∷ ss) (w1, w2, w) (inr i) = AllWithin-In m s ss w i

In-AllWithin :
    (m : ℕ) (ss : List Symbol)
    → ((s : Symbol) → In s ss → (s.addr + s.size < 2 ^ 64) × (sym_end s ≤ m))
    → AllWithin m ss
In-AllWithin m [] f = tt
In-AllWithin m (s ∷ ss) f =
    let (a, b) = f s (inl refl) in (a, b, In-AllWithin m ss (λ u i. f u (inr i)))

length-symbols : (rs : List Range) → length (symbols rs) ≡ length rs
length-symbols [] = refl
length-symbols (r ∷ rs) = ap suc (length-symbols rs)

-- The names decide only between symbols that begin at one address and have one size.
sort_cmp-addr :
    (strcmp : List ℕ → List ℕ → Ordering) (cm : List ℕ) (l r : Range)
    → sort_cmp strcmp cm l r ≢ Ordering.gt
    → l.sym.addr ≤ r.sym.addr
unfolding sort_cmp
sort_cmp-addr strcmp cm l r h = ground arith

NotAfter-AllFrom :
    (strcmp : List ℕ → List ℕ → Ordering) (cm : List ℕ) (r : Range) (rs : List Range)
    → NotAfter (sort_cmp strcmp cm) r rs
    → AllFrom r.sym.addr (symbols rs)
NotAfter-AllFrom strcmp cm r [] h = tt
NotAfter-AllFrom strcmp cm r (x ∷ rs) (h, k) =
    (sort_cmp-addr strcmp cm r x h, NotAfter-AllFrom strcmp cm r rs k)

InOrder-IsSorted :
    (strcmp : List ℕ → List ℕ → Ordering) (cm : List ℕ) (rs : List Range)
    → InOrder (sort_cmp strcmp cm) rs
    → IsSorted (symbols rs)
InOrder-IsSorted strcmp cm [] h = tt
InOrder-IsSorted strcmp cm (r ∷ rs) (h, k) =
    (NotAfter-AllFrom strcmp cm r rs h, InOrder-IsSorted strcmp cm rs k)

no_ranges : (rs : List Range) → (length rs == 0) ≡ true → rs ≡ []
no_ranges [] h = refl
no_ranges (r ∷ rs) h = absurd (ground arith)

-- An allocation was refused: of the new array, or of one with room for more.
abbrev pub IsRefused : (new_ok : Bool) (grow_ok : ℕ → Bool) → Type 0
IsRefused new_ok grow_ok = (new_ok ≡ false) ⊎ ((m : ℕ) × (grow_ok m ≡ false))

rooms-refused :
    (n : ℕ) (grow_ok : ℕ → Bool) (alloc count : ℕ)
    → rooms n grow_ok alloc count ≡ false
    → (m : ℕ) × (grow_ok m ≡ false)
unfolding rooms
rooms-refused zero grow_ok alloc count h = absurd (cc)
rooms-refused (suc n) grow_ok alloc count h = elim (Bool-cases (grow_ok (alloc + 1024))) [
  | inr f ↦ (alloc + 1024, f)
  | inl t ↦ rooms-refused n grow_ok (alloc + 1024) count (ground arith)
]

form_ranges_lem :
    (new_ok : Bool) (grow_ok : ℕ → Bool) (n : ℕ) (t : Symtab) (new : List Range)
    → form n (symbols t.ranges) 0 [] ≡ some new
    → ((u : Symtab) × (form_ranges new_ok grow_ok n t ≡ some (true, u))
        × (u.ranges ≡ new)
        × ((new_ok ≡ true) ⊎ (t.ranges ≡ [])))
      ⊎ ((form_ranges new_ok grow_ok n t ≡ some (false, t)) × IsRefused new_ok grow_ok)
unfolding form_ranges form
form_ranges_lem new_ok grow_ok n t new e = elim (Bool-cases (length t.ranges == 0)) [
  | inl z ↦
      let q = no_ranges t.ranges z in
      let f : form n (symbols []) 0 [] ≡ some new =
        subst (λ (rs : List Range). form n (symbols rs) 0 [] ≡ some new) q e in
      inl (t, rw (form_ranges, z) refl, q ∙ (cc), inr q)
  | inr z ↦ elim (Bool-cases new_ok) [
    | inr m ↦ inr (rw (form_ranges, z, m) refl, inl m)
    | inl m ↦ elim (Bool-cases (rooms (length new) grow_ok t.num_alloc (length new))) [
      | inl r ↦ inl (
        record t { ranges = new; num_alloc = grown t.num_alloc (length new) },
        rw (form_ranges, z, m, e, r) refl,
        refl,
        inl m,
      )
      | inr r ↦ inr (
        rw (form_ranges, z, m, e, r) refl,
        inr (rooms-refused (length new) grow_ok t.num_alloc (length new) r),
      )
    ]
  ]
]

Answer-same :
    (rs new : List Range) (a : ℕ) (o : Option Symbol)
    → ((r : Range) → In r new ↔ In r rs)
    → Answer (symbols new) a o
    → Answer (symbols rs) a o
Answer-same rs new a none f h = λ s i. h s (same_symbols new rs s (λ r. (f r).1) i)
Answer-same rs new a (some x) f (s, e, i, k, g) = (
  s,
  e,
  same_symbols rs new s (λ r. (f r).0) i,
  k,
  (λ u j. g u (same_symbols new rs u (λ r. (f r).1) j)),
)

empty : (rs : List Range) → length rs ≡ 0 → rs ≡ []
empty [] h = refl
empty (r ∷ rs) h = absurd (omega arith)

unsorted : {A : Type 0} (b : Bool) (x y : A) → b ≡ false → (if b then x else y) ≡ y
unsorted true x y h = absurd (cc)
unsorted false x y h = refl

sort_lem :
    (qsort : List Range → List Range) (new_ok : Bool) (grow_ok : ℕ → Bool) (n : ℕ) (t : Symtab)
    (r : Bool × Symtab)
    → t.sorted ≡ false
    → form_ranges new_ok grow_ok n (record t { ranges = qsort t.ranges }) ≡ some r
    → sort qsort new_ok grow_ok n false t ≡ some (if_formed (r.0) (r.1))
unfolding sort
sort_lem qsort new_ok grow_ok n t r h g =
    unsorted t.sorted (some t)
      (set_sorted (form_ranges new_ok grow_ok n (record t { ranges = qsort t.ranges }))) h
    ∙ ap set_sorted g

-- How dt_symtab_sort ends, with what dt_symbol_by_addr then gives.
pub data Searchable (new_ok : Bool) (grow_ok : ℕ → Bool) (t u : Symtab) (found : ℕ → Option Symbol)
    : Type 0 where
  formed :
      u.sorted ≡ true
      → (new_ok ≡ true) ⊎ (t.ranges ≡ [])
      → ((a : ℕ) → Answer (symbols t.ranges) a (found a))
      → Searchable new_ok grow_ok t u found
  refused :
      IsRefused new_ok grow_ok
      → u.sorted ≡ false
      → ((s : Symbol) → In s (symbols u.ranges) ↔ In s (symbols t.ranges))
      → ((a : ℕ) → found a ≡ none)
      → Searchable new_ok grow_ok t u found

-- For a table that is not sorted yet, whose symbols do not wrap around and end at `m` at the
-- latest, with qsort and bsearch of the C library doing what they are documented to do:
-- dt_symtab_sort, called with a flag of 0, ends within as many rounds as there are symbols and
-- addresses up to `m`. Then dt_symbol_by_addr returns for every address a symbol of the table that
-- spans it, such that each symbol of the table that spans it begins earlier, or at the same address
-- and is not smaller; it returns none only when no symbol of the table spans the address. Or an
-- allocation was refused, and then the table has the symbols that it had and is not marked as
-- sorted, and dt_symbol_by_addr returns none for every address.
pub by_addr-sort :
    (strcmp : List ℕ → List ℕ → Ordering) (cm : List ℕ) (qsort : List Range → List Range)
    (bsearch : (Range → Ordering) → List Range → Option Range) (new_ok : Bool) (grow_ok : ℕ → Bool)
    (m n : ℕ) (t : Symtab)
    → IsSorting (sort_cmp strcmp cm) t.ranges (qsort t.ranges)
    → IsSearching bsearch
    → t.sorted ≡ false
    → AllWithin m (symbols t.ranges)
    → length t.ranges + m ≤ n
    → (u : Symtab) × (sort qsort new_ok grow_ok n false t ≡ some u)
      × Searchable new_ok grow_ok t u (by_addr bsearch u)
unfolding by_addr
by_addr-sort strcmp cm qsort bsearch new_ok grow_ok m n t (so, same, len) bs ns w k =
    let new = qsort t.ranges in
    let w' : AllWithin m (symbols new) = In-AllWithin m (symbols new) (λ s i.
      AllWithin-In m s (symbols t.ranges) w (same_symbols t.ranges new s (λ r. (same r).0) i)) in
    let fuel : length (symbols new) + m ≤ n = omega (arith, length-symbols new) in
    let (rs, e, f, c) =
      form-innermost m n (symbols new) w' (InOrder-IsSorted strcmp cm new so) fuel in
    elim (form_ranges_lem new_ok grow_ok n (record t { ranges = new }) rs e) [
      | inl (u, g, h, mem) ↦
          let (end, ch) = c in
          let ch' : Chain 0 u.ranges end = subst (λ (l : List Range). Chain 0 l end) (sym h) ch in
          let none_left : new ≡ [] → t.ranges ≡ [] = λ z. empty t.ranges (sym len ∙ ap length z) in
          (
            record u { sorted = true },
            sort_lem qsort new_ok grow_ok n t (true, u) ns g,
            formed refl (elim mem [ inl p ↦ inl p | inr z ↦ inr (none_left z) ])
                (λ a.
                  let o = bsearch (search_cmp a) u.ranges in
                  let r = search_cmp-Ranked a 0 0 u.ranges end ch' (omega arith) (inl refl) in
                  let q = found-lookup 0 u.ranges end a o ch' (bs (search_cmp a) u.ranges r) in
                  let p : owner (sym_of o) ≡ owner (innermost none (symbols new) a) =
                    ap owner q ∙ ap (λ (l : List Range). owner (lookup l a)) h ∙ f a in
                  Answer-same t.ranges new a (sym_of o) same (
                    Best-Answer (symbols new) a (sym_of o) (innermost none (symbols new) a) p
                      (innermost-Best none (symbols new) a))),
          )
      | inr (g, mem) ↦ (
        record t { ranges = new },
        sort_lem qsort new_ok grow_ok n t (false, record t { ranges = new }) ns g,
        refused mem ns
            (λ s. (
              same_symbols t.ranges new s (λ r. (same r).0),
              same_symbols new t.ranges s (λ r. (same r).1),
            ))
            (λ a. unsorted t.sorted _ none ns),
      )
    ]
