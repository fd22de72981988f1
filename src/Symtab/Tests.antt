-- ===== src/Symtab/Tests.antt =====
-- dt_symtab.c: the symbols drawn in the comment of dt_symtab_form_ranges, and the witnesses.
use dtrace_utils.Common.{
  ℕ, ◌≡◌, ◌≢◌, refl, sym, ap, ◌∙◌, inl, inr, true, false, Option, none, some, List, [], ◌∷◌, arith,
}
use Prim.Native.Nat.{Ordering, compare}
use dtrace_utils.Symtab.{
  Symbol, Range, Symtab, Given, sym_end, form, sort, by_addr, sort_cmp, insert,
}
use dtrace_utils.Symtab.Narrow.{innermost}
use dtrace_utils.Symtab.Ranges.{Chain, lookup, owner}
use dtrace_utils.Symtab.Form.{AllWithin}
use dtrace_utils.Symtab.Search.{form-innermost, FoundBy}
use dtrace_utils.Symtab.Sort.{Searchable, by_addr-sort}

abbrev symbol : ℕ → ℕ → ℕ → Symbol
symbol at addr size = record { at = at; name = at ∷ []; addr = addr; size = size; info = 18 }

abbrev range : ℕ → ℕ → Symbol → Range
range lo hi s = record { lo = lo; hi = hi; sym = s }

abbrev a_sym : Symbol
a_sym = symbol 1 10 40

abbrev b_sym : Symbol
b_sym = symbol 2 20 20

abbrev c_sym : Symbol
c_sym = symbol 3 20 20

abbrev d_sym : Symbol
d_sym = symbol 4 25 5

abbrev drawn : List Symbol
drawn = a_sym ∷ b_sym ∷ c_sym ∷ d_sym ∷ []

drawn_test :
    form 54 drawn 0 []
    ≡ some (
        range 10 20 a_sym
        ∷ range 20 25 b_sym
        ∷ range 25 30 d_sym
        ∷ range 30 40 b_sym
        ∷ range 40 50 a_sym
        ∷ [])
unfolding form
drawn_test = refl

drawn-AllWithin : AllWithin 50 drawn
unfolding sym_end
drawn-AllWithin = (
  omega arith,
  omega arith,
  (omega arith, omega arith, (omega arith, omega arith, (omega arith, omega arith, tt))),
)

form-innermost_example :
    (new : List Range) × (form 60 drawn 0 [] ≡ some new)
    × ((a : ℕ) → owner (lookup new a) ≡ owner (innermost none drawn a))
    × ((e : ℕ) × Chain 0 new e)
form-innermost_example =
    form-innermost 50 60 drawn drawn-AllWithin
      (
        (omega arith, (omega arith, (omega arith, tt))),
        ((omega arith, (omega arith, tt)), ((omega arith, tt), (tt, tt))),
      )
      (omega arith)

abbrev strcmp : List ℕ → List ℕ → Ordering
strcmp [] [] = Ordering.eq
strcmp [] (y ∷ ys) = Ordering.lt
strcmp (x ∷ xs) [] = Ordering.gt
strcmp (x ∷ xs) (y ∷ ys) = elim (compare x y) [
  | Ordering.lt ↦ Ordering.lt
  | Ordering.gt ↦ Ordering.gt
  | Ordering.eq ↦ strcmp xs ys
]

abbrev if_eq : Ordering → Option Range → Option Range → Option Range
if_eq Ordering.eq a b = a
if_eq Ordering.lt a b = b
if_eq Ordering.gt a b = b

-- A search from the start.
abbrev first_match : (Range → Ordering) → List Range → Option Range
first_match cmp [] = none
first_match cmp (r ∷ rs) = if_eq (cmp r) (some r) (first_match cmp rs)

missed :
    (cmp : Range → Ordering) (r : Range) (rs : List Range)
    → FoundBy cmp rs none
    → cmp r ≢ Ordering.eq
    → FoundBy cmp (r ∷ rs) none
missed cmp r rs f h = λ u i. elim i [ inl q ↦ λ e. h (ap cmp (sym q) ∙ e) | inr k ↦ f u k ]

match_step :
    (cmp : Range → Ordering) (r : Range) (rs : List Range) (o : Ordering) (p : Option Range)
    → cmp r ≡ o
    → FoundBy cmp rs p
    → FoundBy cmp (r ∷ rs) (if_eq o (some r) p)
match_step cmp r rs Ordering.eq p e f = (inl refl, e)
match_step cmp r rs Ordering.lt none e f = missed cmp r rs f (λ q. absurd (cc))
match_step cmp r rs Ordering.gt none e f = missed cmp r rs f (λ q. absurd (cc))
match_step cmp r rs Ordering.lt (some x) e (i, k) = (inr i, k)
match_step cmp r rs Ordering.gt (some x) e (i, k) = (inr i, k)

first_match-found : (cmp : Range → Ordering) (rs : List Range) → FoundBy cmp rs (first_match cmp rs)
first_match-found cmp [] = λ r i. elim i [ ]
first_match-found cmp (r ∷ rs) =
    match_step cmp r rs (cmp r) (first_match cmp rs) refl (first_match-found cmp rs)

abbrev pair_table : Symtab
pair_table = record {
  ranges = range 0 0 a_sym ∷ range 0 0 d_sym ∷ [];
  num_alloc = 2;
  sorted = false;
  packed = false;
}

by_addr-sort_example :
    (u : Symtab) × (sort (λ rs. rs) true (λ n. true) 60 false pair_table ≡ some u)
    × Searchable true (λ n. true) pair_table u (by_addr first_match u)
unfolding sort_cmp sym_end
by_addr-sort_example =
    by_addr-sort strcmp (9 ∷ []) (λ rs. rs) first_match true (λ n. true) 50 60 pair_table
      ((((λ e. absurd (cc)), tt), (tt, tt)), (λ r. ((λ i. i), (λ i. i))), refl)
      (λ cmp rs k. first_match-found cmp rs) refl
      (omega arith, omega arith, (omega arith, omega arith, tt)) (omega arith)

-- A packed table takes no symbol; a symbol of size 0 gets no range.
abbrev fine : Given
fine = record { sym_ok = true; grow_ok = true; name_ok = true; table_ok = true }

insert_test :
    insert fine (symbol 5 60 0) pair_table
    ≡ (some (symbol 5 60 0), record pair_table { num_alloc = 6 })
unfolding insert
insert_test = refl
