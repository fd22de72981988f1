-- ===== src/Symtab.antt =====
-- libdtrace/dt_symtab.c: the ranges of addresses by which the symbol of an address is found.
--
-- `at` is the address of the symbol's own record, by which two symbols are told apart. Addresses
-- have 64 bits. The number of ranges is the length of the list of them, of which `num_alloc` have
-- room. The C library's qsort, bsearch and strcmp are parameters.
pub mod Narrow
pub mod Ranges
pub mod Form
pub mod Best
pub mod Search
pub mod Sort
mod Tests
use dtrace_utils.Common.{
  ℕ, zero, suc, ◌+◌, ◌-◌, ◌*◌, ◌/◌, ◌%◌, ◌^◌, min, Bool, true, false, not, ◌&&◌, ◌||◌, Option, none,
  some, List, [], ◌∷◌, ◌++◌, bit_and, ltb, leb, ◌==◌, if◌then◌else◌, length,
}
use Prim.Native.Nat.{Ordering}

pub record Symbol : Type 0 where
  pub at : ℕ
  pub name : List ℕ
  pub addr : ℕ
  pub size : ℕ
  pub info : ℕ

pub record Range : Type 0 where
  pub lo : ℕ
  pub hi : ℕ
  pub sym : Symbol

pub record Symtab : Type 0 where
  pub ranges : List Range
  pub num_alloc : ℕ
  pub sorted : Bool
  pub packed : Bool

-- The address behind the symbol.
unfoldable pub sym_end : Symbol → ℕ
sym_end s = (s.addr + s.size) % 2 ^ 64

-- The other allocations and the insertion into the table of names, whether each succeeds.
pub record Given : Type 0 where
  pub sym_ok : Bool
  pub grow_ok : Bool
  pub name_ok : Bool
  pub table_ok : Bool

unfoldable pub grow_ranges : Symtab → Symtab
grow_ranges t = record t { num_alloc = (t.num_alloc + 1) * 2 }

abbrev pub needs_room : Symtab → Bool
needs_room t = leb t.num_alloc (length t.ranges)

-- The range's bounds are not set yet.
unfoldable pub add_symbol : Symbol → Symtab → Symtab
add_symbol s t = record t {
  ranges = if ltb 0 s.size then t.ranges ++ (record { lo = 0; hi = 0; sym = s } ∷ []) else t.ranges;
  sorted = false;
}

unfoldable pub insert : Given → Symbol → Symtab → Option Symbol × Symtab
unfolding grow_ranges add_symbol
insert g s t =
    if t.packed
    then (none, t)
    else if not g.sym_ok
    then (none, t)
    else if needs_room t && not g.grow_ok
    then (none, t)
    else let t' = if needs_room t then grow_ranges t else t in
      if g.name_ok && g.table_ok then (some s, add_symbol s t') else (none, t')

-- STT_NOTYPE is 0 in the low four bits of the information, STB_WEAK is 2 above them.
abbrev pub is_notype : Symbol → Bool
is_notype s = bit_and s.info 15 == 0

abbrev pub is_weak : Symbol → Bool
is_weak s = s.info / 16 == 2

abbrev pub is_eq : Ordering → Bool
is_eq Ordering.eq = true
is_eq Ordering.lt = false
is_eq Ordering.gt = false

-- `if (p != q) return p ? 1 : -1`, and the rest of the comparison.
abbrev pub last_if : (p q : Bool) → Ordering → Ordering
last_if true false o = Ordering.gt
last_if false true o = Ordering.lt
last_if true true o = o
last_if false false o = o

module _ (strcmp : List ℕ → List ℕ → Ordering) (cleanup_module : List ℕ) where
  abbrev pub is_cleanup : Symbol → Bool
  is_cleanup s = is_eq (strcmp s.name cleanup_module)

  unfoldable pub sort_cmp : Range → Range → Ordering
  sort_cmp lp rp =
      let l = lp.sym in
      let r = rp.sym in
      if ltb l.addr r.addr
      then Ordering.lt
      else if ltb r.addr l.addr
      then Ordering.gt
      else if ltb r.size l.size
      then Ordering.lt
      else if ltb l.size r.size
      then Ordering.gt
      else last_if (is_notype l) (is_notype r) (
          last_if (is_weak l) (is_weak r)
            (last_if (is_cleanup l) (is_cleanup r) (strcmp l.name r.name)))

unfoldable pub search_cmp : ℕ → Range → Ordering
search_cmp a r = if ltb a r.lo then Ordering.lt else if leb r.hi a then Ordering.gt else Ordering.eq

-- The better of two symbols that span an address.
abbrev pub wins : Symbol → Symbol → Bool
wins s2 s = ltb s.addr s2.addr || ((s2.addr == s.addr) && ltb s2.size s.size)

-- The loop over `j`: the end of the range that begins at `lo`, and its symbol.
unfoldable pub narrow : ℕ → List Symbol → ℕ → Symbol → ℕ × Symbol
unfolding sym_end
narrow lo [] hi sym = (hi, sym)
narrow lo (s2 ∷ rest) hi sym =
    let hi2 = sym_end s2 in
    let skipped = leb hi2 lo in
    let next =
      narrow lo rest (if skipped then hi else if ltb hi2 hi then hi2 else hi)
        (if skipped then sym else if wins s2 sym then s2 else sym) in
    if leb hi s2.addr then (hi, sym) else if ltb lo s2.addr then (s2.addr, sym) else next

-- The new range, joined to the last one where it continues it.
unfoldable pub add_range : (lo hi : ℕ) → Symbol → List Range → List Range
add_range lo hi sym [] = record { lo = lo; hi = hi; sym = sym } ∷ []
add_range lo hi sym (r ∷ []) =
    if (r.hi == lo) && (r.sym.at == sym.at)
    then record r { hi = hi } ∷ []
    else r ∷ record { lo = lo; hi = hi; sym = sym } ∷ []
add_range lo hi sym (r ∷ r2 ∷ rs) = r ∷ add_range lo hi sym (r2 ∷ rs)

-- The state of the loop over `i`: the symbols from `i` on, and the new ranges.
pub record Loop : Type 0 where
  pub left : List Symbol
  pub hi : ℕ
  pub formed : List Range

unfoldable pub is_skipped : Symbol → ℕ → Bool
unfolding sym_end
is_skipped s hi = (s.size == 0) || (ltb s.addr hi && leb (sym_end s) hi)

unfoldable pub emit : Symbol → List Symbol → ℕ → List Range → Loop
unfolding narrow add_range sym_end
emit s rest hi rs =
    let lo = if ltb s.addr hi then hi else s.addr in
    let next = narrow lo rest (sym_end s) s in
    record { left = s ∷ rest; hi = next.0; formed = add_range lo (next.0) (next.1) rs }

unfoldable pub step : Symbol → List Symbol → ℕ → List Range → Loop
unfolding is_skipped emit
step s rest hi rs =
    if is_skipped s hi then record { left = rest; hi = hi; formed = rs } else emit s rest hi rs

-- The loop, on fuel, where there is memory for the ranges that it adds.
unfoldable pub form : ℕ → List Symbol → ℕ → List Range → Option (List Range)
unfolding step
form n [] hi rs = some rs
form zero (s ∷ rest) hi rs = none
form (suc n) (s ∷ rest) hi rs = let l = step s rest hi rs in form n l.left l.hi l.formed

abbrev pub symbols : List Range → List Symbol
symbols [] = []
symbols (r ∷ rs) = r.sym ∷ symbols rs

-- The array of new ranges grows by 1024 whenever it is full.
abbrev pub grown : (num_alloc count : ℕ) → ℕ
grown num_alloc count = num_alloc + 1024 * ((count - num_alloc + 1023) / 1024)

-- Whether each realloc for `count` ranges is given, from room for `alloc` on; no more rounds than
-- ranges are needed. In the loop the first one that is refused ends it, and what was formed is
-- freed.
unfoldable pub rooms : ℕ → (grow_ok : ℕ → Bool) → (alloc count : ℕ) → Bool
rooms zero grow_ok alloc count = true
rooms (suc n) grow_ok alloc count =
    let rest = rooms n grow_ok (alloc + 1024) count in
    if ltb alloc count then grow_ok (alloc + 1024) && rest else true

-- Whether the ranges were formed, and the table.
abbrev pub with_ranges :
    (grow_ok : ℕ → Bool) → Symtab → Option (List Range) → Option (Bool × Symtab)
with_ranges grow_ok t none = none
with_ranges grow_ok t (some new) = some (
    if rooms (length new) grow_ok t.num_alloc (length new)
    then (true, record t { ranges = new; num_alloc = grown t.num_alloc (length new) })
    else (false, t))

-- `new_ok` says whether malloc gives the new array, and `grow_ok` whether realloc gives one for so
-- many ranges.
unfoldable pub form_ranges :
    (new_ok : Bool) → (grow_ok : ℕ → Bool) → ℕ → Symtab → Option (Bool × Symtab)
unfolding form
form_ranges new_ok grow_ok n t =
    if length t.ranges == 0
    then some (true, t)
    else if not new_ok
    then some (false, t)
    else with_ranges grow_ok t (form n (symbols t.ranges) 0 [])

-- Every symbol but the last gets the size that reaches to the next one.
unfoldable pub fill_sizes : List Range → List Range
fill_sizes [] = []
fill_sizes (r ∷ []) = r ∷ []
fill_sizes (r ∷ r2 ∷ rs) =
    record r { sym = record (r.sym) { size = (r2.sym.addr + (2 ^ 64 - r.sym.addr)) % 2 ^ 64 } }
    ∷ fill_sizes (r2 ∷ rs)

abbrev pub if_formed : Bool → Symtab → Symtab
if_formed true t = record t { sorted = true }
if_formed false t = t

abbrev pub set_sorted : Option (Bool × Symtab) → Option Symtab
set_sorted none = none
set_sorted (some r) = some (if_formed (r.0) (r.1))

abbrev pub sym_of : Option Range → Option Symbol
sym_of none = none
sym_of (some r) = some r.sym

module _ (qsort : List Range → List Range) where
  abbrev pub arranged : (flag : Bool) → Symtab → Symtab
  arranged flag t = record t {
    ranges = if flag then fill_sizes (qsort t.ranges) else qsort t.ranges;
  }

  unfoldable pub sort :
      (new_ok : Bool) → (grow_ok : ℕ → Bool) → ℕ → (flag : Bool) → Symtab → Option Symtab
  unfolding form_ranges fill_sizes
  sort new_ok grow_ok n flag t =
      if t.sorted then some t else set_sorted (form_ranges new_ok grow_ok n (arranged flag t))

module _ (bsearch : (Range → Ordering) → List Range → Option Range) where
  unfoldable pub by_addr : Symtab → ℕ → Option Symbol
  unfolding search_cmp
  by_addr t a = if t.sorted then sym_of (bsearch (search_cmp a) t.ranges) else none
