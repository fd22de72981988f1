-- ===== src/Dlist.antt =====
-- libdtrace/dt_list.c: doubly-linked lists in a heap of cells.
--
-- An address is a number, NULL is `none`. The cell of the list itself holds the first element in
-- `next` and the last one in `prev`. A failed assertion is `none`.
pub mod Distinct
pub mod Links
pub mod Change
pub mod Refine
mod Tests
use dtrace_utils.Common.{
  ℕ, zero, suc, ◌+◌, Bool, true, false, Option, none, some, ◌==◌, if◌then◌else◌,
}

pub record Cell : Type 0 where
  pub prev : Option ℕ
  pub next : Option ℕ

abbrev pub Heap : Type 0
Heap = ℕ → Cell

unfoldable pub set_prev : ℕ → Option ℕ → Heap → Heap
set_prev a v m = λ b. if b == a then record (m b) { prev = v } else m b

unfoldable pub set_next : ℕ → Option ℕ → Heap → Heap
set_next a v m = λ b. if b == a then record (m b) { next = v } else m b

abbrev pub is_none : Option ℕ → Bool
is_none none = true
is_none (some a) = false

unfoldable pub append : ℕ → ℕ → Heap → Option Heap
append dlp new m =
    let p = (m dlp).prev in
    let m' = set_next new none (set_prev new p (set_prev dlp (some new) m)) in
    elim p [
      | some a ↦ if is_none (m' a).next then some (set_next a (some new) m') else none
      | none ↦ if is_none (m' dlp).next then some (set_next dlp (some new) m') else none
    ]

unfoldable pub prepend : ℕ → ℕ → Heap → Option Heap
prepend dlp new m =
    let q = (m dlp).next in
    let m' = set_next new q (set_prev new none (set_next dlp (some new) m)) in
    elim q [
      | some a ↦ if is_none (m' a).prev then some (set_prev a (some new) m') else none
      | none ↦ if is_none (m' dlp).prev then some (set_prev dlp (some new) m') else none
    ]

unfoldable pub insert : ℕ → Option ℕ → ℕ → Heap → Option Heap
unfolding append
insert dlp none new m = append dlp new m
insert dlp (some p) new m = elim (m p).next [
  | none ↦ append dlp new m
  | some n ↦
      let m' = set_next p (some new) (set_prev new (some p) (set_next new (some n) m)) in
      elim (m' new).next [ none ↦ none | some a ↦ some (set_prev a (some new) m') ]
]

-- The field of the neighbour, or of the list's own cell where the pointer is NULL.
unfoldable pub neighbour_next : ℕ → Option ℕ → Option ℕ → Heap → Heap
neighbour_next dlp (some a) v m = set_next a v m
neighbour_next dlp none v m = set_next dlp v m

unfoldable pub neighbour_prev : ℕ → Option ℕ → Option ℕ → Heap → Heap
neighbour_prev dlp (some a) v m = set_prev a v m
neighbour_prev dlp none v m = set_prev dlp v m

unfoldable pub delete : ℕ → ℕ → Heap → Heap
unfolding neighbour_next neighbour_prev
delete dlp p m =
    let m' = neighbour_next dlp (m p).prev (m p).next m in
    neighbour_prev dlp (m' p).next (m' p).prev m'

-- The loop of dt_list_length, on fuel.
unfoldable pub length_from : ℕ → Option ℕ → Heap → Option ℕ
length_from n none m = some 0
length_from zero (some p) m = none
length_from (suc n) (some p) m =
    let rest = length_from n (m p).next m in elim rest [ none ↦ none | some k ↦ some (k + 1) ]

unfoldable pub list_length : ℕ → ℕ → Heap → Option ℕ
unfolding length_from
list_length n dlp m = length_from n (m dlp).next m
