-- ===== src/Dlist/Tests.antt =====
-- dt_list.c on a list at address 0.
use dtrace_utils.Common.{ℕ, ◌≡◌, refl, Option, none, some, [], ◌∷◌, arith, if◌then◌else◌, ◌==◌}
use dtrace_utils.Dlist.Distinct.{Absent}
use dtrace_utils.Dlist.Links.{IsList}
use dtrace_utils.Dlist.Refine.{ends-IsList, insert-IsList, delete-IsList, list_length-IsList}
use dtrace_utils.Dlist.{
  Heap, append, prepend, insert, delete, list_length, set_prev, set_next, neighbour_next,
  neighbour_prev,
}

abbrev empty_heap : Heap
empty_heap = λ a. record { prev = none; next = none }

-- 5, then 3 in front of it, then 4 behind 3, then 3 deleted.
abbrev then_do : Option Heap → (Heap → Option Heap) → Option Heap
then_do none f = none
then_do (some m) f = f m

abbrev final : Option Heap
final =
    then_do (append 0 5 empty_heap) λ m1.
      then_do (prepend 0 3 m1) λ m2. then_do (insert 0 (some 3) 4 m2) λ m3. some (delete 0 3 m3)

abbrev head_of : Option Heap → Option ℕ
head_of none = none
head_of (some m) = (m 0).next

abbrev length_of : Option Heap → Option ℕ
length_of none = none
length_of (some m) = list_length 10 0 m

head_test : head_of final ≡ some 4
unfolding set_prev set_next append prepend insert delete neighbour_next neighbour_prev
head_test = refl

length_test : length_of final ≡ some 2
unfolding set_prev set_next append prepend insert delete neighbour_next neighbour_prev list_length
length_test = refl

-- 3, then 5.
abbrev two : Heap
two = λ a.
    if a == 0
    then record { prev = some 5; next = some 3 }
    else if a == 3
    then record { prev = none; next = some 5 }
    else record { prev = some 3; next = none }

two-IsList : IsList two 0 (3 ∷ 5 ∷ [])
two-IsList = (
  ((omega arith, (omega arith, tt)), ((omega arith, tt), (tt, tt))),
  ((refl, refl), ((refl, refl), ((refl, refl), tt))),
)

four-Absent : Absent 4 (0 ∷ 3 ∷ 5 ∷ [])
four-Absent = (omega arith, (omega arith, (omega arith, tt)))

ends-IsList_example :
    ((m' : Heap) × (append 0 4 two ≡ some m') × IsList m' 0 (3 ∷ 5 ∷ 4 ∷ []))
    × ((m' : Heap) × (prepend 0 4 two ≡ some m') × IsList m' 0 (4 ∷ 3 ∷ 5 ∷ []))
ends-IsList_example = ends-IsList two 0 4 (3 ∷ 5 ∷ []) two-IsList four-Absent

insert-IsList_example :
    (m' : Heap) × (insert 0 (some 3) 4 two ≡ some m') × IsList m' 0 (3 ∷ 4 ∷ 5 ∷ [])
insert-IsList_example = insert-IsList two 0 4 3 [] (5 ∷ []) two-IsList four-Absent

delete-IsList_example : IsList (delete 0 5 two) 0 (3 ∷ [])
delete-IsList_example = delete-IsList two 0 5 (3 ∷ []) [] two-IsList

list_length-IsList_example : list_length 7 0 two ≡ some 2
list_length-IsList_example = list_length-IsList two 0 7 (3 ∷ 5 ∷ []) two-IsList (omega arith)
