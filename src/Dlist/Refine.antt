-- ===== src/Dlist/Refine.antt =====
-- dt_list.c: each operation on a list of the heap is the operation on its elements.
use dtrace_utils.Common.{
  ℕ, zero, suc, ◌≡◌, ◌≢◌, ◌≤◌, refl, sym, ap, subst, ◌∙◌, none, some, List, [], ◌∷◌, ◌++◌,
  append-nil, arith, length,
}
use dtrace_utils.Dlist.Distinct.{Absent, Distinct-out, last, first}
use dtrace_utils.Dlist.Links.{
  IsList, IsList-beside, IsList-around, Links, pointer, link_in, link_out,
}
use dtrace_utils.Dlist.Change.{
  append_lem, prepend_lem, insert_lem, insert_at_end, delete_lem, next-set_prev, prev-set_next,
  prev-set_prev_self, next-set_next_self, prev-set_prev_ne, next-set_next_ne,
}
use dtrace_utils.Dlist.{
  Heap, append, prepend, insert, delete, length_from, list_length, set_prev, set_next,
}

ruleset reads = (
  next-set_prev, prev-set_next, prev-set_prev_self, next-set_next_self, prev-set_prev_ne,
  next-set_next_ne,
)

last-Absent_eq : (v d : ℕ) (xs ys : List ℕ) → Absent v (d ∷ (xs ++ ys)) → v ≢ last d xs
last-Absent_eq v d [] ys (h, k) = h
last-Absent_eq v d (x ∷ xs) ys (h, k) = last-Absent_eq v x xs ys k

first-Absent_eq : (v d : ℕ) (xs ys : List ℕ) → Absent v (d ∷ (xs ++ ys)) → v ≢ first ys d
first-Absent_eq v d xs [] (h, k) = h
first-Absent_eq v d [] (y ∷ ys) (h, (k, l)) = k
first-Absent_eq v d (x ∷ xs) (y ∷ ys) (h, (k, l)) = first-Absent_eq v d xs (y ∷ ys) (h, l)

first-in : (d : ℕ) (xs : List ℕ) (y : ℕ) (ys : List ℕ) → Absent d (xs ++ (y ∷ ys)) → d ≢ y
first-in d [] y ys (h, k) = h
first-in d (x ∷ xs) y ys (h, k) = first-in d xs y ys k

pointer_self : (d : ℕ) → pointer d d ≡ none
pointer_self d = ground arith

pointer_other : (d a : ℕ) → a ≢ d → pointer d a ≡ some a
pointer_other d a h = ground arith

append_at :
    (m : Heap) (d v : ℕ) (xs : List ℕ)
    → IsList m d (xs ++ [])
    → Absent v (d ∷ (xs ++ []))
    → (m' : Heap) × (append d v m ≡ some m') × IsList m' d (xs ++ (v ∷ []))
append_at m d v xs h f =
    let (l1, (n, p), l3) = IsList-beside m d xs [] h in
    let (v_d, f') = f in
    let v_a = last-Absent_eq v d xs [] f in
    let e = pointer_self d in
    let k = pointer_other d v v_d in
    let a = last d xs in
    (
      set_next a (some v) (set_next v none (set_prev v (pointer d a) (set_prev d (some v) m))),
      append_lem d v a m p (n ∙ e) v_d v_a,
      link_in m
          (set_next a (some v) (set_next v none (set_prev v (pointer d a) (set_prev d (some v) m))))
          d v xs [] h f ((λ x p q. grind (arith, reads)), (λ x p q. grind (arith, reads)))
          (grind (arith, reads), grind (arith, reads)) (grind (arith, reads), grind (arith, reads)),
    )

pub append-IsList :
    (m : Heap) (d v : ℕ) (xs : List ℕ)
    → IsList m d xs
    → Absent v (d ∷ xs)
    → (m' : Heap) × (append d v m ≡ some m') × IsList m' d (xs ++ (v ∷ []))
append-IsList m d v xs h f =
    let e = sym (append-nil xs) in
    append_at m d v xs (subst (IsList m d) e h) (subst (λ l. Absent v (d ∷ l)) e f)

pub prepend-IsList :
    (m : Heap) (d v : ℕ) (xs : List ℕ)
    → IsList m d xs
    → Absent v (d ∷ xs)
    → (m' : Heap) × (prepend d v m ≡ some m') × IsList m' d (v ∷ xs)
prepend-IsList m d v xs h f =
    let (l1, (n, p), l3) = IsList-beside m d [] xs h in
    let (v_d, f') = f in
    let v_b = first-Absent_eq v d [] xs f in
    let e = pointer_self d in
    let k = pointer_other d v v_d in
    let b = first xs d in
    (
      set_prev b (some v) (set_next v (pointer d b) (set_prev v none (set_next d (some v) m))),
      prepend_lem d v b m n (p ∙ e) v_d v_b,
      link_in m
          (set_prev b (some v) (set_next v (pointer d b) (set_prev v none (set_next d (some v) m))))
          d v [] xs h f ((λ x p q. grind (arith, reads)), (λ x p q. grind (arith, reads)))
          (grind (arith, reads), grind (arith, reads)) (grind (arith, reads), grind (arith, reads)),
    )

-- On a list of `xs` in the heap and a cell that is not among them, dt_list_append and
-- dt_list_prepend fail no assertion, and the heap then holds the list with the cell behind `xs`,
-- and with the cell in front of `xs`.
pub ends-IsList :
    (m : Heap) (d v : ℕ) (xs : List ℕ)
    → IsList m d xs
    → Absent v (d ∷ xs)
    → ((m' : Heap) × (append d v m ≡ some m') × IsList m' d (xs ++ (v ∷ [])))
      × ((m' : Heap) × (prepend d v m ≡ some m') × IsList m' d (v ∷ xs))
ends-IsList m d v xs h f = (append-IsList m d v xs h f, prepend-IsList m d v xs h f)

last_append : (d p : ℕ) (xs : List ℕ) → last d (xs ++ (p ∷ [])) ≡ p
last_append d p [] = refl
last_append d p (x ∷ xs) = last_append x p xs

split_after : (xs : List ℕ) (p : ℕ) (ys : List ℕ) → xs ++ (p ∷ ys) ≡ (xs ++ (p ∷ [])) ++ ys
split_after [] p ys = refl
split_after (x ∷ xs) p ys = ap (λ (l : List ℕ). x ∷ l) (split_after xs p ys)

-- dt_list_insert behind `p`, the last of `xs`.
insert_at :
    (m : Heap) (d v p : ℕ) (xs ys : List ℕ)
    → p ≡ last d xs
    → IsList m d (xs ++ ys)
    → Absent v (d ∷ (xs ++ ys))
    → p ≢ d
    → (m' : Heap) × (insert d (some p) v m ≡ some m') × IsList m' d (xs ++ (v ∷ ys))
insert_at m d v p xs [] t h f p_d =
    let (l1, (n, q), l3) = IsList-beside m d xs [] h in
    let (m', e, r) = append_at m d v xs h f in
    (m', insert_at_end d v p m (ap (λ a. (m a).next) t ∙ n ∙ pointer_self d) ∙ e, r)
insert_at m d v p xs (y ∷ ys) t h f p_d =
    let (l1, (n, q), l3) = IsList-beside m d xs (y ∷ ys) h in
    let ((d_xs, k2), k3) = h in
    let (v_d, f') = f in
    let v_b = first-Absent_eq v d xs (y ∷ ys) f in
    let v_p : v ≢ p = λ z. last-Absent_eq v d xs (y ∷ ys) f (z ∙ t) in
    let y_d : y ≢ d = λ z. first-in d xs y ys d_xs (sym z) in
    let k = pointer_other d v v_d in
    let kp = pointer_other d p p_d in
    let ky = pointer_other d y y_d in
    let e = ap (pointer d) (sym t) in
    (
      set_prev y (some v) (set_next p (some v) (set_prev v (some p) (set_next v (some y) m))),
      insert_lem d v p y m (ap (λ a. (m a).next) t ∙ n) y_d v_p,
      link_in m
          (set_prev y (some v) (set_next p (some v) (set_prev v (some p) (set_next v (some y) m))))
          d v xs (y ∷ ys) h f ((λ x p q. grind (arith, reads)), (λ x p q. grind (arith, reads)))
          (grind (arith, reads), grind (arith, reads)) (grind (arith, reads), grind (arith, reads)),
    )

-- On a list in the heap that holds `p`, last or not, and a cell that is not in it, dt_list_insert
-- behind `p` fails no assertion, and the heap then holds the list with the cell right behind `p`.
pub insert-IsList :
    (m : Heap) (d v p : ℕ) (xs ys : List ℕ)
    → IsList m d (xs ++ (p ∷ ys))
    → Absent v (d ∷ (xs ++ (p ∷ ys)))
    → (m' : Heap) × (insert d (some p) v m ≡ some m') × IsList m' d (xs ++ (p ∷ (v ∷ ys)))
insert-IsList m d v p xs ys h f =
    let e = split_after xs p ys in
    let ((d_xs, k2), k3) = h in
    let (m', r, q) =
      insert_at m d v p (xs ++ (p ∷ [])) ys (sym (last_append d p xs)) (subst (IsList m d) e h)
        (subst (λ l. Absent v (d ∷ l)) e f) (λ z. first-in d xs p ys d_xs (sym z)) in
    (m', r, subst (IsList m' d) (sym (split_after xs p (v ∷ ys))) q)

-- On a list in the heap that holds `p`, wherever it stands, dt_list_delete leaves the heap with the
-- list of the other elements in their order.
pub delete-IsList :
    (m : Heap) (d p : ℕ) (xs ys : List ℕ)
    → IsList m d (xs ++ (p ∷ ys))
    → IsList (delete d p m) d (xs ++ ys)
delete-IsList m d p xs ys h =
    let a = last d xs in
    let b = first ys d in
    let (l1, (n1, q1), (n2, q2), l3) = IsList-around m d p xs ys h in
    let (k1, k2) = Distinct-out p (d ∷ xs) ys h.0 in
    let p_a = last-Absent_eq p d xs ys k2 in
    let p_b = first-Absent_eq p d xs ys k2 in
    rw (delete_lem d p a b m q1 n2 (λ z. p_a (sym z))) (
      link_out m (set_prev b (pointer d a) (set_next a (pointer d b) m)) d p xs ys h
        ((λ x p q. grind (arith, reads)), (λ x p q. grind (arith, reads)))
        (grind (arith, reads), grind (arith, reads)))

-- Following `next`, the loop meets the elements and no more.
length_from-Links :
    (m : Heap) (d a n : ℕ) (xs : List ℕ)
    → Absent d xs
    → Links m d a (xs ++ (d ∷ []))
    → length xs ≤ n
    → length_from n (m a).next m ≡ some (length xs)
unfolding length_from
length_from-Links m d a n [] f ((p, q), l) h = rw (p, pointer_self d) refl
length_from-Links m d a zero (x ∷ xs) f l h = absurd (omega arith)
length_from-Links m d a (suc n) (x ∷ xs) (e, f) ((p, q), l) h =
    rw
      (
        p,
        pointer_other d x (λ z. e (sym z)),
        length_from,
        length_from-Links m d x n xs f l (omega arith),
      )
      (ap some (omega arith))

-- On a list of `xs` in the heap, the loop of dt_list_length ends within as many rounds as `xs` has
-- elements, and the number of elements is returned.
pub list_length-IsList :
    (m : Heap) (d n : ℕ) (xs : List ℕ)
    → IsList m d xs
    → length xs ≤ n
    → list_length n d m ≡ some (length xs)
unfolding list_length
list_length-IsList m d n xs ((f, g), l) h = length_from-Links m d d n xs f l h
