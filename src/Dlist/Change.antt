-- ===== src/Dlist/Change.antt =====
-- dt_list.c: what each operation writes, with the neighbours of the place named.
use dtrace_utils.Common.{
  ℕ, ◌≡◌, ◌≢◌, refl, sym, ◌∙◌, inl, inr, false, Option, none, some, ◌==◌, arith, Bool-cases,
}
use dtrace_utils.Dlist.Links.{pointer}
use dtrace_utils.Dlist.{
  Heap, append, prepend, insert, delete, neighbour_next, neighbour_prev, set_prev, set_next,
}

pub next-set_prev : (a b : ℕ) (v : Option ℕ) (m : Heap) → (set_prev a v m b).next ≡ (m b).next
unfolding set_prev
next-set_prev a b v m = elim (Bool-cases (b == a)) [ inl e ↦ rw e refl | inr e ↦ rw e refl ]

pub prev-set_next : (a b : ℕ) (v : Option ℕ) (m : Heap) → (set_next a v m b).prev ≡ (m b).prev
unfolding set_next
prev-set_next a b v m = elim (Bool-cases (b == a)) [ inl e ↦ rw e refl | inr e ↦ rw e refl ]

pub prev-set_prev_self : (a : ℕ) (v : Option ℕ) (m : Heap) → (set_prev a v m a).prev ≡ v
unfolding set_prev
prev-set_prev_self a v m = ground arith

pub next-set_next_self : (a : ℕ) (v : Option ℕ) (m : Heap) → (set_next a v m a).next ≡ v
unfolding set_next
next-set_next_self a v m = ground arith

pub prev-set_prev_ne :
    (a b : ℕ) (v : Option ℕ) (m : Heap) → b ≢ a → (set_prev a v m b).prev ≡ (m b).prev
unfolding set_prev
prev-set_prev_ne a b v m h = ground arith

pub next-set_next_ne :
    (a b : ℕ) (v : Option ℕ) (m : Heap) → b ≢ a → (set_next a v m b).next ≡ (m b).next
unfolding set_next
next-set_next_ne a b v m h = ground arith

ruleset reads = (
  next-set_prev, prev-set_next, prev-set_prev_self, next-set_next_self, prev-set_prev_ne,
  next-set_next_ne,
)

-- append, with the cell at the end of the list named.
pub append_lem :
    (d v a : ℕ) (m : Heap)
    → (m d).prev ≡ pointer d a
    → (m a).next ≡ none
    → v ≢ d
    → v ≢ a
    → append d v m
      ≡ some
          (set_next a (some v) (set_next v none (set_prev v (pointer d a) (set_prev d (some v) m))))
unfolding append set_next
append_lem d v a m p q f g =
    let e : (set_next v none (set_prev v (pointer d a) (set_prev d (some v) m)) a).next ≡ none =
      grind (arith, reads) in
    elim (Bool-cases (a == d)) [
      | inl t ↦ rw (p, append, t) (ground (arith, t, e))
      | inr t ↦ rw (p, append, t) (ground (arith, t, e))
    ]

pub prepend_lem :
    (d v b : ℕ) (m : Heap)
    → (m d).next ≡ pointer d b
    → (m b).prev ≡ none
    → v ≢ d
    → v ≢ b
    → prepend d v m
      ≡ some
          (set_prev b (some v) (set_next v (pointer d b) (set_prev v none (set_next d (some v) m))))
unfolding prepend set_prev
prepend_lem d v b m p q f g =
    let e : (set_next v (pointer d b) (set_prev v none (set_next d (some v) m)) b).prev ≡ none =
      grind (arith, reads) in
    elim (Bool-cases (b == d)) [
      | inl t ↦ rw (p, prepend, t) (ground (arith, t, e))
      | inr t ↦ rw (p, prepend, t) (ground (arith, t, e))
    ]

pub insert_lem :
    (d v p b : ℕ) (m : Heap)
    → (m p).next ≡ pointer d b
    → b ≢ d
    → v ≢ p
    → insert d (some p) v m
      ≡ some
          (set_prev b (some v) (set_next p (some v) (set_prev v (some p) (set_next v (some b) m))))
unfolding insert
insert_lem d v p b m h k f =
    let e : (set_next p (some v) (set_prev v (some p) (set_next v (some b) m)) v).next ≡ some b =
      grind (arith, reads) in
    let t : (b == d) ≡ false = ground arith in rw (h, insert, t) (rw (e) refl)

pub insert_at_end :
    (d v p : ℕ) (m : Heap) → (m p).next ≡ none → insert d (some p) v m ≡ append d v m
unfolding insert
insert_at_end d v p m h = rw (h, insert) refl

neighbour_next_lem :
    (d a : ℕ) (v : Option ℕ) (m : Heap) → neighbour_next d (pointer d a) v m ≡ set_next a v m
unfolding neighbour_next
neighbour_next_lem d a v m = ground arith

neighbour_prev_lem :
    (d a : ℕ) (v : Option ℕ) (m : Heap) → neighbour_prev d (pointer d a) v m ≡ set_prev a v m
unfolding neighbour_prev
neighbour_prev_lem d a v m = ground arith

pub delete_lem :
    (d p a b : ℕ) (m : Heap)
    → (m p).prev ≡ pointer d a
    → (m p).next ≡ pointer d b
    → a ≢ p
    → delete d p m ≡ set_prev b (pointer d a) (set_next a (pointer d b) m)
unfolding delete
delete_lem d p a b m h k f =
    let e : (set_next a (pointer d b) m p).next ≡ pointer d b =
      next-set_next_ne a p (pointer d b) m (λ z. f (sym z)) ∙ k in
    let e' : (set_next a (pointer d b) m p).prev ≡ pointer d a =
      prev-set_next a p (pointer d b) m ∙ h in
    rw
      (
        delete,
        h,
        k,
        neighbour_next_lem d a (pointer d b) m,
        e,
        e',
        neighbour_prev_lem d b (pointer d a) (set_next a (pointer d b) m),
      )
      refl
