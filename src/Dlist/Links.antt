-- ===== src/Dlist/Links.antt =====
-- dt_list.c: the list of elements that a heap holds.
--
-- The elements and the cell of the list form a ring: from the list's own cell through the elements
-- and back. NULL stands for the cell of the list.
use dtrace_utils.Common.{
  ℕ, ◌≡◌, ◌≢◌, refl, sym, ap, subst, ◌∙◌, Option, none, some, List, [], ◌∷◌, ◌++◌, ◌==◌,
  if◌then◌else◌,
}
use dtrace_utils.Dlist.Distinct.{
  Absent, Absent-append, Absent-append_left, Absent-append_right, Absent-init, Distinct,
  Distinct-in, Distinct-left, Distinct-out, Distinct-right, first, first_out, init, init-append,
  last, last-Absent, last-Absent-init, rest,
}
use dtrace_utils.Dlist.{Heap}

-- The pointer to a cell of the ring of list `d`.
abbrev pub pointer : ℕ → ℕ → Option ℕ
pointer d a = if a == d then none else some a

-- The cell of the ring that a pointer leads to.
abbrev pub home : ℕ → Option ℕ → ℕ
home d none = d
home d (some a) = a

abbrev pub Linked : Heap → ℕ → ℕ → ℕ → Type 0
Linked m d a b = ((m a).next ≡ pointer d b) × ((m b).prev ≡ pointer d a)

abbrev pub Links : Heap → ℕ → ℕ → List ℕ → Type 0
Links m d a [] = Unit
Links m d a (b ∷ l) = Linked m d a b × Links m d b l

-- Cell `d` of the heap is a list of the elements `xs`.
abbrev pub IsList : Heap → ℕ → List ℕ → Type 0
IsList m d xs = Distinct (d ∷ xs) × Links m d d (xs ++ (d ∷ []))

-- A list of the ring is cut and joined.
Links-cut :
    (m : Heap) (d a : ℕ) (xs : List ℕ) (b : ℕ) (s : List ℕ)
    → Links m d a (xs ++ (b ∷ s))
    → Links m d a xs × Linked m d (last a xs) b × Links m d b s
Links-cut m d a [] b s (h, k) = (tt, h, k)
Links-cut m d a (x ∷ xs) b s (h, k) = let (p, q, r) = Links-cut m d x xs b s k in ((h, p), q, r)

Links-join :
    (m : Heap) (d a : ℕ) (xs : List ℕ) (b : ℕ) (s : List ℕ)
    → Links m d a xs
    → Linked m d (last a xs) b
    → Links m d b s
    → Links m d a (xs ++ (b ∷ s))
Links-join m d a [] b s p q r = (q, r)
Links-join m d a (x ∷ xs) b s (h, p) q r = (h, Links-join m d x xs b s p q r)

-- The second heap differs in `next` of `u`, `prev` of `w` and the whole cell `v` at most.
abbrev pub Same : Heap → Heap → ℕ → ℕ → ℕ → Type 0
Same m m' u w v =
    ((x : ℕ) → x ≢ u → x ≢ v → (m' x).next ≡ (m x).next)
    × ((x : ℕ) → x ≢ w → x ≢ v → (m' x).prev ≡ (m x).prev)

-- Nothing that a part of the ring is made of is among what differs.
abbrev Clear : ℕ → ℕ → ℕ → ℕ → List ℕ → Type 0
Clear u w v a l = Absent u (init a l) × Absent v (init a l) × Absent w l × Absent v l

Links-Same :
    (m m' : Heap) (d u w v a : ℕ) (l : List ℕ)
    → Same m m' u w v
    → Clear u w v a l
    → Links m d a l
    → Links m' d a l
Links-Same m m' d u w v a [] s c h = tt
Links-Same m m' d u w v a (b ∷ l) (sn, sp) ((au, cu), (av, cv), (bw, cw), (bv, cv')) ((hn, hp), h) =
    (
      (
        sn a (λ e. au (sym e)) (λ e. av (sym e)) ∙ hn,
        sp b (λ e. bw (sym e)) (λ e. bv (sym e)) ∙ hp,
      ),
      Links-Same m m' d u w v b l (sn, sp) (cu, cv, cw, cv') h,
    )

left-Clear :
    (d v : ℕ) (xs ys : List ℕ)
    → Distinct (d ∷ (xs ++ ys))
    → Absent v (d ∷ (xs ++ ys))
    → Clear (last d xs) (first ys d) v d xs
left-Clear d v xs [] (h, k) (e, q) =
    let x_s = Absent-append_left d xs [] h in
    let v_s = Absent-append_left v xs [] q in
    (last-Absent-init d xs (x_s, Distinct-left xs [] k), Absent-init v d xs (e, v_s), x_s, v_s)
left-Clear d v xs (y ∷ ys) (h, k) (e, q) =
    let v_s = Absent-append_left v xs (y ∷ ys) q in
    (
      last-Absent-init d xs (Absent-append_left d xs (y ∷ ys) h, Distinct-left xs (y ∷ ys) k),
      Absent-init v d xs (e, v_s),
      first_out y xs ys k,
      v_s,
    )

right-Clear :
    (d v : ℕ) (xs ys : List ℕ)
    → Distinct (d ∷ (xs ++ ys))
    → Absent v (d ∷ (xs ++ ys))
    → Clear (last d xs) (first ys d) v (first ys d) (rest ys d)
right-Clear d v xs [] h q = (tt, tt, tt, tt)
right-Clear d v xs (y ∷ ys) (h, k) (e, q) =
    let (y_out, r) = Distinct-right xs (y ∷ ys) k in
    let (d_y, d_ys) = Absent-append_right d xs (y ∷ ys) h in
    let (v_y, v_ys) = Absent-append_right v xs (y ∷ ys) q in
    (
      rw (init-append y d ys) (last-Absent d xs (y ∷ ys) (h, k)),
      rw (init-append y d ys) (v_y, v_ys),
      Absent-append y ys (d ∷ []) y_out ((λ z. d_y (sym z)), tt),
      Absent-append v ys (d ∷ []) v_ys (e, tt),
    )

ring : (xs ys : List ℕ) (d : ℕ) → (xs ++ ys) ++ (d ∷ []) ≡ xs ++ (first ys d ∷ rest ys d)
ring [] [] d = refl
ring [] (y ∷ ys) d = refl
ring (x ∷ xs) ys d = ap (λ (l : List ℕ). x ∷ l) (ring xs ys d)

ring_in :
    (xs ys : List ℕ) (v d : ℕ) → (xs ++ (v ∷ ys)) ++ (d ∷ []) ≡ xs ++ (v ∷ (first ys d ∷ rest ys d))
ring_in [] [] v d = refl
ring_in [] (y ∷ ys) v d = refl
ring_in (x ∷ xs) ys v d = ap (λ (l : List ℕ). x ∷ l) (ring_in xs ys v d)

-- The cells beside a place of the list: what the fields between them say.
pub IsList-beside :
    (m : Heap) (d : ℕ) (xs ys : List ℕ)
    → IsList m d (xs ++ ys)
    → Links m d d xs × Linked m d (last d xs) (first ys d) × Links m d (first ys d) (rest ys d)
IsList-beside m d xs ys (h, l) =
    Links-cut m d d xs (first ys d) (rest ys d) (subst (Links m d d) (ring xs ys d) l)

pub IsList-around :
    (m : Heap) (d v : ℕ) (xs ys : List ℕ)
    → IsList m d (xs ++ (v ∷ ys))
    → Links m d d xs
      × Linked m d (last d xs) v
      × Linked m d v (first ys d)
      × Links m d (first ys d) (rest ys d)
IsList-around m d v xs ys (h, l) =
    let (l1, p, (q, l2)) =
      Links-cut m d d xs v (first ys d ∷ rest ys d) (subst (Links m d d) (ring_in xs ys v d) l) in
    (l1, p, q, l2)

pub link_in :
    (m m' : Heap) (d v : ℕ) (xs ys : List ℕ)
    → IsList m d (xs ++ ys)
    → Absent v (d ∷ (xs ++ ys))
    → Same m m' (last d xs) (first ys d) v
    → Linked m' d (last d xs) v
    → Linked m' d v (first ys d)
    → IsList m' d (xs ++ (v ∷ ys))
link_in m m' d v xs ys (h, l) f s p q =
    let (l1, l2, l3) = IsList-beside m d xs ys (h, l) in
    let (h1, h2) = h in
    let (f1, f2) = f in
    (
      (
        Absent-append d xs (v ∷ ys) (Absent-append_left d xs ys h1)
            ((λ z. f1 (sym z)), Absent-append_right d xs ys h1),
        Distinct-in v xs ys h2 f2,
      ),
      subst (Links m' d d) (sym (ring_in xs ys v d)) (
          Links-join m' d d xs v (first ys d ∷ rest ys d)
            (Links-Same m m' d (last d xs) (first ys d) v d xs s (left-Clear d v xs ys h f) l1) p
            (
              q,
              Links-Same m m' d (last d xs) (first ys d) v (first ys d) (rest ys d) s
                  (right-Clear d v xs ys h f) l3,
            )),
    )

pub link_out :
    (m m' : Heap) (d v : ℕ) (xs ys : List ℕ)
    → IsList m d (xs ++ (v ∷ ys))
    → Same m m' (last d xs) (first ys d) v
    → Linked m' d (last d xs) (first ys d)
    → IsList m' d (xs ++ ys)
link_out m m' d v xs ys (h, l) s p =
    let (l1, l2, l3, l4) = IsList-around m d v xs ys (h, l) in
    let (h', f) = Distinct-out v (d ∷ xs) ys h in
    (
      h',
      subst (Links m' d d) (sym (ring xs ys d)) (
          Links-join m' d d xs (first ys d) (rest ys d)
            (Links-Same m m' d (last d xs) (first ys d) v d xs s (left-Clear d v xs ys h' f) l1) p
            (Links-Same m m' d (last d xs) (first ys d) v (first ys d) (rest ys d) s
              (right-Clear d v xs ys h' f) l4)),
    )
