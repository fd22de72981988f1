-- ===== src/Htab/Resize.antt =====
-- Doubling the table keeps every class where a lookup finds it.
use dtrace_utils.Common.{
  ℕ, zero, suc, ◌+◌, ◌-◌, ◌*◌, ◌<◌, ◌≡◌, ◌≢◌, ◌⊎◌, refl, sym, ap, ◌∙◌, inl, inr, true, Option, none,
  some, List, [], ◌∷◌, bit_and, arith, ◌==◌, Bool-cases, length, get_or, set, replicate, length-set,
  length-replicate, get_or-replicate,
}
use dtrace_utils.Htab.{Ops, Bucket, Chain, Table, find, move_chain, move_tab, resize}
use dtrace_utils.Htab.Chain.{IsClass, IsGood, find_congr}
use dtrace_utils.Htab.Slots.{
  IsPlaced, home_lt, bucket_of, set-IsPlaced, bucket_of-set, chain_total, total, total-set,
}

abbrev pub or_else : {A : Type 0} → Option A → Option A → Option A
or_else none y = y
or_else (some x) y = some x

module _ {E : Type 0} ⦃o : Ops E⦄ where
  -- No class is in both.
  abbrev pub Apart : (E → Option (Bucket E)) → (E → Option (Bucket E)) → Type 0
  Apart f g = (q : E) → (f q ≡ none) ⊎ (g q ≡ none)

  -- `tab'` is `tab` and the classes of `f`, with as many buckets of each weight.
  record Moved (mask : ℕ) (tab tab' : List (Chain E)) (f : E → Option (Bucket E))
      (sum : (Bucket E → ℕ) → ℕ) : Type 0 where
    placed : IsPlaced tab' mask
    width : length tab' ≡ length tab
    reads : (q : E) → bucket_of tab' mask q ≡ or_else (f q) (bucket_of tab mask q)
    sums : (w : Bucket E → ℕ) → total w tab' ≡ sum w + total w tab

  push-Moved :
      (mask : ℕ) (tab : List (Chain E)) (b : Bucket E)
      → IsPlaced tab mask
      → IsClass b
      → bucket_of tab mask b.head ≡ none
      → let idx = bit_and b.hval mask in
        Moved mask tab (set tab idx (b ∷ get_or tab idx [])) (λ q. find q (b ∷ [])) (λ w. w b)
  unfolding find chain_total
  push-Moved mask tab b p k new =
      let idx = bit_and b.hval mask in
      let here : bit_and (o.hval b.head) mask ≡ idx = ap (λ (h : ℕ). bit_and h mask) k.hash in
      let lt : idx < length tab = rw (← here) (home_lt tab mask b.head p.wide) in
      let old = get_or tab idx [] in
      let fresh : find b.head old ≡ none =
        ap (λ (i : ℕ). find b.head (get_or tab i [])) (sym here) ∙ new in
      let same_home : (q : E) → o.cmp b.head q ≡ true → bit_and (o.hval q) mask ≡ idx =
        λ q c. ap (λ (h : ℕ). bit_and h mask) (sym (o.hval-cmp b.head q c)) ∙ here in
      record {
        placed =
            set-IsPlaced tab mask idx (b ∷ old) p lt (k, fresh, p.good idx)
              (λ q ne. ground (arith, same_home q, p.home q idx ne));
        width = length-set tab idx (b ∷ old);
        reads = λ q. elim (Bool-cases (bit_and (o.hval q) mask == idx)) [
          | inl t ↦
              let e : bit_and (o.hval q) mask ≡ idx = ground arith in
              bucket_of-set tab mask idx (b ∷ old) q lt ∙ rw t (rw e (ground arith))
          | inr f ↦ bucket_of-set tab mask idx (b ∷ old) q lt ∙ rw f (ground (arith, same_home q))
        ];
        sums = λ w. omega (arith, total-set w tab idx (b ∷ old) lt);
      }

  -- One move after another.
  Moved-Moved :
      (mask : ℕ) (tab tab' tab'' : List (Chain E)) (f g h : E → Option (Bucket E))
      (a b c : (Bucket E → ℕ) → ℕ)
      → Moved mask tab tab' f a
      → Moved mask tab' tab'' g b
      → ((q : E) → or_else (g q) (or_else (f q) none) ≡ h q)
      → ((w : Bucket E → ℕ) → a w + b w ≡ c w)
      → Moved mask tab tab'' h c
  Moved-Moved mask tab tab' tab'' f g h a b c m n e s = record {
    placed = n.placed;
    width = n.width ∙ m.width;
    reads = λ q. ground (arith, m.reads q, n.reads q, e q);
    sums = λ w. omega (arith, m.sums w, n.sums w, s w);
  }

  move_chain-Moved :
      (mask : ℕ) (c : Chain E) (tab : List (Chain E))
      → IsPlaced tab mask
      → IsGood c
      → Apart (λ q. find q c) (bucket_of tab mask)
      → Moved mask tab (move_chain mask c tab) (λ q. find q c) (λ w. chain_total w c)
  unfolding move_chain find chain_total
  move_chain-Moved mask [] tab p g d = record {
    placed = p;
    width = refl;
    reads = λ q. refl;
    sums = λ w. omega arith;
  }
  move_chain-Moved mask (b ∷ bs) tab p (k, new, g) d =
      let idx = bit_and b.hval mask in
      let tab' = set tab idx (b ∷ get_or tab idx []) in
      let here : bucket_of tab mask b.head ≡ none = ground (arith, d b.head, o.cmp_refl b.head) in
      let m = push-Moved mask tab b p k here in
      let n = move_chain-Moved mask bs tab' m.placed g (λ q. elim (Bool-cases (o.cmp b.head q)) [
        | inl t ↦ inl (sym (find_congr b.head q bs t) ∙ new)
        | inr f ↦ ground (arith, m.reads q, d q)
      ]) in
      Moved-Moved mask tab tab' _ (λ q. find q (b ∷ [])) (λ q. find q bs) _ (λ w. w b)
        (λ w. chain_total w bs) _ m n (λ q. ground (arith, find_congr b.head q bs, new))
        (λ w. omega arith)

  -- The bucket of a class, looked for in all slots.
  search : E → List (Chain E) → Option (Bucket E)
  search q [] = none
  search q (c ∷ cs) = or_else (find q c) (search q cs)

  search-none :
      (q : E) (cs : List (Chain E))
      → ((i : ℕ) → find q (get_or cs i []) ≡ none)
      → search q cs ≡ none
  unfolding search
  search-none q [] h = refl
  search-none q (c ∷ cs) h = ground (arith, h 0, search-none q cs (λ i. h (suc i)))

  search-home :
      (q : E) (cs : List (Chain E)) (j : ℕ)
      → ((i : ℕ) → i ≢ j → find q (get_or cs i []) ≡ none)
      → search q cs ≡ find q (get_or cs j [])
  unfolding search find
  search-home q [] j h = refl
  search-home q (c ∷ cs) zero h =
      let rest = search-none q cs (λ i. h (suc i) (omega arith)) in
      ap (or_else (find q c)) rest ∙ ground arith
  search-home q (c ∷ cs) (suc j) h =
      ap (λ r. or_else r (search q cs)) (h 0 (omega arith))
      ∙ search-home q cs j (λ i n. h (suc i) (λ e. n (omega arith)))

  abbrev IsSeparate : List (Chain E) → Type 0
  IsSeparate [] = Unit
  IsSeparate (c ∷ cs) = Apart (λ q. find q c) (λ q. search q cs) × IsGood c × IsSeparate cs

  separate :
      (cs : List (Chain E)) (home : E → ℕ)
      → ((i : ℕ) → IsGood (get_or cs i []))
      → ((q : E) (i : ℕ) → i ≢ home q → find q (get_or cs i []) ≡ none)
      → IsSeparate cs
  separate [] home g h = tt
  separate (c ∷ cs) home g h = (
    λ q. elim (Bool-cases (home q == 0)) [
      | inl t ↦ inr (search-none q cs (λ i. h q (suc i) (ground arith)))
      | inr f ↦ inl (h q 0 (ground arith))
    ],
    g 0,
    separate cs (λ q. home q - 1) (λ i. g (suc i)) (λ q i n. h q (suc i) (λ e. n (omega arith))),
  )

  move_tab-Moved :
      (mask : ℕ) (cs tab : List (Chain E))
      → IsPlaced tab mask
      → IsSeparate cs
      → Apart (λ q. search q cs) (bucket_of tab mask)
      → Moved mask tab (move_tab mask cs tab) (λ q. search q cs) (λ w. total w cs)
  unfolding move_tab search total
  move_tab-Moved mask [] tab p s d = record {
    placed = p;
    width = refl;
    reads = λ q. refl;
    sums = λ w. omega arith;
  }
  move_tab-Moved mask (c ∷ cs) tab p (a, g, s) d =
      let m = move_chain-Moved mask c tab p g (λ q. ground (arith, d q)) in
      let tab' = move_chain mask c tab in
      let n = move_tab-Moved mask cs tab' m.placed s (λ q. ground (arith, m.reads q, d q, a q)) in
      Moved-Moved mask tab tab' _ (λ q. find q c) (λ q. search q cs) _ (λ w. chain_total w c)
        (λ w. total w cs) _ m n (λ q. ground (arith, a q)) (λ w. refl)

  total-empty : (w : Bucket E → ℕ) (n : ℕ) → total w (replicate n []) ≡ 0
  unfolding total chain_total
  total-empty w zero = refl
  total-empty w (suc n) = omega (arith, total-empty w n)

  empty-IsPlaced : (n mask : ℕ) → mask < n → IsPlaced {E = E} (replicate n []) mask
  unfolding find
  empty-IsPlaced n mask h =
      let none_there : (i : ℕ) → get_or (replicate n []) i [] ≡ [] = λ i. get_or-replicate n i [] in
      record {
        wide = omega (arith, length-replicate {A = Chain E} n []);
        good = λ i. rw (none_there i) tt;
        home = λ q i ne. ap (find q) (none_there i);
      }

  -- What `resize` does to a placed table: it stays placed for the new mask, every class has the
  -- bucket that it had, and no bucket is lost or made.
  pub resize-Moved :
      (t : Table E)
      → IsPlaced t.tab t.mask
      → length t.tab ≡ t.size
      → IsPlaced (resize t).tab (resize t).mask
        × (length (resize t).tab ≡ (resize t).size)
        × ((q : E) → bucket_of (resize t).tab (resize t).mask q ≡ bucket_of t.tab t.mask q)
        × ((w : Bucket E → ℕ) → total w (resize t).tab ≡ total w t.tab)
  unfolding resize
  resize-Moved t p e =
      let n = t.size * 2 in
      let clear : (q : E) → bucket_of (replicate n []) (n - 1) q ≡ none = λ q.
        ap (find q) (get_or-replicate n (bit_and (o.hval q) (n - 1)) []) ∙ unfold find in refl in
      let m =
        move_tab-Moved (n - 1) t.tab (replicate n [])
          (empty-IsPlaced n (n - 1) (omega (arith, p.wide)))
          (separate t.tab (λ q. bit_and (o.hval q) t.mask) p.good
            (λ q i ne. p.home q i (λ k. ne (sym k))))
          (λ q. inr (clear q)) in
      (
        m.placed,
        m.width ∙ length-replicate n [],
        λ q.
            m.reads q
            ∙ ground (
              arith,
              clear q,
              search-home q t.tab (bit_and (o.hval q) t.mask)
                  (λ i ne. p.home q i (λ k. ne (sym k))),
            ),
        λ w. m.sums w ∙ omega (arith, total-empty w n),
      )
