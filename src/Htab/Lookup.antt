-- ===== src/Htab/Lookup.antt =====
-- dt_htab_lookup against all entries of the table, and after dt_htab_insert.
use dtrace_utils.Common.{
  In, ℕ, zero, suc, ◌+◌, ◌/◌, ◌≤◌, ◌≡◌, ◌≢◌, ◌⊎◌, refl, sym, ap, subst, ◌∙◌, inl, inr, Bool, true,
  false, ◌&&◌, Option, none, some, List, [], ◌∷◌, ◌++◌, bit_and, arith, ◌==◌, ==_iff, Bool-cases,
  Option-cases, if◌then◌else◌, get_or,
}
use dtrace_utils.Htab.{
  Ops, Bucket, Chain, Table, Status, ok, enomem, enoent, find, slot, lookup, insert,
}
use dtrace_utils.Htab.Chain.{AllSame, IsClass, IsGood}
use dtrace_utils.Htab.Methods.{IsSound, view}
use dtrace_utils.Htab.Insert.{added, refused, insert-Inserted}
use dtrace_utils.Htab.Visit.{entries_of, all_entries}

abbrev pub is_ok : Status → Bool
is_ok ok = true
is_ok enomem = false
is_ok enoent = false

module _ {A : Type 0} where
  In-left : (x : A) (a b : List A) → In x a → In x (a ++ b)
  In-left x [] b i = elim i [ ]
  In-left x (y ∷ a) b (inl e) = inl e
  In-left x (y ∷ a) b (inr i) = inr (In-left x a b i)

  In-right : (x : A) (a b : List A) → In x b → In x (a ++ b)
  In-right x [] b i = i
  In-right x (y ∷ a) b i = inr (In-right x a b i)

  In-append : (x : A) (a b : List A) → In x (a ++ b) → In x a ⊎ In x b
  In-append x [] b i = inr i
  In-append x (y ∷ a) b (inl e) = inl (inl e)
  In-append x (y ∷ a) b (inr i) = elim (In-append x a b i) [ inl j ↦ inl (inr j) | inr j ↦ inr j ]

module _ {E : Type 0} where
  -- An entry of the table is in the chain of some slot, and the other way round.
  In-slot :
      (x : E) (tab : List (Chain E))
      → In x (all_entries tab)
      → (i : ℕ) × In x (entries_of (get_or tab i []))
  In-slot x [] i = elim i [ ]
  In-slot x (c ∷ cs) h = elim (In-append x (entries_of c) (all_entries cs) h) [
    | inl j ↦ (zero, j)
    | inr j ↦ let (i, k) = In-slot x cs j in (suc i, k)
  ]

  slot-In :
      (x : E) (tab : List (Chain E)) (i : ℕ)
      → In x (entries_of (get_or tab i []))
      → In x (all_entries tab)
  slot-In x [] i h = elim h [ ]
  slot-In x (c ∷ cs) zero h = In-left x (entries_of c) (all_entries cs) h
  slot-In x (c ∷ cs) (suc i) h = In-right x (entries_of c) (all_entries cs) (slot-In x cs i h)

module _ {E : Type 0} ⦃o : Ops E⦄ where
  AllSame-In : (a x : E) (xs : List E) → AllSame a xs → In x xs → o.cmp a x ≡ true
  AllSame-In a x [] h i = elim i [ ]
  AllSame-In a x (y ∷ xs) (h, k) (inl e) = ap (o.cmp a) e ∙ h
  AllSame-In a x (y ∷ xs) (h, k) (inr i) = AllSame-In a x xs k i

  bucket-In : (b : Bucket E) (x : E) → IsClass b → In x (b.head ∷ b.more) → o.cmp b.head x ≡ true
  bucket-In b x k (inl e) = ap (o.cmp b.head) e ∙ o.cmp_refl b.head
  bucket-In b x k (inr i) = AllSame-In b.head x b.more k.alike i

  -- No entry of a chain in which nothing is found compares equal.
  find-missing :
      (q x : E) (c : Chain E) → IsGood c → find q c ≡ none → In x (entries_of c) → o.cmp x q ≡ false
  unfolding find
  find-missing q x [] g h i = elim i [ ]
  find-missing q x (b ∷ bs) (k, f, g) h i =
      let no : o.cmp b.head q ≡ false = ground arith in
      let rest : find q bs ≡ none = ground arith in
      elim (In-append x (b.head ∷ b.more) (entries_of bs) i) [
        | inl j ↦ o.cmp_trans b.head x q (bucket-In b x k j) ∙ no
        | inr j ↦ find-missing q x bs g rest j
      ]

  find-found :
      (q : E) (c : Chain E) (b : Bucket E)
      → find q c ≡ some b
      → In b.head (entries_of c) × (o.cmp b.head q ≡ true)
  unfolding find
  find-found q [] b h = absurd (ground arith)
  find-found q (d ∷ c) b h = elim (Bool-cases (o.cmp d.head q)) [
    | inl t ↦
        let e : d ≡ b = ground arith in
        subst (λ (z : Bucket E). In z.head (entries_of (d ∷ c)) × (o.cmp z.head q ≡ true)) e
          (inl refl, t)
    | inr f ↦
        let (i, t) = find-found q c b (ground arith) in
        (In-right b.head (d.head ∷ d.more) (entries_of c) i, t)
  ]

  -- An entry is in the slot that its hash value leads to.
  In-home :
      (t : Table E) (x : E) → IsSound t → In x (all_entries t.tab) → In x (entries_of (slot t x))
  unfolding slot
  In-home t x s h =
      let (i, j) = In-slot x t.tab h in
      let home = bit_and (o.hval x) t.mask in
      elim (Bool-cases (home == i)) [
        | inl e ↦
            subst (λ (n : ℕ). In x (entries_of (get_or t.tab n []))) (sym ((==_iff home i).0 e)) j
        | inr e ↦
            let ne : home ≢ i = ground arith in
            let no =
              find-missing x x (get_or t.tab i []) (s.placed.good i) (s.placed.home x i ne) j in
            let yes = o.cmp_refl x in absurd (cc)
      ]

  -- What a lookup of `q` says of all entries of a table.
  abbrev pub Looked : Table E → E → Option E → Type 0
  Looked t q none = (x : E) → In x (all_entries t.tab) → o.cmp x q ≡ false
  Looked t q (some x) = In x (all_entries t.tab) × (o.cmp x q ≡ true)

  lookup-missing : (t : Table E) (q : E) → IsSound t → find q (slot t q) ≡ none → Looked t q none
  unfolding slot
  lookup-missing t q s h x i = elim (Bool-cases (o.cmp x q)) [
    | inr f ↦ f
    | inl e ↦
        let home : bit_and (o.hval x) t.mask ≡ bit_and (o.hval q) t.mask =
          ap (λ (n : ℕ). bit_and n t.mask) (o.hval-cmp x q e) in
        let j = subst (λ (n : ℕ). In x (entries_of (get_or t.tab n []))) home (In-home t x s i) in
        find-missing q x (slot t q) (s.placed.good (bit_and (o.hval q) t.mask)) h j
  ]

  lookup-found :
      (t : Table E) (q : E) (b : Bucket E) → find q (slot t q) ≡ some b → Looked t q (some b.head)
  unfolding slot
  lookup-found t q b h =
      let (i, e) = find-found q (slot t q) b h in
      (slot-In b.head t.tab (bit_and (o.hval q) t.mask) i, e)

  -- On a sound table `dt_htab_lookup` returns an entry of the table that compares equal to the
  -- given one, and NULL only if no entry of the whole table, in any slot, does.
  pub lookup-Looked : (t : Table E) (q : E) → IsSound t → Looked t q (lookup t q)
  unfolding lookup
  lookup-Looked t q s = elim (Option-cases (find q (slot t q))) [
    | inl h ↦ rw (h, lookup) (lookup-missing t q s h)
    | inr (b, h) ↦ rw (h, lookup) (lookup-found t q b h)
  ]

  abbrev first : List E → Option E
  first [] = none
  first (x ∷ xs) = some x

  lookup-first : (t : Table E) (q : E) → lookup t q ≡ first (view t q)
  unfolding lookup view
  lookup-first t q = elim (Option-cases (find q (slot t q))) [
    | inl h ↦ rw (h, lookup) refl
    | inr (b, h) ↦ rw (h, lookup) refl
  ]

  -- After an insertion into a sound table, which returns after no more retries than half its
  -- buckets exceed its size, `dt_htab_lookup` gives the new entry for every entry that compares
  -- equal to it, if the insertion returned 0, and otherwise what it gave before; it gives what it
  -- gave before for all others, also where the table has been resized.
  pub lookup-insert :
      (n : ℕ) (resize_ok : ℕ → Bool) (bucket_ok : Bool) (e : E) (t : Table E)
      → IsSound t
      → t.nbuckets / 2 ≤ t.size + n
      → (st : Status) × (t' : Table E) × (insert (suc n) resize_ok bucket_ok e t ≡ some (st, t'))
        × ((q : E) → lookup t' q ≡ (if is_ok st && o.cmp e q then some e else lookup t q))
  lookup-insert n resize_ok bucket_ok e t s h =
      elim (insert-Inserted n resize_ok bucket_ok e t s h) [
        | added t' r s' a m ↦ (
          ok,
          t',
          r,
          λ q. elim (Bool-cases (o.cmp e q)) [
            | inl k ↦ lookup-first t' q ∙ ap first (a q) ∙ rw (k) refl
            | inr k ↦ lookup-first t' q ∙ ap first (a q) ∙ rw (k) (sym (lookup-first t q))
          ],
        )
        | refused t' r s' a z l ↦
            (enomem, t', r, λ q. lookup-first t' q ∙ ap first (a q) ∙ sym (lookup-first t q))
      ]
