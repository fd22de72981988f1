-- ===== src/Htab/Visit.antt =====
-- dt_htab_next: a loop that calls it until it returns NULL.
use dtrace_utils.Common.{
  ℕ, zero, suc, ◌<◌, ◌≡◌, refl, sym, ap, subst, ◌∙◌, ◌⊎◌, inl, inr, Bool, true, false, Option, none,
  some, List, [], ◌∷◌, ◌++◌, append_assoc, if◌then◌else◌, drop, length, arith,
}
use dtrace_utils.Htab.{Bucket, Chain, Table}
use dtrace_utils.Htab.Next.{Cursor, scan, scan_slots, next_from, next}

abbrev tail : {A : Type 0} → List A → List A
tail [] = []
tail (x ∷ xs) = xs

abbrev NonEmpty : {A : Type 0} → List A → Type 0
NonEmpty [] = ⊥
NonEmpty (x ∷ xs) = Unit

module _ {E : Type 0} where
  abbrev pub entries_of : Chain E → List E
  entries_of [] = []
  entries_of (b ∷ bs) = (b.head ∷ b.more) ++ entries_of bs

  -- All entries, slot by slot.
  abbrev pub all_entries : List (Chain E) → List E
  all_entries [] = []
  all_entries (c ∷ cs) = entries_of c ++ all_entries cs

  abbrev pub collected : Option E → Option (List E) → Option (List E)
  collected none rest = some []
  collected (some e) none = none
  collected (some e) (some es) = some (e ∷ es)

  -- `while ((e = dt_htab_next(htab, &it)) != NULL)`, on fuel: the entries met.
  unfoldable pub visit : ℕ → Table E → Option (Cursor E) → Option (List E)
  unfolding next
  visit zero t it = none
  visit (suc n) t it = let r = next true t it in collected (r.0) (visit n t (r.1))

  -- What is still to be returned.
  abbrev pending : List (Chain E) → Cursor E → List E
  pending tab c =
      if c.exhausted
      then []
      else c.ent ++ (entries_of (tail c.bucket) ++ all_entries (drop (suc c.idx) tab))

  -- A cursor that is not exhausted stands at an entry of a bucket of its slot.
  abbrev IsLive : List (Chain E) → Cursor E → Type 0
  IsLive tab c =
      c.exhausted ≡ false
      → NonEmpty c.ent
        × NonEmpty c.bucket
        × ((b : Bucket E) × (bs : Chain E) × (cs : List (Chain E)) × (drop c.idx tab
              ≡ (b ∷ bs) ∷ cs))

  abbrev Stands : List (Chain E) → Cursor E → List E → Type 0
  Stands tab c es = (pending tab c ≡ es) × IsLive tab c

  drop-suc :
      (i : ℕ) (tab : List (Chain E)) (c : Chain E) (cs : List (Chain E))
      → drop i tab ≡ c ∷ cs
      → drop (suc i) tab ≡ cs
  drop-suc zero [] c cs h = absurd (cc)
  drop-suc zero (x ∷ tab) c cs h = cc
  drop-suc (suc i) [] c cs h = absurd (cc)
  drop-suc (suc i) (x ∷ tab) c cs h = drop-suc i tab c cs h

  -- From the start of a slot.
  slots-fresh :
      (tab : List (Chain E)) (i : ℕ) (cs : List (Chain E))
      → drop i tab ≡ cs
      → Stands tab (scan_slots cs i [] []) (all_entries cs)
  unfolding scan_slots scan
  slots-fresh tab i [] h = (refl, (λ e. absurd (cc)))
  slots-fresh tab i ([] ∷ cs) h = slots-fresh tab (suc i) cs (drop-suc i tab [] cs h)
  slots-fresh tab i ((b ∷ bs) ∷ cs) h =
      let d = drop-suc i tab (b ∷ bs) cs h in
      (
        ap (λ (l : List (Chain E)). (b.head ∷ b.more) ++ (entries_of bs ++ all_entries l)) d
            ∙ sym (append_assoc (b.head ∷ b.more) (entries_of bs) (all_entries cs)),
        (λ e. (tt, tt, (b, bs, cs, h))),
      )

  -- From an entry on.
  slots-live :
      (tab : List (Chain E)) (i : ℕ) (b' : Bucket E) (bs' : Chain E) (cs : List (Chain E))
      (b : Bucket E) (bs : Chain E) (x : E) (xs : List E)
      → drop i tab ≡ (b' ∷ bs') ∷ cs
      → Stands tab
          (scan_slots ((b' ∷ bs') ∷ cs) i (b ∷ bs) (x ∷ xs))
          (xs ++ (entries_of bs ++ all_entries cs))
  unfolding scan_slots scan
  slots-live tab i b' bs' cs b bs x (y ∷ ys) h =
      let d = drop-suc i tab (b' ∷ bs') cs h in
      (
        ap (λ (l : List (Chain E)). (y ∷ ys) ++ (entries_of bs ++ all_entries l)) d,
        (λ e. (tt, tt, (b', bs', cs, h))),
      )
  slots-live tab i b' bs' cs b [] x [] h =
      slots-fresh tab (suc i) cs (drop-suc i tab (b' ∷ bs') cs h)
  slots-live tab i b' bs' cs b (b2 ∷ r) x [] h =
      let d = drop-suc i tab (b' ∷ bs') cs h in
      (
        ap (λ (l : List (Chain E)). (b2.head ∷ b2.more) ++ (entries_of r ++ all_entries l)) d
            ∙ sym (append_assoc (b2.head ∷ b2.more) (entries_of r) (all_entries cs)),
        (λ e. (tt, tt, (b', bs', cs, h))),
      )

  abbrev cursor : ℕ → Chain E → List E → Bool → Cursor E
  cursor i bk en ex = record { idx = i; bucket = bk; ent = en; exhausted = ex }

  -- What a call returns: nothing at the end, and otherwise the first entry that is pending.
  abbrev Called : Table E → Cursor E → List E → Type 0
  Called t c es =
      ((es ≡ []) × (next_from t c ≡ (none, none)))
      ⊎ ((x : E) × (xs : List E) × (c' : Cursor E) × (es ≡ x ∷ xs)
          × (next_from t c ≡ (some x, some c'))
          × Stands t.tab c' xs)

  next_from-Called :
      (t : Table E) (i : ℕ) (bk : Chain E) (en : List E) (ex : Bool) (es : List E)
      → Stands t.tab (cursor i bk en ex) es
      → Called t (cursor i bk en ex) es
  unfolding next_from
  next_from-Called t i bk en true es (p, l) = inl (sym p, refl)
  next_from-Called t i bk [] false es (p, l) = let (a, b, c) = l refl in elim a [ ]
  next_from-Called t i [] (x ∷ xs) false es (p, l) = let (a, b, c) = l refl in elim b [ ]
  next_from-Called t i (b ∷ bs) (x ∷ xs) false es (p, l) =
      let (u, v, w) = l refl in
      let (b', bs', cs, h) = w in
      let d = drop-suc i t.tab (b' ∷ bs') cs h in
      inr (
        x,
        xs ++ (entries_of bs ++ all_entries cs),
        scan_slots (drop i t.tab) i (b ∷ bs) (x ∷ xs),
        sym p ∙ ap (λ (k : List (Chain E)). (x ∷ xs) ++ (entries_of bs ++ all_entries k)) d,
        refl,
        subst
            (λ (k : List (Chain E)).
              Stands t.tab (scan_slots k i (b ∷ bs) (x ∷ xs))
                (xs ++ (entries_of bs ++ all_entries cs)))
            (sym h) (slots-live t.tab i b' bs' cs b bs x xs h),
      )

  visit-next :
      (n : ℕ) (t : Table E) (it : Option (Cursor E)) (x : E) (c : Cursor E) (xs : List E)
      → next true t it ≡ (some x, some c)
      → visit n t (some c) ≡ some xs
      → visit (suc n) t it ≡ some (x ∷ xs)
  unfolding visit
  visit-next n t it x c xs e h =
      ap (λ (r : Option E × Option (Cursor E)). collected (r.0) (visit n t (r.1))) e
      ∙ ap (collected (some x)) h

  visit-end :
      (n : ℕ) (t : Table E) (it : Option (Cursor E))
      → next true t it ≡ (none, none)
      → visit (suc n) t it ≡ some []
  unfolding visit
  visit-end n t it e =
      ap (λ (r : Option E × Option (Cursor E)). collected (r.0) (visit n t (r.1))) e

  visit-Stands :
      (n : ℕ) (t : Table E) (c : Cursor E) (es : List E)
      → Stands t.tab c es
      → length es < n
      → visit n t (some c) ≡ some es
  unfolding next
  visit-Stands zero t c es s k = absurd (omega arith)
  visit-Stands (suc n) t c es s k =
      elim (next_from-Called t c.idx c.bucket c.ent c.exhausted es s) [
        | inl (e, q) ↦ visit-end n t (some c) q ∙ ap some (sym e)
        | inr (x, xs, c', e, q, s') ↦
            let m : length es ≡ suc (length xs) = ap length e in
            visit-next n t (some c) x c' xs q (visit-Stands n t c' xs s' (omega arith))
            ∙ ap some (sym e)
      ]

  -- Where the iterator can be allocated, a loop that calls dt_htab_next on a table that does not
  -- change until it returns NULL ends: it meets every entry of the table exactly as often as the
  -- table holds it, slot by slot, in the order of the chains.
  pub visit-all_entries :
      (n : ℕ) (t : Table E)
      → length (all_entries t.tab) < n
      → visit n t none ≡ some (all_entries t.tab)
  unfolding visit next next_from
  visit-all_entries zero t k = absurd (omega arith)
  visit-all_entries (suc n) t k =
      visit-Stands (suc n) t (scan_slots t.tab 0 [] []) (all_entries t.tab)
        (slots-fresh t.tab 0 t.tab refl) k
