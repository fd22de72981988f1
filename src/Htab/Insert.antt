-- ===== src/Htab/Insert.antt =====
-- dt_htab_insert, with the resizing that it may do first.
use dtrace_utils.Common.{
  ℕ, zero, suc, ◌+◌, ◌*◌, ◌/◌, ◌≤◌, ◌≡◌, ◌≢◌, ◌⊎◌, refl, sym, ap, ◌∙◌, inl, inr, Bool, true, false,
  Option, none, some, [], ◌∷◌, bit_and, arith, ltb, ◌==◌, Bool-cases, Option-cases, if◌then◌else◌,
  get_or,
}
use dtrace_utils.Htab.{
  Ops, Bucket, Chain, Table, Status, ok, enomem, find, add_found, slot, insert, resize,
}
use dtrace_utils.Htab.Chain.{IsGood, ents, add_to, find-add_found, add_found-IsGood}
use dtrace_utils.Htab.Slots.{chain_total, one_each, entry_count}
use dtrace_utils.Htab.Methods.{IsSound, view, resize-IsSound, change, change-IsSound}

-- Memory was refused: for the new bucket, or for a table of some size.
abbrev pub Lacking : (ℕ → Bool) → Bool → Type 0
Lacking resize_ok bucket_ok = (bucket_ok ≡ false) ⊎ ((m : ℕ) × (resize_ok m ≡ false))

module _ {E : Type 0} ⦃o : Ops E⦄ where
  pub total-add_found :
      (e : E) (c : Chain E) (b : Bucket E)
      → find e c ≡ some b
      → (chain_total one_each (add_found e c) ≡ chain_total one_each c)
        × (chain_total entry_count (add_found e c) ≡ chain_total entry_count c + 1)
  unfolding chain_total find add_found
  total-add_found e [] b h = absurd (ground arith)
  total-add_found e (d ∷ c) b h = elim (Bool-cases (o.cmp d.head e)) [
    | inl t ↦ rw t (refl, omega arith)
    | inr f ↦
        let (p, q) = total-add_found e c b (ground arith) in
        rw f (ap (λ (n : ℕ). 1 + n) p, omega (arith, q))
  ]

  -- Entries of one class have one home, whose chain is the same for all of them.
  pub same_slot :
      (t : Table E) (e q : E)
      → bit_and (o.hval q) t.mask ≡ bit_and (o.hval e) t.mask
      → slot t q ≡ slot t e
  unfolding slot
  same_slot t e q h = ap (λ (i : ℕ). get_or t.tab i []) h

  pub same_home :
      (t : Table E) (e q : E)
      → o.cmp e q ≡ true
      → bit_and (o.hval q) t.mask ≡ bit_and (o.hval e) t.mask
  same_home t e q h = ap (λ (i : ℕ). bit_and i t.mask) (sym (o.hval-cmp e q h))

  pub slot-IsGood : (t : Table E) (e : E) → IsSound t → IsGood (slot t e)
  unfolding slot
  slot-IsGood t e s = s.placed.good (bit_and (o.hval e) t.mask)

  pub away :
      (t : Table E) (e q : E)
      → IsSound t
      → bit_and (o.hval q) t.mask ≢ bit_and (o.hval e) t.mask
      → find q (slot t e) ≡ none
  unfolding slot
  away t e q s ne = s.placed.home q (bit_and (o.hval e) t.mask) ne

  ents-add_to : (e : E) (b : Bucket E) → ents (some (add_to e b)) ≡ e ∷ b.head ∷ b.more
  unfolding add_to
  ents-add_to e b = refl

  -- The view after the newest entry of its class was added.
  abbrev pub Added : Table E → E → Table E → Type 0
  Added t e t' = (q : E) → view t' q ≡ (if o.cmp e q then e ∷ view t e else view t q)

  add_old :
      (t : Table E) (e : E) (b : Bucket E)
      → IsSound t
      → find e (slot t e) ≡ some b
      → let t' = change t e (add_found e (slot t e)) t.nbuckets (t.nentries + 1) in
        IsSound t' × Added t e t'
  unfolding view
  add_old t e b s h =
      let c = slot t e in
      let (n1, n2) = total-add_found e c b h in
      let (s', v) =
        change-IsSound t e (add_found e c) t.nbuckets (t.nentries + 1) s
          (add_found-IsGood e c (slot-IsGood t e s))
          (λ q ne. find-add_found e q c ∙ ground (arith, same_home t e q, away t e q s ne))
          (omega (arith, n1)) (omega (arith, n2)) in
      (
        s',
        λ q. v q ∙ elim (Bool-cases (bit_and (o.hval q) t.mask == bit_and (o.hval e) t.mask)) [
          | inl i ↦
              rw i (
                ap ents (find-add_found e q c)
                ∙ ground (arith, h, same_slot t e q, ents-add_to e b))
          | inr i ↦ rw i (ground (arith, same_home t e q))
        ],
      )

  add_new :
      (t : Table E) (e : E)
      → IsSound t
      → find e (slot t e) ≡ none
      → let b : Bucket E = record { hval = o.hval e; head = e; more = []; count = 1 } in
        let t' = change t e (b ∷ slot t e) (t.nbuckets + 1) (t.nentries + 1) in
        IsSound t' × Added t e t'
  unfolding view find chain_total
  add_new t e s h =
      let c = slot t e in
      let b : Bucket E = record { hval = o.hval e; head = e; more = []; count = 1 } in
      let (s', v) =
        change-IsSound t e (b ∷ c) (t.nbuckets + 1) (t.nentries + 1) s
          (record { hash = refl; alike = tt }, h, slot-IsGood t e s)
          (λ q ne. ground (arith, same_home t e q, away t e q s ne)) (omega arith) (omega arith) in
      (
        s',
        λ q. v q ∙ elim (Bool-cases (bit_and (o.hval q) t.mask == bit_and (o.hval e) t.mask)) [
          | inl i ↦ rw i (ground (arith, h, same_slot t e q))
          | inr i ↦ rw i (ground (arith, same_home t e q))
        ],
      )

  -- What an insertion ends in.
  pub data Inserted (resize_ok : ℕ → Bool) (bucket_ok : Bool) (t : Table E) (e : E)
      (run : Option (Status × Table E)) : Type 0 where
    added :
        (t' : Table E)
        → run ≡ some (ok, t')
        → IsSound t'
        → Added t e t'
        → (bucket_ok ≡ true) ⊎ (view t e ≢ [])
        → Inserted resize_ok bucket_ok t e run
    refused :
        (t' : Table E)
        → run ≡ some (enomem, t')
        → IsSound t'
        → ((q : E) → view t' q ≡ view t q)
        → view t e ≡ []
        → Lacking resize_ok bucket_ok
        → Inserted resize_ok bucket_ok t e run

  Inserted-resize :
      (rk : ℕ → Bool) (bk : Bool) (t : Table E) (e : E) (run : Option (Status × Table E))
      → ((q : E) → view (resize t) q ≡ view t q)
      → Inserted rk bk (resize t) e run
      → Inserted rk bk t e run
  Inserted-resize rk bk t e run v (added t' r s a m) =
      added t' r s (λ q. a q ∙ ground (arith, v e, v q))
        (elim m [ inl h ↦ inl h | inr h ↦ inr (λ z. h (v e ∙ z)) ])
  Inserted-resize rk bk t e run v (refused t' r s a z l) =
      refused t' r s (λ q. a q ∙ v q) (sym (v e) ∙ z) l

  view-none : (t : Table E) (e : E) → find e (slot t e) ≡ none → view t e ≡ []
  unfolding view
  view-none t e f = ap ents f

  view-some : (t : Table E) (e : E) (b : Bucket E) → find e (slot t e) ≡ some b → view t e ≢ []
  unfolding view
  view-some t e b f z = let q : b.head ∷ b.more ≡ [] = sym (ap ents f) ∙ z in cc

  resize-size : (t : Table E) → ((resize t).size ≡ t.size * 2) × ((resize t).nbuckets ≡ t.nbuckets)
  unfolding resize
  resize-size t = (refl, refl)

  -- What is left once no more resizing is due.
  place :
      (rk : ℕ → Bool) (bucket_ok : Bool) (e : E) (t : Table E)
      → IsSound t
      → find e (slot t e) ≡ none
      → let b : Bucket E = record { hval = o.hval e; head = e; more = []; count = 1 } in
        Inserted rk bucket_ok t e (
          if bucket_ok
          then some (ok, change t e (b ∷ slot t e) (t.nbuckets + 1) (t.nentries + 1))
          else some (enomem, t))
  place rk true e t s f = let (s', a) = add_new t e s f in added _ refl s' a (inl refl)
  place rk false e t s f = refused t refl s (λ q. refl) (view-none t e f) (inl refl)

  insert_round :
      (n : ℕ) (resize_ok : ℕ → Bool) (bucket_ok : Bool) (e : E) (t : Table E)
      → IsSound t
      → (ltb t.size (t.nbuckets / 2) ≡ true
          → Inserted resize_ok bucket_ok (resize t) e (insert n resize_ok bucket_ok e (resize t)))
      → Inserted resize_ok bucket_ok t e (insert (suc n) resize_ok bucket_ok e t)
  unfolding insert
  insert_round n resize_ok bucket_ok e t s again = elim (Option-cases (find e (slot t e))) [
    | inr (b, f) ↦
        let (s', a) = add_old t e b s f in added _ (rw (f, insert)) s' a (inr (view-some t e b f))
    | inl f ↦ elim (Bool-cases (ltb t.size (t.nbuckets / 2))) [
      | inr small ↦ rw (f, insert) (rw small (place resize_ok bucket_ok e t s f))
      | inl big ↦ elim (Bool-cases (resize_ok (t.size * 2))) [
        | inr full ↦
            rw (f, insert)
              (rw big
                (rw full (refused t refl s (λ q. refl) (view-none t e f) (inr (t.size * 2, full)))))
        | inl room ↦
            rw (f, insert)
              (rw big (
                rw room
                  (Inserted-resize resize_ok bucket_ok t e _ (resize-IsSound t s).1 (again big))))
      ]
    ]
  ]

  -- On a sound table `dt_htab_insert` returns after at most as many retries as half its buckets
  -- exceed its size, whatever memory it gets. It returns 0, and then the entry is the newest one of
  -- its class and the entries of other classes are as before, and it is in a class that had entries
  -- or a bucket was allocated for it; or it returns -ENOMEM, for an entry of a class without
  -- entries, where the memory for a bucket or for a larger table was refused, and then every class
  -- has the entries that it had. The table stays sound either way.
  pub insert-Inserted :
      (n : ℕ) (resize_ok : ℕ → Bool) (bucket_ok : Bool) (e : E) (t : Table E)
      → IsSound t
      → t.nbuckets / 2 ≤ t.size + n
      → Inserted resize_ok bucket_ok t e (insert (suc n) resize_ok bucket_ok e t)
  insert-Inserted zero resize_ok bucket_ok e t s h =
      insert_round zero resize_ok bucket_ok e t s (λ big. absurd (ground arith))
  insert-Inserted (suc n) resize_ok bucket_ok e t s h =
      insert_round (suc n) resize_ok bucket_ok e t s λ big.
        insert-Inserted n resize_ok bucket_ok e (resize t) (resize-IsSound t s).0
          (ground (arith, resize-size t, s.placed.wide, s.width))
