-- ===== src/Htab/Chain.antt =====
-- One chain of buckets: each bucket is a class of equal entries, and no class occurs twice.
use mathlib.Core.Option
use dtrace_utils.Common.{
  ◌+◌, ◌-◌, ◌≡◌, refl, sym, ap, ◌∙◌, inl, inr, true, false, Option, none, some, List, [], ◌∷◌,
  arith, Bool-cases, Option-cases, if◌then◌else◌,
}
use dtrace_utils.Htab.{Ops, Bucket, Chain, find, add_found, del, del_bucket, del_found}

module _ {E : Type 0} ⦃o : Ops E⦄ where
  -- All entries compare equal to `a`.
  abbrev pub AllSame : E → List E → Type 0
  AllSame a [] = Unit
  AllSame a (x ∷ xs) = (o.cmp a x ≡ true) × AllSame a xs

  pub record IsClass (b : Bucket E) : Type 0 where
    pub hash : o.hval b.head ≡ b.hval
    pub alike : AllSame b.head b.more

  abbrev pub IsGood : Chain E → Type 0
  IsGood [] = Unit
  IsGood (b ∷ bs) = IsClass b × (find b.head bs ≡ none) × IsGood bs

  pub find_congr : (a q : E) (c : Chain E) → o.cmp a q ≡ true → find a c ≡ find q c
  unfolding find
  find_congr a q [] h = refl
  find_congr a q (b ∷ bs) h = ground (
    arith,
    find_congr a q bs h,
    o.cmp_symm b.head a,
    o.cmp_symm b.head q,
    o.cmp_trans q a b.head,
    o.cmp_symm a q,
  )

  unfoldable pub add_to : E → Bucket E → Bucket E
  add_to e b = record b { head = e; more = b.head ∷ b.more; count = b.count + 1 }

  pub find-add_found :
      (e q : E) (c : Chain E)
      → find q (add_found e c) ≡ (if o.cmp e q then Option.map (add_to e) (find e c) else find q c)
  unfolding find add_found add_to
  find-add_found e q [] = ground arith
  find-add_found e q (b ∷ bs) = ground (
    arith,
    find-add_found e q bs,
    o.cmp_trans b.head e q,
    o.cmp_trans e q b.head,
    o.cmp_symm e b.head,
    o.cmp_symm q b.head,
    o.cmp_symm e q,
    o.cmp_trans b.head q e,
  )

  AllSame-congr : (a e : E) (xs : List E) → o.cmp e a ≡ true → AllSame a xs → AllSame e xs
  AllSame-congr a e [] h k = tt
  AllSame-congr a e (x ∷ xs) h (p, k) =
      (ground (arith, o.cmp_trans e a x), AllSame-congr a e xs h k)

  pub add_to-IsClass :
      (e : E) (b : Bucket E) → o.cmp b.head e ≡ true → IsClass b → IsClass (add_to e b)
  unfolding add_to
  add_to-IsClass e b h k = record {
    hash = sym (o.hval-cmp b.head e h) ∙ k.hash;
    alike = (
      sym (o.cmp_symm b.head e) ∙ h,
      AllSame-congr b.head e b.more (sym (o.cmp_symm b.head e) ∙ h) k.alike,
    );
  }

  pub add_found-IsGood : (e : E) (c : Chain E) → IsGood c → IsGood (add_found e c)
  unfolding add_found add_to
  add_found-IsGood e [] g = tt
  add_found-IsGood e (b ∷ bs) (k, d, g) = elim (Bool-cases (o.cmp b.head e)) [
    | inl t ↦ rw t (add_to-IsClass e b t k, sym (find_congr b.head e bs t) ∙ d, g)
    | inr f ↦ rw f (
      k,
      find-add_found e b.head bs ∙ ground (arith, d, o.cmp_symm b.head e, f),
      add_found-IsGood e bs g,
    )
  ]

  AllSame-del : (a e : E) (xs : List E) → AllSame a xs → AllSame a (del e xs)
  unfolding del
  AllSame-del a e [] h = tt
  AllSame-del a e (x ∷ xs) (p, h) = elim (Bool-cases (o.same e x)) [
    | inl t ↦ rw t h
    | inr f ↦ rw f (p, AllSame-del a e xs h)
  ]

  -- The entries of the bucket that a lookup finds.
  abbrev pub ents : Option (Bucket E) → List E
  ents none = []
  ents (some b) = b.head ∷ b.more

  pub del_bucket-ents : (e : E) (b : Bucket E) → ents (del_bucket e b) ≡ del e (b.head ∷ b.more)
  unfolding del_bucket
  del_bucket-ents e b = go (del e (b.head ∷ b.more)) refl
    where
      go :
          (l : List E)
          → del e (b.head ∷ b.more) ≡ l
          → ents (del_bucket e b) ≡ del e (b.head ∷ b.more)
      go [] h = rw (h, del_bucket)
      go (x ∷ xs) h = rw (h, del_bucket)

  -- What is left of a bucket is of the same class.
  pub del_bucket-some :
      (e : E) (b b' : Bucket E)
      → IsClass b
      → del_bucket e b ≡ some b'
      → IsClass b' × (o.cmp b.head b'.head ≡ true)
  unfolding del_bucket
  del_bucket-some e b b' k h =
      go (del e (b.head ∷ b.more)) refl
        (AllSame-del b.head e (b.head ∷ b.more) (o.cmp_refl b.head, k.alike))
    where
      go :
          (l : List E)
          → del e (b.head ∷ b.more) ≡ l
          → AllSame b.head l
          → IsClass b' × (o.cmp b.head b'.head ≡ true)
      go [] p a = absurd (ground (arith, p, h))
      go (x ∷ xs) p (c, a) =
          let e : b' ≡ record b { head = x; more = xs; count = b.count - 1 } =
            ground (arith, p, h) in
          rw e (
            record {
              hash = sym (o.hval-cmp b.head x c) ∙ k.hash;
              alike = AllSame-congr b.head x xs (o.cmp_symm x b.head ∙ c) a;
            },
            c,
          )

  pub none_of_ents : (r : Option (Bucket E)) → ents r ≡ [] → r ≡ none
  none_of_ents none h = refl
  none_of_ents (some b) h = cc

  pub find-del_found :
      (e q : E) (c : Chain E)
      → IsGood c
      → ents (find q (del_found e c))
        ≡ (if o.cmp e q then del e (ents (find e c)) else ents (find q c))
  unfolding find del_found del
  find-del_found e q [] g = ground arith
  find-del_found e q (b ∷ bs) (k, d, g) = elim (Bool-cases (o.cmp b.head e)) [
    | inr f ↦ rw f (
        ground (
          arith,
          find-del_found e q bs g,
          o.cmp_trans e q b.head,
          o.cmp_symm e b.head,
          o.cmp_symm q b.head,
        ))
    | inl t ↦ elim (Option-cases (del_bucket e b)) [
      | inr (b', h) ↦
          let (k', same) = del_bucket-some e b b' k h in
          let left : ents (some b') ≡ del e (b.head ∷ b.more) =
            sym (ap ents h) ∙ del_bucket-ents e b in
          rw t (
            rw h (
              ground (
                arith,
                left,
                same,
                o.cmp_trans b'.head b.head q,
                o.cmp_symm b'.head b.head,
                o.cmp_trans b.head e q,
                o.cmp_trans e b.head q,
                o.cmp_symm b.head e,
                o.cmp_trans b.head b'.head q,
              )))
      | inl h ↦
          let left : [] ≡ del e (b.head ∷ b.more) = sym (ap ents h) ∙ del_bucket-ents e b in
          rw t (
            rw h (
              ground (
                arith,
                left,
                d,
                find_congr b.head q bs,
                o.cmp_trans b.head e q,
                o.cmp_trans e b.head q,
                o.cmp_symm b.head e,
              )))
    ]
  ]

  pub del_found-IsGood : (e : E) (c : Chain E) → IsGood c → IsGood (del_found e c)
  unfolding del_found
  del_found-IsGood e [] g = tt
  del_found-IsGood e (b ∷ bs) (k, d, g) = elim (Bool-cases (o.cmp b.head e)) [
    | inr f ↦
        let apart : o.cmp e b.head ≡ false = o.cmp_symm e b.head ∙ f in
        rw f (
          k,
          none_of_ents _ (find-del_found e b.head bs g ∙ rw apart (ap ents d)),
          del_found-IsGood e bs g,
        )
    | inl t ↦ elim (Option-cases (del_bucket e b)) [
      | inr (b', h) ↦
          let (k', same) = del_bucket-some e b b' k h in
          rw t (rw h (k', sym (find_congr b.head b'.head bs same) ∙ d, g))
      | inl h ↦ rw t (rw h g)
    ]
  ]
