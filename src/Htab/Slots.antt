-- ===== src/Htab/Slots.antt =====
-- The table of slots: where a class of entries lives, and what a change of one slot does.
use dtrace_utils.Common.{
  ℕ, zero, suc, ◌+◌, ◌≤◌, ◌<◌, ◌≡◌, ◌≢◌, ap, ◌∙◌, inl, inr, Option, none, List, [], ◌∷◌, bit_and,
  arith, ◌==◌, Bool-cases, if◌then◌else◌, length, get_or, set, length-set, get_or-set_self,
  get_or-set_ne,
}
use dtrace_utils.Common.Bits.{bit_and-le}
use dtrace_utils.Htab.{Ops, Bucket, Chain, find}
use dtrace_utils.Htab.Chain.{IsGood}

-- A sum over the buckets of a chain, and over those of a table.
unfoldable pub chain_total : {E : Type 0} → (Bucket E → ℕ) → Chain E → ℕ
chain_total w [] = 0
chain_total w (b ∷ bs) = w b + chain_total w bs

unfoldable pub total : {E : Type 0} → (Bucket E → ℕ) → List (Chain E) → ℕ
unfolding chain_total
total w [] = 0
total w (c ∷ cs) = chain_total w c + total w cs

pub total-set :
    {E : Type 0} (w : Bucket E → ℕ) (cs : List (Chain E)) (i : ℕ) (c : Chain E)
    → i < length cs
    → total w (set cs i c) + chain_total w (get_or cs i []) ≡ total w cs + chain_total w c
unfolding total
total-set w [] i c h = absurd (omega arith)
total-set w (d ∷ cs) zero c h = omega arith
total-set w (d ∷ cs) (suc i) c h = omega (arith, total-set w cs i c (omega arith))

pub chain_total_le :
    {E : Type 0} (w : Bucket E → ℕ) (cs : List (Chain E)) (i : ℕ)
    → chain_total w (get_or cs i []) ≤ total w cs
unfolding total chain_total
chain_total_le w [] i = omega arith
chain_total_le w (c ∷ cs) zero = omega arith
chain_total_le w (c ∷ cs) (suc i) = omega (arith, chain_total_le w cs i)

abbrev pub one_each : {E : Type 0} → Bucket E → ℕ
one_each b = 1

abbrev pub entry_count : {E : Type 0} → Bucket E → ℕ
entry_count b = 1 + length b.more

module _ {E : Type 0} ⦃o : Ops E⦄ where
  -- Each chain is good, and holds only entries whose hash value leads to its slot.
  pub record IsPlaced (tab : List (Chain E)) (mask : ℕ) : Type 0 where
    pub wide : mask < length tab
    pub good : (i : ℕ) → IsGood (get_or tab i [])
    pub home : (q : E) (i : ℕ) → bit_and (o.hval q) mask ≢ i → find q (get_or tab i []) ≡ none

  pub home_lt :
      (tab : List (Chain E)) (mask : ℕ) (q : E)
      → mask < length tab
      → bit_and (o.hval q) mask < length tab
  home_lt tab mask q h = omega (arith, bit_and-le (o.hval q) mask)

  -- The bucket of a class, looked for in its slot.
  abbrev pub bucket_of : List (Chain E) → ℕ → E → Option (Bucket E)
  bucket_of tab mask q = find q (get_or tab (bit_and (o.hval q) mask) [])

  -- A changed slot must not take in entries of another.
  pub set-IsPlaced :
      (tab : List (Chain E)) (mask i : ℕ) (c : Chain E)
      → IsPlaced tab mask
      → i < length tab
      → IsGood c
      → ((q : E) → bit_and (o.hval q) mask ≢ i → find q c ≡ none)
      → IsPlaced (set tab i c) mask
  set-IsPlaced tab mask i c p h g out = record {
    wide = omega (arith, p.wide, length-set tab i c);
    good = λ j. elim (Bool-cases (i == j)) [
      | inl t ↦ let e : i ≡ j = ground arith in rw (← e, get_or-set_self tab i c [] h) g
      | inr f ↦ rw (get_or-set_ne tab i j c [] (λ e. ground arith)) (p.good j)
    ];
    home = λ q j ne. elim (Bool-cases (i == j)) [
      | inl t ↦
          let e : i ≡ j = ground arith in
          rw (← e, get_or-set_self tab i c [] h) (out q (λ k. ne (k ∙ e)))
      | inr f ↦ rw (get_or-set_ne tab i j c [] (λ e. ground arith)) (p.home q j ne)
    ];
  }

  pub bucket_of-set :
      (tab : List (Chain E)) (mask i : ℕ) (c : Chain E) (q : E)
      → i < length tab
      → bucket_of (set tab i c) mask q
        ≡ (if bit_and (o.hval q) mask == i then find q c else bucket_of tab mask q)
  bucket_of-set tab mask i c q h = elim (Bool-cases (bit_and (o.hval q) mask == i)) [
    | inl t ↦
        let e : bit_and (o.hval q) mask ≡ i = ground arith in
        rw t (rw e (ap (find q) (get_or-set_self tab i c [] h)))
    | inr f ↦
        rw f (ap (find q) (get_or-set_ne tab i (bit_and (o.hval q) mask) c [] (λ e. ground arith)))
  ]
