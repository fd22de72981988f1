-- ===== src/Spec/Steps.antt =====
-- What programs and userspace together can do to the speculations.
use dtrace_utils.Common.{
  ℕ, zero, suc, ◌+◌, ◌≤◌, ◌<◌, ◌≡◌, ◌⊎◌, refl, inl, inr, Bool, true, false, none, some, arith, ltb,
  ◌==◌, Bool-cases, Option-cases,
}
use dtrace_utils.Spec.{
  Spec, Specs, update, zero_spec, can_update, search, speculation, speculate, set_drainable,
}

-- How dt_speculation ends: with the first id in reach that can be taken, or with none.
pub data Found (nspec last : ℕ) (room : ℕ → Bool) (m : Specs) (first : ℕ) (run : ℕ × Specs)
    : Type 0 where
  fresh :
      (id : ℕ)
      → run ≡ (id, update id (some zero_spec) m)
      → first ≤ id
      → id ≤ nspec
      → id < last
      → m id ≡ none
      → ((i : ℕ) → first ≤ i → i < id → can_update room i m ≡ false)
      → Found nspec last room m first run
  exhausted :
      run ≡ (0, m)
      → ((i : ℕ) → first ≤ i → i ≤ nspec → i < last → can_update room i m ≡ false)
      → Found nspec last room m first run

Found-next :
    (nspec last : ℕ) (room : ℕ → Bool) (m : Specs) (first : ℕ) (run : ℕ × Specs)
    → can_update room first m ≡ false
    → Found nspec last room m (suc first) run
    → Found nspec last room m first run
Found-next nspec last room m first run held (fresh id e lo hi lt new before) =
    fresh id e (omega arith) hi lt new (λ i le lt'. elim (Bool-cases (i == first)) [
      | inl t ↦ let e : i ≡ first = ground arith in rw e held
      | inr f ↦ before i (ground arith) lt'
    ])
Found-next nspec last room m first run held (exhausted e all) = exhausted e (λ i le hi lt.
    elim (Bool-cases (i == first)) [
      | inl t ↦ let e : i ≡ first = ground arith in rw e held
      | inr f ↦ all i (ground arith) hi lt
    ])

can_update-none : (room : ℕ → Bool) (id : ℕ) (m : Specs) → can_update room id m ≡ true → m id ≡ none
can_update-none room id m h = elim (Option-cases (m id)) [
  | inl e ↦ e
  | inr (s, e) ↦ absurd (ground arith)
]

search-Found :
    (n nspec first last : ℕ) (room : ℕ → Bool) (m : Specs)
    → first + n ≡ last
    → Found nspec last room m first (search n nspec first room m)
unfolding search
search-Found zero nspec first last room m h = exhausted refl (λ i le hi lt. absurd (omega arith))
search-Found (suc n) nspec first last room m h = elim (Bool-cases (ltb nspec first)) [
  | inl t ↦ exhausted (rw (t, search)) (λ i le hi lt. absurd (ground arith))
  | inr f ↦ elim (Bool-cases (can_update room first m)) [
    | inl t ↦
        fresh first (rw f (rw t)) (omega arith) (ground arith) (omega arith)
          (can_update-none room first m t) (λ i le lt. absurd (omega arith))
    | inr held ↦ rw f (
        rw held (
          Found-next nspec last room m first _ held
            (search-Found n nspec (suc first) last room m (omega arith))))
  ]
]

-- `dt_speculation` gives the first id from 1 to 16, and at most NSPEC, for which the map can be
-- updated, and puts an empty speculation there, where none was; if there is no such id it gives 0
-- and changes nothing.
pub speculation-Found :
    (nspec : ℕ) (room : ℕ → Bool) (m : Specs) → Found nspec 17 room m 1 (speculation nspec room m)
unfolding speculation
speculation-Found nspec room m = search-Found 16 nspec 1 17 room m refl

-- What happens to the map: calls of the three functions, and userspace freeing an id once it has
-- drained it, which it does only to a speculation that is marked for draining.
pub data Step (nspec : ℕ) : Specs → Specs → Type 0 where
  assign : (room : ℕ → Bool) (m : Specs) → Step nspec m (speculation nspec room m).1
  emit : (id : ℕ) (m : Specs) → Step nspec m (speculate id m).1
  finish : (id : ℕ) (m : Specs) → Step nspec m (set_drainable nspec id m).1
  recycle :
      (id : ℕ) (m : Specs) (s : Spec)
      → m id ≡ some s
      → s.draining ≡ 1
      → Step nspec m (update id none m)

pub data Steps (nspec : ℕ) : Specs → Specs → Type 0 where
  stay : (m : Specs) → Steps nspec m m
  then_ : (m n k : Specs) → Steps nspec m n → Step nspec n k → Steps nspec m k

-- Every speculation has an id from 1 to 16 and at most NSPEC, and its flag is 0 or 1.
pub record IsSound (nspec : ℕ) (m : Specs) : Type 0 where
  pub ids : (i : ℕ) (s : Spec) → m i ≡ some s → (0 < i) × (i ≤ nspec) × (i < 17)
  pub flag : (i : ℕ) (s : Spec) → m i ≡ some s → s.draining ≤ 1

update-IsSound :
    (nspec id : ℕ) (v : Spec) (m : Specs)
    → IsSound nspec m
    → (0 < id) × (id ≤ nspec) × (id < 17)
    → v.draining ≤ 1
    → IsSound nspec (update id (some v) m)
update-IsSound nspec id v m k lt d = record {
  ids = λ i s e. elim (Bool-cases (i == id)) [
    | inl t ↦ let same : i ≡ id = ground arith in rw same lt
    | inr f ↦ k.ids i s (ground arith)
  ];
  flag = λ i s e. elim (Bool-cases (i == id)) [
    | inl t ↦ let same : v ≡ s = ground arith in rw (← same) d
    | inr f ↦ k.flag i s (ground arith)
  ];
}

-- Sound maps stay sound, whatever happens next.
Step-IsSound : (nspec : ℕ) (m n : Specs) → Step nspec m n → IsSound nspec m → IsSound nspec n
unfolding speculate set_drainable
Step-IsSound nspec m _ (assign room _) k = elim (speculation-Found nspec room m) [
  | fresh id e lo hi lt new before ↦
      rw e (update-IsSound nspec id zero_spec m k (lo, hi, lt) (omega arith))
  | exhausted e all ↦ rw e k
]
Step-IsSound nspec m _ (emit id _) k = elim (Option-cases (m id)) [
  | inl e ↦ rw (e, speculate) k
  | inr (s, e) ↦ elim (Bool-cases (s.draining == 0)) [
    | inl t ↦
        rw (e, speculate) (rw t (update-IsSound nspec id _ m k (k.ids id s e) (k.flag id s e)))
    | inr f ↦ rw (e, speculate) (rw f k)
  ]
]
Step-IsSound nspec m _ (finish id _) k = elim (Option-cases (m id)) [
  | inl e ↦ rw (e, set_drainable) k
  | inr (s, e) ↦ rw (e, set_drainable) (update-IsSound nspec id _ m k (k.ids id s e) (omega arith))
]
Step-IsSound nspec m _ (recycle id _ s e d) k = record {
  ids = λ i s e. k.ids i s (ground arith);
  flag = λ i s e. k.flag i s (ground arith);
}

-- In every state that is reached from a sound one, for example from the empty map, all ids of
-- speculations are from 1 to 16 and at most NSPEC, and all flags are 0 or 1.
pub Steps-IsSound : (nspec : ℕ) (m n : Specs) → Steps nspec m n → IsSound nspec m → IsSound nspec n
Steps-IsSound nspec m _ (stay _) k = k
Steps-IsSound nspec m _ (then_ _ n k' r s) k =
    Step-IsSound nspec n k' s (Steps-IsSound nspec m n r k)

-- A speculation that is marked for draining is not written to: one step later it is as it was, or
-- gone.
pub Step-draining :
    (nspec : ℕ) (m n : Specs) (i : ℕ) (s : Spec)
    → Step nspec m n
    → m i ≡ some s
    → s.draining ≡ 1
    → (n i ≡ some s) ⊎ (n i ≡ none)
unfolding speculate set_drainable
Step-draining nspec m _ i s (assign room _) e d = elim (speculation-Found nspec room m) [
  | fresh id e' lo hi lt new before ↦ rw e' (inl (ground arith))
  | exhausted e' all ↦ rw e' (inl e)
]
Step-draining nspec m _ i s (emit id _) e d = inl (ground arith)
Step-draining nspec m _ i s (finish id _) e d = inl (ground arith)
Step-draining nspec m _ i s (recycle id _ s' e' d') e d = elim (Bool-cases (i == id)) [
  | inl t ↦ rw t (inr refl)
  | inr f ↦ rw f (inl e)
]
