-- ===== src/Agg/Add.antt =====
-- dt_aggid_add against dt_aggid_lookup, and the records that it describes.
use dtrace_utils.Common.{
  ◌≢◌, ◌⊎◌, ℕ, zero, suc, ◌+◌, ◌*◌, ◌≤◌, ◌<◌, ◌≡◌, refl, sym, ap, ◌∙◌, inl, inr, Bool, true, false,
  ◌&&◌, ◌||◌, Option, none, some, List, arith, ltb, leb, ◌==◌, Bool-cases, Option-cases,
  if◌then◌else◌, length, get_or, set, length-set, get_or-set_self, get_or-set_ne, get_or-ge,
  get_elem?, length-extend, get_or-extend,
}
use dtrace_utils.Agg.{
  AggDesc, Ident, Hdl, Status, ok, nomem, slots, is_null, grow, room_loop, agg_recs, describe,
  enter, aggid_add, aggid_lookup,
}

-- The array is as long as `dt_maxagg` says.
abbrev pub IsValid : Hdl → Type 0
IsValid h = length (slots h.adesc) ≡ h.maxagg

lookup_slots : (h : Hdl) (i : ℕ) → IsValid h → aggid_lookup h i ≡ get_or (slots h.adesc) i none
unfolding aggid_lookup
lookup_slots h i v = elim (Bool-cases (leb h.maxagg i)) [
  | inr f ↦ rw f
  | inl t ↦ rw t (sym (get_or-ge (slots h.adesc) i none (ground arith)))
]

-- The table before and after, when only its size may differ.
pub record Resized (h t : Hdl) : Type 0 where
  pub valid : IsValid t
  pub same : (i : ℕ) → aggid_lookup t i ≡ aggid_lookup h i

grow-Resized : (h : Hdl) → IsValid h → Resized h (grow h)
unfolding grow
grow-Resized h v =
    let nmax = if h.maxagg == 0 then 1 else h.maxagg * 2 in
    let l = length-extend h.maxagg nmax (slots h.adesc) v (ground arith) in
    record {
      valid = l;
      same = λ i.
          lookup_slots (grow h) i l
          ∙ get_or-extend h.maxagg nmax i (slots h.adesc) v
          ∙ sym (lookup_slots h i v);
    }

maxagg-grow : (h : Hdl) → suc h.maxagg ≤ (grow h).maxagg
unfolding grow
maxagg-grow h = ground arith

-- How the loop ends: with room for the id, which was there or for which memory was given; or
-- without it, where some size was refused.
data Room (grow_ok : ℕ → Bool) (id : ℕ) (h : Hdl) (run : Option (Bool × Hdl)) : Type 0 where
  room :
      (t : Hdl)
      → run ≡ some (true, t)
      → Resized h t
      → id < t.maxagg
      → (id < h.maxagg) ⊎ (grow_ok (grow h).maxagg ≡ true)
      → Room grow_ok id h run
  no_room :
      (t : Hdl) (m : ℕ)
      → run ≡ some (false, t)
      → Resized h t
      → t.maxagg ≤ id
      → grow_ok m ≡ false
      → Room grow_ok id h run

Room-grow :
    (grow_ok : ℕ → Bool) (id : ℕ) (h g : Hdl) (run : Option (Bool × Hdl))
    → grow_ok (grow h).maxagg ≡ true
    → Resized h g
    → Room grow_ok id g run
    → Room grow_ok id h run
Room-grow grow_ok id h g run k r (room t e s lt m) =
    room t e (record { valid = s.valid; same = λ i. s.same i ∙ r.same i }) lt (inr k)
Room-grow grow_ok id h g run k r (no_room t m e s le f) =
    no_room t m e (record { valid = s.valid; same = λ i. s.same i ∙ r.same i }) le f

null_max : (h : Hdl) → IsValid h → is_null h.adesc ≡ true → h.maxagg ≡ 0
null_max h v = go h.adesc v
  where
    go :
        (a : Option (List (Option AggDesc)))
        → length (slots a) ≡ h.maxagg
        → is_null a ≡ true
        → h.maxagg ≡ 0
    go none e t = sym e
    go (some xs) e t = cc

Room-round :
    (n : ℕ) (grow_ok : ℕ → Bool) (id : ℕ) (h : Hdl)
    → IsValid h
    → (h.maxagg ≤ id → Room grow_ok id (grow h) (room_loop n grow_ok id (grow h)))
    → Room grow_ok id h (room_loop (suc n) grow_ok id h)
unfolding room_loop
Room-round n grow_ok id h v again = elim (Bool-cases (leb h.maxagg id || is_null h.adesc)) [
  | inr f ↦
      let lt : id < h.maxagg = ground arith in
      room h (rw (f, room_loop)) (record { valid = v; same = λ i. refl }) lt (inl lt)
  | inl t ↦
      let le : h.maxagg ≤ id = ground (arith, null_max h v) in
      elim (Bool-cases (grow_ok (grow h).maxagg)) [
        | inr f ↦
            no_room h (grow h).maxagg (rw t (rw f)) (record { valid = v; same = λ i. refl }) le f
        | inl g ↦ rw t (rw g (Room-grow grow_ok id h (grow h) _ g (grow-Resized h v) (again le)))
      ]
]

room_loop-Room :
    (n : ℕ) (grow_ok : ℕ → Bool) (id : ℕ) (h : Hdl)
    → IsValid h
    → id < h.maxagg + n
    → Room grow_ok id h (room_loop (suc n) grow_ok id h)
room_loop-Room zero grow_ok id h v lt =
    Room-round zero grow_ok id h v (λ small. absurd (omega arith))
room_loop-Room (suc n) grow_ok id h v lt = Room-round (suc n) grow_ok id h v λ small.
    room_loop-Room n grow_ok id (grow h) (grow-Resized h v).valid (omega (arith, maxagg-grow h))

-- The description that a lookup gives after the call: the one that was there, or the new one.
abbrev pub or_new : Option AggDesc → AggDesc → AggDesc
or_new (some a) new = a
or_new none new = new

-- How dt_aggid_add ends. An id that had no description has one only if both allocations for it were
-- given, and one that lay behind the end only if the larger array was; it has no memory only for an
-- id without a description, where one of the allocations was refused.
pub data Outcome (grow_ok : ℕ → Bool) (agg_ok recs_ok : Bool) (aid : Ident) (h : Hdl)
    (run : Option (Status × Hdl)) : Type 0 where
  known :
      (t : Hdl)
      → run ≡ some (ok, t)
      → IsValid t
      → ((i : ℕ)
          → aggid_lookup t i ≡ (
              if i == aid.id
              then some (or_new (aggid_lookup h aid.id) (describe aid))
              else aggid_lookup h i))
      → (agg_ok && recs_ok ≡ true) ⊎ (aggid_lookup h aid.id ≢ none)
      → (aid.id < h.maxagg) ⊎ (grow_ok (grow h).maxagg ≡ true)
      → Outcome grow_ok agg_ok recs_ok aid h run
  no_memory :
      (t : Hdl)
      → run ≡ some (nomem, t)
      → Resized h t
      → aggid_lookup h aid.id ≡ none
      → (agg_ok && recs_ok ≡ false) ⊎ ((m : ℕ) × (grow_ok m ≡ false))
      → Outcome grow_ok agg_ok recs_ok aid h run

lookup-far : (t : Hdl) (id : ℕ) → t.maxagg ≤ id → aggid_lookup t id ≡ none
unfolding aggid_lookup
lookup-far t id h = let e : leb t.maxagg id ≡ true = ground arith in rw (e) refl

enter-Outcome :
    (grow_ok : ℕ → Bool) (agg_ok recs_ok : Bool) (aid : Ident) (h t : Hdl)
    → Resized h t
    → aid.id < t.maxagg
    → (aid.id < h.maxagg) ⊎ (grow_ok (grow h).maxagg ≡ true)
    → Outcome grow_ok agg_ok recs_ok aid h (some (enter agg_ok recs_ok aid t))
unfolding enter
enter-Outcome grow_ok agg_ok recs_ok aid h t r lt m =
    let here = lookup_slots t aid.id r.valid in
    let in_range : ltb aid.id (length (slots t.adesc)) ≡ true = ground (arith, r.valid) in
    elim (Option-cases (get_or (slots t.adesc) aid.id none)) [
      | inr (a, e) ↦
          let there : aggid_lookup h aid.id ≡ some a = sym (r.same aid.id) ∙ here ∙ e in
          known t (rw in_range (rw e)) r.valid
            (λ i. elim (Bool-cases (i == aid.id)) [
              | inr f ↦ rw f (r.same i)
              | inl b ↦
                  let eq : i ≡ aid.id = ground arith in
                  rw b (rw there (ap (aggid_lookup t) eq ∙ here ∙ e))
            ])
            (inr (λ z. let q : some a ≡ none = sym there ∙ z in cc)) m
      | inl e ↦
          let there : aggid_lookup h aid.id ≡ none = sym (r.same aid.id) ∙ here ∙ e in
          elim (Bool-cases (agg_ok && recs_ok)) [
            | inr f ↦ no_memory t (rw in_range (rw e (rw f))) r there (inl f)
            | inl g ↦
                let u : Hdl = record t {
                  adesc = some (set (slots t.adesc) aid.id (some (describe aid)));
                } in
                let vu : IsValid u =
                  length-set (slots t.adesc) aid.id (some (describe aid)) ∙ r.valid in
                known u (rw in_range (rw e (rw g))) vu
                  (λ i. lookup_slots u i vu ∙ elim (Bool-cases (i == aid.id)) [
                    | inr f ↦ rw f (
                        get_or-set_ne (slots t.adesc) aid.id i (some (describe aid)) none
                          (λ e. ground arith)
                        ∙ sym (lookup_slots t i r.valid)
                        ∙ r.same i)
                    | inl b ↦
                        let eq : i ≡ aid.id = ground arith in
                        rw b (
                          rw there (
                            rw eq (
                              get_or-set_self (slots t.adesc) aid.id (some (describe aid)) none
                                (omega (arith, r.valid)))))
                  ])
                  (inl g) m
          ]
    ]

-- On a table as long as recorded, with the id plus two as fuel, `dt_aggid_add` returns and never
-- stores behind the end: either the id then has the description that it had before, or else the
-- new one, and other lookups are as they were; or the id had no description, one of the allocations
-- was refused, and no lookup has changed. A new description is there only if its allocations were
-- given, and an id from behind the end only if the array was allowed to grow.
pub aggid_add-Outcome :
    (grow_ok : ℕ → Bool) (agg_ok recs_ok : Bool) (aid : Ident) (h : Hdl)
    → IsValid h
    → Outcome grow_ok agg_ok recs_ok aid h
        (aggid_add (suc (suc aid.id)) grow_ok agg_ok recs_ok aid h)
unfolding aggid_add
aggid_add-Outcome grow_ok agg_ok recs_ok aid h v =
    elim (room_loop-Room (suc aid.id) grow_ok aid.id h v (omega arith)) [
      | room t e r lt m ↦ rw (e, aggid_add) (enter-Outcome grow_ok agg_ok recs_ok aid h t r lt m)
      | no_room t m e r le f ↦
          rw (e, aggid_add)
            (no_memory t refl r (sym (r.same aid.id) ∙ lookup-far t aid.id le) (inr (m, f)))
    ]

-- The records that `dt_aggid_add` describes lie one after another, 8 bytes each, from the given
-- offset on; there are as many as the loop has rounds.
pub get_elem?-agg_recs :
    (n func off k : ℕ)
    → get_elem? (agg_recs n func off) k ≡ (
        if ltb k n
        then some (record { action = func; size = 8; offset = off + 8 * k; alignment = 8; arg = 1 })
        else none)
unfolding agg_recs
get_elem?-agg_recs zero func off k = ground arith
get_elem?-agg_recs (suc n) func off zero = ground arith
get_elem?-agg_recs (suc n) func off (suc k) = get_elem?-agg_recs n func (off + 8) k ∙ ground arith
