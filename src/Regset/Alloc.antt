-- ===== src/Regset/Alloc.antt =====
-- dt_regset_alloc: which register it picks, and what freeing that register gives back.
use dtrace_utils.Common.{
  ℕ, zero, suc, ◌≤◌, ◌<◌, ◌≡◌, ◌⊎◌, inl, inr, true, false, none, some, ◌∷◌, arith, Option-cases,
  if◌then◌else◌,
}
use dtrace_utils.Regset.{
  Regset, Bitmap, spill_store, ok, set_active, spill, last_clear, alloc, free,
}
use dtrace_utils.Regset.Levels.{IsValid, level, Raised, lower, free-lower, lower-Raised}

last_clear-some : (m : Bitmap) (n r : ℕ) → last_clear m n ≡ some r → (r < n) × (m r ≡ false)
unfolding last_clear
last_clear-some m zero r h = ground arith
last_clear-some m (suc n) r h = ground (arith, last_clear-some m n r)

last_clear-none : (m : Bitmap) (n j : ℕ) → last_clear m n ≡ none → j < n → m j ≡ true
unfolding last_clear
last_clear-none m zero j h l = absurd (omega arith)
last_clear-none m (suc n) j h l = ground (arith, last_clear-none m n j)

-- What `alloc` does: it takes one of the least used registers, with a spill exactly when that
-- register is in use, or finds that every register is in use twice.
pub record Picked (s : Regset) (r : ℕ) (t : Regset) : Type 0 where
  pub in_range : r < s.size
  pub least : (j : ℕ) → j < s.size → level s r ≤ level s j
  pub room : level s r < 2
  pub raised : Raised r s t
  pub calls : t.calls ≡ (if s.active r then spill_store r ∷ s.calls else s.calls)

module _ (s : Regset) (v : IsValid s) where
  set_active-Picked :
      (r : ℕ) → last_clear s.active s.size ≡ some r → Picked s r (set_active r true s)
  unfolding set_active
  set_active-Picked r e =
      let (lt, clear) = last_clear-some s.active s.size r e in
      record {
        in_range = lt;
        least = λ j h. ground (arith, v r);
        room = ground (arith, v r);
        raised = record {
          valid = λ j. ground (arith, v j);
          size = ground arith;
          levels = λ j. ground (arith, v r);
        };
        calls = ground arith;
      }

  spill-Picked :
      (r : ℕ)
      → last_clear s.active s.size ≡ none
      → last_clear s.spilled s.size ≡ some r
      → Picked s r (spill r s)
  unfolding spill
  spill-Picked r e e' =
      let (lt, clear) = last_clear-some s.spilled s.size r e' in
      let all = λ (j : ℕ). last_clear-none s.active s.size j e in
      record {
        in_range = lt;
        least = λ j h. ground (arith, all r lt, all j h);
        room = ground (arith, all r lt);
        raised = record {
          valid = λ j. ground (arith, v j, all r lt);
          size = ground arith;
          levels = λ j. ground (arith, all r lt);
        };
        calls = ground (arith, all r lt);
      }

  -- On a valid set `dt_regset_alloc` returns one of the least used registers, in range and used
  -- less than twice, calls the spill routine for it exactly when it was in use, raises its level
  -- by one and changes no other; it returns -1 and leaves the set as it is exactly in the case
  -- that every register is in use and spilled.
  pub alloc_lem :
      ((r : ℕ) × (t : Regset) × (alloc s ≡ (some r, t)) × Picked s r t)
      ⊎ ((alloc s ≡ (none, s)) × ((j : ℕ) → j < s.size → level s j ≡ 2))
  unfolding alloc
  alloc_lem = elim (Option-cases (last_clear s.active s.size)) [
    | inr (r, e) ↦ inl (r, set_active r true s, rw (e, alloc), set_active-Picked r e)
    | inl e ↦ elim (Option-cases (last_clear s.spilled s.size)) [
      | inr (r, e') ↦ inl (r, spill r s, rw (e, e', alloc), spill-Picked r e e')
      | inl e' ↦ inr (
        rw (e, e', alloc),
        λ j h.
            ground (
              arith,
              last_clear-none s.active s.size j e h,
              last_clear-none s.spilled s.size j e' h,
            ),
      )
    ]
  ]

-- A register that was picked can be freed, and every bit of both maps is then as it was before.
pub free-Picked :
    (s : Regset) (r : ℕ) (t : Regset)
    → IsValid s
    → Picked s r t
    → (free r t ≡ ok tt (lower r t))
      × ((j : ℕ) → ((lower r t).active j ≡ s.active j) × ((lower r t).spilled j ≡ s.spilled j))
free-Picked s r t v p =
    let up = p.raised.levels r in
    let (down, valid) = lower-Raised t p.raised.valid r (ground (arith, up)) in
    (
      free-lower t p.raised.valid r (ground (arith, p.in_range, p.raised.size))
          (ground (arith, up)),
      λ j. ground (arith, p.raised.levels j, down.levels j, v j, valid j),
    )
