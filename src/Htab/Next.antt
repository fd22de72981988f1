-- ===== src/Htab/Next.antt =====
-- dt_htab_next: the iterator.
--
-- The position in a chain is the list of buckets from `bucket` on, and the one in a bucket the
-- list of entries from `ent` on; NULL is the empty list.
use dtrace_utils.Common.{
  ℕ, suc, Bool, true, false, Option, none, some, List, [], ◌∷◌, if◌then◌else◌, drop,
}
use dtrace_utils.Htab.{Bucket, Chain, Table}

pub record Cursor (E : Type 0) : Type 0 where
  pub idx : ℕ
  pub bucket : Chain E
  pub ent : List E
  pub exhausted : Bool

module _ {E : Type 0} where
  -- The head of the bucket, or ops->next(ent).
  abbrev pub step_ent : Bucket E → List E → List E
  step_ent b [] = b.head ∷ b.more
  step_ent b (x ∷ xs) = xs

  -- The loop over the buckets: where it stops with an entry, or the end.
  unfoldable pub scan : Chain E → List E → Chain E × List E
  scan [] ent = ([], [])
  scan (b ∷ bs) ent =
      let rest = scan bs [] in elim (step_ent b ent) [ [] ↦ rest | x ∷ xs ↦ (b ∷ bs, x ∷ xs) ]

  abbrev pub or_chain : Chain E → Chain E → Chain E
  or_chain [] c = c
  or_chain (b ∷ bs) c = b ∷ bs

  -- The loop over the slots, given those from `idx` on.
  unfoldable pub scan_slots : List (Chain E) → ℕ → Chain E → List E → Cursor E
  unfolding scan
  scan_slots [] idx bucket ent = record { idx = idx; bucket = bucket; ent = ent; exhausted = true }
  scan_slots ([] ∷ cs) idx bucket ent = scan_slots cs (suc idx) [] []
  scan_slots ((b ∷ bs) ∷ cs) idx bucket ent =
      let rest = scan_slots cs (suc idx) [] [] in
      let (bucket', ent') = scan (or_chain bucket (b ∷ bs)) ent in
      elim ent' [
        | [] ↦ rest
        | x ∷ xs ↦ record { idx = idx; bucket = bucket'; ent = x ∷ xs; exhausted = false }
      ]

  abbrev pub first : List E → Option E
  first [] = none
  first (x ∷ xs) = some x

  -- What follows the start of the iteration: the value returned, and `*it`.
  unfoldable pub next_from : Table E → Cursor E → Option E × Option (Cursor E)
  unfolding scan_slots
  next_from t i =
      if i.exhausted
      then (none, none)
      else (first i.ent, some (scan_slots (drop i.idx t.tab) i.idx i.bucket i.ent))

  abbrev pub zero_cursor : Cursor E
  zero_cursor = record { idx = 0; bucket = []; ent = []; exhausted = false }

  -- `mem` says whether the iterator can be allocated, when `*it` is NULL.
  unfoldable pub next : (mem : Bool) → Table E → Option (Cursor E) → Option E × Option (Cursor E)
  unfolding next_from
  next mem t (some i) = next_from t i
  next false t none = (none, none)
  next true t none = elim (next_from t zero_cursor).1 [
    | none ↦ (none, none)
    | some i ↦ next_from t i
  ]
