-- ===== src/Spec.antt =====
-- bpf/speculation.c: the state machine of a speculation, as the BPF programs drive it.
--
-- The BPF map `specs` is a function from ids to what it holds. Updating with BPF_NOEXIST fails on
-- an id that is there, and on any other id if the map is full, which `room` says for each id.
-- `recycle` is what userspace does once a speculation was drained. `written` is 64 bits wide.
pub mod Steps
mod Tests
use dtrace_utils.Common.{
  ℕ, zero, suc, ◌+◌, ◌%◌, ◌^◌, ◌≡◌, Bool, true, false, Option, none, some, ltb, leb, ◌==◌,
  if◌then◌else◌,
}

-- dt_bpf_specs_t
pub record Spec : Type 0 where
  pub written : ℕ
  pub draining : ℕ

abbrev pub Specs : Type 0
Specs = ℕ → Option Spec

abbrev pub update : ℕ → Option Spec → Specs → Specs
update id v m = λ i. if i == id then v else m i

abbrev pub zero_spec : Spec
zero_spec = record { written = 0; draining = 0 }

-- bpf_map_update_elem(&specs, &id, &zero, BPF_NOEXIST): whether it succeeds.
abbrev pub can_update : (room : ℕ → Bool) → ℕ → Specs → Bool
can_update room id m = elim (m id) [ some _ ↦ false | none ↦ room id ]

-- SEARCH(id), with the searches that are left.
unfoldable pub search : ℕ → (nspec id : ℕ) → (room : ℕ → Bool) → Specs → ℕ × Specs
search zero nspec id room m = (0, m)
search (suc n) nspec id room m =
    let rest = search n nspec (suc id) room m in
    if ltb nspec id
    then (0, m)
    else if can_update room id m
    then (id, update id (some zero_spec) m)
    else rest

-- The id, or 0.
unfoldable pub speculation : (nspec : ℕ) → (room : ℕ → Bool) → Specs → ℕ × Specs
unfolding search
speculation nspec room m = search 16 nspec 1 room m

-- true for 0, false for -1.
unfoldable pub speculate : ℕ → Specs → Bool × Specs
speculate id m = elim (m id) [
  | none ↦ (false, m)
  | some s ↦
      if s.draining == 0
      then (true, update id (some (record s { written = (s.written + 1) % 2 ^ 64 })) m)
      else (false, m)
]

-- true for 0, false for -1 with a fault.
unfoldable pub set_drainable : (nspec : ℕ) → ℕ → Specs → Bool × Specs
set_drainable nspec id m = elim (m id) [
  | none ↦ (leb id nspec, m)
  | some s ↦ (true, update id (some (record s { draining = 1 })) m)
]
