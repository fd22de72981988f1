-- ===== src/Epid/Add.antt =====
-- dt_epid_add against dt_epid_lookup.
use dtrace_utils.Common.{
  ◌⊎◌, ℕ, suc, ◌+◌, ◌≤◌, ◌<◌, ◌≡◌, Bool, true, false, none, some, ◌==◌, if◌then◌else◌, length,
  get_or,
}
use dtrace_utils.Epid.{Hdl, Result, added, nomem, past_end, slots, next_max, epid_lookup}

-- The arrays are as long as `dt_maxprobe` says, and the ids to come are free.
pub record IsValid (h : Hdl) : Type 0 where
  pub dd_len : length (slots h.ddesc) ≡ h.maxprobe
  pub pd_len : length (slots h.pdesc) ≡ h.maxprobe
  pub fresh : (i : ℕ) → h.nextepid ≤ i → get_or (slots h.ddesc) i none ≡ none

-- The handle after an entry was added.
pub record Entered (desc : ℕ → ℕ) (ddp prid : ℕ) (h t : Hdl) : Type 0 where
  pub valid : IsValid t
  pub next : t.nextepid ≡ suc h.nextepid
  pub found :
      (i : ℕ)
      → epid_lookup t i ≡ (if i == h.nextepid then some (ddp, desc prid) else epid_lookup h i)
  pub held : (a : ℕ) → t.refcnt a ≡ (if a == ddp then h.refcnt a + 1 else h.refcnt a)

-- How dt_epid_add ends: the id is entered, in arrays with room or in new ones; or the arrays have
-- no room, and one of the new ones could not be allocated; or the store is behind the end.
pub data Outcome (dd_ok pd_ok : Bool) (desc : ℕ → ℕ) (ddp prid : ℕ) (h : Hdl) (run : Result)
    : Type 0 where
  entered :
      (t : Hdl)
      → run ≡ added h.nextepid t
      → Entered desc ddp prid h t
      → (h.nextepid < h.maxprobe) ⊎ ((dd_ok ≡ true) × (pd_ok ≡ true))
      → Outcome dd_ok pd_ok desc ddp prid h run
  no_memory :
      run ≡ nomem (record h { nextepid = h.nextepid + 1 })
      → h.maxprobe ≤ h.nextepid
      → (dd_ok ≡ false) ⊎ (pd_ok ≡ false)
      → Outcome dd_ok pd_ok desc ddp prid h run
  overrun :
      run ≡ past_end
      → next_max h.maxprobe ≤ h.nextepid
      → (dd_ok ≡ true) × (pd_ok ≡ true)
      → Outcome dd_ok pd_ok desc ddp prid h run

module _ (desc : ℕ → ℕ) (ddp prid : ℕ) (h : Hdl) (v : IsValid h) where
  abbrev h1 : Hdl
  h1 = record h { nextepid = h.nextepid + 1 }
