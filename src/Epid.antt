-- ===== src/Epid.antt =====
-- libdtrace/dt_map.c, first half: the tables that lead from an enabled probe id (EPID) to the data
-- description and the probe description.
--
-- A data description is its address, whose reference count is kept in `refcnt`; what a release
-- frees is recorded in `freed`. A NULL array is `none`. A store behind the end of the arrays is
-- the result `past_end`. Ids are taken not to reach 2 ^ 32.
pub mod Add
mod Tests
use dtrace_utils.Common.{
  ℕ, zero, suc, ◌+◌, ◌-◌, ◌*◌, ◌<◌, Bool, true, false, ◌&&◌, ◌||◌, Option, none, some, List, [],
  ◌∷◌, ltb, leb, ◌==◌, if◌then◌else◌, length, get_or, set, extend,
}

abbrev pub Pointers : Type 0
Pointers = List (Option ℕ)

pub record Hdl : Type 0 where
  pub maxprobe : ℕ
  pub nextepid : ℕ
  pub ddesc : Option Pointers
  pub pdesc : Option Pointers
  pub refcnt : ℕ → ℕ
  pub freed : List ℕ

pub data Result : Type 0 where
  added : ℕ → Hdl → Result
  nomem : Hdl → Result
  past_end : Result

unfoldable pub hold : ℕ → Hdl → Hdl
hold ddp h = record h { refcnt = λ a. if a == ddp then h.refcnt a + 1 else h.refcnt a }

unfoldable pub release : ℕ → Hdl → Hdl
release ddp h =
    let left = h.refcnt ddp - 1 in
    let lowered = record h { refcnt = λ a. if a == ddp then left else h.refcnt a } in
    if ltb 0 left then lowered else record lowered { freed = ddp ∷ h.freed }

-- The pointers of an array, none where it is NULL.
abbrev pub slots : Option Pointers → Pointers
slots none = []
slots (some xs) = xs

abbrev pub is_null : Option Pointers → Bool
is_null none = true
is_null (some xs) = false

abbrev pub next_max : ℕ → ℕ
next_max max = if max == 0 then 2 else max * 2

-- Both arrays with `nmax` pointers, the old ones copied.
unfoldable pub grow : Hdl → Hdl
grow h =
    let nmax = next_max h.maxprobe in
    record h {
      ddesc = some (extend h.maxprobe nmax (slots h.ddesc));
      pdesc = some (extend h.maxprobe nmax (slots h.pdesc));
      maxprobe = nmax;
    }

-- The end of dt_epid_add, from the test of dt_ddesc[epid] on.
unfoldable pub place : (desc : ℕ → ℕ) → (epid ddp prid : ℕ) → Hdl → Result
unfolding hold
place desc epid ddp prid h =
    if ltb epid (length (slots h.ddesc)) && ltb epid (length (slots h.pdesc))
    then elim (get_or (slots h.ddesc) epid none) [
      | some _ ↦ added epid h
      | none ↦ added epid (
          hold ddp (record h {
            ddesc = some (set (slots h.ddesc) epid (some ddp));
            pdesc = some (set (slots h.pdesc) epid (some (desc prid)));
          }))
    ]
    else past_end

-- `desc prid` is dtp->dt_probes[prid]->desc.
unfoldable pub epid_add : (dd_ok pd_ok : Bool) → (desc : ℕ → ℕ) → (ddp prid : ℕ) → Hdl → Result
unfolding grow place
epid_add dd_ok pd_ok desc ddp prid h =
    let epid = h.nextepid in
    let h1 = record h { nextepid = epid + 1 } in
    if leb h.maxprobe epid || is_null h.ddesc
    then (if dd_ok && pd_ok then place desc epid ddp prid (grow h1) else nomem h1)
    else place desc epid ddp prid h1

abbrev pub both : Option ℕ → Option ℕ → Option (ℕ × ℕ)
both (some d) (some p) = some (d, p)
both (some d) none = none
both none p = none

unfoldable pub epid_lookup : Hdl → ℕ → Option (ℕ × ℕ)
epid_lookup h epid =
    if leb h.maxprobe epid
    then none
    else both (get_or (slots h.ddesc) epid none) (get_or (slots h.pdesc) epid none)

-- The loop of dt_epid_destroy: a failed assertion ends in `none`.
pub release_loop : Pointers → Pointers → Hdl → Option Hdl
unfolding release
release_loop [] ps h = some h
release_loop (none ∷ ds) (none ∷ ps) h = release_loop ds ps h
release_loop (none ∷ ds) (some p ∷ ps) h = none
release_loop (some d ∷ ds) (some p ∷ ps) h = release_loop ds ps (release d h)
release_loop (some d ∷ ds) (none ∷ ps) h = none
release_loop (d ∷ ds) [] h = none

pub epid_destroy : Hdl → Option Hdl
unfolding release_loop
epid_destroy h =
    if is_null h.pdesc
    then (if is_null h.ddesc && (h.maxprobe == 0) then some h else none)
    else if is_null h.ddesc || (h.maxprobe == 0)
    then none
    else elim (release_loop (slots h.ddesc) (slots h.pdesc) h) [
      | none ↦ none
      | some t ↦ some (record t { pdesc = none; ddesc = none; nextepid = 0; maxprobe = 0 })
    ]
