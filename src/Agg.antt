-- ===== src/Agg.antt =====
-- libdtrace/dt_map.c, second half: the table that leads from an aggregation id to the description
-- of the aggregation.
--
-- The array of descriptions is `none` where it is NULL. Allocations are told whether they succeed;
-- the array's by its new size. `id` and the sizes are taken not to overflow.
pub mod Add
mod Tests
use dtrace_utils.Common.{
  ℕ, zero, suc, ◌+◌, ◌-◌, ◌*◌, ◌/◌, ◌<◌, Bool, true, false, ◌&&◌, ◌||◌, Option, none, some, List,
  [], ◌∷◌, ltb, leb, ◌==◌, if◌then◌else◌, length, get_or, set, extend,
}

pub record RecDesc : Type 0 where
  pub action : ℕ
  pub size : ℕ
  pub offset : ℕ
  pub alignment : ℕ
  pub arg : ℕ

pub record AggDesc : Type 0 where
  pub id : ℕ
  pub name : ℕ
  pub sig : ℕ
  pub varid : ℕ
  pub size : ℕ
  pub nrecs : ℕ
  pub recs : List RecDesc

-- What dt_aggid_add reads of the identifier: `di_id`, `di_name`, the `dis_auxinfo` of its
-- signature, `di_size`, and the `di_id` of the aggregating function's identifier.
pub record Ident : Type 0 where
  pub id : ℕ
  pub name : ℕ
  pub auxinfo : ℕ
  pub size : ℕ
  pub func : ℕ

pub record Hdl : Type 0 where
  pub maxagg : ℕ
  pub adesc : Option (List (Option AggDesc))

pub data Status : Type 0 where
  ok nomem past_end : Status

abbrev pub slots : Option (List (Option AggDesc)) → List (Option AggDesc)
slots none = []
slots (some xs) = xs

abbrev pub is_null : Option (List (Option AggDesc)) → Bool
is_null none = true
is_null (some xs) = false

-- DT_AGG_NUM_COPIES
abbrev pub num_copies : ℕ
num_copies = 1

-- One round of the loop that makes room.
unfoldable pub grow : Hdl → Hdl
grow h =
    let nmax = if h.maxagg == 0 then 1 else h.maxagg * 2 in
    record { maxagg = nmax; adesc = some (extend h.maxagg nmax (slots h.adesc)) }

-- `while (id >= (max = dtp->dt_maxagg) || dtp->dt_adesc == NULL)`, on fuel: the handle, and
-- whether there was memory.
pub room_loop : ℕ → (grow_ok : ℕ → Bool) → ℕ → Hdl → Option (Bool × Hdl)
unfolding grow
room_loop zero grow_ok id h = none
room_loop (suc n) grow_ok id h =
    let rest = room_loop n grow_ok id (grow h) in
    if leb h.maxagg id || is_null h.adesc
    then (if grow_ok (grow h).maxagg then rest else some (false, h))
    else some (true, h)

-- The loop over the records, with the rounds that are left.
pub agg_recs : ℕ → (func off : ℕ) → List RecDesc
agg_recs zero func off = []
agg_recs (suc n) func off =
    record { action = func; size = 8; offset = off; alignment = 8; arg = 1 }
    ∷ agg_recs n func (off + 8)

unfoldable pub describe : Ident → AggDesc
unfolding agg_recs
describe aid =
    let size = (aid.size - 8) / num_copies in
    record {
      id = aid.id;
      name = aid.name;
      sig = aid.auxinfo;
      varid = aid.id;
      size = size;
      nrecs = size / 8;
      recs = agg_recs (size / 8) aid.func 0;
    }

-- What follows the loop, in a table with or without room for the id.
unfoldable pub enter : (agg_ok recs_ok : Bool) → Ident → Hdl → Status × Hdl
unfolding describe
enter agg_ok recs_ok aid h =
    if ltb aid.id (length (slots h.adesc))
    then elim (get_or (slots h.adesc) aid.id none) [
      | some _ ↦ (ok, h)
      | none ↦
          if agg_ok && recs_ok
          then (ok, record h { adesc = some (set (slots h.adesc) aid.id (some (describe aid))) })
          else (nomem, h)
    ]
    else (past_end, h)

pub aggid_add :
    ℕ → (grow_ok : ℕ → Bool) → (agg_ok recs_ok : Bool) → Ident → Hdl → Option (Status × Hdl)
unfolding room_loop enter
aggid_add n grow_ok agg_ok recs_ok aid h = elim (room_loop n grow_ok aid.id h) [
  | none ↦ none
  | some (true, t) ↦ some (enter agg_ok recs_ok aid t)
  | some (false, t) ↦ some (nomem, t)
]

unfoldable pub aggid_lookup : Hdl → ℕ → Option AggDesc
aggid_lookup h id = if leb h.maxagg id then none else get_or (slots h.adesc) id none

-- `none` for the failed assertion.
pub aggid_destroy : Hdl → Option Hdl
aggid_destroy h =
    if is_null h.adesc
    then (if h.maxagg == 0 then some h else none)
    else if h.maxagg == 0
    then none
    else some (record { maxagg = 0; adesc = none })
