-- ===== src/Regset.antt =====
-- libdtrace/dt_regset.c: the register sets from which the code generator allocates BPF registers.
--
-- A bitmap is a function from the bit's index; the packing into words of sys/bitmap.h is not
-- modelled. The callbacks `dr_spill_store` and `dr_spill_load` are recorded in `calls`, the last
-- one first. A failed `assert` is `abort`. `dt_regset_dump` only prints.
pub mod Levels
pub mod Alloc
pub mod Args
mod Tests
use dtrace_utils.Common.{
  ℕ, zero, suc, ◌+◌, ◌<◌, ◌≡◌, Bool, true, false, Option, none, some, List, [], ◌∷◌, ltb, ◌==◌,
  if◌then◌else◌,
}

abbrev pub Bitmap : Type 0
Bitmap = ℕ → Bool

-- BT_SET and BT_CLEAR.
abbrev pub put : Bitmap → ℕ → Bool → Bitmap
put m i b = λ j. if j == i then b else m j

pub data Call : Type 0 where
  spill_store : ℕ → Call
  spill_load : ℕ → Call

pub record Regset : Type 0 where
  pub size : ℕ
  pub active : Bitmap
  pub spilled : Bitmap
  pub calls : List Call

pub data Run (A : Type 0) : Type 0 where
  ok : A → Regset → Run A
  abort : Run A

-- What `dt_regset_xalloc` returns: 0, or -1 for a register in use.
pub data Status : Type 0 where
  done in_use : Status

-- `malloc` gives the structure and the two maps, or fails.
unfoldable pub reset : Regset → Regset
reset s = record s { active = λ _. false; spilled = λ _. false }

unfoldable pub create : (struct_ok active_ok spilled_ok : Bool) → ℕ → Option Regset
unfolding reset
create false _ _ size = none
create true false _ size = none
create true true false size = none
create true true true size =
    some (reset (record { size = suc size; active = λ _. true; spilled = λ _. true; calls = [] }))

-- `for (reg = n - 1; reg >= 0; reg--) if (BT_TEST(map, reg) == 0) ...`
unfoldable pub last_clear : Bitmap → ℕ → Option ℕ
last_clear m zero = none
last_clear m (suc reg) = if m reg then last_clear m reg else some reg

-- BT_SET(drp->dr_active, reg) and BT_CLEAR(drp->dr_active, reg).
unfoldable pub set_active : ℕ → Bool → Regset → Regset
set_active reg b s = record s { active = put s.active reg b }

-- drp->dr_spill_store(reg); BT_SET(drp->dr_spilled, reg).
unfoldable pub spill : ℕ → Regset → Regset
spill reg s = record s { spilled = put s.spilled reg true; calls = spill_store reg ∷ s.calls }

-- drp->dr_spill_load(reg); BT_CLEAR(drp->dr_spilled, reg).
unfoldable pub unspill : ℕ → Regset → Regset
unspill reg s = record s { spilled = put s.spilled reg false; calls = spill_load reg ∷ s.calls }

-- `none` stands for -1.
unfoldable pub alloc : Regset → Option ℕ × Regset
unfolding last_clear set_active spill
alloc s = elim (last_clear s.active s.size) [
  | some reg ↦ (some reg, set_active reg true s)
  | none ↦ elim (last_clear s.spilled s.size) [
    | some reg ↦ (some reg, spill reg s)
    | none ↦ (none, s)
  ]
]

unfoldable pub xalloc : ℕ → Regset → Run Status
unfolding set_active spill
xalloc reg s =
    if ltb reg s.size
    then (if s.active reg
        then (if s.spilled reg then ok in_use s else ok done (set_active reg true (spill reg s)))
        else ok done (set_active reg true s))
    else abort

unfoldable pub free : ℕ → Regset → Run (Unit {0})
unfolding set_active unspill
free reg s =
    if ltb reg s.size
    then (if s.active reg
        then (if s.spilled reg then ok tt (unspill reg s) else ok tt (set_active reg false s))
        else abort)
    else abort

-- `while (--reg > 0) dt_regset_free(drp, reg);`
unfoldable pub unwind : ℕ → Regset → Run (Unit {0})
unwind zero s = ok tt s
unwind (suc zero) s = ok tt s
unwind (suc (suc reg)) s = elim (free (suc reg) s) [ ok _ t ↦ unwind (suc reg) t | abort ↦ abort ]

-- The loop of `dt_regset_xalloc_args`, with the rounds that are left.
unfoldable pub xalloc_loop : ℕ → ℕ → Regset → Run Status
unfolding unwind
xalloc_loop zero reg s = ok done s
xalloc_loop (suc n) reg s = elim (xalloc reg s) [
  | ok done t ↦ xalloc_loop n (suc reg) t
  | ok in_use t ↦ elim (unwind reg t) [ ok _ u ↦ ok in_use u | abort ↦ abort ]
  | abort ↦ abort
]

unfoldable pub xalloc_args : Regset → Run Status
unfolding xalloc_loop
xalloc_args s = xalloc_loop 5 1 s

unfoldable pub free_loop : ℕ → ℕ → Regset → Run (Unit {0})
free_loop zero reg s = ok tt s
free_loop (suc n) reg s = elim (free reg s) [ ok _ t ↦ free_loop n (suc reg) t | abort ↦ abort ]

unfoldable pub free_args : Regset → Run (Unit {0})
unfolding free_loop
free_args s = free_loop 5 1 s
