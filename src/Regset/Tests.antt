-- ===== src/Regset/Tests.antt =====
-- dt_regset.c on a set of eight registers, of which some are in use.
use dtrace_utils.Common.{ℕ, ◌<◌, ◌≡◌, ◌⊎◌, refl, true, none, some, [], arith, ◌||◌, ◌==◌}
use dtrace_utils.Regset.{Regset, Run, ok, abort, set_active, alloc, xalloc, xalloc_args, free_args}
use dtrace_utils.Regset.Levels.{IsValid, level}
use dtrace_utils.Regset.Alloc.{Picked, alloc_lem}
use dtrace_utils.Regset.Args.{Outcome, xalloc_args_lem, free_args-xalloc_args}

-- %r0, %r3 and %r7 are in use, and an older value of %r3 is spilled.
abbrev some_used : Regset
some_used = record {
  size = 8;
  active = λ r. (r == 0) || (r == 3) || (r == 7);
  spilled = λ r. r == 7;
  calls = [];
}

some_used-IsValid : IsValid some_used
some_used-IsValid r h = ground arith

-- %r3 is in use twice, so that not all arguments can be taken.
abbrev one_full : Regset
one_full = record {
  size = 8;
  active = λ r. (r == 1) || (r == 3);
  spilled = λ r. r == 3;
  calls = [];
}

one_full-IsValid : IsValid one_full
one_full-IsValid r h = ground arith

abbrev state_of : {A : Type 0} → Run A → Regset → Regset
state_of (ok _ t) s = t
state_of abort s = s

alloc_lem_example :
    ((r : ℕ) × (t : Regset) × (alloc some_used ≡ (some r, t)) × Picked some_used r t)
    ⊎ ((alloc some_used ≡ (none, some_used)) × ((j : ℕ) → j < 8 → level some_used j ≡ 2))
alloc_lem_example = alloc_lem some_used some_used-IsValid

-- %r6 is taken, the highest free register.
abbrev six_taken : Regset
six_taken = set_active 6 true some_used

six_taken-Picked : Picked some_used 6 six_taken
unfolding set_active
six_taken-Picked = record {
  in_range = omega arith;
  least = λ j h. ground arith;
  room = omega arith;
  raised = record { valid = λ r. ground arith; size = refl; levels = λ r. ground arith };
  calls = refl;
}

alloc_test : (alloc some_used).0 ≡ some 6
unfolding alloc
alloc_test = refl

xalloc_args_lem_example : Outcome 6 one_full (xalloc_args one_full)
xalloc_args_lem_example = xalloc_args_lem one_full one_full-IsValid (omega arith)

free_args-xalloc_args_example :
    (u : Regset) × (free_args (state_of (xalloc_args some_used) some_used) ≡ ok tt u)
    × ((r : ℕ) → (u.active r ≡ some_used.active r) × (u.spilled r ≡ some_used.spilled r))
unfolding xalloc xalloc_args
free_args-xalloc_args_example =
    free_args-xalloc_args some_used (state_of (xalloc_args some_used) some_used) some_used-IsValid
      (omega arith) refl
