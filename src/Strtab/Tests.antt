-- ===== src/Strtab/Tests.antt =====
-- dt_strtab.c with buffers of three bytes.
use dtrace_utils.Common.{◌≡◌, refl, Bool, true, false, some, [], ◌∷◌, arith, ltb}
use dtrace_utils.Strtab.{Strtab, create, copyin, written}
use dtrace_utils.Strtab.Copy.{Outcome, copyin-Outcome}

abbrev started : Strtab
started = record { full = []; cur = 0 ∷ []; bufsz = 3; nstrs = 1; size = 1 }

create_test : create true true true 3 ≡ some started
unfolding create
create_test = refl

abbrev grown_table : Strtab
grown_table = record {
  full = (0 ∷ 97 ∷ 98 ∷ []) ∷ [];
  cur = 99 ∷ 0 ∷ [];
  bufsz = 3;
  nstrs = 1;
  size = 1;
}

copyin_test : copyin 4 (λ n. true) (97 ∷ 98 ∷ 99 ∷ 0 ∷ []) started ≡ some (true, grown_table)
unfolding copyin
copyin_test = refl

written_test : written grown_table ≡ 0 ∷ 97 ∷ 98 ∷ 99 ∷ 0 ∷ []
unfolding written
written_test = refl

-- The second buffer can be had, the third cannot.
undo_test :
    copyin 9 (λ n. ltb n 2) (97 ∷ 98 ∷ 99 ∷ 100 ∷ 101 ∷ 102 ∷ 0 ∷ []) started
    ≡ some (false, started)
unfolding copyin
undo_test = refl

copyin-Outcome_example :
    (r : Bool × Strtab) × (copyin 9 (λ n. ltb n 2) (97 ∷ 98 ∷ 99 ∷ 100 ∷ 101 ∷ 102 ∷ 0 ∷ []) started
      ≡ some r)
    × Outcome (λ n. ltb n 2) started (97 ∷ 98 ∷ 99 ∷ 100 ∷ 101 ∷ 102 ∷ 0 ∷ []) r
copyin-Outcome_example =
    copyin-Outcome 9 (λ n. ltb n 2) (97 ∷ 98 ∷ 99 ∷ 100 ∷ 101 ∷ 102 ∷ 0 ∷ []) started
      (omega arith, tt, omega arith) (omega arith)
