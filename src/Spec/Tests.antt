-- ===== src/Spec/Tests.antt =====
-- Speculations, run on concrete maps.
use dtrace_utils.Common.{ℕ, ◌≡◌, ◌⊎◌, refl, Bool, true, some, none}
use dtrace_utils.Spec.{Specs, zero_spec, update, speculation, speculate, set_drainable}
use dtrace_utils.Spec.Steps.{
  Found, Steps, stay, then_, assign, emit, finish, IsSound, speculation-Found, Steps-IsSound,
  Step-draining,
}

abbrev all_free : Specs
all_free = λ i. none

abbrev anywhere : ℕ → Bool
anywhere i = true

-- The ids 1 and 2 are taken, and 2 is to be drained.
abbrev two_taken : Specs
two_taken =
    update 1 (some zero_spec) (update 2 (some (record { written = 3; draining = 1 })) all_free)

speculation-Found_example : Found 4 17 anywhere two_taken 1 (speculation 4 anywhere two_taken)
speculation-Found_example = speculation-Found 4 anywhere two_taken

all_free-IsSound : IsSound 4 all_free
all_free-IsSound = record { ids = λ i s e. cc; flag = λ i s e. cc }

-- An id is assigned, written to, and committed.
abbrev run : Specs
run = (set_drainable 4 1 (speculate 1 (speculation 4 anywhere all_free).1).1).1

run-Steps : Steps 4 all_free run
run-Steps =
    then_ _ _ _
      (then_ _ _ _ (then_ _ _ _ (stay all_free) (assign anywhere all_free))
        (emit 1 (speculation 4 anywhere all_free).1))
      (finish 1 (speculate 1 (speculation 4 anywhere all_free).1).1)

Steps-IsSound_example : IsSound 4 run
Steps-IsSound_example = Steps-IsSound 4 all_free run run-Steps all_free-IsSound

Step-draining_example :
    ((speculate 2 two_taken).1 2 ≡ some (record { written = 3; draining = 1 }))
    ⊎ ((speculate 2 two_taken).1 2 ≡ none)
Step-draining_example =
    Step-draining 4 two_taken (speculate 2 two_taken).1 2 (record { written = 3; draining = 1 })
      (emit 2 two_taken) refl refl

second_id : (speculation 4 anywhere two_taken).0 ≡ 3
unfolding speculation
second_id = refl
