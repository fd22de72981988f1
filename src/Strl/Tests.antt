-- ===== src/Strl/Tests.antt =====
-- Bounded copies into a few bytes.
use dtrace_utils.Common.{◌≡◌, refl, [], ◌∷◌, ◌++◌, ◌+◌, ◌-◌, min, length, List, ℕ, arith}
use dtrace_utils.Strl.{strlcpy, strlcat}
use dtrace_utils.Strl.Bounds.{strlcat-strlcpy}

cut_copy : strlcpy (9 ∷ 9 ∷ 9 ∷ 9 ∷ []) (1 ∷ 2 ∷ 3 ∷ []) 3 ≡ (1 ∷ 2 ∷ 0 ∷ 9 ∷ [], 3)
unfolding strlcpy
cut_copy = refl

cut_append : strlcat (5 ∷ 0 ∷ 9 ∷ 9 ∷ []) (1 ∷ 2 ∷ 3 ∷ []) 3 ≡ (5 ∷ 1 ∷ 0 ∷ 9 ∷ [], 4)
unfolding strlcat
cut_append = refl

full_append : strlcat (5 ∷ 6 ∷ []) (1 ∷ []) 2 ≡ (5 ∷ 6 ∷ [], 3)
unfolding strlcat
full_append = refl

abbrev memory : List ℕ
memory = 9 ∷ 9 ∷ 9 ∷ 9 ∷ 9 ∷ 9 ∷ []

abbrev front : List ℕ
front = 1 ∷ 2 ∷ []

abbrev back : List ℕ
back = 3 ∷ 4 ∷ 5 ∷ []

strlcat-strlcpy_example :
    strlcat ((strlcpy memory front 5).0) back 5
    ≡ ((strlcpy memory (front ++ back) 5).0, min (5 - 1) (length front) + length back)
strlcat-strlcpy_example =
    strlcat-strlcpy memory front back 5 (omega arith, (omega arith, tt)) (omega arith)
