-- ===== src/Snap/Tests.antt =====
-- dt_aggregate.c: a snapshot of two CPUs, of which the second has touched one aggregation.
use dtrace_utils.Common.{
  ℕ, zero, suc, get_or, ◌≡◌, ◌<◌, ◌%◌, ◌^◌, refl, inl, true, false, none, some, List, [], ◌∷◌,
  arith,
}
use dtrace_utils.Agg.{AggDesc, Hdl, aggid_lookup}
use dtrace_utils.Snap.{Aid, Entry, Status, Settings, snap}
use dtrace_utils.Snap.Merge.{data_of}
use dtrace_utils.Snap.Sums.{word, total, IsWords, snap-total}

abbrev desc : ℕ → AggDesc
desc id = record { id = id; name = 0; sig = 0; varid = id; size = 8; nrecs = 1; recs = [] }

abbrev handle : Hdl
handle = record { maxagg = 2; adesc = some (some (desc 0) ∷ some (desc 1) ∷ []) }

-- A count, and a maximum.
abbrev count_aid : Aid
count_aid = record { id = 0; func = 1793; offset = 0; size = 16 }

abbrev max_aid : Aid
max_aid = record { id = 1; func = 1796; offset = 16; size = 16 }

abbrev first_buf : List ℕ
first_buf = 2 ∷ 5 ∷ 1 ∷ 7 ∷ []

abbrev second_buf : List ℕ
second_buf = 0 ∷ 0 ∷ 3 ∷ 9 ∷ []

abbrev two_bufs : ℕ → List ℕ
two_bufs zero = first_buf
two_bufs (suc n) = second_buf

abbrev plain : Settings
plain = record { keep_percpu = false; max_cpuid = 1 }

abbrev data_entry : ℕ → ℕ → Entry
data_entry id v = record { hval = id; size = 1; values = v ∷ []; percpu = none; desc = desc id }

snap_test :
    snap true plain handle two_bufs (0 ∷ 1 ∷ []) (count_aid ∷ max_aid ∷ []) []
    ≡ (Status.fine, data_entry 1 9 ∷ data_entry 0 5 ∷ [])
unfolding snap
snap_test = refl

first-IsWords : IsWords first_buf
first-IsWords zero = omega arith
first-IsWords (suc zero) = omega arith
first-IsWords (suc (suc zero)) = omega arith
first-IsWords (suc (suc (suc zero))) = omega arith
first-IsWords (suc (suc (suc (suc k)))) = omega arith

second-IsWords : IsWords second_buf
second-IsWords zero = omega arith
second-IsWords (suc zero) = omega arith
second-IsWords (suc (suc zero)) = omega arith
second-IsWords (suc (suc (suc zero))) = omega arith
second-IsWords (suc (suc (suc (suc k)))) = omega arith

second_zero : (k : ℕ) → k < 1 → get_or second_buf (suc k) 0 ≡ 0
second_zero zero h = refl
second_zero (suc k) h = absurd (omega arith)

snap-total_example :
    (es' : List Entry) × (snap true plain handle two_bufs (0 ∷ 1 ∷ []) (count_aid ∷ max_aid ∷ []) []
      ≡ (Status.fine, es'))
    × (word 0 (data_of count_aid es') ≡ total count_aid two_bufs 0 (0 ∷ 1 ∷ []) % 2 ^ 64)
unfolding aggid_lookup
snap-total_example =
    snap-total plain handle two_bufs 0 (1 ∷ []) (count_aid ∷ max_aid ∷ []) [] count_aid 0
      ((desc 0, refl), ((desc 1, refl), tt)) ((omega arith, tt), (tt, tt)) (inl refl)
      (omega arith, omega arith)
      (
        (omega arith, first-IsWords, (λ e k h. absurd (omega arith))),
        ((omega arith, second-IsWords, (λ e k h. second_zero k h)), tt),
      )
      (omega arith)
