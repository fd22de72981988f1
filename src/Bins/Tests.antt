-- ===== src/Bins/Tests.antt =====
-- Bins of concrete values.
use dtrace_utils.Common.{ℕ, suc, ◌+◌, ◌-◌, ◌^◌, ◌≤◌, ◌<◌, ◌≡◌, refl, arith}
use dtrace_utils.Bins.{pos, neg, agg_qbin, agg_lqbin}
use dtrace_utils.Bins.Power.{agg_qbin_lem}

agg_qbin_lem_example :
    (k : ℕ) × (2 ^ k ≤ 1000)
    × (1000 < 2 ^ suc k)
    × (agg_qbin (pos 1000) ≡ 64 + k)
    × (agg_qbin (neg 1000) ≡ 62 - k)
agg_qbin_lem_example = agg_qbin_lem 1000 (omega arith) (omega arith)

negative_bin : agg_qbin (neg 1000) ≡ 53
unfolding agg_qbin
negative_bin = refl

-- lquantize() from -10 in 5 levels of 10: the last bin takes the rest.
last_bin : agg_lqbin (pos 100) (neg 10) 5 10 ≡ 6
unfolding agg_lqbin
last_bin = refl

under_bin : agg_lqbin (neg 11) (neg 10) 5 10 ≡ 0
unfolding agg_lqbin
under_bin = refl
