-- ===== src/Agg/Tests.antt =====
-- dt_aggid_add on concrete tables.
use dtrace_utils.Common.{ℕ, refl, Bool, true, none}
use dtrace_utils.Agg.{Ident, Hdl, aggid_add}
use dtrace_utils.Agg.Add.{Outcome, aggid_add-Outcome}

abbrev empty_table : Hdl
empty_table = record { maxagg = 0; adesc = none }

-- @ = avg(...): two words of data, and the latch.
abbrev avg_ident : Ident
avg_ident = record { id = 5; name = 1; auxinfo = 2; size = 24; func = 7 }

abbrev always : ℕ → Bool
always n = true

aggid_add-Outcome_example :
    Outcome always true true avg_ident empty_table
      (aggid_add 7 always true true avg_ident empty_table)
aggid_add-Outcome_example = aggid_add-Outcome always true true avg_ident empty_table refl
