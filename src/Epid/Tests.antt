-- ===== src/Epid/Tests.antt =====
-- dt_epid_add on a fresh handle.
use dtrace_utils.Common.{ℕ, ◌+◌, ◌≡◌, refl, true, none, []}
use dtrace_utils.Epid.{Hdl, past_end, epid_add}

-- As dt_open leaves it: ids start at 1.
abbrev opened : Hdl
opened = record {
  maxprobe = 0;
  nextepid = 1;
  ddesc = none;
  pdesc = none;
  refcnt = λ a. 1;
  freed = [];
}

abbrev desc_of : ℕ → ℕ
desc_of prid = prid + 100

-- After a call that got no memory the first id is 2, and the arrays get two elements.
overrun_test : epid_add true true desc_of 7 3 (record opened { nextepid = 2 }) ≡ past_end
unfolding epid_add
overrun_test = refl
