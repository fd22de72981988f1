-- ===== src/Rec/Tests.antt =====
-- dt_rec_add on a description with two records.
use dtrace_utils.Common.{ℕ, ◌^◌, ◌≡◌, refl, true, none, [], ◌∷◌, arith}
use dtrace_utils.Rec.{RecDesc, Pcb, ok, abort, align_up, rec_add}
use dtrace_utils.Rec.Layout.{IsLaid, Added, new_rec, rec_add-Added}

abbrev rec_at : ℕ → ℕ → RecDesc
rec_at off size = record {
  action = 1;
  size = size;
  offset = off;
  alignment = 1;
  format = none;
  arg = 0;
}

-- 8 bytes and 1 byte, in an array that is full.
abbrev two_recs : Pcb
two_recs = record {
  maxrecs = 2;
  nrecs = 2;
  recs = rec_at 0 8 ∷ rec_at 8 1 ∷ [];
  bufoff = 9;
  gaps = [];
}

two_recs-IsLaid : IsLaid two_recs
two_recs-IsLaid = record {
  width = refl;
  room = omega arith;
  inside = λ k b. ground arith;
  ordered = λ j k l b. ground arith;
}

rec_add-Added_example :
    (t : Pcb) × (rec_add true 5 4 (2 ^ 2) none 0 two_recs ≡ ok (align_up 9 (2 ^ 2)) t)
    × Added 2 4 (new_rec 5 4 2 0 none (omega arith) 9) two_recs t
rec_add-Added_example =
    rec_add-Added 5 4 2 0 none (omega arith) two_recs two_recs-IsLaid (omega arith)

third_offset : align_up 9 4 ≡ 12
unfolding align_up
third_offset = refl

odd_alignment : rec_add true 5 4 3 none 0 two_recs ≡ abort
unfolding rec_add
odd_alignment = refl
