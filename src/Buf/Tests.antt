-- ===== src/Buf/Tests.antt =====
-- dt_buf.c on small buffers.
use dtrace_utils.Common.{◌%◌, ◌+◌, ◌≤◌, ◌<◌, ◌≡◌, refl, inr, true, false, some, [], ◌∷◌, arith}
use dtrace_utils.Buf.{Buf, State, roundup, grow_loop, copy_in, regrow, write, concat}
use dtrace_utils.Buf.Write.{IsReady, Written, Concatenated, roundup_lem, write-Written, concat_lem}

abbrev fresh : State
fresh = record {
  errno = 0;
  buf = record {
    live = true;
    used = 1 ∷ 2 ∷ 3 ∷ [];
    spare = 9 ∷ [];
    len = 4;
    err = 0;
    resizes = 0;
  };
}

fresh-IsReady : IsReady fresh.buf
fresh-IsReady = record { live = refl; pos = omega arith; size = refl }

abbrev broken : Buf
broken = record { live = false; used = []; spare = []; len = 8; err = 1008; resizes = 0 }

roundup_lem_example : (roundup 5 8 % 8 ≡ 0) × (5 ≤ roundup 5 8) × (roundup 5 8 < 5 + 8)
roundup_lem_example = roundup_lem 5 8 (omega arith)

write-Written_example : Written false fresh 4 (7 ∷ 8 ∷ []) (write false (7 ∷ 8 ∷ []) 4 fresh)
write-Written_example = write-Written false fresh 4 (7 ∷ 8 ∷ []) (inr fresh-IsReady) (omega arith)

concat_lem_example : Concatenated true fresh broken 4 (concat true broken 4 fresh)
concat_lem_example = concat_lem true fresh broken 4 (inr fresh-IsReady) (omega arith)

grown :
    write true (7 ∷ 8 ∷ []) 4 fresh
    ≡ some (record {
      errno = 0;
      buf = record {
        live = true;
        used = 1 ∷ 2 ∷ 3 ∷ 0 ∷ 7 ∷ 8 ∷ [];
        spare = 0 ∷ 0 ∷ [];
        len = 8;
        err = 0;
        resizes = 1;
      };
    })
unfolding write grow_loop copy_in regrow
grown = refl
