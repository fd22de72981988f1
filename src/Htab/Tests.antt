-- ===== src/Htab/Tests.antt =====
-- dt_htab.c on a table of numbers.
use dtrace_utils.Common.{
  ℕ, ◌/◌, ◌≡◌, refl, Option, Bool, true, none, some, [], ◌∷◌, zero, suc, ◌≢◌, get_or, arith, ◌==◌,
  bit_and,
}
use dtrace_utils.Common.Bits.{bit_and-le}
use dtrace_utils.Htab.{Ops, Bucket, Table, insert, lookup, resize, find}
use dtrace_utils.Htab.Chain.{IsClass, IsGood}
use dtrace_utils.Htab.Slots.{total, chain_total}
use dtrace_utils.Htab.Methods.{IsSound, view, resize-IsSound}
use dtrace_utils.Htab.Insert.{Inserted, insert-Inserted}
use dtrace_utils.Htab.Lookup.{Looked, lookup-Looked}
use dtrace_utils.Htab.Visit.{visit, visit-all_entries}
use dtrace_utils.Htab.Next.{Cursor, next, next_from, scan_slots, scan}

-- Numbers are alike when their tens agree.
abbrev tens : ℕ → ℕ
tens n = n / 10

tens_comm : (a b : ℕ) → (tens a == tens b) ≡ (tens b == tens a)
tens_comm a b = ground arith

tens_trans : (a b c : ℕ) → (tens a == tens b) ≡ true → (tens b == tens c) ≡ (tens a == tens c)
tens_trans a b c h = ground arith

tens_refl : (a : ℕ) → (tens a == tens a) ≡ true
tens_refl a = ground arith

tens_eq : (a b : ℕ) → (tens a == tens b) ≡ true → tens a ≡ tens b
tens_eq a b h = ground arith

same_eq : (a b : ℕ) → (a == b) ≡ true → a ≡ b
same_eq a b h = ground arith

instance abbrev number_ops : Ops ℕ
number_ops = record {
  hval = tens;
  cmp = λ a b. tens a == tens b;
  same = λ a b. a == b;
  cmp_refl = tens_refl;
  cmp_symm = tens_comm;
  cmp_trans = tens_trans;
  hval-cmp = tens_eq;
  cmp-same = same_eq;
}

abbrev alone : ℕ → Bucket ℕ
alone n = record { hval = tens n; head = n; more = []; count = 1 }

alone-IsClass : (n : ℕ) → IsClass (alone n)
alone-IsClass n = record { hash = refl; alike = tt }

-- Four classes in the one slot, the first with two entries: the next new class makes the table
-- grow.
abbrev small : Table ℕ
small = record {
  tab =
      (record { hval = 1; head = 11; more = 10 ∷ []; count = 2 }
        ∷ alone 23
        ∷ alone 34
        ∷ alone 42
        ∷ [])
      ∷ [];
  size = 1;
  mask = 0;
  nbuckets = 4;
  nentries = 5;
}

small-IsGood : (i : ℕ) → IsGood (get_or small.tab i [])
unfolding find
small-IsGood zero = (
  record { hash = refl; alike = (refl, tt) },
  refl,
  (alone-IsClass 23, refl, (alone-IsClass 34, refl, (alone-IsClass 42, refl, tt))),
)
small-IsGood (suc i) = tt

small-home : (q i : ℕ) → bit_and (tens q) 0 ≢ i → find q (get_or small.tab i []) ≡ none
unfolding find
small-home q zero ne = absurd (ne (omega (arith, bit_and-le (tens q) 0)))
small-home q (suc i) ne = refl

small-IsSound : IsSound small
unfolding total chain_total
small-IsSound = record {
  placed = record { wide = omega arith; good = small-IsGood; home = small-home };
  width = refl;
  buckets = refl;
  entries = refl;
}

abbrev retry_ok : ℕ → Bool
retry_ok n = true

-- 57 is of a fifth class.
insert-Inserted_example : Inserted retry_ok true small 57 (insert 2 retry_ok true 57 small)
insert-Inserted_example = insert-Inserted 1 retry_ok true 57 small small-IsSound (omega arith)

lookup-Looked_example : Looked small 12 (lookup small 12)
lookup-Looked_example = lookup-Looked small 12 small-IsSound

resize-IsSound_example : IsSound (resize small) × ((q : ℕ) → view (resize small) q ≡ view small q)
resize-IsSound_example = resize-IsSound small small-IsSound

lookup_test : lookup small 12 ≡ some 11
unfolding lookup find
lookup_test = refl

-- The iteration, from one call to the next.
abbrev go_on : Option ℕ × Option (Cursor ℕ) → Option ℕ × Option (Cursor ℕ)
go_on (e, it) = next true small it

next_test : (next true small none).0 ≡ some 11
unfolding next next_from scan_slots scan
next_test = refl

next_last : (go_on (go_on (go_on (go_on (next true small none))))).0 ≡ some 42
unfolding next next_from scan_slots scan
next_last = refl

next_end : go_on (go_on (go_on (go_on (go_on (next true small none))))) ≡ (none, none)
unfolding next next_from scan_slots scan
next_end = refl

visit-all_entries_example : visit 9 small none ≡ some (11 ∷ 10 ∷ 23 ∷ 34 ∷ 42 ∷ [])
visit-all_entries_example = visit-all_entries 9 small (omega arith)
