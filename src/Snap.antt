-- ===== src/Snap.antt =====
-- libdtrace/dt_aggregate.c: the snapshot of the aggregations, which merges the data of all CPUs.
--
-- A buffer is a list of 64-bit words, given by their bit patterns. The entries are those on the
-- list of all, newest first; the search of a hash chain, which passes over entries of another hash
-- value, is the search of this list. `mem` says whether the allocations of a snapshot succeed.
pub mod Merge
pub mod Sums
mod Tests
use dtrace_utils.Common.{
  ℕ, zero, suc, ◌+◌, ◌-◌, ◌/◌, ◌%◌, ◌^◌, Bool, true, false, ◌&&◌, Option, none, some, List, [], ◌∷◌,
  ltb, ◌==◌, if◌then◌else◌, take, drop, set, replicate,
}
use dtrace_utils.Agg.{AggDesc, Hdl, aggid_lookup, num_copies}

-- What a snapshot reads of an identifier: `di_id`, the `di_id` of the aggregating function,
-- `di_offset` and `di_size`.
pub record Aid : Type 0 where
  pub id : ℕ
  pub func : ℕ
  pub offset : ℕ
  pub size : ℕ

pub record Entry : Type 0 where
  pub hval : ℕ
  pub size : ℕ
  pub values : List ℕ
  pub percpu : Option (List (List ℕ))
  pub desc : AggDesc

pub data Status : Type 0 where
  fine unknown nomem : Status

pub data Fun : Type 0 where
  copy aggregate : Fun

-- DT_AGG_MAX and DT_AGG_MIN.
abbrev pub agg_max : ℕ
agg_max = 1796

abbrev pub agg_min : ℕ
agg_min = 1797

-- `a < b` of signed words.
abbrev pub signed_lt : ℕ → ℕ → Bool
signed_lt a b = ltb ((a + 2 ^ 63) % 2 ^ 64) ((b + 2 ^ 63) % 2 ^ 64)

abbrev pub head_or : List ℕ → ℕ
head_or [] = 0
head_or (x ∷ xs) = x

-- `n` words behind the latch sequence number.
unfoldable pub one_copy : ℕ → List ℕ → List ℕ
one_copy n src = take n (drop 1 src)

unfoldable pub add_words : ℕ → List ℕ → List ℕ → List ℕ
add_words zero dst src = dst
add_words (suc n) [] src = []
add_words (suc n) (d ∷ ds) [] = d ∷ ds
add_words (suc n) (d ∷ ds) (s ∷ ss) = ((d + s) % 2 ^ 64) ∷ add_words n ds ss

-- The first word becomes that of the source.
abbrev pub replace_first : List ℕ → List ℕ → List ℕ
replace_first dst src = set dst 0 (head_or src)

unfoldable pub one_agg : (func n : ℕ) → List ℕ → List ℕ → List ℕ
unfolding add_words
one_agg func n dst src =
    let words = drop 1 src in
    if head_or src == 0
    then dst
    else if func == agg_max
    then if signed_lt (head_or dst) (head_or words) then replace_first dst words else dst
    else if func == agg_min
    then if signed_lt (head_or words) (head_or dst) then replace_first dst words else dst
    else add_words n dst words

unfoldable pub apply_fun : Fun → (func n : ℕ) → List ℕ → List ℕ → List ℕ
unfolding one_copy one_agg
apply_fun Fun.copy func n dst src = one_copy n src
apply_fun Fun.aggregate func n dst src = one_agg func n dst src

-- Without the latch sequence number and further copies, in words.
abbrev pub real_words : Aid → ℕ
real_words aid = (aid.size - 8) / num_copies / 8

abbrev pub nth_or : List (List ℕ) → ℕ → List ℕ
nth_or [] i = []
nth_or (x ∷ xs) zero = x
nth_or (x ∷ xs) (suc i) = nth_or xs i

abbrev pub with_percpu : ℕ → (List ℕ → List ℕ) → Option (List (List ℕ)) → Option (List (List ℕ))
with_percpu cpu f none = none
with_percpu cpu f (some ps) = some (set ps cpu (f (nth_or ps cpu)))

-- The entry that was found, with the data processed.
unfoldable pub processed : Fun → Aid → ℕ → List ℕ → Entry → Entry
unfolding apply_fun
processed fn aid cpu src e =
    let f = λ (dst : List ℕ). apply_fun fn aid.func (real_words aid) dst src in
    record e { values = f e.values; percpu = with_percpu cpu f e.percpu }

abbrev pub is_entry : ℕ → ℕ → Entry → Bool
is_entry hval size e = (e.hval == hval) && (e.size == size)

-- The first entry for the hash value and the size, changed; `none` where there is none.
unfoldable pub update : ℕ → ℕ → (Entry → Entry) → List Entry → Option (List Entry)
update hval size f [] = none
update hval size f (e ∷ es) =
    let rest = update hval size f es in
    if is_entry hval size e
    then some (f e ∷ es)
    else elim rest [ none ↦ none | some es' ↦ some (e ∷ es') ]

-- The settings of the consumer: DTRACE_A_PERCPU, and the largest id of a CPU.
pub record Settings : Type 0 where
  pub keep_percpu : Bool
  pub max_cpuid : ℕ

unfoldable pub new_entry : Settings → Aid → AggDesc → ℕ → List ℕ → Entry
unfolding one_copy
new_entry c aid agg cpu src =
    let n = real_words aid in
    record {
      hval = aid.id;
      size = n;
      values = one_copy n src;
      percpu =
          if c.keep_percpu
          then some (set (replicate (c.max_cpuid + 1) (replicate n 0)) cpu (one_copy n src))
          else none;
      desc = agg;
    }

unfoldable pub snap_known :
    (mem : Bool) → Settings → Fun → Aid → AggDesc → ℕ → List ℕ → List Entry → Status × List Entry
unfolding update processed new_entry
snap_known mem c fn aid agg cpu src es =
    elim (update aid.id (real_words aid) (processed fn aid cpu src) es) [
      | some es' ↦ (Status.fine, es')
      | none ↦
          if head_or src == 0
          then (Status.fine, es)
          else if mem
          then (Status.fine, new_entry c aid agg cpu src ∷ es)
          else (Status.nomem, es)
    ]

unfoldable pub snap_one :
    (mem : Bool) → Settings → Hdl → Fun → ℕ → List ℕ → Aid → List Entry → Status × List Entry
unfolding snap_known aggid_lookup
snap_one mem c h fn cpu buf aid es = elim (aggid_lookup h aid.id) [
  | none ↦ (Status.unknown, es)
  | some agg ↦ snap_known mem c fn aid agg cpu (drop (aid.offset / 8) buf) es
]

-- The identifiers in the order of the iteration, which the first error ends.
abbrev pub if_fine : Status × List Entry → (List Entry → Status × List Entry) → Status × List Entry
if_fine (Status.fine, es) f = f es
if_fine (Status.unknown, es) f = (Status.unknown, es)
if_fine (Status.nomem, es) f = (Status.nomem, es)

unfoldable pub snap_cpu :
    (mem : Bool) → Settings → Hdl → Fun → ℕ → List ℕ → List Aid → List Entry → Status × List Entry
unfolding snap_one
snap_cpu mem c h fn cpu buf [] es = (Status.fine, es)
snap_cpu mem c h fn cpu buf (aid ∷ aids) es =
    if_fine (snap_one mem c h fn cpu buf aid es) (snap_cpu mem c h fn cpu buf aids)

-- The loop over the CPUs behind the first.
unfoldable pub snap_rest :
    (mem : Bool)
    → Settings
    → Hdl
    → (ℕ → List ℕ)
    → List ℕ
    → List Aid
    → List Entry
    → Status × List Entry
unfolding snap_cpu
snap_rest mem c h bufs [] aids es = (Status.fine, es)
snap_rest mem c h bufs (cpu ∷ cpus) aids es =
    if_fine (snap_cpu mem c h Fun.aggregate cpu (bufs cpu) aids es)
      (snap_rest mem c h bufs cpus aids)

-- dtrace_aggregate_snap, once the buffers have been read from the BPF map.
unfoldable pub snap :
    (mem : Bool)
    → Settings
    → Hdl
    → (ℕ → List ℕ)
    → List ℕ
    → List Aid
    → List Entry
    → Status × List Entry
unfolding snap_rest
snap mem c h bufs [] aids es = (Status.fine, es)
snap mem c h bufs (cpu ∷ cpus) aids es =
    if_fine (snap_cpu mem c h Fun.copy cpu (bufs cpu) aids es) (snap_rest mem c h bufs cpus aids)
