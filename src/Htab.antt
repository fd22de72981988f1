-- ===== src/Htab.antt =====
-- libdtrace/dt_htab.c: the generic hash table, with the standard link functions of dt_htab.h.
--
-- The `ops` of a table are the record `Ops`; `same` is equality of entry pointers. The entries of
-- a bucket are a list, newest first, which is never empty: `head` and `more`. The table of slots
-- is a list of bucket chains. What each `malloc` and `calloc` gives is an argument.
pub mod Chain
pub mod Slots
pub mod Resize
pub mod Methods
pub mod Insert
pub mod Delete
pub mod Next
pub mod Visit
pub mod Lookup
mod Tests
use dtrace_utils.Common.{
  ℕ, zero, suc, ◌+◌, ◌-◌, ◌*◌, ◌/◌, ◌≡◌, Bool, true, false, Option, none, some, List, [], ◌∷◌,
  bit_and, ltb, if◌then◌else◌, get_or, set, replicate,
}

-- hval, and cmp(a, b) == 0, which is an equivalence that the hash value respects.
pub record Ops (E : Type 0) : Type 0 where
  pub hval : E → ℕ
  pub cmp : E → E → Bool
  pub same : E → E → Bool
  pub cmp_refl : (a : E) → cmp a a ≡ true
  pub cmp_symm : (a b : E) → cmp a b ≡ cmp b a
  pub cmp_trans : (a b c : E) → cmp a b ≡ true → cmp b c ≡ cmp a c
  pub hval-cmp : (a b : E) → cmp a b ≡ true → hval a ≡ hval b
  pub cmp-same : (a b : E) → same a b ≡ true → a ≡ b

pub record Bucket (E : Type 0) : Type 0 where
  pub hval : ℕ
  pub head : E
  pub more : List E
  pub count : ℕ

abbrev pub Chain : Type 0 → Type 0
Chain E = List (Bucket E)

pub record Table (E : Type 0) : Type 0 where
  pub tab : List (Chain E)
  pub size : ℕ
  pub mask : ℕ
  pub nbuckets : ℕ
  pub nentries : ℕ

pub data Status : Type 0 where
  ok enomem enoent : Status

unfoldable pub create : {E : Type 0} → (table_ok tab_ok : Bool) → Option (Table E)
create false _ = none
create true false = none
create true true =
    some (record { tab = replicate 1 []; size = 1; mask = 1 - 1; nbuckets = 0; nentries = 0 })

-- Moving the buckets of one chain, then of all chains, to the slots of a new table.
pub move_chain : {E : Type 0} → ℕ → Chain E → List (Chain E) → List (Chain E)
move_chain nmask [] ntab = ntab
move_chain nmask (b ∷ bs) ntab =
    let idx = bit_and b.hval nmask in move_chain nmask bs (set ntab idx (b ∷ get_or ntab idx []))

pub move_tab : {E : Type 0} → ℕ → List (Chain E) → List (Chain E) → List (Chain E)
move_tab nmask [] ntab = ntab
move_tab nmask (c ∷ cs) ntab = move_tab nmask cs (move_chain nmask c ntab)

unfoldable pub resize : {E : Type 0} → Table E → Table E
resize t =
    let nsize = t.size * 2 in
    let nmask = nsize - 1 in
    record t { tab = move_tab nmask t.tab (replicate nsize []); size = nsize; mask = nmask }

module _ {E : Type 0} ⦃o : Ops E⦄ where
  -- The first bucket of a chain whose head compares equal to the entry.
  unfoldable pub find : E → Chain E → Option (Bucket E)
  find e [] = none
  find e (b ∷ bs) = if o.cmp b.head e then some b else find e bs

  -- bucket->head = add(bucket->head, entry); bucket->nentries++, for that bucket.
  pub add_found : E → Chain E → Chain E
  add_found e [] = []
  add_found e (b ∷ bs) =
      if o.cmp b.head e
      then record b { head = e; more = b.head ∷ b.more; count = b.count + 1 } ∷ bs
      else b ∷ add_found e bs

  unfoldable pub slot : Table E → E → Chain E
  slot t e = get_or t.tab (bit_and (o.hval e) t.mask) []

  -- `resize_ok n` says whether the `calloc` of `n` slots succeeds. The fuel bounds the number of
  -- retries; `none` is a loop that goes on.
  pub insert :
      ℕ → (resize_ok : ℕ → Bool) → (bucket_ok : Bool) → E → Table E → Option (Status × Table E)
  unfolding slot
  insert zero resize_ok bucket_ok e t = none
  insert (suc n) resize_ok bucket_ok e t =
      let idx = bit_and (o.hval e) t.mask in
      let retry =
        if resize_ok (t.size * 2)
        then insert n resize_ok bucket_ok e (resize t)
        else some (enomem, t) in
      elim (find e (slot t e)) [
        | some b ↦ some (
          ok,
          record t { tab = set t.tab idx (add_found e (slot t e)); nentries = t.nentries + 1 },
        )
        | none ↦
            if ltb t.size (t.nbuckets / 2)
            then retry
            else if bucket_ok
            then some (
              ok,
              record t {
                tab =
                    set t.tab idx
                      (record { hval = o.hval e; head = e; more = []; count = 1 } ∷ slot t e);
                nbuckets = t.nbuckets + 1;
                nentries = t.nentries + 1;
              },
            )
            else some (enomem, t)
      ]

  unfoldable pub lookup : Table E → E → Option E
  unfolding slot
  lookup t e = elim (find e (slot t e)) [ some b ↦ some b.head | none ↦ none ]

  -- del(head, entry): the list without the entry.
  unfoldable pub del : E → List E → List E
  del e [] = []
  del e (x ∷ xs) = if o.same e x then xs else x ∷ del e xs

  -- What deleting does to the bucket that was found, if it still has entries.
  unfoldable pub del_bucket : E → Bucket E → Option (Bucket E)
  unfolding del
  del_bucket e b = elim (del e (b.head ∷ b.more)) [
    | [] ↦ none
    | x ∷ xs ↦ some (record b { head = x; more = xs; count = b.count - 1 })
  ]

  -- The bucket keeps its place in the chain, or is unlinked.
  pub del_found : E → Chain E → Chain E
  del_found e [] = []
  del_found e (b ∷ bs) =
      let rest = del_found e bs in
      if o.cmp b.head e then elim (del_bucket e b) [ some b' ↦ b' ∷ bs | none ↦ bs ] else b ∷ rest

  -- `nbuckets` falls when the bucket is unlinked.
  abbrev pub buckets_left : ℕ → Option (Bucket E) → ℕ
  buckets_left n (some b) = n
  buckets_left n none = n - 1

  unfoldable pub delete : E → Table E → Status × Table E
  unfolding slot
  delete e t =
      let idx = bit_and (o.hval e) t.mask in
      elim (find e (slot t e)) [
        | none ↦ (enoent, t)
        | some b ↦ (
          ok,
          record t {
            tab = set t.tab idx (del_found e (slot t e));
            nbuckets = buckets_left t.nbuckets (del_bucket e b);
            nentries = t.nentries - 1;
          },
        )
      ]

unfoldable pub entries : {E : Type 0} → Table E → ℕ
entries t = t.nentries
