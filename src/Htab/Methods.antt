-- ===== src/Htab/Methods.antt =====
-- Insertion, lookup and deletion against a map from classes of equal entries to lists of entries.
use dtrace_utils.Common.{
  ℕ, ◌+◌, ◌≡◌, ◌≢◌, sym, ap, ◌∙◌, none, List, bit_and, arith, ◌==◌, if◌then◌else◌, length, set,
  length-set,
}
use dtrace_utils.Htab.{Ops, Chain, Table, find, slot, resize}
use dtrace_utils.Htab.Chain.{IsGood, ents}
use dtrace_utils.Htab.Slots.{
  IsPlaced, home_lt, set-IsPlaced, bucket_of-set, chain_total, total, total-set, one_each,
  entry_count,
}
use dtrace_utils.Htab.Resize.{resize-Moved}

module _ {E : Type 0} ⦃o : Ops E⦄ where
  -- A sound table: every bucket is where lookups search, and both counters are right.
  pub record IsSound (t : Table E) : Type 0 where
    pub placed : IsPlaced t.tab t.mask
    pub width : length t.tab ≡ t.size
    pub buckets : t.nbuckets ≡ total one_each t.tab
    pub entries : t.nentries ≡ total entry_count t.tab

  -- The entries that compare equal to `q`, newest first.
  unfoldable pub view : Table E → E → List E
  view t q = ents (find q (slot t q))

  -- Doubling the number of slots keeps a sound table sound, and every class keeps its entries.
  pub resize-IsSound :
      (t : Table E) → IsSound t → IsSound (resize t) × ((q : E) → view (resize t) q ≡ view t q)
  unfolding view slot resize
  resize-IsSound t s =
      let (p, w, reads, sums) = resize-Moved t s.placed s.width in
      (
        record {
          placed = p;
          width = w;
          buckets = s.buckets ∙ sym (sums one_each);
          entries = s.entries ∙ sym (sums entry_count);
        },
        λ q. ap ents (reads q),
      )

  -- A table in which only the slot of `e` has changed.
  abbrev pub change : Table E → E → Chain E → ℕ → ℕ → Table E
  change t e c nb ne = record t {
    tab = set t.tab (bit_and (o.hval e) t.mask) c;
    nbuckets = nb;
    nentries = ne;
  }

  pub change-IsSound :
      (t : Table E) (e : E) (c : Chain E) (nb ne : ℕ)
      → IsSound t
      → IsGood c
      → ((q : E) → bit_and (o.hval q) t.mask ≢ bit_and (o.hval e) t.mask → find q c ≡ none)
      → nb + chain_total one_each (slot t e) ≡ t.nbuckets + chain_total one_each c
      → ne + chain_total entry_count (slot t e) ≡ t.nentries + chain_total entry_count c
      → IsSound (change t e c nb ne)
        × ((q : E)
            → view (change t e c nb ne) q ≡ (
                if bit_and (o.hval q) t.mask == bit_and (o.hval e) t.mask
                then ents (find q c)
                else view t q))
  unfolding view slot
  change-IsSound t e c nb ne s g out hb he =
      let idx = bit_and (o.hval e) t.mask in
      let lt = home_lt t.tab t.mask e s.placed.wide in
      (
        record {
          placed = set-IsPlaced t.tab t.mask idx c s.placed lt g out;
          width = length-set t.tab idx c ∙ s.width;
          buckets = omega (arith, hb, s.buckets, total-set one_each t.tab idx c lt);
          entries = omega (arith, he, s.entries, total-set entry_count t.tab idx c lt);
        },
        λ q. ap ents (bucket_of-set t.tab t.mask idx c q lt) ∙ ground arith,
      )
