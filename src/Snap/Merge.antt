-- ===== src/Snap/Merge.antt =====
-- dt_aggregate.c: what a snapshot does to the data of each aggregation.
use dtrace_utils.Common.{
  ℕ, ◌/◌, ◌≡◌, ◌≢◌, ◌⊎◌, refl, sym, ap, ◌∙◌, inl, inr, true, false, Option, none, some, List, [],
  ◌∷◌, ◌==◌, if◌then◌else◌, drop, arith, Bool-cases,
}
use dtrace_utils.Agg.{AggDesc, Hdl, aggid_lookup}
use dtrace_utils.Dlist.Distinct.{Absent, Distinct}
use dtrace_utils.Snap.{
  Aid, Entry, Status, Fun, Settings, head_or, one_copy, apply_fun, real_words, processed, is_entry,
  update, new_entry, snap_known, snap_one, if_fine, snap_cpu, snap_rest, snap,
}

-- The data of the first entry for the hash value and the size.
unfoldable pub value : ℕ → ℕ → List Entry → Option (List ℕ)
value hval size [] = none
value hval size (e ∷ es) = if is_entry hval size e then some e.values else value hval size es

-- What a snapshot of one CPU makes of the data of an aggregation.
unfoldable pub merged : Fun → Aid → List ℕ → Option (List ℕ) → Option (List ℕ)
merged fn aid src (some v) = some (apply_fun fn aid.func (real_words aid) v src)
merged fn aid src none = if head_or src == 0 then none else some (one_copy (real_words aid) src)

abbrev pub data_of : Aid → List Entry → Option (List ℕ)
data_of aid es = value aid.id (real_words aid) es

processed-data :
    (fn : Fun) (aid : Aid) (cpu : ℕ) (src : List ℕ) (es : List Entry)
    → ((data_of aid es ≡ none)
        × (update aid.id (real_words aid) (processed fn aid cpu src) es ≡ none))
      ⊎ ((v : List ℕ) × (es' : List Entry) × (data_of aid es ≡ some v)
          × (update aid.id (real_words aid) (processed fn aid cpu src) es ≡ some es')
          × (data_of aid es' ≡ some (apply_fun fn aid.func (real_words aid) v src))
          × ((hv sz : ℕ) → hv ≢ aid.id → value hv sz es' ≡ value hv sz es))
unfolding value update processed
processed-data fn aid cpu src [] = inl (refl, refl)
processed-data fn aid cpu src (e ∷ es) = elim (Bool-cases (is_entry aid.id (real_words aid) e)) [
  | inl h ↦ inr (
    e.values,
    processed fn aid cpu src e ∷ es,
    rw (h) refl,
    rw (h) refl,
    rw (h) refl,
    (λ hv sz k. let z : is_entry hv sz e ≡ false = ground arith in rw (z) refl),
  )
  | inr h ↦ elim (processed-data fn aid cpu src es) [
    | inl (p, q) ↦ inl (rw (h) p, rw (h, q) refl)
    | inr (v, es', p, q, r, f) ↦ inr (
      v,
      e ∷ es',
      rw (h) p,
      rw (h, q) refl,
      rw (h) r,
      (λ hv sz k.
          ap (λ (o : Option (List ℕ)). if is_entry hv sz e then some e.values else o) (f hv sz k)),
    )
  ]
]

-- One aggregation of one CPU is processed, and no other is touched.
abbrev pub Stepped : Fun → Aid → List ℕ → List Entry → List Entry → Type 0
Stepped fn aid src es es' =
    (data_of aid es' ≡ merged fn aid src (data_of aid es))
    × ((hv sz : ℕ) → hv ≢ aid.id → value hv sz es' ≡ value hv sz es)

==_self : (a : ℕ) → (a == a) ≡ true
==_self a = ground arith

snap_known-Stepped :
    (c : Settings) (fn : Fun) (aid : Aid) (agg : AggDesc) (cpu : ℕ) (src : List ℕ) (es : List Entry)
    → (es' : List Entry) × (snap_known true c fn aid agg cpu src es ≡ (Status.fine, es'))
      × Stepped fn aid src es es'
unfolding snap_known merged value new_entry
snap_known-Stepped c fn aid agg cpu src es = elim (processed-data fn aid cpu src es) [
  | inr (v, es', p, q, r, f) ↦ (es', rw (snap_known, q) refl, (rw (p) r, f))
  | inl (p, q) ↦ elim (Bool-cases (head_or src == 0)) [
    | inl z ↦ (es, rw (snap_known, q, z) refl, (rw (p, z) refl, (λ hv sz k. refl)))
    | inr z ↦ (
      new_entry c aid agg cpu src ∷ es,
      rw (snap_known, q, z) refl,
      (
        (let i = ==_self aid.id in let j = ==_self (real_words aid) in rw (p, z, i, j) refl),
        (λ hv sz k. let i : (aid.id == hv) ≡ false = ground arith in rw (i) refl),
      ),
    )
  ]
]

-- The ids have a description in the table of aggregation ids.
abbrev pub AllKnown : Hdl → List Aid → Type 0
AllKnown h [] = Unit
AllKnown h (aid ∷ aids) = ((agg : AggDesc) × (aggid_lookup h aid.id ≡ some agg)) × AllKnown h aids

abbrev pub ids : List Aid → List ℕ
ids [] = []
ids (aid ∷ aids) = aid.id ∷ ids aids

-- Every aggregation's data changes as `f` says.
abbrev pub AllChanged :
    (Aid → Option (List ℕ) → Option (List ℕ)) → List Aid → List Entry → List Entry → Type 0
AllChanged f [] es es' = Unit
AllChanged f (aid ∷ aids) es es' =
    (data_of aid es' ≡ f aid (data_of aid es)) × AllChanged f aids es es'

abbrev pub source : Aid → List ℕ → List ℕ
source aid buf = drop (aid.offset / 8) buf

snap_one-Stepped :
    (c : Settings) (h : Hdl) (fn : Fun) (cpu : ℕ) (buf : List ℕ) (aid : Aid) (agg : AggDesc)
    (es : List Entry)
    → aggid_lookup h aid.id ≡ some agg
    → (es' : List Entry) × (snap_one true c h fn cpu buf aid es ≡ (Status.fine, es'))
      × Stepped fn aid (source aid buf) es es'
unfolding snap_one
snap_one-Stepped c h fn cpu buf aid agg es k =
    let (es', p, s) = snap_known-Stepped c fn aid agg cpu (source aid buf) es in
    (es', rw (snap_one, k, p) refl, s)

-- Other aggregations do not see the change.
AllChanged-Absent :
    (f : Aid → Option (List ℕ) → Option (List ℕ)) (id : ℕ) (aids : List Aid)
    (es es1 es' : List Entry)
    → Absent id (ids aids)
    → ((hv sz : ℕ) → hv ≢ id → value hv sz es1 ≡ value hv sz es)
    → AllChanged f aids es1 es'
    → AllChanged f aids es es'
AllChanged-Absent f id [] es es1 es' a k s = tt
AllChanged-Absent f id (aid ∷ aids) es es1 es' (n, a) k (s, ss) = (
  s ∙ ap (f aid) (k aid.id (real_words aid) (λ e. n (sym e))),
  AllChanged-Absent f id aids es es1 es' a k ss,
)

pub snap_cpu-AllChanged :
    (c : Settings) (h : Hdl) (fn : Fun) (cpu : ℕ) (buf : List ℕ) (aids : List Aid) (es : List Entry)
    → AllKnown h aids
    → Distinct (ids aids)
    → (es' : List Entry) × (snap_cpu true c h fn cpu buf aids es ≡ (Status.fine, es'))
      × AllChanged (λ aid. merged fn aid (source aid buf)) aids es es'
      × ((hv sz : ℕ) → Absent hv (ids aids) → value hv sz es' ≡ value hv sz es)
unfolding snap_cpu
snap_cpu-AllChanged c h fn cpu buf [] es k d = (es, refl, tt, (λ hv sz a. refl))
snap_cpu-AllChanged c h fn cpu buf (aid ∷ aids) es ((agg, e), k) (a, d) =
    let (es1, p, (s, f)) = snap_one-Stepped c h fn cpu buf aid agg es e in
    let (es', q, ss, g) = snap_cpu-AllChanged c h fn cpu buf aids es1 k d in
    (
      es',
      ap (λ r. if_fine r (snap_cpu true c h fn cpu buf aids)) p ∙ q,
      (
        g aid.id (real_words aid) a ∙ s,
        AllChanged-Absent (λ aid. merged fn aid (source aid buf)) aid.id aids es es1 es' a f ss,
      ),
      (λ hv sz b. let (b1, b2) = b in g hv sz b2 ∙ f hv sz b1),
    )

-- The data of an aggregation after the CPUs behind the first.
unfoldable pub merged_rest : Aid → (ℕ → List ℕ) → List ℕ → Option (List ℕ) → Option (List ℕ)
unfolding merged
merged_rest aid bufs [] o = o
merged_rest aid bufs (cpu ∷ cpus) o =
    merged_rest aid bufs cpus (merged Fun.aggregate aid (source aid (bufs cpu)) o)

AllChanged-compose :
    (f g : Aid → Option (List ℕ) → Option (List ℕ)) (aids : List Aid) (es es1 es' : List Entry)
    → AllChanged f aids es es1
    → AllChanged g aids es1 es'
    → AllChanged (λ aid o. g aid (f aid o)) aids es es'
AllChanged-compose f g [] es es1 es' s t = tt
AllChanged-compose f g (aid ∷ aids) es es1 es' (s, ss) (t, ts) =
    (t ∙ ap (g aid) s, AllChanged-compose f g aids es es1 es' ss ts)

AllChanged-same : (aids : List Aid) (es : List Entry) → AllChanged (λ aid o. o) aids es es
AllChanged-same [] es = tt
AllChanged-same (aid ∷ aids) es = (refl, AllChanged-same aids es)

snap_rest-AllChanged :
    (c : Settings) (h : Hdl) (bufs : ℕ → List ℕ) (cpus : List ℕ) (aids : List Aid) (es : List Entry)
    → AllKnown h aids
    → Distinct (ids aids)
    → (es' : List Entry) × (snap_rest true c h bufs cpus aids es ≡ (Status.fine, es'))
      × AllChanged (λ aid. merged_rest aid bufs cpus) aids es es'
unfolding snap_rest merged_rest
snap_rest-AllChanged c h bufs [] aids es k d = (es, refl, AllChanged-same aids es)
snap_rest-AllChanged c h bufs (cpu ∷ cpus) aids es k d =
    let (es1, p, s, g) = snap_cpu-AllChanged c h Fun.aggregate cpu (bufs cpu) aids es k d in
    let (es', q, t) = snap_rest-AllChanged c h bufs cpus aids es1 k d in
    (
      es',
      ap (λ r. if_fine r (snap_rest true c h bufs cpus aids)) p ∙ q,
      AllChanged-compose (λ aid. merged Fun.aggregate aid (source aid (bufs cpu)))
          (λ aid. merged_rest aid bufs cpus) aids es es1 es' s t,
    )

-- A snapshot of at least one CPU.
pub snap-AllChanged :
    (c : Settings) (h : Hdl) (bufs : ℕ → List ℕ) (cpu : ℕ) (cpus : List ℕ) (aids : List Aid)
    (es : List Entry)
    → AllKnown h aids
    → Distinct (ids aids)
    → (es' : List Entry) × (snap true c h bufs (cpu ∷ cpus) aids es ≡ (Status.fine, es'))
      × AllChanged
          (λ aid o. merged_rest aid bufs cpus (merged Fun.copy aid (source aid (bufs cpu)) o))
          aids
          es
          es'
unfolding snap
snap-AllChanged c h bufs cpu cpus aids es k d =
    let (es1, p, s, g) = snap_cpu-AllChanged c h Fun.copy cpu (bufs cpu) aids es k d in
    let (es', q, t) = snap_rest-AllChanged c h bufs cpus aids es1 k d in
    (
      es',
      ap (λ r. if_fine r (snap_rest true c h bufs cpus aids)) p ∙ q,
      AllChanged-compose (λ aid. merged Fun.copy aid (source aid (bufs cpu)))
          (λ aid. merged_rest aid bufs cpus) aids es es1 es' s t,
    )
