-- ===== src/Snap/Sums.antt =====
-- dt_aggregate.c: a snapshot adds up the words of all CPUs.
use dtrace_utils.Common.{
  In, ℕ, zero, suc, ◌+◌, ◌%◌, ◌^◌, ◌<◌, ◌≡◌, ◌≢◌, refl, sym, ap, subst, ◌∙◌, inl, inr, true, Option,
  none, some, List, [], ◌∷◌, ◌==◌, ==_iff, drop, take, length, get_or, length-take, arith,
  Bool-cases, ◌≤◌,
}
use dtrace_utils.Agg.{Hdl}
use dtrace_utils.Dlist.Distinct.{Distinct}
use dtrace_utils.Snap.{
  Aid, Entry, Status, Fun, Settings, head_or, one_copy, one_agg, add_words, apply_fun, real_words,
  agg_max, agg_min, snap,
}
use dtrace_utils.Snap.Merge.{
  merged, merged_rest, source, data_of, ids, AllKnown, AllChanged, snap-AllChanged,
}

-- A word of an aggregation's data, 0 where the aggregation has no entry.
abbrev pub word : ℕ → Option (List ℕ) → ℕ
word k none = 0
word k (some v) = get_or v k 0

abbrev pub IsWords : List ℕ → Type 0
IsWords v = (k : ℕ) → get_or v k 0 < 2 ^ 64

-- The data of a CPU that has not touched an aggregation is zero.
abbrev pub IsSource : ℕ → List ℕ → Type 0
IsSource n src =
    (n < length src) × IsWords src × (head_or src ≡ 0 → (k : ℕ) → k < n → get_or src (suc k) 0 ≡ 0)

abbrev Sized : ℕ → Option (List ℕ) → Type 0
Sized n none = Unit
Sized n (some v) = (length v ≡ n) × IsWords v

get_or-take : (n k : ℕ) (v : List ℕ) → k < n → get_or (take n v) k 0 ≡ get_or v k 0
get_or-take zero k v h = absurd (omega arith)
get_or-take (suc n) k [] h = refl
get_or-take (suc n) zero (x ∷ v) h = refl
get_or-take (suc n) (suc k) (x ∷ v) h = get_or-take n k v (omega arith)

get_or-take_le : (n k : ℕ) (v : List ℕ) → get_or (take n v) k 0 ≤ get_or v k 0
get_or-take_le zero k v = omega arith
get_or-take_le (suc n) k [] = omega arith
get_or-take_le (suc n) zero (x ∷ v) = omega arith
get_or-take_le (suc n) (suc k) (x ∷ v) = get_or-take_le n k v

get_or-drop_one : (k : ℕ) (src : List ℕ) → get_or (drop 1 src) k 0 ≡ get_or src (suc k) 0
get_or-drop_one k [] = refl
get_or-drop_one k (s ∷ ss) = refl

word-one_copy :
    (n k : ℕ) (src : List ℕ) → k < n → get_or (one_copy n src) k 0 ≡ get_or src (suc k) 0
unfolding one_copy
word-one_copy n k src h = get_or-take n k (drop 1 src) h ∙ get_or-drop_one k src

length-drop_one : (src : List ℕ) → 0 < length src → suc (length (drop 1 src)) ≡ length src
length-drop_one [] h = absurd (omega arith)
length-drop_one (s ∷ ss) h = refl

one_copy-Sized : (n : ℕ) (src : List ℕ) → IsSource n src → Sized n (some (one_copy n src))
unfolding one_copy
one_copy-Sized n src (h, w, z) = (
  omega (arith, length-take n (drop 1 src), length-drop_one src (omega arith)),
  (λ k.
      let a = get_or-take_le n k (drop 1 src) in
      let b = get_or-drop_one k src in let c = w (suc k) in omega arith),
)

get_or-add_words :
    (n k : ℕ) (dst src : List ℕ)
    → k < n
    → length dst ≡ n
    → n ≤ length src
    → get_or (add_words n dst src) k 0 ≡ (get_or dst k 0 + get_or src k 0) % 2 ^ 64
unfolding add_words
get_or-add_words zero k dst src h d s = absurd (omega arith)
get_or-add_words (suc n) k [] src h d s = absurd (omega arith)
get_or-add_words (suc n) k (x ∷ dst) [] h d s = absurd (omega arith)
get_or-add_words (suc n) zero (x ∷ dst) (y ∷ src) h d s = refl
get_or-add_words (suc n) (suc k) (x ∷ dst) (y ∷ src) h d s =
    get_or-add_words n k dst src (omega arith) (omega arith) (omega arith)

IsWords-cons : (x : ℕ) (v : List ℕ) → x < 2 ^ 64 → IsWords v → IsWords (x ∷ v)
IsWords-cons x v h w zero = h
IsWords-cons x v h w (suc k) = w k

add_words-Sized :
    (n : ℕ) (dst src : List ℕ)
    → length dst ≡ n
    → n ≤ length src
    → IsWords dst
    → (length (add_words n dst src) ≡ n) × IsWords (add_words n dst src)
unfolding add_words
add_words-Sized zero dst src d s w = (d, w)
add_words-Sized (suc n) [] src d s w = absurd (omega arith)
add_words-Sized (suc n) (x ∷ dst) [] d s w = absurd (omega arith)
add_words-Sized (suc n) (x ∷ dst) (y ∷ src) d s w =
    let (a, b) = add_words-Sized n dst src (omega arith) (omega arith) (λ k. w (suc k)) in
    (ap suc a, IsWords-cons ((x + y) % 2 ^ 64) (add_words n dst src) (omega arith) b)

-- The aggregating functions whose data is added up.
abbrev pub IsAdded : Aid → Type 0
IsAdded aid = (aid.func ≢ agg_max) × (aid.func ≢ agg_min)

one_agg-added :
    (func n : ℕ) (dst src : List ℕ)
    → func ≢ agg_max
    → func ≢ agg_min
    → head_or src ≢ 0
    → one_agg func n dst src ≡ add_words n dst (drop 1 src)
unfolding one_agg
one_agg-added func n dst src a b c = ground arith

one_agg-untouched : (func n : ℕ) (dst src : List ℕ) → head_or src ≡ 0 → one_agg func n dst src ≡ dst
unfolding one_agg
one_agg-untouched func n dst src c = ground arith

-- What one step gives for each word.
abbrev Adds : ℕ → List ℕ → (ℕ → ℕ) → Option (List ℕ) → Type 0
Adds n src old o =
    Sized n o × ((k : ℕ) → k < n → word k o ≡ (old k + get_or src (suc k) 0) % 2 ^ 64)

copied-Adds : (n : ℕ) (src : List ℕ) → IsSource n src → Adds n src (λ k. 0) (some (one_copy n src))
copied-Adds n src s =
    let (a, w, z) = s in
    (
      one_copy-Sized n src s,
      (λ k h. let e = word-one_copy n k src h in let b = w (suc k) in omega arith),
    )

none-Adds : (n : ℕ) (src : List ℕ) → IsSource n src → head_or src ≡ 0 → Adds n src (λ k. 0) none
none-Adds n src (a, w, z) h = (tt, (λ k l. let e = z h k l in omega arith))

fresh-Adds :
    (fn : Fun) (aid : Aid) (src : List ℕ)
    → IsSource (real_words aid) src
    → Adds (real_words aid) src (λ k. 0) (merged fn aid src none)
unfolding merged
fresh-Adds fn aid src s = elim (Bool-cases (head_or src == 0)) [
  | inl e ↦ rw (e) (none-Adds (real_words aid) src s ((==_iff (head_or src) 0).0 e))
  | inr e ↦ rw (e) (copied-Adds (real_words aid) src s)
]

copy-Adds :
    (aid : Aid) (src : List ℕ) (o : Option (List ℕ))
    → IsSource (real_words aid) src
    → Adds (real_words aid) src (λ k. 0) (merged Fun.copy aid src o)
unfolding merged apply_fun
copy-Adds aid src none s = fresh-Adds Fun.copy aid src s
copy-Adds aid src (some v) s = copied-Adds (real_words aid) src s

aggregate-Adds :
    (aid : Aid) (src : List ℕ) (o : Option (List ℕ))
    → IsAdded aid
    → IsSource (real_words aid) src
    → Sized (real_words aid) o
    → Adds (real_words aid) src (λ k. word k o) (merged Fun.aggregate aid src o)
unfolding merged apply_fun
aggregate-Adds aid src none d s z = fresh-Adds Fun.aggregate aid src s
aggregate-Adds aid src (some v) (d1, d2) s (l, w) =
    let n = real_words aid in
    let (a, b, c) = s in
    elim (Bool-cases (head_or src == 0)) [
      | inl e ↦
          let h = (==_iff (head_or src) 0).0 e in
          rw (one_agg-untouched aid.func n v src h)
            ((l, w), (λ k m. let p = c h k m in let q = w k in omega arith))
      | inr e ↦
          let h : head_or src ≢ 0 = ground arith in
          let t : n ≤ length (drop 1 src) = omega (arith, length-drop_one src (omega arith)) in
          rw (one_agg-added aid.func n v src d1 d2 h) (
            add_words-Sized n v (drop 1 src) l t w,
            (λ k m.
                let p = get_or-add_words n k v (drop 1 src) m l t in
                let q = get_or-drop_one k src in omega arith),
          )
    ]

-- The sum of a word over CPUs.
abbrev pub total : Aid → (ℕ → List ℕ) → ℕ → List ℕ → ℕ
total aid bufs k [] = 0
total aid bufs k (cpu ∷ cpus) = get_or (source aid (bufs cpu)) (suc k) 0 + total aid bufs k cpus

abbrev pub AllSources : Aid → (ℕ → List ℕ) → List ℕ → Type 0
AllSources aid bufs [] = Unit
AllSources aid bufs (cpu ∷ cpus) =
    IsSource (real_words aid) (source aid (bufs cpu)) × AllSources aid bufs cpus

merged_rest-total :
    (aid : Aid) (bufs : ℕ → List ℕ) (cpus : List ℕ) (o : Option (List ℕ)) (k : ℕ)
    → IsAdded aid
    → AllSources aid bufs cpus
    → Sized (real_words aid) o
    → k < real_words aid
    → word k o < 2 ^ 64
    → word k (merged_rest aid bufs cpus o) ≡ (word k o + total aid bufs k cpus) % 2 ^ 64
unfolding merged_rest
merged_rest-total aid bufs [] o k d s z h b = omega arith
merged_rest-total aid bufs (cpu ∷ cpus) o k d (s, ss) z h b =
    let src = source aid (bufs cpu) in
    let (z', e) = aggregate-Adds aid src o d s z in
    let p = e k h in
    let ih =
      merged_rest-total aid bufs cpus (merged Fun.aggregate aid src o) k d ss z' h (omega arith) in
    omega arith

changed_data :
    (f : Aid → Option (List ℕ) → Option (List ℕ)) (aid : Aid) (aids : List Aid)
    (es es' : List Entry)
    → In aid aids
    → AllChanged f aids es es'
    → data_of aid es' ≡ f aid (data_of aid es)
changed_data f aid [] es es' i c = elim i [ ]
changed_data f aid (x ∷ aids) es es' (inl e) (c, cs) =
    subst (λ (a : Aid). data_of a es' ≡ f a (data_of a es)) (sym e) c
changed_data f aid (x ∷ aids) es es' (inr i) (c, cs) = changed_data f aid aids es es' i cs

-- With memory, descriptions for all aggregations and different ids, a snapshot of at least one CPU
-- succeeds. Then word `k` of the data of an aggregation that is neither a minimum nor a maximum is
-- the sum over all CPUs modulo 2 ^ 64, whatever the entries were before, provided that the buffers
-- of the CPUs hold the data, and zeros where a CPU has not touched the aggregation; where there is
-- no entry for the aggregation that sum is 0.
pub snap-total :
    (c : Settings) (h : Hdl) (bufs : ℕ → List ℕ) (cpu : ℕ) (cpus : List ℕ) (aids : List Aid)
    (es : List Entry) (aid : Aid) (k : ℕ)
    → AllKnown h aids
    → Distinct (ids aids)
    → In aid aids
    → IsAdded aid
    → AllSources aid bufs (cpu ∷ cpus)
    → k < real_words aid
    → (es' : List Entry) × (snap true c h bufs (cpu ∷ cpus) aids es ≡ (Status.fine, es'))
      × (word k (data_of aid es') ≡ total aid bufs k (cpu ∷ cpus) % 2 ^ 64)
snap-total c h bufs cpu cpus aids es aid k known d i added (s1, ss) l =
    let (es', p, s) = snap-AllChanged c h bufs cpu cpus aids es known d in
    let f : Aid → Option (List ℕ) → Option (List ℕ) =
      λ a o. merged_rest a bufs cpus (merged Fun.copy a (source a (bufs cpu)) o) in
    let r = ap (word k) (changed_data f aid aids es es' i s) in
    let o = merged Fun.copy aid (source aid (bufs cpu)) (data_of aid es) in
    let (z, e) = copy-Adds aid (source aid (bufs cpu)) (data_of aid es) s1 in
    let q = merged_rest-total aid bufs cpus o k added ss z l (omega (arith, e k l)) in
    (es', p, omega (arith, e k l))
