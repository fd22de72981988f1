-- ===== src/Rec/Layout.antt =====
-- Where dt_rec_add puts the records.
use native.Mathlib.Nat.{div-add-mod, mod-lt, mod-eq_of_lt}
use dtrace_utils.Common.{
  ℕ, zero, suc, ◌+◌, ◌-◌, ◌*◌, ◌/◌, ◌%◌, ◌^◌, ◌≤◌, ◌<◌, ◌≡◌, refl, sym, ap, ◌∙◌, inl, inr, true,
  Option, ◌∷◌, bit_and, arith, ltb, leb, ◌==◌, Bool-cases, if◌then◌else◌, length, get_or, set,
  length-set, length-take_pad, get_or-take_pad, get_or-set_self, get_or-set_ne,
}
use dtrace_utils.Common.Masks.{mask_high}
use dtrace_utils.Common.Pow.{pow-add, pow-pos, div_mod_unique}
use dtrace_utils.Rec.{RecDesc, zero_rec, Pcb, ok, is_alignment, grow, align_up, place, rec_add}

-- The records lie one behind the other in front of `bufoff`, in an array as long as recorded.
pub record IsLaid (p : Pcb) : Type 0 where
  pub width : length p.recs ≡ p.maxrecs
  pub room : p.nrecs ≤ p.maxrecs
  pub inside :
      (k : ℕ)
      → k < p.nrecs
      → (get_or p.recs k zero_rec).offset + (get_or p.recs k zero_rec).size ≤ p.bufoff
  pub ordered :
      (j k : ℕ)
      → j < k
      → k < p.nrecs
      → (get_or p.recs j zero_rec).offset + (get_or p.recs j zero_rec).size
        ≤ (get_or p.recs k zero_rec).offset

pred-mul : (a b : ℕ) → 0 < a → (a - 1) * b ≡ a * b - b
pred-mul zero b h = absurd (omega arith)
pred-mul (suc a) b h = let e : suc a - 1 ≡ a = omega arith in ap (λ (t : ℕ). t * b) e ∙ omega arith

is_alignment-pow : (k : ℕ) → k ≤ 3 → is_alignment (2 ^ k) ≡ true
is_alignment-pow zero h = refl
is_alignment-pow (suc zero) h = refl
is_alignment-pow (suc (suc zero)) h = refl
is_alignment-pow (suc (suc (suc zero))) h = refl
is_alignment-pow (suc (suc (suc (suc k)))) h = absurd (omega arith)

align_up_lem :
    (k b : ℕ)
    → k ≤ 3
    → b + 2 ^ k < 2 ^ 32
    → (align_up b (2 ^ k) % 2 ^ k ≡ 0) × (b ≤ align_up b (2 ^ k)) × (align_up b (2 ^ k) < b + 2 ^ k)
unfolding align_up
align_up_lem k b le h =
    let x = b + (2 ^ k - 1) in
    let pos = pow-pos k in
    let whole : 2 ^ (32 - k) * 2 ^ k ≡ 2 ^ 32 =
      let e : 32 - k + k ≡ 32 = omega arith in sym (pow-add (32 - k) k) ∙ ap (λ (t : ℕ). 2 ^ t) e in
    let mask : 2 ^ 32 - 2 ^ k ≡ (2 ^ (32 - k) - 1) * 2 ^ k =
      omega (arith, pred-mul (2 ^ (32 - k)) (2 ^ k) (pow-pos (32 - k)), whole) in
    let small : x % 2 ^ 32 ≡ x = mod-eq_of_lt (omega arith) in
    let fits : x < 2 ^ (32 - k + k) = omega (arith, whole, pow-add (32 - k) k) in
    let e : bit_and (x % 2 ^ 32) (2 ^ 32 - 2 ^ k) ≡ x / 2 ^ k * 2 ^ k =
      ap (λ (t : ℕ). bit_and t (2 ^ 32 - 2 ^ k)) small
      ∙ ap (bit_and x) mask
      ∙ mask_high (32 - k) k x fits in
    let split = div-add-mod x (2 ^ k) in
    let rest = mod-lt x {m = 2 ^ k} pos in
    (
      ap (λ (t : ℕ). t % 2 ^ k) e
          ∙ (div_mod_unique (x / 2 ^ k * 2 ^ k) (2 ^ k) (x / 2 ^ k) 0 (omega arith) pos).1,
      omega (arith, e, split, rest, pos),
      omega (arith, e, split, rest, pos),
    )

grow-IsLaid :
    (p : Pcb)
    → IsLaid p
    → IsLaid (grow p)
      × (p.nrecs < (grow p).maxrecs)
      × ((j : ℕ) → j < p.nrecs → get_or (grow p).recs j zero_rec ≡ get_or p.recs j zero_rec)
unfolding grow
grow-IsLaid p v =
    let nmax = if p.maxrecs == 0 then p.nrecs + 1 else p.maxrecs * 2 in
    let le : p.maxrecs ≤ nmax = ground arith in
    let lt : p.nrecs < nmax = ground (arith, v.room) in
    let read = λ (j : ℕ). get_or-take_pad p.maxrecs (nmax - p.maxrecs) j p.recs zero_rec v.width in
    let off = λ (j : ℕ). ap (λ r. r.offset) (read j) in
    let size = λ (j : ℕ). ap (λ r. r.size) (read j) in
    (
      record {
        width =
            omega (arith, length-take_pad p.maxrecs (nmax - p.maxrecs) p.recs zero_rec v.width, le);
        room = omega arith;
        inside = λ j b. omega (arith, off j, size j, v.inside j b);
        ordered = λ i j l b. omega (arith, off i, size i, off j, v.ordered i j l b);
      },
      lt,
      λ j b. read j,
    )

-- A record was added behind the others.
pub record Added (k size : ℕ) (rec : RecDesc) (p t : Pcb) : Type 0 where
  pub laid : IsLaid t
  pub nrecs : t.nrecs ≡ suc p.nrecs
  pub newest : get_or t.recs p.nrecs zero_rec ≡ rec
  pub older : (j : ℕ) → j < p.nrecs → get_or t.recs j zero_rec ≡ get_or p.recs j zero_rec
  pub aligned : rec.offset % 2 ^ k ≡ 0
  pub behind : p.bufoff ≤ rec.offset
  pub close : rec.offset < p.bufoff + 2 ^ k
  pub bufoff : t.bufoff ≡ rec.offset + size

module _ (kind size k arg : ℕ) (pfp : Option ℕ) (le : k ≤ 3) where
  abbrev pub new_rec : ℕ → RecDesc
  new_rec bufoff = record {
    action = kind;
    size = size;
    offset = align_up bufoff (2 ^ k);
    alignment = 2 ^ k;
    format = pfp;
    arg = arg;
  }

  abbrev pub after : Pcb → Pcb
  after p = record p {
    nrecs = p.nrecs + 1;
    recs = set p.recs p.nrecs (new_rec p.bufoff);
    bufoff = (align_up p.bufoff (2 ^ k) + size) % 2 ^ 32;
    gaps =
        if ltb 0 ((align_up p.bufoff (2 ^ k) + 2 ^ 32 - p.bufoff) % 2 ^ 32)
        then (align_up p.bufoff (2 ^ k) + 2 ^ 32 - p.bufoff) % 2 ^ 32 ∷ p.gaps
        else p.gaps;
  }

  place-Added :
      (p : Pcb)
      → IsLaid p
      → p.nrecs < p.maxrecs
      → p.bufoff + 2 ^ k + size < 2 ^ 32
      → (place kind size (2 ^ k) pfp arg p ≡ ok (align_up p.bufoff (2 ^ k)) (after p))
        × Added k size (new_rec p.bufoff) p (after p)
  unfolding place
  place-Added p v lt h =
      let (al, lo, hi) = align_up_lem k p.bufoff le (omega arith) in
      let in_range : ltb p.nrecs (length p.recs) ≡ true = ground (arith, v.width) in
      let end : (align_up p.bufoff (2 ^ k) + size) % 2 ^ 32 ≡ align_up p.bufoff (2 ^ k) + size =
        mod-eq_of_lt (omega (arith, hi)) in
      let same : (j : ℕ)
          → j < p.nrecs
          → get_or (set p.recs p.nrecs (new_rec p.bufoff)) j zero_rec ≡ get_or p.recs j zero_rec =
        λ j lt. get_or-set_ne p.recs p.nrecs j (new_rec p.bufoff) zero_rec (λ e. omega arith) in
      let self =
        get_or-set_self p.recs p.nrecs (new_rec p.bufoff) zero_rec (omega (arith, v.width)) in
      (
        rw in_range refl,
        record {
          laid = record {
            width = length-set p.recs p.nrecs (new_rec p.bufoff) ∙ v.width;
            room = omega arith;
            inside = λ j b. elim (Bool-cases (j == p.nrecs)) [
              | inl t ↦
                  let e : j ≡ p.nrecs = ground arith in
                  rw e (omega (arith, ap (λ r. r.offset) self, ap (λ r. r.size) self, end))
              | inr f ↦
                  let b' : j < p.nrecs = ground arith in
                  omega (
                    arith,
                    ap (λ r. r.offset) (same j b'),
                    ap (λ r. r.size) (same j b'),
                    v.inside j b',
                    lo,
                    end,
                  )
            ];
            ordered = λ i j l b.
                let b' : i < p.nrecs = omega arith in
                let io = ap (λ r. r.offset) (same i b') in
                let is = ap (λ r. r.size) (same i b') in
                elim (Bool-cases (j == p.nrecs)) [
                  | inl t ↦
                      let e : j ≡ p.nrecs = ground arith in
                      rw e (omega (arith, ap (λ r. r.offset) self, io, is, v.inside i b', lo))
                  | inr f ↦
                      let c : j < p.nrecs = ground arith in
                      omega (arith, ap (λ r. r.offset) (same j c), io, is, v.ordered i j l c)
                ];
          };
          nrecs = omega arith;
          newest = self;
          older = same;
          aligned = al;
          behind = lo;
          close = hi;
          bufoff = end;
        },
      )

  -- For an alignment of 1, 2, 4 or 8, offsets that stay below 2 ^ 32 and enough memory,
  -- `dt_rec_add` keeps the records one behind the other and as they were; it puts the new one
  -- behind them at the next multiple of the alignment, and returns where.
  pub rec_add-Added :
      (p : Pcb)
      → IsLaid p
      → p.bufoff + 2 ^ k + size < 2 ^ 32
      → (t : Pcb) × (rec_add true kind size (2 ^ k) pfp arg p ≡ ok (align_up p.bufoff (2 ^ k)) t)
        × Added k size (new_rec p.bufoff) p t
  unfolding rec_add grow
  rec_add-Added p v h =
      let al : is_alignment (2 ^ k) ≡ true = is_alignment-pow k le in
      elim (Bool-cases (leb p.maxrecs (p.nrecs + 1))) [
        | inr f ↦ let (e, a) = place-Added p v (ground arith) h in (after p, rw al (rw f e), a)
        | inl t ↦
            let (g, lt, same) = grow-IsLaid p v in
            let (e, a) = place-Added (grow p) g lt h in
            (
              after (grow p),
              rw al (rw t e),
              record {
                laid = a.laid;
                nrecs = a.nrecs;
                newest = a.newest;
                older = λ j l. a.older j l ∙ same j l;
                aligned = a.aligned;
                behind = a.behind;
                close = a.close;
                bufoff = a.bufoff;
              },
            )
      ]
