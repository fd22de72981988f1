-- ===== src/As/Jumps.antt =====
-- dt_as.c: where the branches of the assembled program lead.
use dtrace_utils.Common.{
  ℕ, zero, suc, ◌+◌, ◌^◌, ◌%◌, ◌≡◌, ◌≢◌, ◌≤◌, ◌<◌, refl, sym, ap, subst, ◌∙◌, inl, inr, Bool, true,
  false, Option, List, [], ◌∷◌, ◌++◌, ltb, ◌==◌, if◌then◌else◌, length, length-append, get_or,
  length-replicate, arith, Bool-cases,
}
use dtrace_utils.As.{
  Insn, IrNode, IrList, LinkMode, AsError, Res, done, fail, ◌>>=◌, Masks, Pass, is_kept, is_branch,
  first_pass, second_pass, resolve, relative, extend_16, link_masks,
}
use dtrace_utils.As.Reloc.{
  Relocated, assemble, passes, relocations, third_pass, no_insn, initial, untouched, tables_full,
}
use dtrace_utils.As.Steps.{off_at, third_pass-Passed}
use dtrace_utils.As.Labels.{
  bind_done, kept, labels_after, first_pass-buf, Unlabelled, labels_after-at,
}

-- The instruction that a BPF machine runs after a taken branch at index `i`.
unfoldable pub target : (i off : ℕ) → ℕ
unfolding extend_16
target i off = (i + 1 + extend_16 off) % 2 ^ 32

pub target-relative :
    (t i : ℕ)
    → t < 2 ^ 32
    → i < 2 ^ 31
    → t ≤ i + 2 ^ 15
    → i < t + 2 ^ 15
    → target i (relative t i) ≡ t
unfolding target relative extend_16
target-relative t i a b c d = ground arith

second_pass-first :
    (labels : List ℕ) (k i : ℕ) (b : Insn) (bs cs : List Insn)
    → second_pass labels k i (b ∷ bs) ≡ done cs
    → (y : Insn) × (resolve labels k i b ≡ done y)
      × ((ys : List Insn) × (second_pass labels k (i + 1) bs ≡ done ys) × (y ∷ ys ≡ cs))
unfolding second_pass
second_pass-first labels k i b bs cs e =
    let (y, r, e2) =
      bind_done (resolve labels k i b)
        (λ y. second_pass labels k (i + 1) bs >>= λ ys. done (y ∷ ys)) cs e in
    let (ys, r2, e3) = bind_done (second_pass labels k (i + 1) bs) (λ ys. done (y ∷ ys)) cs e2 in
    (y, r, (ys, r2, cc))

pub length-second_pass :
    (labels : List ℕ) (k i : ℕ) (bs cs : List Insn)
    → second_pass labels k i bs ≡ done cs
    → length cs ≡ length bs
unfolding second_pass
length-second_pass labels k i [] cs e = let s : [] ≡ cs = cc in rw (← s) refl
length-second_pass labels k i (b ∷ bs) cs e =
    let (y, r, e2) = second_pass-first labels k i b bs cs e in
    let (ys, r2, e3) = e2 in rw (← e3) (ap suc (length-second_pass labels k (i + 1) bs ys r2))

second_pass-get :
    (labels : List ℕ) (k i n : ℕ) (bs cs : List Insn)
    → second_pass labels k i bs ≡ done cs
    → n < length bs
    → resolve labels k (i + n) (get_or bs n no_insn) ≡ done (get_or cs n no_insn)
unfolding second_pass
second_pass-get labels k i n [] cs e h = absurd (omega arith)
second_pass-get labels k i zero (b ∷ bs) cs e h =
    let (y, r, e2) = second_pass-first labels k i b bs cs e in
    let (ys, r2, e3) = e2 in let s : i + 0 ≡ i = omega arith in rw (← e3, s) r
second_pass-get labels k i (suc n) (b ∷ bs) cs e h =
    let (y, r, e2) = second_pass-first labels k i b bs cs e in
    let (ys, r2, e3) = e2 in
    let s : i + suc n ≡ i + 1 + n = omega arith in
    rw (← e3, s) (second_pass-get labels k (i + 1) n bs ys r2 (omega arith))

pub kept-append : (xs ys : List IrNode) → kept (xs ++ ys) ≡ kept xs ++ kept ys
unfolding kept
kept-append [] ys = refl
kept-append (x ∷ xs) ys = elim (Bool-cases (is_kept x)) [
  | inl e ↦ rw (e) (ap (λ (l : List Insn). x.instr ∷ l) (kept-append xs ys))
  | inr e ↦ rw (e) (kept-append xs ys)
]

resolve-branch :
    (labels : List ℕ) (k i : ℕ) (x y : Insn)
    → is_branch x ≡ true
    → resolve labels k i x ≡ done y
    → y.off ≡ relative (get_or labels x.off 0) i
unfolding resolve
resolve-branch labels k i x y b e = elim (Bool-cases (ltb (extend_16 x.off) k)) [
  | inl c ↦
      let q : resolve labels k i x ≡ done (record x { off = relative (get_or labels x.off 0) i }) =
        rw (resolve, b, c) refl in
      let s : record x { off = relative (get_or labels x.off 0) i } ≡ y = cc in
      ap (λ (z : Insn). z.off) (sym s)
  | inr c ↦
      let q : resolve labels k i x ≡ fail AsError.failed_assert = rw (resolve, b, c) refl in
      absurd (cc)
]

checked_done :
    {A : Type 0} (b : Bool) (r : Res A) (e : AsError) (a : A)
    → (if b then r else fail e) ≡ done a
    → r ≡ done a
checked_done true r e a h = h
checked_done false r e a h = absurd (cc)

get_or-middle :
    (xs : List Insn) (y : Insn) (ys : List Insn) → get_or (xs ++ (y ∷ ys)) (length xs) no_insn ≡ y
get_or-middle [] y ys = refl
get_or-middle (x ∷ xs) y ys = get_or-middle xs y ys

module _ {S : Type 0} (insert : List ℕ → S → Option (ℕ × S)) where
  off-relocations :
      (ms : Masks) (kn un : Bool) (l : IrList) (s : S) (p : Pass) (buf : List Insn)
      (o : Relocated S)
      → relocations insert ms kn un l s p buf ≡ done o
      → (n : ℕ) → off_at n o.buf ≡ off_at n buf
  unfolding relocations
  off-relocations ms kn un l s p buf o e n = elim (Bool-cases (p.brel + p.krel + p.urel == 0)) [
    | inl h ↦
        let q : relocations insert ms kn un l s p buf ≡ done (untouched buf s) =
          rw (relocations, h) refl in
        let z : untouched buf s ≡ o = cc in ap (λ (u : Relocated S). off_at n u.buf) (sym z)
    | inr h ↦
        let r = third_pass insert p.labels l.next_label ms kn un l.nodes (untouched buf s) in
        let f : Relocated S → Res (Relocated S) =
          λ st. if tables_full p buf st then done st else fail AsError.failed_assert in
        let q : relocations insert ms kn un l s p buf ≡ (r >>= f) = rw (relocations, h) refl in
        let (st, e1, e2) = bind_done r f o (sym q ∙ e) in
        let e3 = checked_done (tables_full p buf st) (done st) AsError.failed_assert o e2 in
        let z : st ≡ o = cc in
        let (g1, g2, g3, g4, g5) =
          third_pass-Passed insert p.labels l.next_label ms kn un l.nodes (untouched buf s) st e1 in
        subst (λ (u : Relocated S). off_at n u.buf ≡ off_at n buf) z (g5 n)
  ]

  passes_inv :
      (mode : LinkMode) (kn un : Bool) (l : IrList) (s : S) (o : Relocated S)
      → passes insert mode kn un l s ≡ done o
      → (p : Pass) × (first_pass (link_masks mode) l.nodes (initial l) ≡ done p)
        × ((buf : List Insn) × (second_pass p.labels l.next_label 0 p.buf ≡ done buf)
            × ((n : ℕ) → off_at n o.buf ≡ off_at n buf))
  unfolding passes
  passes_inv mode kn un l s o e =
      let g : (p : Pass) → List Insn → Res (Relocated S) =
        λ p buf. relocations insert (link_masks mode) kn un l s p buf in
      let (p, e1, f1) =
        bind_done (first_pass (link_masks mode) l.nodes (initial l))
          (λ p.
            if length p.buf == l.len
            then (second_pass p.labels l.next_label 0 p.buf >>= g p)
            else fail AsError.failed_assert)
          o e in
      let f2 =
        checked_done (length p.buf == l.len) (second_pass p.labels l.next_label 0 p.buf >>= g p)
          AsError.failed_assert o f1 in
      let (buf, e2, f3) = bind_done (second_pass p.labels l.next_label 0 p.buf) (g p) o f2 in
      (p, e1, (buf, e2, off-relocations (link_masks mode) kn un l s p buf o f3))

  assembled :
      (mode : LinkMode) (kn un hd : Bool) (l : IrList) (s : S) (o : Relocated S)
      → assemble insert mode kn un hd l s ≡ done o
      → passes insert mode kn un l s ≡ done o
  unfolding assemble
  assembled mode kn un true l s o e = absurd (cc)
  assembled mode kn un false l s o e = e

  -- The program that dt_as returns: for nodes that stand for a branch to a label and for the last
  -- place of that label, neither further than 2 ^ 15 instructions from the other, a BPF machine
  -- that takes the branch goes on at the first instruction from the label on.
  pub branch-target :
      (mode : LinkMode) (kn un hd : Bool) (l : IrList) (s : S) (o : Relocated S) (us : List IrNode)
      (j : IrNode) (vs : List IrNode) (xs : List IrNode) (n : IrNode) (ys : List IrNode)
      → assemble insert mode kn un hd l s ≡ done o
      → l.nodes ≡ us ++ (j ∷ vs)
      → l.nodes ≡ xs ++ (n ∷ ys)
      → is_kept j ≡ true
      → is_branch j.instr ≡ true
      → n.label ≡ j.instr.off
      → n.label ≢ 0
      → n.label < l.next_label
      → Unlabelled n.label ys
      → length (kept us) < 2 ^ 31
      → length (kept xs) ≤ length (kept us) + 2 ^ 15
      → length (kept us) < length (kept xs) + 2 ^ 15
      → target (length (kept us)) (off_at (length (kept us)) o.buf) ≡ length (kept xs)
  unfolding kept
  branch-target mode kn un hd l s o us j vs xs n ys e lu lx jk jb nj n0 nl u h1 h2 h3 =
      let i = length (kept us) in
      let t = length (kept xs) in
      let (p, e1, r) = passes_inv mode kn un l s o (assembled mode kn un hd l s o e) in
      let (buf, e2, f) = r in
      let (pb, pl) = first_pass-buf (link_masks mode) l.nodes (initial l) p e1 in
      let q : p.buf ≡ kept us ++ (j.instr ∷ kept vs) =
        pb ∙ ap kept lu ∙ kept-append us (j ∷ vs) ∙ rw (jk) refl in
      let at : get_or p.buf i no_insn ≡ j.instr =
        ap (λ (b : List Insn). get_or b i no_insn) q ∙ get_or-middle (kept us) j.instr (kept vs) in
      let len : length p.buf ≡ length (kept us) + suc (length (kept vs)) =
        ap length q ∙ length-append (kept us) (j.instr ∷ kept vs) in
      let lab : get_or p.labels n.label 0 ≡ t =
        ap (λ (ls : List ℕ). get_or ls n.label 0)
          (pl ∙ ap (λ (ns : List IrNode). labels_after 0 ns (initial l).labels) lx)
        ∙ labels_after-at 0 xs n ys (initial l).labels n0
            (rw (length-replicate {A = ℕ} l.next_label 0) nl) u
        ∙ omega arith in
      let i_lem : 0 + i ≡ i = omega arith in
      let sp : resolve p.labels l.next_label i j.instr ≡ done (get_or buf i no_insn) =
        ap (resolve p.labels l.next_label i) (sym at)
        ∙ ap (λ (k : ℕ). resolve p.labels l.next_label k (get_or p.buf i no_insn)) (sym i_lem)
        ∙ second_pass-get p.labels l.next_label 0 i p.buf buf e2 (omega arith) in
      let off : off_at i o.buf ≡ relative t i =
        f i
        ∙ resolve-branch p.labels l.next_label i j.instr (get_or buf i no_insn) jb sp
        ∙ ap (λ (k : ℕ). relative (get_or p.labels k 0) i) (sym nj)
        ∙ ap (λ (k : ℕ). relative k i) lab in
      ap (target i) off ∙ target-relative t i (omega arith) h1 h2 h3
