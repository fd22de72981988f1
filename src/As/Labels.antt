-- ===== src/As/Labels.antt =====
-- dt_as.c: what the first pass leaves in the buffer and in labels[].
use dtrace_utils.Common.{
  ℕ, ◌+◌, ◌≡◌, ◌≢◌, ◌<◌, refl, sym, ◌∙◌, inl, inr, Bool, true, false, Option, none, some, List, [],
  ◌∷◌, ◌++◌, append-nil, append_assoc, ◌==◌, if◌then◌else◌, length, length-append, get_or,
  get_or-set_self, get_or-set_ne, set, length-set, arith, Bool-cases,
}
use dtrace_utils.As.{
  Insn, Ident, IrNode, Res, done, fail, ◌>>=◌, Masks, Table, Pass, is_kept, place, count_up,
  count_table, count_extern, first_pass,
}

-- The instructions that the nodes stand for.
unfoldable pub kept : List IrNode → List Insn
unfolding is_kept
kept [] = []
kept (n ∷ ns) = if is_kept n then n.instr ∷ kept ns else kept ns

pub bind_done :
    {A B : Type 0} (r : Res A) (f : A → Res B) (b : B)
    → (r >>= f) ≡ done b
    → (a : A) × (r ≡ done a) × (f a ≡ done b)
bind_done (done a) f b h = (a, refl, h)
bind_done (fail e) f b h = absurd (cc)

count_up-labels : (t : Table) (p : Pass) → (count_up t p).labels ≡ p.labels
unfolding count_up
count_up-labels Table.bpf_table p = refl
count_up-labels Table.kernel_table p = refl
count_up-labels Table.user_table p = refl
count_up-labels Table.no_table p = refl

count_up-buf : (t : Table) (p : Pass) → (count_up t p).buf ≡ p.buf
unfolding count_up
count_up-buf Table.bpf_table p = refl
count_up-buf Table.kernel_table p = refl
count_up-buf Table.user_table p = refl
count_up-buf Table.no_table p = refl

pub count_extern-placed :
    (ms : Masks) (n : IrNode) (p q : Pass)
    → count_extern ms n p ≡ done q
    → (q.labels ≡ p.labels) × (q.buf ≡ p.buf)
unfolding count_extern
count_extern-placed ms n p q h = placed n.extern h
  where
    placed :
        (e : Option Ident)
        → elim e [ none ↦ done p | some i ↦ count_table ms n.instr i >>= λ t. done (count_up t p) ]
          ≡ done q
        → (q.labels ≡ p.labels) × (q.buf ≡ p.buf)
    placed none k = (cc, cc)
    placed (some i) k =
        let (t, a, b) = bind_done (count_table ms n.instr i) (λ t. done (count_up t p)) q k in
        let e = count_up-labels t p in let e' = count_up-buf t p in (cc, cc)

-- labels[] after the nodes, the first of which would go to index `i`.
unfoldable pub labels_after : ℕ → List IrNode → List ℕ → List ℕ
unfolding is_kept
labels_after i [] ls = ls
labels_after i (n ∷ ns) ls =
    labels_after (if is_kept n then i + 1 else i) ns (if n.label == 0 then ls else set ls n.label i)

place-buf :
    (n : IrNode) (ns : List IrNode) (p : Pass) → (place n p).buf ++ kept ns ≡ p.buf ++ kept (n ∷ ns)
unfolding place kept
place-buf n ns p = elim (Bool-cases (is_kept n)) [
  | inl e ↦ rw (e) (append_assoc p.buf (n.instr ∷ []) (kept ns))
  | inr e ↦ rw (e) refl
]

place-length :
    (n : IrNode) (p : Pass)
    → length (place n p).buf ≡ (if is_kept n then length p.buf + 1 else length p.buf)
unfolding place
place-length n p = elim (Bool-cases (is_kept n)) [
  | inl e ↦ rw (e) (length-append p.buf (n.instr ∷ []))
  | inr e ↦ rw (e) refl
]

place-labels :
    (n : IrNode) (ns : List IrNode) (p : Pass)
    → labels_after (length (place n p).buf) ns (place n p).labels
      ≡ labels_after (length p.buf) (n ∷ ns) p.labels
unfolding place labels_after
place-labels n ns p = rw (place-length n p) refl

pub first_pass-buf :
    (ms : Masks) (ns : List IrNode) (p q : Pass)
    → first_pass ms ns p ≡ done q
    → (q.buf ≡ p.buf ++ kept ns) × (q.labels ≡ labels_after (length p.buf) ns p.labels)
unfolding first_pass kept labels_after
first_pass-buf ms [] p q h = let e : p ≡ q = cc in rw (← e) (sym (append-nil p.buf), refl)
first_pass-buf ms (n ∷ ns) p q h =
    let (r, a, b) = bind_done (count_extern ms n (place n p)) (first_pass ms ns) q h in
    let (l, f) = count_extern-placed ms n (place n p) r a in
    let (ih1, ih2) = first_pass-buf ms ns r q b in
    (ih1 ∙ rw f (place-buf n ns p), ih2 ∙ rw (f, l) (place-labels n ns p))

-- No node has the label.
abbrev pub Unlabelled : ℕ → List IrNode → Type 0
Unlabelled l [] = Unit
Unlabelled l (n ∷ ns) = (n.label ≢ l) × Unlabelled l ns

Unlabelled-kept :
    (l i : ℕ) (ys : List IrNode) (ls : List ℕ)
    → Unlabelled l ys
    → get_or (labels_after i ys ls) l 0 ≡ get_or ls l 0
unfolding labels_after
Unlabelled-kept l i [] ls h = refl
Unlabelled-kept l i (n ∷ ys) ls (f, h) =
    Unlabelled-kept l (if is_kept n then i + 1 else i) ys
      (if n.label == 0 then ls else set ls n.label i) h
    ∙ elim (Bool-cases (n.label == 0)) [
      | inl e ↦ rw (e) refl
      | inr e ↦ rw (e) (get_or-set_ne ls n.label l i 0 f)
    ]

length-set_if :
    (b : Bool) (ls : List ℕ) (k i : ℕ) → length (if b then ls else set ls k i) ≡ length ls
length-set_if true ls k i = refl
length-set_if false ls k i = length-set ls k i

-- The last node with a label decides on it: the index after the instructions before the node.
pub labels_after-at :
    (i : ℕ) (xs : List IrNode) (n : IrNode) (ys : List IrNode) (ls : List ℕ)
    → n.label ≢ 0
    → n.label < length ls
    → Unlabelled n.label ys
    → get_or (labels_after i (xs ++ (n ∷ ys)) ls) n.label 0 ≡ i + length (kept xs)
unfolding labels_after kept
labels_after-at i [] n ys ls f h u =
    let e : (n.label == 0) ≡ false = ground arith in
    Unlabelled-kept n.label (if is_kept n then i + 1 else i) ys
      (if n.label == 0 then ls else set ls n.label i) u
    ∙ rw (e) (get_or-set_self ls n.label i 0 h ∙ omega arith)
labels_after-at i (x ∷ xs) n ys ls f h u =
    let ih =
      labels_after-at (if is_kept x then i + 1 else i) xs n ys
        (if x.label == 0 then ls else set ls x.label i) f
        (rw (length-set_if (x.label == 0) ls x.label i) h) u in
    ih ∙ elim (Bool-cases (is_kept x)) [ inl e ↦ rw (e) (omega arith) | inr e ↦ rw (e) refl ]
