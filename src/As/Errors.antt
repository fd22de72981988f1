-- ===== src/As/Errors.antt =====
-- dt_as.c: the assertions of the first two passes, and what the relocation of a symbol relies on.
use dtrace_utils.Common.{
  ℕ, ◌+◌, ◌≡◌, ◌≢◌, ◌<◌, refl, sym, ap, subst, ◌∙◌, inl, inr, true, false, Option, none, some, List,
  [], ◌∷◌, ltb_iff, ◌==◌, if◌then◌else◌, length, length-append, get_or, arith, Bool-cases,
  append-nil, Option-cases,
}
use dtrace_utils.As.{
  Insn, Ident, IrNode, IrList, AsError, Res, done, fail, ◌>>=◌, Masks, Table, Pass, is_bpf,
  ident_func, is_kept, is_branch, place, count_up, count_table, count_extern, first_pass,
  second_pass, resolve, relative, extend_16, irlist_append,
}
use dtrace_utils.As.Reloc.{is_func, reloc_type, reloc_data}
use dtrace_utils.As.Labels.{kept}
use dtrace_utils.As.Jumps.{kept-append}

-- The result is no failed assertion.
abbrev pub Asserts : {A : Type 0} → Res A → Type 0
Asserts r = r ≢ fail AsError.failed_assert

pub done-Asserts : {A : Type 0} (a : A) → Asserts (done a)
done-Asserts a e = absurd (cc)

pub bind-Asserts :
    {A B : Type 0} (r : Res A) (f : A → Res B)
    → Asserts r
    → ((a : A) → r ≡ done a → Asserts (f a))
    → Asserts (r >>= f)
bind-Asserts (done a) f h k = k a refl
bind-Asserts (fail AsError.failed_assert) f h k = absurd (h refl)
bind-Asserts (fail AsError.unexpected) f h k = λ e. absurd (cc)
bind-Asserts (fail AsError.undefined_symbol) f h k = λ e. absurd (cc)
bind-Asserts (fail AsError.no_memory) f h k = λ e. absurd (cc)
bind-Asserts (fail AsError.string_too_big) f h k = λ e. absurd (cc)

-- Every branch is to a label that has been given out.
abbrev pub Resolvable : ℕ → List Insn → Type 0
Resolvable k [] = Unit
Resolvable k (x ∷ xs) = (is_branch x ≡ true → extend_16 x.off < k) × Resolvable k xs

-- What the relocation of an identifier relies on.
abbrev pub IsSound : ℕ → Ident → Type 0
IsSound k d = (is_func d ≡ true → d.id < k) × (is_bpf d ≡ false → d.syminfo ≢ none)

abbrev pub IsSoundExtern : ℕ → Option Ident → Type 0
IsSoundExtern k none = Unit
IsSoundExtern k (some d) = IsSound k d

abbrev pub AllSound : ℕ → List IrNode → Type 0
AllSound k [] = Unit
AllSound k (n ∷ ns) = IsSoundExtern k n.extern × AllSound k ns

pub count_table-Asserts : (ms : Masks) (x : Insn) (d : Ident) → Asserts (count_table ms x d)
unfolding count_table
count_table-Asserts ms x d = λ e. ground arith

pub count_extern-Asserts : (ms : Masks) (n : IrNode) (p : Pass) → Asserts (count_extern ms n p)
unfolding count_extern
count_extern-Asserts ms n p = elim (Option-cases n.extern) [
  | inl h ↦ λ e. let z : count_extern ms n p ≡ done p = rw (count_extern, h) refl in absurd (cc)
  | inr (d, h) ↦
      let f : Table → Res Pass = λ t. done (count_up t p) in
      let z : count_extern ms n p ≡ (count_table ms n.instr d >>= f) = rw (count_extern, h) refl in
      subst Asserts (sym z) (
        bind-Asserts (count_table ms n.instr d) f (count_table-Asserts ms n.instr d)
          (λ t u. done-Asserts (count_up t p)))
]

pub first_pass-Asserts : (ms : Masks) (ns : List IrNode) (p : Pass) → Asserts (first_pass ms ns p)
unfolding first_pass
first_pass-Asserts ms [] p = done-Asserts p
first_pass-Asserts ms (n ∷ ns) p =
    bind-Asserts (count_extern ms n (place n p)) (first_pass ms ns)
      (count_extern-Asserts ms n (place n p)) (λ q e. first_pass-Asserts ms ns q)

pub resolve-Asserts :
    (labels : List ℕ) (k i : ℕ) (x : Insn)
    → (is_branch x ≡ true → extend_16 x.off < k)
    → Asserts (resolve labels k i x)
unfolding resolve
resolve-Asserts labels k i x h = elim (Bool-cases (is_branch x)) [
  | inl b ↦
      let y = record x { off = relative (get_or labels x.off 0) i } in
      let c = (ltb_iff (extend_16 x.off) k).1 (h b) in
      let z : resolve labels k i x ≡ done y = rw (resolve, b, c) refl in
      subst Asserts (sym z) (done-Asserts y)
  | inr b ↦
      let z : resolve labels k i x ≡ done x = rw (resolve, b) refl in
      subst Asserts (sym z) (done-Asserts x)
]

pub second_pass-Asserts :
    (labels : List ℕ) (k i : ℕ) (xs : List Insn)
    → Resolvable k xs
    → Asserts (second_pass labels k i xs)
unfolding second_pass
second_pass-Asserts labels k i [] h = done-Asserts []
second_pass-Asserts labels k i (x ∷ xs) (h, hs) =
    bind-Asserts (resolve labels k i x)
      (λ y. second_pass labels k (i + 1) xs >>= λ ys. done (y ∷ ys))
      (resolve-Asserts labels k i x h)
      (λ y e.
        bind-Asserts (second_pass labels k (i + 1) xs) (λ ys. done (y ∷ ys))
          (second_pass-Asserts labels k (i + 1) xs hs) (λ ys f. done-Asserts (y ∷ ys)))

pub reloc_data-Asserts :
    (labels : List ℕ) (k : ℕ) (d : Ident) → IsSound k d → Asserts (reloc_data labels k d)
unfolding reloc_data is_func
reloc_data-Asserts labels k d (f, s) = elim (Bool-cases (is_bpf d)) [
  | inl b ↦ elim (Bool-cases (d.kind == ident_func)) [
    | inl u ↦
        let c = (ltb_iff d.id k).1 (f (rw (b, u) refl)) in
        let z : reloc_data labels k d ≡ done (get_or labels d.id 0) =
          rw (reloc_data, b, u, c) refl in
        subst Asserts (sym z) (done-Asserts (get_or labels d.id 0))
    | inr u ↦
        let z : reloc_data labels k d ≡ done d.id = rw (reloc_data, b, u) refl in
        subst Asserts (sym z) (done-Asserts d.id)
  ]
  | inr b ↦ elim (Option-cases d.syminfo) [
    | inl u ↦ absurd (s b u)
    | inr (v, u) ↦
        let z : reloc_data labels k d ≡ done v = rw (reloc_data, b, u) refl in
        subst Asserts (sym z) (done-Asserts v)
  ]
]

pub reloc_type-Asserts : (x : Insn) → Asserts (reloc_type x)
unfolding reloc_type
reloc_type-Asserts x = λ e. ground arith

-- dl_len is the number of instructions of the list.
abbrev pub IsCounted : IrList → Type 0
IsCounted l = l.len ≡ length (kept l.nodes)

pub irlist_append-IsCounted :
    (n : IrNode) (l : IrList) → IsCounted l → IsCounted (irlist_append n l)
unfolding irlist_append kept
irlist_append-IsCounted n l h =
    ap (λ (k : ℕ). if is_kept n then k + 1 else k) h ∙ elim (Bool-cases (is_kept n)) [
      | inl e ↦
          rw (kept-append l.nodes (n ∷ []), e) (sym (length-append (kept l.nodes) (n.instr ∷ [])))
      | inr e ↦ rw (kept-append l.nodes (n ∷ []), e) (sym (ap length (append-nil (kept l.nodes))))
    ]
