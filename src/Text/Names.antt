-- ===== src/Text/Names.antt =====
-- The searches and tests on names in dt_string.c.
use dtrace_utils.Common.{
  sym, ap₂, zero, suc, ◌+◌, ◌∙◌, ◌||◌, leb, ltb, ℕ, ◌≡◌, ◌≢◌, ◌↔◌, ◌⊎◌, refl, ap, subst, inl, inr,
  true, false, Bool, not, ◌&&◌, Option, none, some, [], ◌∷◌, ◌++◌, arith, ◌==◌, Bool-cases,
  Option-cases,
}
use dtrace_utils.Text.{
  Text, strrchr_slash, strbasename, strhyphenate, is_ident_char, bad_char, strbadidnum,
}

-- No byte of the text passes the test.
abbrev pub Lacks : (ℕ → Bool) → Text → Type 0
Lacks p [] = Unit
Lacks p (c ∷ s) = (p c ≡ false) × Lacks p s

abbrev pub is_slash : ℕ → Bool
is_slash c = c == b'/'

strrchr_slash-none : (s : Text) → strrchr_slash s ≡ none → Lacks is_slash s
unfolding strrchr_slash
strrchr_slash-none [] h = tt
strrchr_slash-none (c ∷ s) h = elim (Option-cases (strrchr_slash s)) [
  | inl e ↦ (ground arith, strrchr_slash-none s e)
  | inr (r, e) ↦ absurd (ground arith)
]

strrchr_slash-some :
    (s r : Text)
    → strrchr_slash s ≡ some r
    → (dir base : Text) × (r ≡ b'/' ∷ base) × (s ≡ dir ++ b'/' ∷ base) × Lacks is_slash base
unfolding strrchr_slash
strrchr_slash-some [] r h = absurd (ground arith)
strrchr_slash-some (c ∷ s) r h = elim (Option-cases (strrchr_slash s)) [
  | inr (r', e) ↦
      let (dir, base, e1, e2, l) = strrchr_slash-some s r' e in
      (c ∷ dir, base, ground (arith, e1), ap (λ (t : Text). c ∷ t) e2, l)
  | inl e ↦ ([], s, ground arith, ground arith, strrchr_slash-none s e)
]

-- `strbasename` returns what follows the last slash, which holds no slash, or the whole string
-- where it has no slash.
pub strbasename_lem :
    (s : Text)
    → (Lacks is_slash s × (strbasename s ≡ s))
      ⊎ ((dir : Text) × (s ≡ dir ++ b'/' ∷ strbasename s) × Lacks is_slash (strbasename s))
unfolding strbasename
strbasename_lem s = elim (Option-cases (strrchr_slash s)) [
  | inl e ↦ inl (strrchr_slash-none s e, rw (e, strbasename))
  | inr (r, e) ↦
      let (dir, base, e1, e2, l) = strrchr_slash-some s r e in
      rw (e, strbasename) (rw e1 (inr (dir, e2, l)))
]

-- Two underscores in a row.
abbrev pub Separate : Text → Type 0
Separate [] = Unit
Separate (c ∷ []) = Unit
Separate (c ∷ d ∷ s) = ((c == b'_') && (d == b'_') ≡ false) × Separate (d ∷ s)

-- In front of a shortened text only its first byte matters.
Separate-hyphen : (s : Text) → Separate s → Separate (b'-' ∷ s)
Separate-hyphen [] h = tt
Separate-hyphen (c ∷ s) h = (refl, h)

Separate-cons :
    (c d : ℕ) (s : Text)
    → ((c == b'_') && (d == b'_')) ≡ false
    → Separate (strhyphenate (d ∷ s))
    → Separate (c ∷ strhyphenate (d ∷ s))
unfolding strhyphenate
Separate-cons c d [] h k = (h, tt)
Separate-cons c d (e ∷ s) h k = elim (Bool-cases ((d == b'_') && (e == b'_'))) [
  | inl t ↦ rw t (ground arith, rw t at k)
  | inr f ↦ rw f (h, rw f at k)
]

hyphenate-Separate : (s : Text) → Separate (strhyphenate s)
unfolding strhyphenate
hyphenate-Separate [] = tt
hyphenate-Separate (c ∷ []) = tt
hyphenate-Separate (c ∷ d ∷ s) = elim (Bool-cases ((c == b'_') && (d == b'_'))) [
  | inl t ↦ rw t (Separate-hyphen (strhyphenate s) (hyphenate-Separate s))
  | inr f ↦ rw f (Separate-cons c d s f (hyphenate-Separate (d ∷ s)))
]

hyphenate-id : (s : Text) → Separate s → strhyphenate s ≡ s
unfolding strhyphenate
hyphenate-id [] h = refl
hyphenate-id (c ∷ []) h = refl
hyphenate-id (c ∷ d ∷ s) (f, h) = rw f (ap (λ (t : Text). c ∷ t) (hyphenate-id (d ∷ s) h))

-- `strhyphenate` leaves no two underscores in a row, and changes a string only if it has two in a
-- row; so a second call changes nothing.
pub strhyphenate_lem :
    (s : Text)
    → Separate (strhyphenate s)
      × (Separate s ↔ (strhyphenate s ≡ s))
      × (strhyphenate (strhyphenate s) ≡ strhyphenate s)
strhyphenate_lem s = (
  hyphenate-Separate s,
  (hyphenate-id s, λ e. subst Separate e (hyphenate-Separate s)),
  hyphenate-id (strhyphenate s) (hyphenate-Separate s),
)

-- `n` bytes from `lo` on.
abbrev pub run_of : (lo n : ℕ) → Text
run_of lo zero = []
run_of lo (suc n) = lo ∷ run_of (lo + 1) n

abbrev pub member : ℕ → Text → Bool
member c [] = false
member c (d ∷ s) = (c == d) || member c s

-- The bytes of identifiers: the ten digits, the 26 letters of either case, the underscore and the
-- backquote.
unfoldable pub ident_bytes : Text
ident_bytes = run_of b'0' 10 ++ run_of b'a' 26 ++ run_of b'A' 26 ++ b'_' ∷ b'`' ∷ []

abbrev pub is_strange : ℕ → Bool
is_strange c = not (member c ident_bytes)

member-append : (c : ℕ) (a b : Text) → member c (a ++ b) ≡ (member c a || member c b)
member-append c [] b = refl
member-append c (x ∷ a) b = ground (arith, member-append c a b)

member-run_of : (c lo n : ℕ) → member c (run_of lo n) ≡ (leb lo c && ltb c (lo + n))
member-run_of c lo zero = ground arith
member-run_of c lo (suc n) = ground (arith, member-run_of c (lo + 1) n)

digit_range : (c : ℕ) → (leb b'0' c && leb c b'9') ≡ (leb b'0' c && ltb c (b'0' + 10))
digit_range c = ground arith

lower_range : (c : ℕ) → (leb b'a' c && leb c b'z') ≡ (leb b'a' c && ltb c (b'a' + 26))
lower_range c = ground arith

upper_range : (c : ℕ) → (leb b'A' c && leb c b'Z') ≡ (leb b'A' c && ltb c (b'A' + 26))
upper_range c = ground arith

or_right : (p q r s t : Bool) → (p || q || r || s || t) ≡ (p || (q || (r || (s || t))))
or_right true q r s t = refl
or_right false true r s t = refl
or_right false false true s t = refl
or_right false false false s t = refl

-- The test of dt_string.c passes exactly the bytes of the list.
is_ident_char-member : (c : ℕ) → is_ident_char c ≡ member c ident_bytes
unfolding is_ident_char ident_bytes
is_ident_char-member c =
    let tail : Text = b'_' ∷ b'`' ∷ [] in
    let upper = run_of b'A' 26 in
    let lower = run_of b'a' 26 in
    let digits = run_of b'0' 10 in
    let last : ((c == b'_') || (c == b'`')) ≡ member c tail = ground arith in
    let u : ((leb b'A' c && leb c b'Z') || ((c == b'_') || (c == b'`')))
        ≡ member c (upper ++ tail) =
      ap₂ (λ (p q : Bool). p || q) (upper_range c ∙ sym (member-run_of c b'A' 26)) last
      ∙ sym (member-append c upper tail) in
    let l : ((leb b'a' c && leb c b'z')
          || ((leb b'A' c && leb c b'Z') || ((c == b'_') || (c == b'`'))))
        ≡ member c (lower ++ upper ++ tail) =
      ap₂ (λ (p q : Bool). p || q) (lower_range c ∙ sym (member-run_of c b'a' 26)) u
      ∙ sym (member-append c lower (upper ++ tail)) in
    or_right (leb b'0' c && leb c b'9') (leb b'a' c && leb c b'z') (leb b'A' c && leb c b'Z')
      (c == b'_') (c == b'`')
    ∙ ap₂ (λ (p q : Bool). p || q) (digit_range c ∙ sym (member-run_of c b'0' 10)) l
    ∙ sym (member-append c digits (lower ++ upper ++ tail))

bad_char-none : (s : Text) → bad_char s ≡ none → Lacks is_strange s
unfolding bad_char
bad_char-none [] h = tt
bad_char-none (c ∷ s) h = elim (Bool-cases (is_ident_char c)) [
  | inl t ↦ (ap not (sym (is_ident_char-member c) ∙ t), bad_char-none s (ground arith))
  | inr f ↦ absurd (ground arith)
]

-- `r` begins at the first byte of `s` that no identifier holds.
pub record BadAt (s r : Text) : Type 0 where
  pub good : Text
  pub bad : ℕ
  pub rest : Text
  pub at : s ≡ good ++ r
  pub head : r ≡ bad ∷ rest
  pub not_ident : is_strange bad ≡ true
  pub all_ident : Lacks is_strange good

bad_char-some : (s r : Text) → bad_char s ≡ some r → BadAt s r
unfolding bad_char
bad_char-some [] r h = absurd (ground arith)
bad_char-some (c ∷ s) r h = elim (Bool-cases (is_ident_char c)) [
  | inl t ↦
      let b = bad_char-some s r (ground arith) in
      record {
        good = c ∷ b.good;
        bad = b.bad;
        rest = b.rest;
        at = ap (λ (x : Text). c ∷ x) b.at;
        head = b.head;
        not_ident = b.not_ident;
        all_ident = (ap not (sym (is_ident_char-member c) ∙ t), b.all_ident);
      }
  | inr f ↦ record {
    good = [];
    bad = c;
    rest = s;
    at = ground arith;
    head = ground arith;
    not_ident = ap not (sym (is_ident_char-member c) ∙ f);
    all_ident = tt;
  }
]

-- What `strbadidnum` says of a string.
abbrev pub Verdict : (reads_all : Text → Bool) → Text → Option Text → Type 0
Verdict reads_all s none = (s ≢ []) × ((reads_all s ≡ true) ⊎ Lacks is_strange s)
Verdict reads_all s (some r) = ((s ≡ []) × (r ≡ [])) ⊎ ((reads_all s ≡ false) × BadAt s r)

-- `strbadidnum` returns NULL only for a nonempty string that strtoull reads to its end or that has
-- only digits, letters, underscores and backquotes. Otherwise it returns the NUL of the empty
-- string, or, in a string that strtoull does not read to its end, the first byte that is none of
-- these.
pub strbadidnum_lem :
    (reads_all : Text → Bool) (s : Text) → Verdict reads_all s (strbadidnum reads_all s)
unfolding strbadidnum
strbadidnum_lem reads_all [] = inl (refl, refl)
strbadidnum_lem reads_all (c ∷ s) = elim (Bool-cases (reads_all (c ∷ s))) [
  | inl t ↦ rw (t, strbadidnum) ((λ e. cc), inl t)
  | inr f ↦ elim (Option-cases (bad_char (c ∷ s))) [
    | inl e ↦ rw (f, strbadidnum) (rw (e) ((λ z. cc), inr (bad_char-none (c ∷ s) e)))
    | inr (r, e) ↦ rw (f, strbadidnum) (rw (e) (inr (f, bad_char-some (c ∷ s) r e)))
  ]
]
