-- ===== src/Text/Escape.antt =====
-- Reading back what strchr2esc writes, and the size of the buffer that it writes to.
use mathlib.Core.Option
use dtrace_utils.Common.{
  ℕ, zero, suc, ◌+◌, ◌*◌, ◌/◌, ◌%◌, ◌≤◌, ◌<◌, ◌≡◌, ◌≢◌, refl, ap, ◌∙◌, inl, inr, true, false, none,
  some, [], ◌∷◌, ◌++◌, arith, ◌==◌, Bool-cases, Option-cases, length, length-append,
}
use dtrace_utils.Text.{
  Text, is_octal, octal_third, octal_second, escape_case, unescape, stresc2chr, short_escape,
  is_unprintable, additional, escape_one, escaped, strchr2esc,
}

-- The bytes of a C string: none of them is NUL.
abbrev pub IsText : Text → Type 0
IsText [] = Unit
IsText (c ∷ s) = (0 < c) × (c < 256) × IsText s

escape_case-short :
    (c e : ℕ) (s : Text) → c ≢ 0 → short_escape c ≡ some e → escape_case e s ≡ (c ∷ [], s)
unfolding short_escape escape_case
escape_case-short c e s h k = ground arith

short_escape-ne : (c : ℕ) → short_escape c ≡ none → (c == b'\\') ≡ false
unfolding short_escape
short_escape-ne c h = ground arith

digit-octal : (d : ℕ) → d < 8 → is_octal (d + b'0') ≡ true
unfolding is_octal
digit-octal d h = ground arith

escape_case-octal :
    (a b d : ℕ) (s : Text)
    → a < 4
    → b < 8
    → d < 8
    → escape_case (a + b'0') ((b + b'0') ∷ (d + b'0') ∷ s) ≡ ((a * 64 + b * 8 + d) ∷ [], s)
escape_case-octal a b d s ha hb hd =
    unfold escape_case octal_second octal_third in
    rw (digit-octal a (omega arith), digit-octal b hb, digit-octal d hd)
      (ap (λ (v : ℕ). (v ∷ [], s)) (omega arith))

-- Two rounds read an escape sequence, one round any other character.
unescape_two :
    (c e : ℕ) (tail rest : Text) (n : ℕ)
    → escape_case e tail ≡ (c ∷ [], rest)
    → unescape (suc (suc n)) false (b'\\' ∷ e ∷ tail)
      ≡ Option.map (λ t. c ∷ t) (unescape n false rest)
unfolding unescape
unescape_two c e tail rest n k = rw k

unescape_one :
    (c : ℕ) (rest : Text) (n : ℕ)
    → (c == b'\\') ≡ false
    → unescape (suc n) false (c ∷ rest) ≡ Option.map (λ t. c ∷ t) (unescape n false rest)
unfolding unescape
unescape_one c rest n k = rw k

module _ (c : ℕ) (rest s : Text) (pos : 0 < c) (lt : c < 256)
    (ih : (m : ℕ) → length rest ≤ m → unescape m false rest ≡ some s) where
  read_two :
      (e : ℕ) (tail : Text) (n : ℕ)
      → escape_case e tail ≡ (c ∷ [], rest)
      → length rest + 2 ≤ n
      → unescape n false (b'\\' ∷ e ∷ tail) ≡ some (c ∷ s)
  read_two e tail zero k h = absurd (omega arith)
  read_two e tail (suc zero) k h = absurd (omega arith)
  read_two e tail (suc (suc n)) k h =
      unescape_two c e tail rest n k ∙ ap (λ o. Option.map (λ t. c ∷ t) o) (ih n (omega arith))

  read_one :
      (n : ℕ)
      → (c == b'\\') ≡ false
      → length rest + 1 ≤ n
      → unescape n false (c ∷ rest) ≡ some (c ∷ s)
  read_one zero k h = absurd (omega arith)
  read_one (suc n) k h =
      unescape_one c rest n k ∙ ap (λ o. Option.map (λ t. c ∷ t) o) (ih n (omega arith))

  unescape-escape_one :
      (n : ℕ)
      → length (escape_one c ++ rest) ≤ n
      → unescape n false (escape_one c ++ rest) ≡ some (c ∷ s)
  unfolding escape_one
  unescape-escape_one n = elim (Option-cases (short_escape c)) [
    | inr (e, k) ↦
        rw (k, escape_one)
          λ h. read_two e rest n (escape_case-short c e rest (omega arith) k) (omega arith)
    | inl k ↦ elim (Bool-cases (is_unprintable c)) [
      | inl u ↦
          rw (k, escape_one)
            (rw u λ h.
              read_two _ _ n
                (escape_case-octal (c / 64 % 4) (c / 8 % 8) (c % 8) rest (omega arith) (omega arith)
                    (omega arith)
                  ∙ ap (λ (v : ℕ). (v ∷ [], rest)) (omega arith))
                (omega arith))
      | inr u ↦ rw (k, escape_one) (rw u λ h. read_one n (short_escape-ne c k) (omega arith))
    ]
  ]

escaped-cons : (c : ℕ) (s : Text) → 0 < c → escaped (c ∷ s) ≡ escape_one c ++ escaped s
unfolding escaped
escaped-cons c s h = let f : (c == 0) ≡ false = ground arith in rw f

unescape-escaped :
    (s : Text) (n : ℕ) → IsText s → length (escaped s) ≤ n → unescape n false (escaped s) ≡ some s
unescape-escaped [] n h k = unfold escaped unescape in refl
unescape-escaped (c ∷ s) n (pos, lt, h) k = rw (escaped-cons c s pos) (
    unescape-escape_one c (escaped s) s pos lt (λ m. unescape-escaped s m h) n
      (omega (arith, k, ap length (escaped-cons c s pos))))

-- Where malloc gives memory, `stresc2chr` reads every string of nonzero bytes back from the escaped
-- form that `strchr2esc` gives it.
pub stresc2chr-strchr2esc :
    (s : Text) → IsText s → (t : Text) × (strchr2esc true s ≡ some t) × (stresc2chr t ≡ some s)
unfolding stresc2chr strchr2esc
stresc2chr-strchr2esc s h =
    (escaped s, refl, unescape-escaped s (length (escaped s)) h (omega arith))

length-escape_one :
    (c : ℕ) (s : Text) → length (escape_one c) + additional s ≡ 1 + additional (c ∷ s)
unfolding escape_one additional
length-escape_one c s = ground arith

escaped_fits :
    (s : Text)
    → (length (escaped s) ≤ length s + additional s)
      × (IsText s → length (escaped s) ≡ length s + additional s)
unfolding escaped
escaped_fits [] = unfold escaped additional in (omega arith, λ h. omega arith)
escaped_fits (c ∷ s) =
    let (le, eq) = escaped_fits s in
    let one = length-escape_one c s in
    (
      elim (Bool-cases (c == 0)) [
        | inl z ↦ rw (z, escaped) (omega (arith, length-append (escape_one c) [], one))
        | inr nz ↦
            rw (nz, escaped) (omega (arith, le, length-append (escape_one c) (escaped s), one))
      ],
      λ (pos, lt, h). omega (
        arith,
        ap length (escaped-cons c s pos),
        eq h,
        length-append (escape_one c) (escaped s),
        one,
      ),
    )

-- The escaped form fits the `n + addl` bytes that `strchr2esc` allocates next to the one for the
-- NUL, also where the bytes to convert hold a NUL.
pub length-escaped : (s : Text) → length (escaped s) ≤ length s + additional s
length-escaped s = (escaped_fits s).0

-- For a string of nonzero bytes the escaped form fills those `n + addl` bytes.
pub escaped-fills : (s : Text) → IsText s → length (escaped s) ≡ length s + additional s
escaped-fills s h = (escaped_fits s).1 h
