-- ===== src/Text/Tests.antt =====
-- The string functions on concrete strings.
use dtrace_utils.Common.{◌≡◌, refl, true, false, some, Bool, [], ◌∷◌, arith}
use dtrace_utils.Text.{
  Text, codes, stresc2chr, strchr2esc, strbasename, strhyphenate, strisglob, strbadidnum, str2hval,
}
use dtrace_utils.Text.Escape.{IsText, stresc2chr-strchr2esc}
use dtrace_utils.Text.Names.{Verdict, strbadidnum_lem}

-- A letter, a quote, a newline, a digit behind an unprintable byte, and a byte above 127.
abbrev mixed : Text
mixed = b'a' ∷ b'"' ∷ 10 ∷ 1 ∷ b'7' ∷ 200 ∷ b'\\' ∷ []

mixed-IsText : IsText mixed
mixed-IsText = (
  omega arith,
  omega arith,
  (
    omega arith,
    omega arith,
    (
      omega arith,
      omega arith,
      (
        omega arith,
        omega arith,
        (omega arith, omega arith, (omega arith, omega arith, (omega arith, omega arith, tt))),
      ),
    ),
  ),
)

stresc2chr-strchr2esc_example :
    (t : Text) × (strchr2esc true mixed ≡ some t) × (stresc2chr t ≡ some mixed)
stresc2chr-strchr2esc_example = stresc2chr-strchr2esc mixed mixed-IsText

-- A strtoull that reads single digits.
abbrev one_digit : Text → Bool
one_digit (c ∷ []) = true
one_digit _ = false

strbadidnum_lem_example : Verdict one_digit (codes "a-b") (strbadidnum one_digit (codes "a-b"))
strbadidnum_lem_example = strbadidnum_lem one_digit (codes "a-b")

hyphenate_test : strhyphenate (codes "a___b__c") ≡ codes "a-_b-c"
unfolding strhyphenate
hyphenate_test = refl

-- A hexadecimal escape, an octal one that ends early, and an unknown one, which is kept.
escape_test : stresc2chr (codes "\\x41\\18\\q") ≡ some (65 ∷ 1 ∷ b'8' ∷ b'\\' ∷ b'q' ∷ [])
unfolding stresc2chr
escape_test = refl

basename_test : strbasename (codes "usr/lib/x") ≡ codes "x"
unfolding strbasename
basename_test = refl

glob_test : strisglob (codes "a*") ≡ true
unfolding strisglob
glob_test = refl

hash_test : str2hval (codes "dtrace") 0 ≡ 0x06bb_8795
unfolding str2hval
hash_test = refl
