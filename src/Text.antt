-- ===== src/Text.antt =====
-- libdtrace/dt_string.c: hashing, escape sequences, and the tests and searches on names.
--
-- A string is the list of its bytes, 0 to 255, up to the terminating NUL; `char` is signed, so
-- a byte from 128 on stands for a negative value. `strtoull` and `strstr` are parameters.
pub mod Escape
pub mod Names
mod Tests
use Prim.Native.Char.{code}
use Prim.Native.String.{String}
use mathlib.Core.Option
use dtrace_utils.Common.{
  ℕ, zero, suc, ◌+◌, ◌-◌, ◌*◌, ◌/◌, ◌%◌, ◌^◌, ◌<◌, Bool, true, false, ◌&&◌, ◌||◌, not, Option, none,
  some, List, [], ◌∷◌, ◌++◌, bit_and, bit_xor, ltb, leb, ◌==◌, if◌then◌else◌, length, drop,
}

abbrev pub Text : Type 0
Text = List ℕ

-- The bytes of an ASCII literal.
abbrev pub codes : String → Text
codes String.[] = []
codes (String.◌∷◌ c s) = code c ∷ codes s

-- `(hval << 4) + *p` for a signed character, in 32 bits.
pub hash_step : ℕ → ℕ → ℕ
hash_step hval c =
    let h = (hval * 16 + (if ltb c 128 then c else 2 ^ 32 + c - 256)) % 2 ^ 32 in
    let g = bit_and h 0xf000_0000 in if g == 0 then h else bit_xor (bit_xor h (g / 2 ^ 24)) g

unfoldable pub str2hval : Text → ℕ → ℕ
unfolding hash_step
str2hval [] hval = hval
str2hval (c ∷ p) hval = str2hval p (hash_step hval c)

pub is_octal : ℕ → Bool
is_octal c = leb b'0' c && leb c b'7'

-- The second and third digit of an octal escape: the value so far, and what is left to read.
pub octal_third : ℕ → Text → ℕ × Text
octal_third v [] = (v, [])
octal_third v (c ∷ s) = if is_octal c then ((v * 8 + c - b'0') % 256, s) else (v, c ∷ s)

pub octal_second : ℕ → Text → ℕ × Text
octal_second v [] = (v, [])
octal_second v (c ∷ s) = if is_octal c then octal_third (v * 8 + c - b'0') s else (v, c ∷ s)

-- The loop over hexadecimal digits; `x` is an int.
pub hex_run : ℕ → Text → ℕ × Text
hex_run x [] = (x % 256, [])
hex_run x (c ∷ s) =
    if leb b'0' c && leb c b'9'
    then hex_run ((x * 16 + c - b'0') % 2 ^ 32) s
    else if leb b'a' c && leb c b'f'
    then hex_run ((x * 16 + c - b'a' + 10) % 2 ^ 32) s
    else if leb b'A' c && leb c b'F'
    then hex_run ((x * 16 + c - b'A' + 10) % 2 ^ 32) s
    else (x % 256, c ∷ s)

-- What the `switch` does with the character behind a backslash: the bytes written, and the rest.
pub escape_case : ℕ → Text → Text × Text
unfolding is_octal octal_third octal_second hex_run
escape_case c s =
    if is_octal c
    then (let (v, rest) = octal_second (c - b'0') s in (v ∷ [], rest))
    else if c == b'a'
    then (7 ∷ [], s)
    else if c == b'b'
    then (8 ∷ [], s)
    else if c == b'f'
    then (12 ∷ [], s)
    else if c == b'n'
    then (10 ∷ [], s)
    else if c == b'r'
    then (13 ∷ [], s)
    else if c == b't'
    then (9 ∷ [], s)
    else if c == b'v'
    then (11 ∷ [], s)
    else if c == b'x'
    then (let (x, rest) = hex_run 0 s in (x ∷ [], rest))
    else if (c == b'"') || (c == b'\\')
    then (c ∷ [], s)
    else (b'\\' ∷ c ∷ [], s)

-- The loop of stresc2chr; every round reads a character, so the length of the string is enough
-- fuel.
pub unescape : ℕ → (esc : Bool) → Text → Option Text
unescape n esc [] = some []
unescape zero esc (c ∷ s) = none
unescape (suc n) true (c ∷ s) =
    let (out, rest) = escape_case c s in Option.map (λ t. out ++ t) (unescape n false rest)
unescape (suc n) false (c ∷ s) =
    if c == b'\\' then unescape n true s else Option.map (λ t. c ∷ t) (unescape n false s)

pub stresc2chr : Text → Option Text
unfolding unescape escape_case
stresc2chr s = unescape (length s) false s

-- The letter of a two-character escape sequence.
pub short_escape : ℕ → Option ℕ
short_escape c =
    if c == 0
    then some b'0'
    else if c == 7
    then some b'a'
    else if c == 8
    then some b'b'
    else if c == 12
    then some b'f'
    else if c == 10
    then some b'n'
    else if c == 13
    then some b'r'
    else if c == 9
    then some b't'
    else if c == 11
    then some b'v'
    else if (c == b'"') || (c == b'\\')
    then some c
    else none

-- `c < '!' || c > '~'`, for a signed character that is not a space.
pub is_unprintable : ℕ → Bool
is_unprintable c = not (c == b' ') && (ltb c b'!' || ltb b'~' c)

-- The bytes that the first loop counts on top of the string's own.
pub additional : Text → ℕ
unfolding short_escape is_unprintable
additional [] = 0
additional (c ∷ s) =
    let rest = additional s in
    elim (short_escape c) [ some e ↦ rest + 1 | none ↦ if is_unprintable c then rest + 3 else rest ]

pub escape_one : ℕ → Text
unfolding short_escape is_unprintable
escape_one c = elim (short_escape c) [
  | some e ↦ b'\\' ∷ e ∷ []
  | none ↦
      if is_unprintable c
      then b'\\' ∷ (c / 64 % 4 + b'0') ∷ (c / 8 % 8 + b'0') ∷ (c % 8 + b'0') ∷ []
      else c ∷ []
]

-- The second loop: it stops behind the first NUL.
pub escaped : Text → Text
unfolding escape_one
escaped [] = []
escaped (c ∷ s) = let rest = escaped s in escape_one c ++ (if c == 0 then [] else rest)

-- NULL where malloc gives no memory.
unfoldable pub strchr2esc : (malloc_ok : Bool) → Text → Option Text
unfolding escaped
strchr2esc true s = some (escaped s)
strchr2esc false s = none

-- The part behind the last '/', where `strrchr` finds one.
pub strrchr_slash : Text → Option Text
strrchr_slash [] = none
strrchr_slash (c ∷ s) = elim (strrchr_slash s) [
  | some r ↦ some r
  | none ↦ if c == b'/' then some (c ∷ s) else none
]

pub strbasename : Text → Text
unfolding strrchr_slash
strbasename s = elim (strrchr_slash s) [ none ↦ s | some p ↦ drop 1 p ]

pub strisglob : Text → Bool
strisglob [] = false
strisglob (c ∷ s) =
    if (c == b'[') || (c == b'?') || (c == b'*') || (c == b'\\') then true else strisglob s

-- The memmove takes the second underscore out; the loop goes on behind the hyphen.
pub strhyphenate : Text → Text
strhyphenate [] = []
strhyphenate (c ∷ []) = c ∷ []
strhyphenate (c ∷ d ∷ s) =
    let short = strhyphenate s in
    let long = strhyphenate (d ∷ s) in if (c == b'_') && (d == b'_') then b'-' ∷ short else c ∷ long

-- `isalnum` in the C locale, '_' and '`'.
pub is_ident_char : ℕ → Bool
is_ident_char c =
    (leb b'0' c && leb c b'9')
    || (leb b'a' c && leb c b'z')
    || (leb b'A' c && leb c b'Z')
    || (c == b'_')
    || (c == b'`')

pub bad_char : Text → Option Text
unfolding is_ident_char
bad_char [] = none
bad_char (c ∷ s) = if is_ident_char c then bad_char s else some (c ∷ s)

-- `reads_all s` says that strtoull(s, &p, 0) leaves errno 0 and stops at the NUL.
pub strbadidnum : (reads_all : Text → Bool) → Text → Option Text
unfolding bad_char
strbadidnum reads_all [] = some []
strbadidnum reads_all (c ∷ s) = if reads_all (c ∷ s) then none else bad_char (c ∷ s)

-- `strstr s needle` is the part of `s` from the first occurrence on. Every round goes one byte
-- behind the last occurrence, so the length of the string plus one is enough fuel.
pub strrstr_loop :
    ℕ
    → (strstr : Text → Text → Option Text) → (needle : Text) → Text
    → Option Text
    → Option (Option Text)
strrstr_loop zero strstr needle s prev_s = none
strrstr_loop (suc n) strstr needle s prev_s = elim (strstr s needle) [
  | none ↦ some prev_s
  | some [] ↦ none
  | some (c ∷ p) ↦ strrstr_loop n strstr needle p (some (c ∷ p))
]

pub strrstr : (strstr : Text → Text → Option Text) → (haystack needle : Text) → Option (Option Text)
unfolding strrstr_loop
strrstr strstr haystack needle = strrstr_loop (length haystack + 1) strstr needle haystack none
