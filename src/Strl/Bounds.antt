-- ===== src/Strl/Bounds.antt =====
-- strlcpy and strlcat: one after the other, in a buffer that may be too small.
use dtrace_utils.Common.{
  ℕ, zero, suc, ◌+◌, ◌-◌, ◌<◌, min, ◌≡◌, ◌≢◌, refl, sym, ap, ◌∙◌, false, List, [], ◌∷◌, ◌++◌, leb,
  ◌==◌, if◌then◌else◌, length, length-append, length-take, take, drop, take-length_append, arith,
}
use dtrace_utils.Strl.{copy_text, strlcpy, text_end, strlcat}

-- Bytes without a NUL.
abbrev pub HasNoNul : List ℕ → Type 0
HasNoNul [] = Unit
HasNoNul (c ∷ s) = (c ≢ 0) × HasNoNul s

abbrev nothing : List ℕ
nothing = []

take-HasNoNul : (n : ℕ) (s : List ℕ) → HasNoNul s → HasNoNul (take n s)
take-HasNoNul zero s h = tt
take-HasNoNul (suc n) [] h = tt
take-HasNoNul (suc n) (c ∷ s) (h, t) = (h, take-HasNoNul n s t)

take-append : (n : ℕ) (a b : List ℕ) → take n (a ++ b) ≡ take n a ++ take (n - length a) b
take-append zero [] b = refl
take-append (suc n) [] b =
    let e : suc n ≡ suc n - length nothing = omega arith in ap (λ (k : ℕ). take k b) e
take-append zero (x ∷ a) b =
    let e : 0 ≡ 0 - length (x ∷ a) = omega arith in ap (λ (k : ℕ). take k b) e
take-append (suc n) (x ∷ a) b =
    let e : n - length a ≡ suc n - length (x ∷ a) = omega arith in
    ap (λ (l : List ℕ). x ∷ l) (take-append n a b) ∙ ap (λ (k : ℕ). x ∷ (take n a ++ take k b)) e

take-min : (n : ℕ) (a : List ℕ) → take (min n (length a)) a ≡ take n a
take-min zero a = let e : min 0 (length a) ≡ 0 = omega arith in ap (λ (k : ℕ). take k a) e
take-min (suc n) [] =
    let e : min (suc n) (length nothing) ≡ 0 = omega arith in ap (λ (k : ℕ). take k []) e
take-min (suc n) (x ∷ a) =
    let e : min (suc n) (length (x ∷ a)) ≡ suc (min n (length a)) = omega arith in
    ap (λ (k : ℕ). take k (x ∷ a)) e ∙ ap (λ (l : List ℕ). x ∷ l) (take-min n a)

drop-nil : (n : ℕ) → drop n nothing ≡ nothing
drop-nil zero = refl
drop-nil (suc n) = refl

drop-add : (m n : ℕ) (a : List ℕ) → drop n (drop m a) ≡ drop (m + n) a
drop-add zero n a = let e : n ≡ 0 + n = omega arith in ap (λ (k : ℕ). drop k a) e
drop-add (suc m) n [] = drop-nil n ∙ sym (drop-nil (suc m + n))
drop-add (suc m) n (x ∷ a) =
    let e : suc (m + n) ≡ suc m + n = omega arith in
    drop-add m n a ∙ ap (λ (k : ℕ). drop k (x ∷ a)) e

drop-append : (a b : List ℕ) (n : ℕ) → drop (length a + n) (a ++ b) ≡ drop n b
drop-append [] b n = let e : length nothing + n ≡ n = omega arith in ap (λ (k : ℕ). drop k b) e
drop-append (x ∷ a) b n =
    let e : length (x ∷ a) + n ≡ suc (length a + n) = omega arith in
    ap (λ (k : ℕ). drop k (x ∷ (a ++ b))) e ∙ drop-append a b n

text_end_lem :
    (n : ℕ) (x r : List ℕ) → HasNoNul x → length x < n → text_end n (x ++ 0 ∷ r) ≡ length x
unfolding text_end
text_end_lem zero x r h l = absurd (omega arith)
text_end_lem (suc n) [] r h l = refl
text_end_lem (suc n) (c ∷ x) r (h, t) l =
    let z : (c == 0) ≡ false = ground arith in
    let e = text_end_lem n x r t (omega arith) in rw (z) (omega arith)

-- How much is copied.
copied_lem :
    (size at n : ℕ)
    → at < size
    → (if leb size (at + n) then size - at - 1 else n) ≡ min (size - 1 - at) n
copied_lem size at n l = ground arith

strlcpy_lem :
    (dst src : List ℕ) (size : ℕ)
    → 0 < size
    → (strlcpy dst src size).0
      ≡ take (size - 1) src ++ 0 ∷ drop (min (size - 1) (length src) + 1) dst
unfolding strlcpy copy_text
strlcpy_lem dst src size l =
    let z : (size == 0) ≡ false = ground arith in
    let k : (if leb size (length src) then size - 1 else length src) ≡ min (size - 1) (length src) =
      ground arith in
    let t = take-min (size - 1) src in
    let n = min (size - 1) (length src) in
    let e : 0 + n + 1 ≡ n + 1 = omega arith in rw (z, k) (rw (t, e) refl)

strlcat_lem :
    (x r src : List ℕ) (size : ℕ)
    → HasNoNul x
    → length x < size
    → strlcat (x ++ 0 ∷ r) src size ≡ (
      x ++ take (size - 1 - length x) src ++ 0 ∷ drop (min (size - 1 - length x) (length src)) r,
      length x + length src,
    )
unfolding strlcat copy_text
strlcat_lem x r src size h l =
    let e = text_end_lem size x r h l in
    let z : (size == length x) ≡ false = ground arith in
    let k = copied_lem size (length x) (length src) l in
    let t = take-min (size - 1 - length x) src in
    let n = min (size - 1 - length x) (length src) in
    let c = take-length_append x (0 ∷ r) in
    let a : length x + n + 1 ≡ length x + suc n = omega arith in
    let d : drop (length x + n + 1) (x ++ 0 ∷ r) ≡ drop n r =
      ap (λ (i : ℕ). drop i (x ++ 0 ∷ r)) a ∙ drop-append x (0 ∷ r) (suc n) in
    rw (e, z, k, t, c, d) refl

-- Copying `a` to a buffer of `size` bytes, at least one, with strlcpy and appending `b` with
-- strlcat leaves in memory, also behind the buffer, what strlcpy leaves for the two strings as one,
-- whether and wherever the buffer is too small. The value of strlcat is the length of `b` and of as
-- much of `a` as there was room for.
pub strlcat-strlcpy :
    (dst a b : List ℕ) (size : ℕ)
    → HasNoNul a
    → 0 < size
    → strlcat ((strlcpy dst a size).0) b size
      ≡ ((strlcpy dst (a ++ b) size).0, min (size - 1) (length a) + length b)
strlcat-strlcpy dst a b size h l =
    let m = size - 1 in
    let x = take m a in
    let s = length-take m a in
    let k : m - length x ≡ m - length a = omega arith in
    let r = drop (min m (length a) + 1) dst in
    let e = strlcpy_lem dst a size l in
    let f = strlcpy_lem dst (a ++ b) size l in
    let g = strlcat_lem x r b size (take-HasNoNul m a h) (omega arith) in
    let n = min (m - length x) (length b) in
    let i : min m (length a) + 1 + n ≡ min m (length (a ++ b)) + 1 =
      omega (arith, length-append a b) in
    let d : drop n r ≡ drop (min m (length (a ++ b)) + 1) dst =
      drop-add (min m (length a) + 1) n dst ∙ ap (λ (j : ℕ). drop j dst) i in
    let ta : x ++ take (m - length x) b ≡ take m (a ++ b) =
      ap (λ (j : ℕ). x ++ take j b) k ∙ sym (take-append m a b) in
    let q : x ++ take (m - length x) b ++ 0 ∷ drop n r ≡ (strlcpy dst (a ++ b) size).0 =
      rw (ta, d) (sym f) in
    let z : length x + length b ≡ min m (length a) + length b = omega arith in
    rw (e) (g ∙ rw (q, z) refl)
