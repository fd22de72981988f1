-- ===== src/Strl.antt =====
-- libport/strlcpy.c and libport/strlcat.c: bounded copying and appending.
--
-- `dst` is the memory from the destination on, `src` the bytes of the source before its NUL. The
-- results are the memory and the value returned.
pub mod Bounds
mod Tests
use dtrace_utils.Common.{
  ℕ, zero, suc, ◌+◌, ◌-◌, List, [], ◌∷◌, ◌++◌, leb, ◌==◌, if◌then◌else◌, length, take, drop,
}

-- memcpy(dst + at, src, copied); dst[at + copied] = '\0'.
unfoldable pub copy_text : (at copied : ℕ) → List ℕ → List ℕ → List ℕ
copy_text at copied src dst = take at dst ++ take copied src ++ 0 ∷ drop (at + copied + 1) dst

unfoldable pub strlcpy : List ℕ → List ℕ → ℕ → List ℕ × ℕ
unfolding copy_text
strlcpy dst src len =
    let slen = length src in
    let copied = if leb len slen then len - 1 else slen in
    if len == 0 then (dst, slen) else (copy_text 0 copied src dst, slen)

-- `while (left-- != 0 && *df != '\0') df++`: how far `df` goes.
unfoldable pub text_end : ℕ → List ℕ → ℕ
text_end zero df = 0
text_end (suc left) [] = 0
text_end (suc left) (c ∷ df) = let rest = text_end left df in if c == 0 then 0 else rest + 1

unfoldable pub strlcat : List ℕ → List ℕ → ℕ → List ℕ × ℕ
unfolding copy_text text_end
strlcat dst src dstsize =
    let l1 = text_end dstsize dst in
    let l2 = length src in
    let copied = if leb dstsize (l1 + l2) then dstsize - l1 - 1 else l2 in
    if dstsize == l1 then (dst, l1 + l2) else (copy_text l1 copied src dst, l1 + l2)
