-- ===== src/Strtab/Buffers.antt =====
-- dt_strtab.c: tables that hold what another one holds, and the way back from them.
use dtrace_utils.Common.{
  ℕ, zero, suc, ◌-◌, ◌≤◌, ◌<◌, ◌≡◌, refl, sym, ap, ◌∙◌, List, [], ◌∷◌, ◌++◌, append-nil,
  append_assoc, length, take, drop, take-length_append, arith,
}
use dtrace_utils.Strtab.{Strtab, nbufs, all_bufs, grow, fill, nth_buf, undo}

-- All bytes, in order.
abbrev pub joined : List (List ℕ) → List ℕ
joined [] = []
joined (b ∷ bs) = b ++ joined bs

abbrev pub contents : Strtab → List ℕ
contents t = joined (all_bufs t)

abbrev pub AllFull : ℕ → List (List ℕ) → Type 0
AllFull n [] = Unit
AllFull n (b ∷ bs) = (length b ≡ n) × AllFull n bs

-- Every buffer but the last is full, and the last one is not exceeded.
abbrev pub IsPacked : Strtab → Type 0
IsPacked t = (0 < t.bufsz) × AllFull t.bufsz t.full × (length t.cur ≤ t.bufsz)

-- What was there is still there.
abbrev pub Extends : Strtab → Strtab → Type 0
Extends t u =
    (x : List ℕ) × (more : List (List ℕ)) × (all_bufs u ≡ t.full ++ ((t.cur ++ x) ∷ more))
    × (u.bufsz ≡ t.bufsz)
    × (u.nstrs ≡ t.nstrs)
    × (u.size ≡ t.size)

joined-append : (a b : List (List ℕ)) → joined (a ++ b) ≡ joined a ++ joined b
joined-append [] b = refl
joined-append (x ∷ a) b =
    ap (λ (l : List ℕ). x ++ l) (joined-append a b) ∙ sym (append_assoc x (joined a) (joined b))

pub contents_lem : (t : Strtab) → contents t ≡ joined t.full ++ t.cur
contents_lem t =
    joined-append t.full (t.cur ∷ []) ∙ ap (λ (l : List ℕ). joined t.full ++ l) (append-nil t.cur)

pub take-drop : (n : ℕ) (xs : List ℕ) → take n xs ++ drop n xs ≡ xs
take-drop zero xs = refl
take-drop (suc n) [] = refl
take-drop (suc n) (x ∷ xs) = ap (λ (l : List ℕ). x ∷ l) (take-drop n xs)

nth_buf-append :
    (bs : List (List ℕ)) (b : List ℕ) (cs : List (List ℕ))
    → nth_buf (bs ++ (b ∷ cs)) (length bs) ≡ b
nth_buf-append [] b cs = refl
nth_buf-append (x ∷ bs) b cs = nth_buf-append bs b cs

pub AllFull-append :
    (n : ℕ) (bs : List (List ℕ)) (b : List ℕ)
    → AllFull n bs
    → length b ≡ n
    → AllFull n (bs ++ (b ∷ []))
AllFull-append n [] b f e = (e, tt)
AllFull-append n (x ∷ bs) b (h, f) e = (h, AllFull-append n bs b f e)

pub Extends-refl : (t : Strtab) → Extends t t
Extends-refl t =
    ([], [], ap (λ (l : List ℕ). t.full ++ (l ∷ [])) (sym (append-nil t.cur)), refl, refl, refl)

pub fill-Extends : (k : ℕ) (str : List ℕ) (t u : Strtab) → Extends (fill k str t) u → Extends t u
unfolding fill
fill-Extends k str t u (x, more, e, f, g, h) = (
  take k str ++ x,
  more,
  e ∙ ap (λ (l : List ℕ). t.full ++ (l ∷ more)) (append_assoc t.cur (take k str) x),
  f,
  g,
  h,
)

pub grow-Extends : (t u : Strtab) → Extends (grow t) u → Extends t u
unfolding grow
grow-Extends t u (x, more, e, f, g, h) = (
  [],
  x ∷ more,
  e
      ∙ append_assoc t.full (t.cur ∷ []) (x ∷ more)
      ∙ ap (λ (l : List ℕ). t.full ++ (l ∷ (x ∷ more))) (sym (append-nil t.cur)),
  f,
  g,
  h,
)

-- Giving up leaves the table as it was.
pub undo_lem : (t u : Strtab) → Extends t u → undo (nbufs t) (length t.cur) u ≡ t
unfolding undo
undo_lem t u (x, more, e, f, g, h) =
    let n : nbufs t - 1 ≡ length t.full = omega arith in
    let a : take (nbufs t - 1) (all_bufs u) ≡ t.full =
      ap (λ (k : ℕ). take k (all_bufs u)) n
      ∙ ap (take (length t.full)) e
      ∙ take-length_append t.full ((t.cur ++ x) ∷ more) in
    let b : take (length t.cur) (nth_buf (all_bufs u) (nbufs t - 1)) ≡ t.cur =
      ap (λ (k : ℕ). take (length t.cur) (nth_buf (all_bufs u) k)) n
      ∙ ap (λ (l : List (List ℕ)). take (length t.cur) (nth_buf l (length t.full))) e
      ∙ ap (take (length t.cur)) (nth_buf-append t.full (t.cur ++ x) more)
      ∙ take-length_append t.cur x in
    cc
