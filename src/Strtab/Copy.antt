-- ===== src/Strtab/Copy.antt =====
-- dt_strtab.c: a string is copied behind what is there, or the table is as it was.
use dtrace_utils.Common.{
  ◌+◌, ℕ, zero, suc, ◌-◌, ◌≤◌, ◌<◌, min, ◌≡◌, ◌≢◌, refl, sym, ap, ◌∙◌, inl, inr, Bool, true, false,
  some, List, [], ◌∷◌, ◌++◌, append-nil, append_assoc, ◌==◌, ==_iff, length, length-append,
  length-take, length-drop, take, drop, arith, Bool-cases,
}
use dtrace_utils.Strtab.{
  Strtab, nbufs, grow, resid, fill, copy_loop, undo, if_copied, copyin, write_loop, written,
}
use dtrace_utils.Strtab.Buffers.{
  joined, contents, AllFull, IsPacked, Extends, contents_lem, take-drop, AllFull-append,
  Extends-refl, fill-Extends, grow-Extends, undo_lem,
}

-- Memory for every buffer that `u` has and `t` had not was given, or it was refused for one.
abbrev pub Given : (ok : ℕ → Bool) → Strtab → Strtab → Type 0
Given ok t u = (i : ℕ) → nbufs t ≤ i → i < nbufs u → ok i ≡ true

abbrev pub Refused : (ok : ℕ → Bool) → Strtab → Type 0
Refused ok t = (i : ℕ) × (nbufs t ≤ i) × (ok i ≡ false)

-- What the loop gives.
abbrev Copied : (ok : ℕ → Bool) → Strtab → List ℕ → Bool × Strtab → Type 0
Copied ok t str (true, u) =
    Extends t u × IsPacked u × (contents u ≡ contents t ++ str) × Given ok t u
Copied ok t str (false, u) = Extends t u × Refused ok t

-- From a table with room in the last buffer.
fill-Copied :
    (ok : ℕ → Bool) (k : ℕ) (str : List ℕ) (t : Strtab) (r : Bool × Strtab)
    → Copied ok (fill k str t) (drop k str) r
    → Copied ok t str r
unfolding fill
fill-Copied ok k str t (false, u) (c, f) = (fill-Extends k str t u c, f)
fill-Copied ok k str t (true, u) (e, p, c, g) = (
  fill-Extends k str t u e,
  p,
  c
      ∙ ap (λ (l : List ℕ). l ++ drop k str)
          (contents_lem (fill k str t) ∙ sym (append_assoc (joined t.full) t.cur (take k str)))
      ∙ append_assoc (joined t.full ++ t.cur) (take k str) (drop k str)
      ∙ ap (λ (l : List ℕ). (joined t.full ++ t.cur) ++ l) (take-drop k str)
      ∙ ap (λ (l : List ℕ). l ++ str) (sym (contents_lem t)),
  g,
)

nbufs-grow : (t : Strtab) → nbufs (grow t) ≡ nbufs t + 1
unfolding grow
nbufs-grow t = ap (λ (n : ℕ). n + 1) (length-append t.full (t.cur ∷ []))

grow-Given :
    (ok : ℕ → Bool) (t u : Strtab) → ok (nbufs t) ≡ true → Given ok (grow t) u → Given ok t u
grow-Given ok t u h g i a b = elim (Bool-cases (i == nbufs t)) [
  | inl e ↦ ap ok ((==_iff i (nbufs t)).0 e) ∙ h
  | inr e ↦ g i (ground (arith, nbufs-grow t)) b
]

grow-Copied :
    (ok : ℕ → Bool) (str : List ℕ) (t : Strtab) (r : Bool × Strtab)
    → ok (nbufs t) ≡ true
    → Copied ok (grow t) str r
    → Copied ok t str r
unfolding grow
grow-Copied ok str t (false, u) m (c, (i, l, f)) =
    (grow-Extends t u c, (i, omega (arith, nbufs-grow t, l), f))
grow-Copied ok str t (true, u) m (e, p, c, g) = (
  grow-Extends t u e,
  p,
  c
      ∙ ap (λ (l : List ℕ). l ++ str)
          (contents_lem (grow t) ∙ append-nil (joined (t.full ++ (t.cur ∷ [])))),
  grow-Given ok t u m g,
)

abbrev Result : ℕ → (ℕ → Bool) → List ℕ → Strtab → Strtab → List ℕ → Type 0
Result n ok rest t' t str =
    (r : Bool × Strtab) × (copy_loop n ok rest t' ≡ some r) × Copied ok t str r

fill-IsPacked :
    (k : ℕ) (str : List ℕ) (t : Strtab)
    → IsPacked t
    → k ≤ t.bufsz - length t.cur
    → IsPacked (fill k str t)
unfolding fill
fill-IsPacked k str t (p, f, l) h =
    (p, f, omega (arith, length-append t.cur (take k str), length-take k str))

grow-IsPacked : (t : Strtab) → IsPacked t → length t.cur ≡ t.bufsz → IsPacked (grow t)
unfolding grow
grow-IsPacked t (p, f, l) h = (p, AllFull-append t.bufsz t.full t.cur f h, omega arith)

loop-Copied :
    (n : ℕ) (ok : ℕ → Bool) (str : List ℕ) (t : Strtab)
    → IsPacked t
    → length str ≤ n
    → Result n ok str t t str
unfolding copy_loop resid
loop-Copied n ok [] t p h = (
  (true, t),
  refl,
  (Extends-refl t, p, sym (append-nil (contents t)), λ i a b. absurd (omega arith)),
)
loop-Copied zero ok (c ∷ str) t p h = absurd (omega arith)
loop-Copied (suc n) ok (c ∷ str) t p h =
    let (pos_size, f, l) = p in
    elim (Bool-cases (length t.cur == t.bufsz)) [
      | inr z ↦
          let k = min (resid t) (length (c ∷ str)) in
          let ne : length t.cur ≢ t.bufsz = ground arith in
          let b : k ≤ t.bufsz - length t.cur = omega arith in
          let d : length (drop k (c ∷ str)) ≤ n = omega (arith, length-drop k (c ∷ str)) in
          let (r, e, q) =
            loop-Copied n ok (drop k (c ∷ str)) (fill k (c ∷ str) t)
              (fill-IsPacked k (c ∷ str) t p b) d in
          (r, rw (copy_loop, z) e, fill-Copied ok k (c ∷ str) t r q)
      | inl z ↦ elim (Bool-cases (ok (nbufs t))) [
        | inr m ↦
            ((false, t), rw (copy_loop, z, m) refl, (Extends-refl t, (nbufs t, omega arith, m)))
        | inl m ↦
            let u = grow t in
            let k = min (resid u) (length (c ∷ str)) in
            let full = (==_iff (length t.cur) t.bufsz).0 z in
            let pu = grow-IsPacked t p full in
            let b : k ≤ u.bufsz - length u.cur = omega arith in
            let d : length (drop k (c ∷ str)) ≤ n = omega (arith, length-drop k (c ∷ str)) in
            let (r, e, q) =
              loop-Copied n ok (drop k (c ∷ str)) (fill k (c ∷ str) u)
                (fill-IsPacked k (c ∷ str) u pu b) d in
            (
              r,
              rw (copy_loop, z, m) e,
              grow-Copied ok (c ∷ str) t r m (fill-Copied ok k (c ∷ str) u r q),
            )
      ]
    ]

write_loop_lem :
    (n : ℕ) (bs : List (List ℕ)) (c out : List ℕ)
    → 0 < n
    → AllFull n bs
    → write_loop (bs ++ (c ∷ [])) out ≡ out ++ joined (bs ++ (c ∷ []))
unfolding write_loop
write_loop_lem n [] [] out h f = sym (append-nil out)
write_loop_lem n [] (x ∷ c) out h f =
    let z : (length (x ∷ c) == 0) ≡ false = ground arith in
    rw (z) (sym (ap (λ (l : List ℕ). out ++ l) (append-nil (x ∷ c))))
write_loop_lem n ([] ∷ bs) c out h (e, f) = absurd (omega arith)
write_loop_lem n ((x ∷ b) ∷ bs) c out h (e, f) =
    let z : (length (x ∷ b) == 0) ≡ false = ground arith in
    let q : write_loop (bs ++ (c ∷ [])) (out ++ (x ∷ b))
        ≡ out ++ ((x ∷ b) ++ joined (bs ++ (c ∷ []))) =
      write_loop_lem n bs c (out ++ (x ∷ b)) h f
      ∙ append_assoc out (x ∷ b) (joined (bs ++ (c ∷ []))) in
    rw (z) q

written_lem : (t : Strtab) → IsPacked t → written t ≡ contents t
unfolding written
written_lem t (p, f, l) = write_loop_lem t.bufsz t.full t.cur [] p f

-- What a copy gives: the string behind what was there, or the table as it was.
abbrev pub Outcome : (ok : ℕ → Bool) → Strtab → List ℕ → Bool × Strtab → Type 0
Outcome ok t str (true, u) = IsPacked u × (written u ≡ written t ++ str) × Given ok t u
Outcome ok t str (false, u) = (u ≡ t) × Refused ok t

Copied-Outcome :
    (ok : ℕ → Bool) (t : Strtab) (str : List ℕ) (r : Bool × Strtab)
    → IsPacked t
    → Copied ok t str r
    → Outcome ok t str (if_copied (r.0) (r.1) (undo (nbufs t) (length t.cur) (r.1)))
Copied-Outcome ok t str (true, u) w (e, p, c, g) =
    (p, written_lem u p ∙ c ∙ ap (λ (l : List ℕ). l ++ str) (sym (written_lem t w)), g)
Copied-Outcome ok t str (false, u) w (e, f) = (undo_lem t u e, f)

-- Copying a string to a table whose buffers are full except for the last ends within as many rounds
-- as the string has bytes, whatever memory is given. Either dt_strtab_write then gives what it gave
-- before and the string behind it, all buffers but the last are full again, and memory was given
-- for every buffer that is new; or memory was refused for a buffer behind those that there were,
-- and the table is exactly as it was.
pub copyin-Outcome :
    (n : ℕ) (ok : ℕ → Bool) (str : List ℕ) (t : Strtab)
    → IsPacked t
    → length str ≤ n
    → (r : Bool × Strtab) × (copyin n ok str t ≡ some r) × Outcome ok t str r
unfolding copyin
copyin-Outcome n ok str t p h =
    let (r, e, c) = loop-Copied n ok str t p h in
    (
      if_copied (r.0) (r.1) (undo (nbufs t) (length t.cur) (r.1)),
      rw (copyin, e) refl,
      Copied-Outcome ok t str r p c,
    )
