-- ===== src/Regset/Args.antt =====
-- dt_regset_xalloc_args and dt_regset_free_args: all five argument registers, or none of them.
use dtrace_utils.Common.{
  ℕ, zero, suc, ◌+◌, ◌≤◌, ◌<◌, ◌≡◌, refl, inl, inr, ◌&&◌, arith, ltb, leb, Bool-cases,
  if◌then◌else◌,
}
use dtrace_utils.Regset.{
  Regset, Run, Status, ok, done, in_use, unwind, xalloc_loop, xalloc_args, free_loop, free_args,
}
use dtrace_utils.Regset.Levels.{
  IsValid, level, Raised, raise, lower, xalloc-full, xalloc-raise, raise-Raised, free-lower,
  lower-Raised,
}

-- One more use for the registers from 1 up to `reg`, not included.
abbrev pub below : ℕ → ℕ → ℕ
below reg r = if leb 1 r && ltb r reg then 1 else 0

-- `t` is `s` with the registers from 1 to `reg - 1` taken once more.
pub record Taken (reg : ℕ) (s t : Regset) : Type 0 where
  pub valid : IsValid t
  pub size : t.size ≡ s.size
  pub levels : (r : ℕ) → level t r ≡ level s r + below reg r

Taken-step :
    (reg : ℕ) (s t u : Regset) → 0 < reg → Taken reg s t → Raised reg t u → Taken (suc reg) s u
Taken-step reg s t u h k p = record {
  valid = p.valid;
  size = ground (arith, k.size, p.size);
  levels = λ r. ground (arith, k.levels r, p.levels r);
}

Taken-back :
    (reg : ℕ) (s t u : Regset)
    → 0 < reg
    → Taken (suc reg) s t
    → Raised reg u t
    → IsValid u
    → Taken reg s u
Taken-back reg s t u h k p v = record {
  valid = v;
  size = ground (arith, k.size, p.size);
  levels = λ r. ground (arith, k.levels r, p.levels r);
}

-- The rollback gives back exactly what the loop had taken, and meets no failed assertion.
unwind-Taken :
    (reg : ℕ) (s t : Regset)
    → 0 < reg
    → reg ≤ s.size
    → Taken reg s t
    → (u : Regset) × (unwind reg t ≡ ok tt u) × Taken 1 s u
unfolding unwind
unwind-Taken zero s t h b k = absurd (omega arith)
unwind-Taken (suc zero) s t h b k = (t, refl, k)
unwind-Taken (suc (suc reg)) s t h b k =
    let used = k.levels (suc reg) in
    let (down, v) = lower-Raised t k.valid (suc reg) (ground (arith, used)) in
    let (u, e, k') =
      unwind-Taken (suc reg) s (lower (suc reg) t) (omega arith) (omega arith)
        (Taken-back (suc reg) s t (lower (suc reg) t) (omega arith) k down v) in
    (
      u,
      rw (free-lower t k.valid (suc reg) (ground (arith, k.size)) (ground (arith, used)), unwind) e,
      k',
    )

-- The two outcomes of a run: all registers below `last` are taken, or one of them was in use
-- twice already and every level is as it was before.
pub data Outcome (last : ℕ) (s : Regset) (run : Run Status) : Type 0 where
  taken : (t : Regset) → run ≡ ok done t → Taken last s t → Outcome last s run
  refused :
      (t : Regset) (r : ℕ)
      → run ≡ ok in_use t
      → Taken 1 s t
      → 0 < r
      → r < last
      → level s r ≡ 2
      → Outcome last s run

xalloc_loop-Outcome :
    (n reg last : ℕ) (s t : Regset)
    → reg + n ≡ last
    → 0 < reg
    → last ≤ s.size
    → IsValid s
    → Taken reg s t
    → Outcome last s (xalloc_loop n reg t)
unfolding xalloc_loop
xalloc_loop-Outcome zero reg last s t e h b v k =
    let e' : reg ≡ last = omega arith in taken t refl (rw e' at k)
xalloc_loop-Outcome (suc n) reg last s t e h b v k = elim (Bool-cases (ltb (level t reg) 2)) [
  | inl room ↦
      let lt : level t reg < 2 = ground arith in
      rw (xalloc-raise t k.valid reg (ground (arith, k.size)) lt, xalloc_loop)
        (xalloc_loop-Outcome n (suc reg) last s (raise reg t) (omega arith) (omega arith) b v
          (Taken-step reg s t (raise reg t) h k (raise-Raised t k.valid reg lt)))
  | inr full ↦
      let two : level t reg ≡ 2 = ground arith in
      let (u, e', k') = unwind-Taken reg s t h (omega arith) k in
      refused u reg (rw (xalloc-full t k.valid reg (ground (arith, k.size)) two, xalloc_loop, e'))
        k' h (omega arith) (ground (arith, k.levels reg, two))
]

-- On a valid set with room for %r1 to %r5, `dt_regset_xalloc_args` meets no failed assertion. It
-- returns 0 with the level of each of these five raised by one and no other level changed, or -1
-- because one of the five was in use and spilled, with every level as it was before.
pub xalloc_args_lem : (s : Regset) → IsValid s → 5 < s.size → Outcome 6 s (xalloc_args s)
unfolding xalloc_args
xalloc_args_lem s v h =
    xalloc_loop-Outcome 5 1 6 s s refl (omega arith) (omega arith) v
      (record { valid = v; size = refl; levels = λ r. ground arith })

-- `s` has one more use of the registers from `reg` up to `last - 1` than `u`.
record Left (reg last : ℕ) (s u : Regset) : Type 0 where
  valid : IsValid s
  size : s.size ≡ u.size
  levels : (r : ℕ) → level s r ≡ level u r + (if leb reg r && ltb r last then 1 else 0)

Left-step :
    (reg last : ℕ) (s t u : Regset)
    → reg < last
    → Left reg last s u
    → Raised reg t s
    → IsValid t
    → Left (suc reg) last t u
Left-step reg last s t u h k p v = record {
  valid = v;
  size = ground (arith, k.size, p.size);
  levels = λ r. ground (arith, k.levels r, p.levels r);
}

free_loop-Left :
    (n reg last : ℕ) (s u : Regset)
    → reg + n ≡ last
    → last ≤ s.size
    → Left reg last s u
    → (t : Regset) × (free_loop n reg s ≡ ok tt t) × Left last last t u
unfolding free_loop
free_loop-Left zero reg last s u e b k = let e' : reg ≡ last = omega arith in (s, refl, rw e' at k)
free_loop-Left (suc n) reg last s u e b k =
    let used = k.levels reg in
    let (down, v) = lower-Raised s k.valid reg (ground (arith, used)) in
    let (t, e', k') =
      free_loop-Left n (suc reg) last (lower reg s) u (omega arith) (ground (arith, down.size))
        (Left-step reg last s (lower reg s) u (omega arith) k down v) in
    (t, rw (free-lower s k.valid reg (omega arith) (ground (arith, used)), free_loop) e', k')

-- After a call of `dt_regset_xalloc_args` that returned 0, `dt_regset_free_args` meets no failed
-- assertion, and every bit of both maps is then as it was before the two calls.
pub free_args-xalloc_args :
    (s t : Regset)
    → IsValid s
    → 5 < s.size
    → xalloc_args s ≡ ok done t
    → (u : Regset) × (free_args t ≡ ok tt u)
      × ((r : ℕ) → (u.active r ≡ s.active r) × (u.spilled r ≡ s.spilled r))
unfolding free_args
free_args-xalloc_args s t v h e = elim (xalloc_args_lem s v h) [
  | refused t' r e' k p q full ↦ absurd (cc e')
  | taken t' e' k' ↦
      let same : t ≡ t' = ground (arith, e') in
      let k : Taken 6 s t = rw (← same) at k' in
      let (u, e'', l) =
        free_loop-Left 5 1 6 t s refl (ground (arith, k.size))
          (record { valid = k.valid; size = k.size; levels = k.levels }) in
      (u, e'', λ r. ground (arith, l.levels r, v r, l.valid r))
]
