-- ===== src/Cg/Pool.antt =====
-- dt_regset.c as a supply of free registers: taking one without a spill, and giving it back.
use dtrace_utils.Common.{
  ℕ, zero, suc, ◌+◌, ◌≤◌, ◌<◌, ◌≡◌, ◌≢◌, refl, sym, ◌∙◌, ap, inl, inr, Bool, true, false, some,
  ◌==◌, ==_iff, if◌then◌else◌, arith, Bool-cases,
}
use dtrace_utils.Regset.{Regset, Bitmap, ok, set_active, last_clear, alloc, free}
use dtrace_utils.Regset.Levels.{IsValid}

-- The clear bits below `n`.
unfoldable pub clear : Bitmap → ℕ → ℕ
clear m zero = 0
clear m (suc n) = if m n then clear m n else clear m n + 1

unfoldable pub frees : Regset → ℕ
unfolding clear
frees s = clear s.active s.size

-- `t` is `s` with one register taken, which was free and holds no spilled value.
pub record Took (reg : ℕ) (s t : Regset) : Type 0 where
  pub size : t.size ≡ s.size
  pub below : reg < s.size
  pub fresh : s.active reg ≡ false
  pub active : (j : ℕ) → t.active j ≡ (if j == reg then true else s.active j)
  pub spilled : (j : ℕ) → t.spilled j ≡ s.spilled j

pub record Alike (s t : Regset) : Type 0 where
  pub size : t.size ≡ s.size
  pub active : (j : ℕ) → t.active j ≡ s.active j
  pub spilled : (j : ℕ) → t.spilled j ≡ s.spilled j

pub Alike-refl : (s : Regset) → Alike s s
Alike-refl s = record { size = refl; active = λ j. refl; spilled = λ j. refl }

pub Took-Alike : (reg : ℕ) (s t u : Regset) → Took reg s t → Alike t u → Took reg s u
Took-Alike reg s t u a b = record {
  size = b.size ∙ a.size;
  below = a.below;
  fresh = a.fresh;
  active = λ j. b.active j ∙ a.active j;
  spilled = λ j. b.spilled j ∙ a.spilled j;
}

pub Alike-Took : (reg : ℕ) (s t u : Regset) → Alike s t → Took reg t u → Took reg s u
Alike-Took reg s t u a b = record {
  size = b.size ∙ a.size;
  below = omega (arith, a.size, b.below);
  fresh = sym (a.active reg) ∙ b.fresh;
  active = λ j. b.active j ∙ ap (λ (x : Bool). if j == reg then true else x) (a.active j);
  spilled = λ j. b.spilled j ∙ a.spilled j;
}

pub Took-IsValid : (reg : ℕ) (s t : Regset) → IsValid s → Took reg s t → IsValid t
Took-IsValid reg s t v a j h = ground (arith, v j, a.active j, a.spilled j)

pub Alike-IsValid : (s t : Regset) → IsValid s → Alike s t → IsValid t
Alike-IsValid s t v a j h = ground (arith, v j, a.active j, a.spilled j)

clear-same : (s t : Bitmap) (n : ℕ) → ((j : ℕ) → t j ≡ s j) → clear t n ≡ clear s n
unfolding clear
clear-same s t zero h = refl
clear-same s t (suc n) h = rw (h n, clear-same s t n h) refl

clear-other :
    (s t : Bitmap) (reg n : ℕ)
    → n ≤ reg
    → ((j : ℕ) → t j ≡ (if j == reg then true else s j))
    → clear t n ≡ clear s n
unfolding clear
clear-other s t reg zero l h = refl
clear-other s t reg (suc n) l h =
    let e : t n ≡ s n = ground (arith, h n) in rw (e, clear-other s t reg n (omega arith) h) refl

clear-taken :
    (s t : Bitmap) (reg n : ℕ)
    → reg < n
    → s reg ≡ false
    → ((j : ℕ) → t j ≡ (if j == reg then true else s j))
    → clear s n ≡ clear t n + 1
unfolding clear
clear-taken s t reg zero l f h = absurd (omega arith)
clear-taken s t reg (suc n) l f h = elim (Bool-cases (n == reg)) [
  | inl e ↦
      let q = (==_iff n reg).0 e in
      let a : s n ≡ false = rw (q) f in
      let b : t n ≡ true = h n ∙ rw (e) refl in
      rw (a, b) (ap (λ (k : ℕ). k + 1) (sym (clear-other s t reg n (omega arith) h)))
  | inr e ↦
      let q : n ≢ reg = ground arith in
      let b : t n ≡ s n = h n ∙ rw (e) refl in
      let r = clear-taken s t reg n (omega arith) f h in rw (b) (ground arith)
]

pub Took-frees : (reg : ℕ) (s t : Regset) → Took reg s t → frees s ≡ frees t + 1
unfolding frees
Took-frees reg s t a =
    clear-taken s.active t.active reg s.size a.below a.fresh a.active
    ∙ ap (λ (n : ℕ). clear t.active n + 1) (sym a.size)

pub Alike-frees : (s t : Regset) → Alike s t → frees t ≡ frees s
unfolding frees
Alike-frees s t a = ap (clear t.active) a.size ∙ clear-same s.active t.active s.size a.active

last_clear-found :
    (m : Bitmap) (n : ℕ)
    → 0 < clear m n
    → (reg : ℕ) × (last_clear m n ≡ some reg) × (reg < n) × (m reg ≡ false)
unfolding last_clear clear
last_clear-found m zero h = absurd (omega arith)
last_clear-found m (suc n) h = elim (Bool-cases (m n)) [
  | inl e ↦
      let h' : 0 < clear m n = ground arith in
      let (reg, a, b, c) = last_clear-found m n h' in
      let a' : last_clear m (suc n) ≡ some reg = rw (last_clear, e) a in (reg, a', omega arith, c)
  | inr e ↦ (n, rw (last_clear, e) refl, omega arith, e)
]

-- Where a register is free, one is taken without a spill.
pub alloc-Took :
    (s : Regset) → 0 < frees s → (reg : ℕ) × (t : Regset) × (alloc s ≡ (some reg, t)) × Took reg s t
unfolding frees alloc set_active
alloc-Took s h =
    let (reg, e, b, c) = last_clear-found s.active s.size h in
    (
      reg,
      set_active reg true s,
      rw (alloc, e) refl,
      record { size = refl; below = b; fresh = c; active = λ j. refl; spilled = λ j. refl },
    )

-- Giving it back leads to the registers that were taken before.
pub free-Took :
    (reg : ℕ) (s t : Regset)
    → IsValid s
    → Took reg s t
    → (u : Regset) × (free reg t ≡ ok tt u) × (t.spilled reg ≡ false) × Alike s u
unfolding free set_active
free-Took reg s t v a =
    let p : t.spilled reg ≡ false = ground (arith, v reg, a.spilled reg, a.fresh) in
    let q : t.active reg ≡ true = ground (arith, a.active reg) in
    let l : reg < t.size = omega (arith, a.size, a.below) in
    (
      set_active reg false t,
      ground arith,
      p,
      record {
        size = a.size;
        active = λ j. ground (arith, a.active j, a.fresh);
        spilled = λ j. a.spilled j;
      },
    )
