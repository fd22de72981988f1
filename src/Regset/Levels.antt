-- ===== src/Regset/Levels.antt =====
-- dt_regset.c as counters: how often each register is handed out, at most twice.
use dtrace_utils.Common.{ℕ, ◌+◌, ◌<◌, ◌≡◌, Bool, true, false, arith, ◌==◌, if◌then◌else◌}
use dtrace_utils.Regset.{Regset, ok, done, in_use, xalloc, free, set_active, spill, unspill}

abbrev pub to_nat : Bool → ℕ
to_nat true = 1
to_nat false = 0

-- 0: free, 1: in use, 2: in use, with an older value spilled.
abbrev pub level : Regset → ℕ → ℕ
level s reg = to_nat (s.active reg) + to_nat (s.spilled reg)

-- Only a register in use is spilled.
abbrev pub IsValid : Regset → Type 0
IsValid s = (reg : ℕ) → s.spilled reg ≡ true → s.active reg ≡ true

-- `t` is `s` with one more use of `reg`, and nothing else changed.
pub record Raised (reg : ℕ) (s t : Regset) : Type 0 where
  pub valid : IsValid t
  pub size : t.size ≡ s.size
  pub levels : (r : ℕ) → level t r ≡ level s r + (if r == reg then 1 else 0)

-- The state after a successful `xalloc`, and after `free`.
pub raise : ℕ → Regset → Regset
raise reg s = if s.active reg then set_active reg true (spill reg s) else set_active reg true s

pub lower : ℕ → Regset → Regset
lower reg s = if s.spilled reg then unspill reg s else set_active reg false s

module _ (s : Regset) (v : IsValid s) (reg : ℕ) where
  pub xalloc-full : reg < s.size → level s reg ≡ 2 → xalloc reg s ≡ ok in_use s
  unfolding xalloc
  xalloc-full h full = ground arith

  pub xalloc-raise : reg < s.size → level s reg < 2 → xalloc reg s ≡ ok done (raise reg s)
  unfolding xalloc raise
  xalloc-raise h room = ground (arith, v reg)

  pub raise-Raised : level s reg < 2 → Raised reg s (raise reg s)
  unfolding raise set_active spill
  raise-Raised room = record {
    valid = λ r. ground (arith, v r);
    size = ground arith;
    levels = λ r. ground (arith, v r);
  }

  pub free-lower : reg < s.size → 0 < level s reg → free reg s ≡ ok tt (lower reg s)
  unfolding free lower
  free-lower h used = ground (arith, v reg)

  pub lower-Raised : 0 < level s reg → Raised reg (lower reg s) s × IsValid (lower reg s)
  unfolding lower set_active unspill
  lower-Raised used = (
    record { valid = v; size = ground arith; levels = λ r. ground (arith, v r) },
    λ r. ground (arith, v r),
  )
