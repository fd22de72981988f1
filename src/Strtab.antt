-- ===== src/Strtab.antt =====
-- libdtrace/dt_strtab.c: the buffers of a string table, to which strings are copied.
--
-- A buffer is the list of the bytes that have been written to it: `full` are the buffers before the
-- last, `cur` is the last one up to str_ptr. `ok` says whether memory for another buffer can be
-- had, by the number of buffers that there are.
pub mod Buffers
pub mod Copy
mod Tests
use dtrace_utils.Common.{
  ℕ, zero, suc, ◌+◌, ◌-◌, min, Bool, true, false, not, ◌&&◌, Option, none, some, List, [], ◌∷◌,
  ◌++◌, ◌==◌, if◌then◌else◌, length, take, drop,
}

pub record Strtab : Type 0 where
  pub full : List (List ℕ)
  pub cur : List ℕ
  pub bufsz : ℕ
  pub nstrs : ℕ
  pub size : ℕ

abbrev pub nbufs : Strtab → ℕ
nbufs t = length t.full + 1

abbrev pub all_bufs : Strtab → List (List ℕ)
all_bufs t = t.full ++ (t.cur ∷ [])

-- dt_strtab_grow, where there is memory.
unfoldable pub grow : Strtab → Strtab
grow t = record t { full = t.full ++ (t.cur ∷ []); cur = [] }

-- dt_strtab_create: the empty string stands at offset 0. No table where memory is lacking.
unfoldable pub create : (table_ok hash_ok buf_ok : Bool) → ℕ → Option Strtab
create table_ok hash_ok buf_ok bufsz =
    if table_ok && (hash_ok && buf_ok)
    then some (record { full = []; cur = 0 ∷ []; bufsz = bufsz; nstrs = 1; size = 1 })
    else none

-- Room in the last buffer.
unfoldable pub resid : Strtab → ℕ
resid t = t.bufsz - length t.cur

unfoldable pub fill : ℕ → List ℕ → Strtab → Strtab
fill n str t = record t { cur = t.cur ++ take n str }

-- The loop of dt_strtab_copyin, on fuel: whether all was copied.
unfoldable pub copy_loop : ℕ → (ok : ℕ → Bool) → List ℕ → Strtab → Option (Bool × Strtab)
unfolding grow resid fill
copy_loop n ok [] t = some (true, t)
copy_loop zero ok (c ∷ str) t = none
copy_loop (suc n) ok (c ∷ str) t =
    let at_end = length t.cur == t.bufsz in
    let t' = if at_end then grow t else t in
    let k = min (resid t') (length (c ∷ str)) in
    let rest = copy_loop n ok (drop k (c ∷ str)) (fill k (c ∷ str) t') in
    if at_end && not (ok (nbufs t)) then some (false, t) else rest

abbrev pub nth_buf : List (List ℕ) → ℕ → List ℕ
nth_buf [] i = []
nth_buf (b ∷ bs) zero = b
nth_buf (b ∷ bs) (suc i) = nth_buf bs i

-- The buffers above the first `old_n` are freed, and str_ptr stands where it stood, `old_p` bytes
-- from the start of the buffer that is the last again.
unfoldable pub undo : (old_n old_p : ℕ) → Strtab → Strtab
undo old_n old_p t = record t {
  full = take (old_n - 1) (all_bufs t);
  cur = take old_p (nth_buf (all_bufs t) (old_n - 1));
}

abbrev pub if_copied : Bool → (done failed : Strtab) → Bool × Strtab
if_copied true done failed = (true, done)
if_copied false done failed = (false, failed)

unfoldable pub copyin : ℕ → (ok : ℕ → Bool) → List ℕ → Strtab → Option (Bool × Strtab)
unfolding copy_loop undo
copyin n ok str t = elim (copy_loop n ok str t) [
  | none ↦ none
  | some r ↦ some (if_copied (r.0) (r.1) (undo (nbufs t) (length t.cur) (r.1)))
]

-- dt_strtab_write with dt_strtab_copystr, which copies a buffer behind what has been copied; a
-- buffer of no bytes ends it.
unfoldable pub write_loop : List (List ℕ) → List ℕ → List ℕ
write_loop [] out = out
write_loop (b ∷ bs) out = let rest = write_loop bs (out ++ b) in if length b == 0 then out else rest

unfoldable pub written : Strtab → List ℕ
unfolding write_loop
written t = write_loop (all_bufs t) []
