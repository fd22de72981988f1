-- ===== src/Buf/Write.antt =====
-- dt_buf_write as appending to the bytes written so far: alignment, growth and errors.
use native.Mathlib.Nat.{div-add-mod, mod-lt}
use dtrace_utils.Common.{
  ℕ, zero, suc, ◌+◌, ◌-◌, ◌*◌, ◌/◌, ◌%◌, ◌≤◌, ◌<◌, ◌≡◌, ◌≢◌, ◌⊎◌, refl, ap, sym, ◌∙◌, inl, inr,
  Bool, true, false, not, ◌&&◌, Option, some, ◌∷◌, ◌++◌, arith, ltb, ◌==◌, Bool-cases,
  if◌then◌else◌, length, take, drop, replicate, length-append, length-take, length-drop,
  length-replicate,
}
use dtrace_utils.Common.Pow.{div_mod_unique}
use dtrace_utils.Buf.{
  Bytes, Buf, State, edt_nomem, dtrace_bufsize, create, reset, roundup, grow_loop, copy_in, regrow,
  write, concat,
}

abbrev pub zero_bytes : ℕ → Bytes
zero_bytes n = replicate n 0

-- A buffer that holds memory, of the length that is recorded.
pub record IsReady (b : Buf) : Type 0 where
  pub live : b.live ≡ true
  pub pos : 0 < b.len
  pub size : length b.used + length b.spare ≡ b.len

grow_loop-enough :
    (n need len r : ℕ)
    → 0 < len
    → need ≤ len + n
    → (len' : ℕ) × (r' : ℕ) × (grow_loop (suc n) need len r ≡ some (len', r')) × (need ≤ len')
unfolding grow_loop
grow_loop-enough zero need len r pos h = (len, r, ground arith, omega arith)
grow_loop-enough (suc n) need len r pos h = elim (Bool-cases (ltb len need)) [
  | inr f ↦ (len, r, rw (f, grow_loop), ground arith)
  | inl t ↦
      let (len', r', e, le) =
        grow_loop-enough n need (len * 2) (r + 1) (omega arith) (omega arith) in
      (len', r', rw (t, grow_loop) e, le)
]

take-replicate : (k n : ℕ) → k ≤ n → take k (zero_bytes n) ≡ zero_bytes k
take-replicate zero n h = refl
take-replicate (suc k) zero h = absurd (omega arith)
take-replicate (suc k) (suc n) h = ap (λ (l : Bytes). 0 ∷ l) (take-replicate k n (omega arith))

drop-replicate : (k n : ℕ) → drop k (zero_bytes n) ≡ zero_bytes (n - k)
drop-replicate zero n = let e : n - zero ≡ n = omega arith in rw e
drop-replicate (suc k) zero = let e : zero - suc k ≡ zero = omega arith in rw e
drop-replicate (suc k) (suc n) =
    let e : suc n - suc k ≡ n - k = omega arith in rw e (drop-replicate k n)

-- The next multiple of the alignment.
pub roundup_lem :
    (off align : ℕ)
    → 0 < align
    → (roundup off align % align ≡ 0)
      × (off ≤ roundup off align)
      × (roundup off align < off + align)
roundup_lem off align h =
    let m = off + (align - 1) in
    let split = div-add-mod m align in
    let rest = mod-lt m h in
    (
      (div_mod_unique (m / align * align) align (m / align) 0 (omega arith) h).1,
      omega (arith, split, rest),
      omega (arith, split, rest),
    )

abbrev pub padding : Buf → ℕ → ℕ
padding b align = roundup (length b.used) align - length b.used

-- The bytes behind the old ones, and what is left behind them: in the memory that the buffer has,
-- with the bytes that lay there as padding, or in larger memory, with zeros.
pub data Filled (b : Buf) (align : ℕ) (bytes : Bytes) (t : Buf) : Type 0 where
  in_place :
      length b.used + padding b align + length bytes ≤ b.len
      → t.used ≡ b.used ++ (take (padding b align) b.spare ++ bytes)
      → t.spare ≡ drop (padding b align + length bytes) b.spare
      → t.len ≡ b.len
      → Filled b align bytes t
  moved :
      b.len < length b.used + padding b align + length bytes
      → t.used ≡ b.used ++ (zero_bytes (padding b align) ++ bytes)
      → t.spare ≡ zero_bytes (length t.spare)
      → Filled b align bytes t

-- What a successful write makes of a buffer.
pub record Appended (b : Buf) (align : ℕ) (bytes : Bytes) (t : Buf) : Type 0 where
  pub ready : IsReady t
  pub filled : Filled b align bytes t
  pub end : length t.used ≡ roundup (length b.used) align + length bytes
  pub no_error : t.err ≡ b.err

copy_in-IsReady :
    (b : Buf) (adj : ℕ) (bytes : Bytes)
    → IsReady b
    → length b.used + adj + length bytes ≤ b.len
    → IsReady (copy_in adj bytes b)
      × (length (copy_in adj bytes b).used ≡ length b.used + adj + length bytes)
unfolding copy_in
copy_in-IsReady b adj bytes v h =
    let l1 = length-append b.used (take adj b.spare ++ bytes) in
    let l2 = length-append (take adj b.spare) bytes in
    let l3 = length-take adj b.spare in
    (
      record {
        live = v.live;
        pos = v.pos;
        size = omega (arith, v.size, l1, l2, l3, length-drop (adj + length bytes) b.spare);
      },
      omega (arith, v.size, l1, l2, l3),
    )

copy_in-Appended :
    (b : Buf) (align : ℕ) (bytes : Bytes)
    → IsReady b
    → 0 < align
    → length b.used + padding b align + length bytes ≤ b.len
    → Appended b align bytes (copy_in (padding b align) bytes b)
unfolding copy_in
copy_in-Appended b align bytes v pos h =
    let (r, l) = copy_in-IsReady b (padding b align) bytes v h in
    let (_, le, _) = roundup_lem (length b.used) align pos in
    record {
      ready = r;
      filled = in_place h refl refl refl;
      end = omega (arith, l, le);
      no_error = refl;
    }

regrow-IsReady :
    (b : Buf) (new_len r : ℕ)
    → IsReady b
    → length b.used ≤ new_len
    → 0 < new_len
    → IsReady (regrow new_len r b)
unfolding regrow
regrow-IsReady b new_len r v h pos = record {
  live = refl;
  pos = pos;
  size = omega (arith, length-replicate {A = ℕ} (new_len - length b.used) 0);
}

regrow-Appended :
    (b : Buf) (align : ℕ) (bytes : Bytes) (new_len r : ℕ)
    → IsReady b
    → 0 < align
    → b.len < length b.used + padding b align + length bytes
    → length b.used + padding b align + length bytes ≤ new_len
    → 0 < new_len
    → Appended b align bytes (copy_in (padding b align) bytes (regrow new_len r b))
unfolding regrow copy_in
regrow-Appended b align bytes new_len r v h lt le pos =
    let adj = padding b align in
    let n = new_len - length b.used in
    let (w, l) =
      copy_in-IsReady (regrow new_len r b) adj bytes
        (regrow-IsReady b new_len r v (omega arith) pos) le in
    let (_, up, _) = roundup_lem (length b.used) align h in
    let front : take adj (zero_bytes n) ≡ zero_bytes adj = take-replicate adj n (omega arith) in
    let back : drop (adj + length bytes) (zero_bytes n) ≡ zero_bytes (n - (adj + length bytes)) =
      drop-replicate (adj + length bytes) n in
    record {
      ready = w;
      filled = moved lt (ap (λ (l : Bytes). b.used ++ (l ++ bytes)) front) (
          back
          ∙ ap zero_bytes (
              sym (
                ap (λ (l : Bytes). length l) back
                ∙ length-replicate {A = ℕ} (n - (adj + length bytes)) 0)));
      end = omega (arith, l, up);
      no_error = refl;
    }

pub write-Appended :
    (s : State) (align : ℕ) (bytes : Bytes)
    → IsReady s.buf
    → s.buf.err ≡ 0
    → 0 < align
    → (t : Buf) × (write true bytes align s ≡ some (record s { buf = t }))
      × Appended s.buf align bytes t
unfolding write
write-Appended s align bytes v e h =
    let b = s.buf in
    let adj = padding b align in
    let need = length b.used + adj + length bytes in
    let no_err : not (b.err == 0) ≡ false = ground arith in
    elim (Bool-cases (ltb b.len need)) [
      | inr f ↦
          (copy_in adj bytes b, rw no_err (rw f), copy_in-Appended b align bytes v h (ground arith))
      | inl t ↦
          let (new_len, r, g, le) =
            grow_loop-enough need need (b.len * 2) 1 (omega (arith, v.pos)) (omega arith) in
          (
            copy_in adj bytes (regrow new_len r b),
            rw no_err (rw t (rw (g, write))),
            regrow-Appended b align bytes new_len r v h (ground arith) le (ground (arith, le)),
          )
    ]

write-held :
    (s : State) (ok : Bool) (align : ℕ) (bytes : Bytes)
    → s.buf.err ≢ 0
    → write ok bytes align s ≡ some (record s { errno = s.buf.err })
unfolding write
write-held s ok align bytes h = let f : not (s.buf.err == 0) ≡ true = ground arith in rw f

write-refused :
    (s : State) (align : ℕ) (bytes : Bytes)
    → s.buf.err ≡ 0
    → 0 < s.buf.len
    → s.buf.len < roundup (length s.buf.used) align + length bytes
    → 0 < align
    → write false bytes align s
      ≡ some (record { errno = edt_nomem; buf = record (s.buf) { err = edt_nomem } })
unfolding write
write-refused s align bytes e pos lt h =
    let b = s.buf in
    let adj = roundup (length b.used) align - length b.used in
    let need = length b.used + adj + length bytes in
    let (_, le, _) = roundup_lem (length b.used) align h in
    let no_err : not (b.err == 0) ≡ false = ground arith in
    let grows : ltb b.len need ≡ true = ground arith in
    let (new_len, r, g, _) = grow_loop-enough need need (b.len * 2) 1 (omega arith) (omega arith) in
    rw no_err (rw grows (rw (g, write)))

write-fits :
    (s : State) (ok : Bool) (align : ℕ) (bytes : Bytes)
    → s.buf.err ≡ 0
    → roundup (length s.buf.used) align + length bytes ≤ s.buf.len
    → 0 < align
    → write ok bytes align s ≡ write true bytes align s
unfolding write
write-fits s ok align bytes e le h =
    let b = s.buf in
    let need = length b.used + (roundup (length b.used) align - length b.used) + length bytes in
    let (_, off, _) = roundup_lem (length b.used) align h in
    let no_err : not (b.err == 0) ≡ false = ground arith in
    let fits : ltb b.len need ≡ false = ground arith in rw no_err (rw fits)

-- The ways in which a write ends: held up by an earlier error, which only the handle's error
-- number tells; done; or refused for want of memory, when only the error is recorded.
pub data Written (ok : Bool) (s : State) (align : ℕ) (bytes : Bytes) (run : Option State)
    : Type 0 where
  held : s.buf.err ≢ 0 → run ≡ some (record s { errno = s.buf.err }) → Written ok s align bytes run
  done :
      (t : Buf)
      → s.buf.err ≡ 0
      → run ≡ some (record s { buf = t })
      → Appended s.buf align bytes t
      → Written ok s align bytes run
  refused :
      s.buf.err ≡ 0
      → ok ≡ false
      → s.buf.len < roundup (length s.buf.used) align + length bytes
      → run ≡ some (record { errno = edt_nomem; buf = record (s.buf) { err = edt_nomem } })
      → Written ok s align bytes run

-- On a buffer that is in error or holds memory, `dt_buf_write` to a positive alignment returns in
-- one of three ways: an earlier error is passed to the handle, and the buffer stays; the bytes are
-- appended at the next multiple of the alignment, behind the bytes that lay there, or zeros where
-- the buffer has grown; or, only where the bytes do not fit and the allocation fails, the content
-- stays and both error numbers say so.
pub write-Written :
    (ok : Bool) (s : State) (align : ℕ) (bytes : Bytes)
    → (s.buf.err ≢ 0) ⊎ IsReady s.buf
    → 0 < align
    → Written ok s align bytes (write ok bytes align s)
write-Written ok s align bytes v h = elim (Bool-cases (s.buf.err == 0)) [
  | inr f ↦ let ne : s.buf.err ≢ 0 = ground arith in held ne (write-held s ok align bytes ne)
  | inl t ↦
      let e : s.buf.err ≡ 0 = ground arith in
      elim v [
        | inl ne ↦ absurd (ne e)
        | inr ready ↦
            let (b, run, a) = write-Appended s align bytes ready e h in
            elim (Bool-cases (ltb s.buf.len (roundup (length s.buf.used) align + length bytes))) [
              | inr fits ↦ done b e (write-fits s ok align bytes e (ground arith) h ∙ run) a
              | inl grows ↦ elim (Bool-cases ok) [
                | inl room ↦ done b e (ap (λ (o : Bool). write o bytes align s) room ∙ run) a
                | inr full ↦
                    let lt : s.buf.len < roundup (length s.buf.used) align + length bytes =
                      ground arith in
                    refused e full lt (
                      ap (λ (o : Bool). write o bytes align s) full
                      ∙ write-refused s align bytes e ready.pos lt h)
              ]
            ]
      ]
]

-- How `dt_buf_concat` ends: the source's error passes to a destination without one, or the
-- source's bytes are written.
pub data Concatenated (ok : Bool) (s : State) (src : Buf) (align : ℕ) (run : Option State)
    : Type 0 where
  passed :
      s.buf.err ≡ 0
      → src.err ≢ 0
      → run ≡ some (record { errno = src.err; buf = record (s.buf) { err = src.err } })
      → Concatenated ok s src align run
  copied :
      (s.buf.err ≢ 0) ⊎ (src.err ≡ 0)
      → Written ok s align src.used run
      → Concatenated ok s src align run

-- On a destination that is in error or holds memory, `dt_buf_concat` passes on an error that only
-- the source has, and otherwise ends as a write of the source's bytes does.
pub concat_lem :
    (ok : Bool) (s : State) (src : Buf) (align : ℕ)
    → (s.buf.err ≢ 0) ⊎ IsReady s.buf
    → 0 < align
    → Concatenated ok s src align (concat ok src align s)
unfolding concat
concat_lem ok s src align v h = elim (Bool-cases ((s.buf.err == 0) && not (src.err == 0))) [
  | inl t ↦ rw t (passed (ground arith) (ground arith) refl)
  | inr f ↦ rw f (copied (ground arith) (write-Written ok s align src.used v h))
]

-- A new buffer is ready, and so is one that was reset: it keeps its memory and what lies in it.
pub create-IsReady : (len : ℕ) (s : State) → IsReady (create true len s).buf
unfolding create
create-IsReady len s = record {
  live = refl;
  pos = ground arith;
  size = omega (arith, length-replicate {A = ℕ} (if len == 0 then dtrace_bufsize else len) 0);
}

pub reset-IsReady : (ok : Bool) (s : State) → IsReady s.buf → IsReady (reset ok s).buf
unfolding reset
reset-IsReady ok s v =
    let e = v.live in
    rw (e) (record {
      live = refl;
      pos = v.pos;
      size = omega (arith, v.size, length-append s.buf.used s.buf.spare);
    })
