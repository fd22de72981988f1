-- ===== src/Buf.antt =====
-- libdtrace/dt_buf.c: the growing memory buffers from which DOF is built.
--
-- The allocated memory is kept in two parts, the bytes in front of `dbu_ptr` and those from it
-- on; `live` says that `dbu_buf` is not NULL. Each operation that allocates is told whether the
-- allocation succeeds. Sizes are taken to stay below 2 ^ 64.
pub mod Write
mod Tests
use dtrace_utils.Common.{
  ℕ, zero, suc, ◌+◌, ◌-◌, ◌*◌, ◌/◌, ◌<◌, Bool, true, false, ◌&&◌, not, Option, none, some, List, [],
  ◌∷◌, ◌++◌, ltb, ◌==◌, if◌then◌else◌, length, take, drop, replicate,
}

abbrev pub Bytes : Type 0
Bytes = List ℕ

-- EDT_NOMEM and `_dtrace_bufsize`.
abbrev pub edt_nomem : ℕ
edt_nomem = 1008

abbrev pub dtrace_bufsize : ℕ
dtrace_bufsize = 512

pub record Buf : Type 0 where
  pub live : Bool
  pub used : Bytes
  pub spare : Bytes
  pub len : ℕ
  pub err : ℕ
  pub resizes : ℕ

-- A buffer together with the `dt_errno` of the handle.
pub record State : Type 0 where
  pub errno : ℕ
  pub buf : Buf

-- `dt_zalloc` of `len` bytes.
unfoldable pub create : (ok : Bool) → ℕ → State → State
create ok len s =
    let size = if len == 0 then dtrace_bufsize else len in
    if ok
    then record {
      errno = s.errno;
      buf = record {
        live = true;
        used = [];
        spare = replicate size 0;
        len = size;
        err = 0;
        resizes = 0;
      };
    }
    else record {
      errno = edt_nomem;
      buf = record {
        live = false;
        used = [];
        spare = [];
        len = size;
        err = edt_nomem;
        resizes = 0;
      };
    }

unfoldable pub reset : (ok : Bool) → State → State
unfolding create
reset ok s =
    if s.buf.live
    then record s { buf = record (s.buf) { used = []; spare = s.buf.used ++ s.buf.spare; err = 0 } }
    else create ok s.buf.len s

-- roundup(off, align).
abbrev pub roundup : ℕ → ℕ → ℕ
roundup off align = (off + (align - 1)) / align * align

-- `while (ptr + adj + len > buf + new_len) { new_len *= 2; r++; }`, on fuel.
pub grow_loop : ℕ → (need new_len r : ℕ) → Option (ℕ × ℕ)
grow_loop zero need new_len r = none
grow_loop (suc n) need new_len r =
    let rest = grow_loop n need (new_len * 2) (r + 1) in
    if ltb new_len need then rest else some (new_len, r)

-- dbu_ptr += adj; memcpy(dbu_ptr, bytes, len); dbu_ptr += len.
pub copy_in : ℕ → Bytes → Buf → Buf
copy_in adj bytes b = record b {
  used = b.used ++ (take adj b.spare ++ bytes);
  spare = drop (adj + length bytes) b.spare;
}

-- The new allocation, zeroed, with the old bytes in front of `dbu_ptr` copied to it.
pub regrow : ℕ → ℕ → Buf → Buf
regrow new_len r b = record b {
  live = true;
  spare = replicate (new_len - length b.used) 0;
  len = new_len;
  resizes = b.resizes + r;
}

-- `none` stands for a loop that does not end within the fuel.
pub write : (ok : Bool) → Bytes → (align : ℕ) → State → Option State
write ok bytes align s =
    let b = s.buf in
    let off = length b.used in
    let adj = roundup off align - off in
    let need = off + adj + length bytes in
    if not (b.err == 0)
    then some (record s { errno = b.err })
    else if ltb b.len need
    then elim (grow_loop (suc need) need (b.len * 2) 1) [
      | none ↦ none
      | some (new_len, r) ↦
          if ok
          then some (record s { buf = copy_in adj bytes (regrow new_len r b) })
          else some (record { errno = edt_nomem; buf = record b { err = edt_nomem } })
    ]
    else some (record s { buf = copy_in adj bytes b })

pub concat : (ok : Bool) → Buf → (align : ℕ) → State → Option State
concat ok src align s =
    if (s.buf.err == 0) && not (src.err == 0)
    then some (record { errno = src.err; buf = record (s.buf) { err = src.err } })
    else write ok src.used align s

pub offset : Buf → ℕ → ℕ
offset b align = roundup (length b.used) align

pub used_len : Buf → ℕ
used_len b = length b.used

pub error : Buf → ℕ
error b = b.err

-- The memory from `dbu_buf` on, unless that is NULL.
pub ptr : Buf → Option Bytes
ptr b = if b.live then some (b.used ++ b.spare) else none

-- The memory that is handed out, if there is no error, and the buffer without it.
pub claim : Buf → Option Bytes × Buf
claim b = (
  if b.live && (b.err == 0) then some (b.used ++ b.spare) else none,
  record b { live = false; used = []; spare = []; len = 0 },
)
