-- ===== src/Rec.antt =====
-- libdtrace/dt_map.c, dt_rec_add and dt_datadesc_finalize: the layout of the data that a clause
-- records.
--
-- `nrecs`, `recs` and so on are those of pcb->pcb_ddesc; a NULL array is the empty list. The gaps
-- for which the callback `gapf` is called are recorded in `gaps`, the last one first. A failed
-- assertion is `abort`, and a store behind the end of the array would be `past_end`.
pub mod Layout
mod Tests
use dtrace_utils.Common.{
  ℕ, zero, suc, ◌+◌, ◌-◌, ◌*◌, ◌/◌, ◌%◌, ◌^◌, ◌<◌, Bool, true, false, ◌&&◌, Option, none, some,
  List, [], ◌∷◌, ◌++◌, bit_and, ltb, leb, ◌==◌, if◌then◌else◌, length, set, take, replicate,
}

pub record RecDesc : Type 0 where
  pub action : ℕ
  pub size : ℕ
  pub offset : ℕ
  pub alignment : ℕ
  pub format : Option ℕ
  pub arg : ℕ

abbrev pub zero_rec : RecDesc
zero_rec = record { action = 0; size = 0; offset = 0; alignment = 0; format = none; arg = 0 }

pub record Pcb : Type 0 where
  pub maxrecs : ℕ
  pub nrecs : ℕ
  pub recs : List RecDesc
  pub bufoff : ℕ
  pub gaps : List ℕ

pub data Result : Type 0 where
  ok : ℕ → Pcb → Result
  longjmp : Result
  abort : Result
  past_end : Result

abbrev pub is_alignment : ℕ → Bool
is_alignment a = ltb 0 a && leb a 8 && (bit_and a (a - 1) == 0)

-- The larger array, with the old records copied.
unfoldable pub grow : Pcb → Pcb
grow p =
    let nmax = if p.maxrecs == 0 then p.nrecs + 1 else p.maxrecs * 2 in
    record p {
      recs = take p.maxrecs p.recs ++ replicate (nmax - p.maxrecs) zero_rec;
      maxrecs = nmax;
    }

-- (pcb->pcb_bufoff + (alignment - 1)) & ~(alignment - 1), in 32 bits.
unfoldable pub align_up : ℕ → ℕ → ℕ
align_up bufoff a = bit_and ((bufoff + (a - 1)) % 2 ^ 32) (2 ^ 32 - a)

-- The rest of dt_rec_add, from `add the new record` on.
unfoldable pub place : (kind size alignment : ℕ) → Option ℕ → (arg : ℕ) → Pcb → Result
unfolding align_up
place kind size alignment pfp arg p =
    let off = align_up p.bufoff alignment in
    let gap = (off + 2 ^ 32 - p.bufoff) % 2 ^ 32 in
    let rec : RecDesc = record {
      action = kind;
      size = size;
      offset = off;
      alignment = alignment;
      format = pfp;
      arg = arg;
    } in
    if ltb p.nrecs (length p.recs)
    then ok off (record p {
      nrecs = p.nrecs + 1;
      recs = set p.recs p.nrecs rec;
      bufoff = (off + size) % 2 ^ 32;
      gaps = if ltb 0 gap then gap ∷ p.gaps else p.gaps;
    })
    else past_end

unfoldable pub rec_add :
    (mem : Bool) → (kind size alignment : ℕ) → Option ℕ → (arg : ℕ) → Pcb → Result
unfolding grow place
rec_add mem kind size alignment pfp arg p =
    if is_alignment alignment
    then (if leb p.maxrecs (p.nrecs + 1)
        then (if mem then place kind size alignment pfp arg (grow p) else longjmp)
        else place kind size alignment pfp arg p)
    else abort

-- dt_datadesc_finalize, of the description that `pcb` itself has: whether there was memory.
unfoldable pub finalize : (mem : Bool) → Pcb → Bool × Pcb
finalize mem p =
    if ltb p.nrecs p.maxrecs
    then (if mem
        then (true, record p { recs = take p.nrecs p.recs; maxrecs = p.nrecs })
        else (false, p))
    else (true, p)
