-- ===== src/Htab/Delete.antt =====
-- dt_htab_delete.
use dtrace_utils.Common.{
  ℕ, ◌≡◌, Bool, true, false, ◌||◌, Option, none, some, List, [], ◌∷◌, if◌then◌else◌,
}
use dtrace_utils.Htab.{Ops, Bucket, Chain, Table, ok, enoent, del, delete}
use dtrace_utils.Htab.Methods.{IsSound, view}

module _ {E : Type 0} ⦃o : Ops E⦄ where
  -- The entry itself is in the list.
  abbrev pub has : E → List E → Bool
  has e [] = false
  has e (x ∷ xs) = o.same e x || has e xs

  -- 1 if the bucket goes.
  abbrev gone : Option (Bucket E) → ℕ
  gone none = 1
  gone (some b) = 0

  -- What a deletion ends in.
  pub data Deleted (t : Table E) (e : E) : Type 0 where
    missing : view t e ≡ [] → delete e t ≡ (enoent, t) → Deleted t e
    removed :
        (t' : Table E)
        → has e (view t e) ≡ true
        → delete e t ≡ (ok, t')
        → IsSound t'
        → ((q : E) → view t' q ≡ (if o.cmp e q then del e (view t e) else view t q))
        → Deleted t e
