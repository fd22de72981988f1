-- ===== src/Dlist/Distinct.antt =====
-- Lists of addresses, all of them different.
use dtrace_utils.Common.{ℕ, ◌≡◌, ◌≢◌, refl, sym, ap, List, [], ◌∷◌, ◌++◌}

abbrev pub Absent : ℕ → List ℕ → Type 0
Absent x [] = Unit
Absent x (y ∷ l) = (x ≢ y) × Absent x l

abbrev pub Distinct : List ℕ → Type 0
Distinct [] = Unit
Distinct (x ∷ l) = Absent x l × Distinct l

abbrev pub last : ℕ → List ℕ → ℕ
last a [] = a
last a (x ∷ l) = last x l

abbrev pub init : ℕ → List ℕ → List ℕ
init a [] = []
init a (x ∷ l) = a ∷ init x l

-- The cell after the last of `ys` is `d`.
abbrev pub first : List ℕ → ℕ → ℕ
first [] d = d
first (y ∷ ys) d = y

abbrev pub rest : List ℕ → ℕ → List ℕ
rest [] d = []
rest (y ∷ ys) d = ys ++ (d ∷ [])

pub Absent-init : (x a : ℕ) (l : List ℕ) → Absent x (a ∷ l) → Absent x (init a l)
Absent-init x a [] h = tt
Absent-init x a (b ∷ l) (h, k) = (h, Absent-init x b l k)

pub Absent-append_left : (x : ℕ) (xs ys : List ℕ) → Absent x (xs ++ ys) → Absent x xs
Absent-append_left x [] ys h = tt
Absent-append_left x (a ∷ xs) ys (h, k) = (h, Absent-append_left x xs ys k)

pub Absent-append_right : (x : ℕ) (xs ys : List ℕ) → Absent x (xs ++ ys) → Absent x ys
Absent-append_right x [] ys h = h
Absent-append_right x (a ∷ xs) ys (h, k) = Absent-append_right x xs ys k

pub Absent-append : (x : ℕ) (xs ys : List ℕ) → Absent x xs → Absent x ys → Absent x (xs ++ ys)
Absent-append x [] ys h k = k
Absent-append x (a ∷ xs) ys (e, h) k = (e, Absent-append x xs ys h k)

pub Absent-last : (x a : ℕ) (l : List ℕ) → Absent x (a ∷ l) → x ≢ last a l
Absent-last x a [] (h, k) = h
Absent-last x a (b ∷ l) (h, k) = Absent-last x b l k

pub last-Absent-init : (a : ℕ) (l : List ℕ) → Distinct (a ∷ l) → Absent (last a l) (init a l)
last-Absent-init a [] h = tt
last-Absent-init a (b ∷ l) (h, k) = (λ e. Absent-last a b l h (sym e), last-Absent-init b l k)

pub Distinct-right : (xs ys : List ℕ) → Distinct (xs ++ ys) → Distinct ys
Distinct-right [] ys h = h
Distinct-right (x ∷ xs) ys (h, k) = Distinct-right xs ys k

pub last-Absent : (a : ℕ) (xs ys : List ℕ) → Distinct ((a ∷ xs) ++ ys) → Absent (last a xs) ys
last-Absent a [] ys (h, k) = h
last-Absent a (b ∷ xs) ys (h, k) = last-Absent b xs ys k

pub init-append : (a b : ℕ) (l : List ℕ) → init a (l ++ (b ∷ [])) ≡ a ∷ l
init-append a b [] = refl
init-append a b (c ∷ l) = ap (λ (k : List ℕ). a ∷ k) (init-append c b l)

pub Distinct-left : (xs ys : List ℕ) → Distinct (xs ++ ys) → Distinct xs
Distinct-left [] ys h = tt
Distinct-left (x ∷ xs) ys (h, k) = (Absent-append_left x xs ys h, Distinct-left xs ys k)

pub first_out : (x : ℕ) (xs ys : List ℕ) → Distinct (xs ++ (x ∷ ys)) → Absent x xs
first_out x [] ys h = tt
first_out x (a ∷ xs) ys (h, k) =
    let (e, r) = Absent-append_right a xs (x ∷ ys) h in (λ q. e (sym q), first_out x xs ys k)

pub Distinct-in :
    (v : ℕ) (xs ys : List ℕ) → Distinct (xs ++ ys) → Absent v (xs ++ ys) → Distinct (xs ++ (v ∷ ys))
Distinct-in v [] ys h k = (k, h)
Distinct-in v (x ∷ xs) ys (h, t) (e, k) = (
  Absent-append x xs (v ∷ ys) (Absent-append_left x xs ys h)
      ((λ q. e (sym q)), Absent-append_right x xs ys h),
  Distinct-in v xs ys t k,
)

pub Distinct-out :
    (v : ℕ) (xs ys : List ℕ) → Distinct (xs ++ (v ∷ ys)) → Distinct (xs ++ ys) × Absent v (xs ++ ys)
Distinct-out v [] ys (h, k) = (k, h)
Distinct-out v (x ∷ xs) ys (h, t) =
    let (e, r) = Absent-append_right x xs (v ∷ ys) h in
    let (p, q) = Distinct-out v xs ys t in
    ((Absent-append x xs ys (Absent-append_left x xs (v ∷ ys) h) r, p), ((λ z. e (sym z)), q))
