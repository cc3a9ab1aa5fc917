-- ===== src/Badges/Index.antt =====
-- The index of a class in pallets/badges/src/lib.rs: the first 1024 identifiers, in order.
use contradots_techconnect_c.Base.{
  ℕ, zero, suc, ◌+◌, ◌≤◌, ◌<◌, ◌≡◌, Option, none, some, List, [], ◌∷◌, ◌++◌, arith, length,
  length-append, min, add-one, dec_lt, refl, ap,
}
use contradots_techconnect_c.Badges.{unwrap_or}
use contradots_techconnect_c.Badges.Effects.{indexed}

-- The numbers below `n`, in order.
abbrev pub upto : ℕ → List ℕ
upto zero = []
upto (suc n) = upto n ++ n ∷ []

length-upto : (n : ℕ) → length (upto n) ≡ n
length-upto zero = refl
length-upto (suc n) = omega (arith, length-append (upto n) (n ∷ []), length-upto n)

upto-suc : (n m : ℕ) → m ≡ n + 1 → upto m ≡ upto n ++ n ∷ []
upto-suc n m e = rw (e, add-one)

empty-upto : (n : ℕ) → [] ≡ upto n → n ≡ 0
empty-upto n e = omega (arith, ap length e, length-upto n)

indexed_full :
    (n : ℕ) (v : List ℕ)
    → v ≡ upto (min n 1024)
    → 1024 ≤ n
    → indexed n (some v) ≡ upto (min (n + 1) 1024)
indexed_full n v e h =
    let same : min (n + 1) 1024 ≡ min n 1024 = omega arith in
    rw (same, ← e) (ground (arith, ap length e, length-upto (min n 1024)))

indexed_room :
    (n : ℕ) (v : List ℕ)
    → v ≡ upto (min n 1024)
    → n < 1024
    → indexed n (some v) ≡ upto (min (n + 1) 1024)
indexed_room n v e h =
    let now : min n 1024 ≡ n = omega arith in
    let next : min (n + 1) 1024 ≡ n + 1 = omega arith in
    rw (upto-suc n (min (n + 1) 1024) next, ← now)
      (ground (arith, e, ap length e, length-upto (min n 1024)))

-- The index lists the identifiers below 1024, before and after an issue.
pub indexed-upto :
    (n : ℕ) (index : Option (List ℕ))
    → unwrap_or index [] ≡ upto (min n 1024)
    → indexed n index ≡ upto (min (n + 1) 1024)
indexed-upto n none e =
    let first : n ≡ 0 = omega (arith, empty-upto (min n 1024) e) in rw first refl
indexed-upto n (some v) e = elim (dec_lt n 1024) [
  | yes h ↦ indexed_room n v e h
  | no h ↦ indexed_full n v e (omega arith)
]
