-- ===== src/MemberRegistry/Lists.antt =====
-- The two list operations of `remove_officer`: `Iterator::position` and `Vec::swap_remove`.
use contradots_techconnect_c.Base.{
  ℕ, zero, suc, ◌+◌, ◌≡◌, refl, Option, none, some, List, [], ◌∷◌, ◌==◌, if◌then◌else◌, arith,
  count, length, ap, ◌≤◌, ◌-◌,
}

abbrev next_index : Option ℕ → Option ℕ
next_index none = none
next_index (some i) = some (suc i)

-- `xs.iter().position(|x| x == &a)`
position : List ℕ → ℕ → Option ℕ
position [] a = none
position (x ∷ xs) a = if x == a then some 0 else next_index (position xs a)

-- The last element of `x ∷ xs`, and that list without it.
abbrev last : ℕ → List ℕ → ℕ
last x [] = x
last x (y ∷ ys) = last y ys

abbrev without_last : ℕ → List ℕ → List ℕ
without_last x [] = []
without_last x (y ∷ ys) = x ∷ without_last y ys

-- `xs.swap_remove(i)`: the last element takes the place of the one at `i`. Rust panics at an
-- index out of range, which `position` never gives; here such a call changes nothing.
swap_remove : List ℕ → ℕ → List ℕ
swap_remove [] i = []
swap_remove (x ∷ []) zero = []
swap_remove (x ∷ y ∷ ys) zero = last y ys ∷ without_last y ys
swap_remove (x ∷ xs) (suc i) = x ∷ swap_remove xs i

-- `if let Some(pos) = officers.iter().position(|o| o == &officer) { officers.swap_remove(pos); }`
abbrev remove_at : List ℕ → Option ℕ → List ℕ
remove_at xs none = xs
remove_at xs (some pos) = swap_remove xs pos

unfoldable pub without_officer : List ℕ → ℕ → List ℕ
unfolding position swap_remove
without_officer officers officer = remove_at officers (position officers officer)

count-last : (a x : ℕ) (xs : List ℕ) → count a (last x xs ∷ without_last x xs) ≡ count a (x ∷ xs)
count-last a x [] = refl
count-last a x (y ∷ ys) = ground (arith, count-last a y ys)

count-swap_remove :
    (xs : List ℕ) (a b i : ℕ)
    → position xs a ≡ some i
    → count b (swap_remove xs i) + (if a == b then 1 else 0) ≡ count b xs
unfolding position swap_remove
count-swap_remove [] a b i e = cc
count-swap_remove (x ∷ []) a b zero e = ground arith
count-swap_remove (x ∷ []) a b (suc i) e = ground arith
count-swap_remove (x ∷ y ∷ ys) a b zero e = ground (arith, count-last b y ys)
count-swap_remove (x ∷ y ∷ ys) a b (suc i) e = ground (arith, count-swap_remove (y ∷ ys) a b i)

position-none : (xs : List ℕ) (a : ℕ) → position xs a ≡ none → count a xs ≡ 0
unfolding position
position-none [] a e = refl
position-none (x ∷ xs) a e = ground (arith, position-none xs a)

count-remove_at :
    (xs : List ℕ) (a b : ℕ) (i : Option ℕ)
    → position xs a ≡ i
    → count b (remove_at xs i) ≡ count b xs - (if a == b then 1 else 0)
count-remove_at xs a b none e = ground (arith, position-none xs a e)
count-remove_at xs a b (some i) e = omega (arith, count-swap_remove xs a b i e)

-- Removing an officer takes away one entry of that officer and nothing else.
pub count-without_officer :
    (xs : List ℕ) (a b : ℕ)
    → count b (without_officer xs a) ≡ count b xs - (if a == b then 1 else 0)
unfolding without_officer
count-without_officer xs a b = count-remove_at xs a b (position xs a) refl

length-without_last : (x : ℕ) (xs : List ℕ) → length (without_last x xs) ≡ length xs
length-without_last x [] = refl
length-without_last x (y ∷ ys) = ap suc (length-without_last y ys)

length-swap_remove-le : (xs : List ℕ) (i : ℕ) → length (swap_remove xs i) ≤ length xs
unfolding swap_remove
length-swap_remove-le [] i = omega arith
length-swap_remove-le (x ∷ []) zero = omega arith
length-swap_remove-le (x ∷ []) (suc i) = omega arith
length-swap_remove-le (x ∷ y ∷ ys) zero = omega (arith, length-without_last y ys)
length-swap_remove-le (x ∷ y ∷ ys) (suc i) = omega (arith, length-swap_remove-le (y ∷ ys) i)

length-remove_at-le : (xs : List ℕ) (i : Option ℕ) → length (remove_at xs i) ≤ length xs
length-remove_at-le xs none = omega arith
length-remove_at-le xs (some i) = length-swap_remove-le xs i

pub length-without_officer-le : (xs : List ℕ) (a : ℕ) → length (without_officer xs a) ≤ length xs
unfolding without_officer
length-without_officer-le xs a = length-remove_at-le xs (position xs a)
