-- ===== src/Base/Lists.antt =====
-- Lists measured and searched over native numbers.
use Prim.Native.Nat.{ℕ, suc, ◌+◌, ◌<◌}
use mathlib.Core.Logic.{◌↔◌}
use mathlib.Core.Path.{◌≡◌}
use mathlib.Core.List.{List, [], ◌∷◌, ◌++◌}
use mathlib.Core.Bool.{Bool, true, false, ◌||◌, ◌&&◌}
use native.Mathlib.Omega.{arith}
use contradots_techconnect_c.Base.Tests.{◌==◌, if◌then◌else◌}

module _ {ℓ} {A : Type ℓ} where
  abbrev pub length : List A → ℕ
  length [] = 0
  length (x ∷ xs) = suc (length xs)

  pub length-append : (xs ys : List A) → length (xs ++ ys) ≡ length xs + length ys
  length-append [] ys = omega arith
  length-append (x ∷ xs) ys = omega (arith, length-append xs ys)

-- `xs.contains(&a)`, and `xs.iter().any(|x| x == &a)`.
abbrev pub contains : List ℕ → ℕ → Bool
contains [] a = false
contains (x ∷ xs) a = x == a || contains xs a

-- How often a number stands in a list.
abbrev pub count : ℕ → List ℕ → ℕ
count a [] = 0
count a (x ∷ xs) = if x == a then suc (count a xs) else count a xs

pub contains_iff-count : (xs : List ℕ) (a : ℕ) → (contains xs a ≡ true) ↔ (0 < count a xs)
contains_iff-count [] a = ground arith
contains_iff-count (x ∷ xs) a = ground (arith, contains_iff-count xs a)

pub count-append : (a : ℕ) (xs ys : List ℕ) → count a (xs ++ ys) ≡ count a xs + count a ys
count-append a [] ys = omega arith
count-append a (x ∷ xs) ys = ground (arith, count-append a xs ys)

module _ {ℓ} {A : Type ℓ} (p : A → Bool) where
  -- How many elements pass the test.
  abbrev pub count_if : List A → ℕ
  count_if [] = 0
  count_if (x ∷ xs) = if p x then suc (count_if xs) else count_if xs

  -- Every element passes the test.
  abbrev pub all : List A → Bool
  all [] = true
  all (x ∷ xs) = p x && all xs

  pub all-head : (x : A) (xs : List A) → all (x ∷ xs) ≡ true → p x ≡ true
  all-head x xs h = ground arith

  pub all-tail : (x : A) (xs : List A) → all (x ∷ xs) ≡ true → all xs ≡ true
  all-tail x xs h = ground arith
