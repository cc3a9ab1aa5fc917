-- ===== src/Frame.antt =====
-- What the pallets use of FRAME (frame_support, frame_system, sp_runtime), which the repository
-- does not contain: an interface that every pallet takes as a parameter, with the documented
-- behaviour as its laws. The children hold the monad of a dispatchable, and an instance.
mod Dispatch
pub mod Memory
pub use Dispatch.*
use contradots_techconnect_c.Base.{
  ℕ, ◌≡◌, Option, none, some, List, [], ◌∷◌, ◌++◌, ltb, leb, ◌==◌, ◌&&◌, if◌then◌else◌, length,
}

pub record Frame : Type 1 where
  -- A `StorageMap`: a read after a write.
  pub StorageMap : Type 0 → Type 0
  pub empty : {V : Type 0} → StorageMap V
  pub get : {V : Type 0} → StorageMap V → ℕ → Option V
  pub insert : {V : Type 0} → StorageMap V → ℕ → V → StorageMap V
  pub remove : {V : Type 0} → StorageMap V → ℕ → StorageMap V
  pub get-empty : {V : Type 0} (k : ℕ) → get (empty {V = V}) k ≡ none
  pub get-insert :
      {V : Type 0} (m : StorageMap V) (k : ℕ) (v : V) (j : ℕ)
      → get (insert m k v) j ≡ (if k == j then some v else get m j)
  pub get-remove :
      {V : Type 0} (m : StorageMap V) (k j : ℕ)
      → get (remove m k) j ≡ (if k == j then none else get m j)
  -- A `StorageDoubleMap`.
  pub StorageDoubleMap : Type 0 → Type 0
  pub double_empty : {V : Type 0} → StorageDoubleMap V
  pub double_get : {V : Type 0} → StorageDoubleMap V → ℕ → ℕ → Option V
  pub double_insert : {V : Type 0} → StorageDoubleMap V → ℕ → ℕ → V → StorageDoubleMap V
  pub double_remove : {V : Type 0} → StorageDoubleMap V → ℕ → ℕ → StorageDoubleMap V
  pub double_get-double_empty :
      {V : Type 0} (k l : ℕ) → double_get (double_empty {V = V}) k l ≡ none
  pub double_get-double_insert :
      {V : Type 0} (m : StorageDoubleMap V) (k l : ℕ) (v : V) (i j : ℕ)
      → double_get (double_insert m k l v) i j
        ≡ (if k == i && l == j then some v else double_get m i j)
  pub double_get-double_remove :
      {V : Type 0} (m : StorageDoubleMap V) (k l i j : ℕ)
      → double_get (double_remove m k l) i j ≡ (if k == i && l == j then none else double_get m i j)
  -- `BoundedVec::try_from` and `BoundedVec::try_push`, at a bound.
  pub try_from : {A : Type 0} → ℕ → List A → Option (List A)
  pub try_push : {A : Type 0} → ℕ → List A → A → Option (List A)
  pub try_from_lem :
      {A : Type 0} (bound : ℕ) (xs : List A)
      → try_from bound xs ≡ (if leb (length xs) bound then some xs else none)
  pub try_push_lem :
      {A : Type 0} (bound : ℕ) (xs : List A) (a : A)
      → try_push bound xs a ≡ (if ltb (length xs) bound then some (xs ++ a ∷ []) else none)
  -- `OriginFor<T>`, `RawOrigin::Signed(who).into()` and `ensure_signed`.
  pub RuntimeOrigin : Type 0
  pub signed : ℕ → RuntimeOrigin
  pub ensure_signed : RuntimeOrigin → Option ℕ
  pub ensure_signed-signed : (who : ℕ) → ensure_signed (signed who) ≡ some who
