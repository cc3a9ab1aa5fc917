-- ===== src/Extrinsics.antt =====
-- Extrinsics and histories of a pallet: each call runs in a storage layer, which an error rolls
-- back.
use contradots_techconnect_c.Base.{
  ◌≡◌, refl, Bool, true, List, [], ◌∷◌, all, all-head, all-tail, arith,
}
use contradots_techconnect_c.Frame.{Frame, Env, Result, ok, err, Action, ⊤, with_storage_layer}

-- A call with the origin and the block in which it is made.
pub record Extrinsic (F : Frame) (Call : Type 0) : Type 0 where
  pub env : Env
  pub origin : F.RuntimeOrigin
  pub call : Call

module _ {X S E : Type 0} (dispatch : X → Action S E ⊤) where
  unfoldable pub apply : S → X → S
  apply s x = (with_storage_layer (dispatch x) s).1

  unfoldable pub run : S → List X → S
  unfolding apply
  run s [] = s
  run s (x ∷ xs) = run (apply s x) xs

pub layer_cases :
    {S E : Type 0} (P : S → Type 0) (s s' : S) (r : Result E ⊤)
    → P s
    → (r ≡ ok tt → P s')
    → P (elim r as (λ _. Result E ⊤ × S) [ ok a ↦ (ok a, s') | err e ↦ (err e, s) ]).1
layer_cases P s s' (ok tt) same new = new refl
layer_cases P s s' (err e) same new = same

pub layer-ok :
    {S E : Type 0} (m : Action S E ⊤) (s : S)
    → (with_storage_layer m s).0 ≡ ok tt
    → ((m s).0 ≡ ok tt) × ((with_storage_layer m s).1 ≡ (m s).1)
layer-ok m s h = ground arith

module _ {X S E : Type 0} (dispatch : X → Action S E ⊤) where
  -- An extrinsic is refused and changes nothing, or its call is accepted.
  pub apply_cases :
      (P : S → Type 0) (s : S) (x : X)
      → P s
      → ((dispatch x s).0 ≡ ok tt → P (dispatch x s).1)
      → P (apply dispatch s x)
  unfolding apply
  apply_cases P s x same new = layer_cases P s (dispatch x s).1 (dispatch x s).0 same new

  -- What every accepted call keeps holds after any history.
  pub run_inv :
      (P : S → Type 0)
      → ((x : X) (s : S) → P s → (dispatch x s).0 ≡ ok tt → P (dispatch x s).1)
      → (xs : List X) (s : S) → P s
      → P (run dispatch s xs)
  unfolding run
  run_inv P keep [] s p = p
  run_inv P keep (x ∷ xs) s p =
      run_inv P keep xs (apply dispatch s x) (apply_cases P s x p (keep x s p))

  -- The same of the histories whose extrinsics pass a test.
  pub run_inv_all :
      (P : S → Type 0) (p : X → Bool)
      → ((x : X) (s : S) → p x ≡ true → P s → (dispatch x s).0 ≡ ok tt → P (dispatch x s).1)
      → (xs : List X) → all p xs ≡ true
      → (s : S) → P s
      → P (run dispatch s xs)
  unfolding run
  run_inv_all P p keep [] h s ps = ps
  run_inv_all P p keep (x ∷ xs) h s ps =
      run_inv_all P p keep xs (all-tail p x xs h) (apply dispatch s x)
        (apply_cases P s x ps (keep x s (all-head p x xs h) ps))
