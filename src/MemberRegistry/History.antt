-- ===== src/MemberRegistry/History.antt =====
-- Reasoning about extrinsics and histories of the member registry by the specification.
use contradots_techconnect_c.Base.{List}
use contradots_techconnect_c.Frame.{Frame}
use contradots_techconnect_c.Extrinsics
use contradots_techconnect_c.Extrinsics.{Extrinsic}
use contradots_techconnect_c.MemberRegistry.{Config, Storage}
use contradots_techconnect_c.MemberRegistry.Calls.{Call, submit, apply, run}
use contradots_techconnect_c.MemberRegistry.Effects.{Effect}
use contradots_techconnect_c.MemberRegistry.Refinement.{dispatch-Effect}

module _ (F : Frame) (cfg : Config F) where
  -- An extrinsic is refused and changes nothing, or has the effect of its call.
  pub apply_cases :
      (P : Storage F → Type 0) (s : Storage F) (x : Extrinsic F Call)
      → P s
      → ((s' : Storage F) → Effect F cfg x.env x.origin x.call s s' → P s')
      → P (apply F cfg s x)
  unfolding apply
  apply_cases P s x same new =
      Extrinsics.apply_cases (submit F cfg) P s x same
        (λ e. new _ (dispatch-Effect F cfg x.env x.origin x.call s e))

  -- What every effect keeps holds after any history.
  pub run_inv :
      (P : Storage F → Type 0)
      → ((x : Extrinsic F Call) (s s' : Storage F)
          → P s
          → Effect F cfg x.env x.origin x.call s s'
          → P s')
      → (xs : List (Extrinsic F Call)) (s : Storage F) → P s
      → P (run F cfg s xs)
  unfolding run
  run_inv P keep =
      Extrinsics.run_inv (submit F cfg) P
        (λ x s p e. keep x s _ p (dispatch-Effect F cfg x.env x.origin x.call s e))
