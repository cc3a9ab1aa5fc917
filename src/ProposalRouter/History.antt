-- ===== src/ProposalRouter/History.antt =====
-- Reasoning about extrinsics and histories of the proposal router by the specification.
use contradots_techconnect_c.Base.{List}
use contradots_techconnect_c.Frame.{Frame}
use contradots_techconnect_c.Extrinsics
use contradots_techconnect_c.Extrinsics.{Extrinsic}
use contradots_techconnect_c.ProposalRouter.{Config, World}
use contradots_techconnect_c.ProposalRouter.Calls.{Call, submit, run}
use contradots_techconnect_c.ProposalRouter.Effects.{Effect}
use contradots_techconnect_c.ProposalRouter.Refinement.{router_call-Effect}

module _ (F : Frame) (cfg : Config F) where
  -- What every effect keeps holds after any history.
  pub run_inv :
      (P : World F cfg → Type 0)
      → ((x : Extrinsic F Call) (s s' : World F cfg)
          → P s
          → Effect F cfg x.env x.origin x.call s s'
          → P s')
      → (xs : List (Extrinsic F Call)) (s : World F cfg) → P s
      → P (run F cfg s xs)
  unfolding run
  run_inv P keep =
      Extrinsics.run_inv (submit F cfg) P
        (λ x s p e. keep x s _ p (router_call-Effect F cfg x.env x.origin x.call s e))
