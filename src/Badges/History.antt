-- ===== src/Badges/History.antt =====
-- Reasoning about extrinsics and histories of the badges pallet by the specification.
use contradots_techconnect_c.Base.{List, ◌≡◌, arith}
use contradots_techconnect_c.Frame.{Frame, Env, DispatchError, err}
use contradots_techconnect_c.Extrinsics
use contradots_techconnect_c.Extrinsics.{Extrinsic}
use contradots_techconnect_c.Badges
use contradots_techconnect_c.Badges.{Hash, Config, Storage, Error}
use contradots_techconnect_c.Badges.Calls.{Call, dispatch, submit, run}
use contradots_techconnect_c.Badges.Effects.{Effect}
use contradots_techconnect_c.Badges.Refinement.{badge_call-Effect}

module _ (F : Frame) (cfg : Config F) where
  -- What every effect keeps holds after any history.
  pub run_inv :
      (P : Storage F → Type 0)
      → ((x : Extrinsic F Call) (s s' : Storage F)
          → P s
          → Effect F cfg x.env x.origin x.call s s'
          → P s')
      → (xs : List (Extrinsic F Call)) (s : Storage F) → P s
      → P (run F cfg s xs)
  unfolding run
  run_inv P keep =
      Extrinsics.run_inv (submit F cfg) P
        (λ x s p e. keep x s _ p (badge_call-Effect F cfg x.env x.origin x.call s e))

  -- A call that fails has changed nothing and deposited no event, also without the storage layer.
  pub failed_badge_call_changes_nothing :
      (env : Env) (o : F.RuntimeOrigin) (c : Call) (s : Storage F) (e : DispatchError Error)
      → (dispatch F cfg env o c s).0 ≡ err e
      → (dispatch F cfg env o c s).1 ≡ s
  unfolding dispatch Badges.create_class Badges.issue_badge Badges.revoke_badge
      Badges.transfer_badge
  failed_badge_call_changes_nothing env o (Call.create_class hash club tr sb) s e h = ground arith
  failed_badge_call_changes_nothing env o (Call.issue_badge class to uri tr sb) s e h = ground arith
  failed_badge_call_changes_nothing env o (Call.revoke_badge class id) s e h = ground arith
  failed_badge_call_changes_nothing env o (Call.transfer_badge class id to) s e h = ground arith
