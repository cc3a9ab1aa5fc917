-- ===== src/Rewards/History.antt =====
-- Reasoning about extrinsics and histories of the rewards pallet by the specification.
use contradots_techconnect_c.Base.{List, Bool, true, ℕ, ◌≡◌, ◌==◌, all, arith}
use contradots_techconnect_c.Frame.{Frame, Env, DispatchError, err}
use contradots_techconnect_c.Extrinsics
use contradots_techconnect_c.Extrinsics.{Extrinsic}
use contradots_techconnect_c.Rewards
use contradots_techconnect_c.Rewards.{Config, Storage, Error, current_epoch}
use contradots_techconnect_c.Rewards.Calls.{Call, dispatch, submit, run}
use contradots_techconnect_c.Rewards.Effects.{Effect}
use contradots_techconnect_c.Rewards.Refinement.{reward_call-Effect}

module _ (F : Frame) (cfg : Config F) where
  -- What every effect keeps holds after any history.
  pub run_inv :
      (P : Storage F → Type 0)
      → ((x : Extrinsic F Call) (s s' : Storage F)
          → P s
          → Effect F cfg x.env x.origin x.call s s'
          → P s')
      → (xs : List (Extrinsic F Call)) (s : Storage F) → P s
      → P (run F cfg s xs)
  unfolding run
  run_inv P keep =
      Extrinsics.run_inv (submit F cfg) P
        (λ x s p e. keep x s _ p (reward_call-Effect F cfg x.env x.origin x.call s e))

  -- Every extrinsic is made in a block of the epoch.
  abbrev pub is_in_epoch : ℕ → Extrinsic F Call → Bool
  is_in_epoch e x = current_epoch F cfg x.env == e

  -- The same of the histories within one epoch.
  pub run_inv_epoch :
      (P : Storage F → Type 0) (epoch : ℕ)
      → ((x : Extrinsic F Call) (s s' : Storage F)
          → is_in_epoch epoch x ≡ true
          → P s
          → Effect F cfg x.env x.origin x.call s s'
          → P s')
      → (xs : List (Extrinsic F Call)) → all (is_in_epoch epoch) xs ≡ true
      → (s : Storage F) → P s
      → P (run F cfg s xs)
  unfolding run
  run_inv_epoch P epoch keep =
      Extrinsics.run_inv_all (submit F cfg) P (is_in_epoch epoch)
        (λ x s i p e. keep x s _ i p (reward_call-Effect F cfg x.env x.origin x.call s e))

  -- A call that fails has changed nothing and deposited no event, also without the storage layer.
  pub failed_reward_call_changes_nothing :
      (env : Env) (o : F.RuntimeOrigin) (c : Call) (s : Storage F) (e : DispatchError Error)
      → (dispatch F cfg env o c s).0 ≡ err e
      → (dispatch F cfg env o c s).1 ≡ s
  unfolding dispatch Rewards.create_rule Rewards.create_attestation Rewards.claim_reward
      Rewards.award_manual Rewards.revoke_attestation
  failed_reward_call_changes_nothing env o (Call.create_rule ev am li cl md) s e h = ground arith
  failed_reward_call_changes_nothing env o (Call.create_attestation su ru ex md) s e h =
      ground arith
  failed_reward_call_changes_nothing env o (Call.claim_reward id) s e h = ground arith
  failed_reward_call_changes_nothing env o (Call.award_manual to amount reason) s e h = ground arith
  failed_reward_call_changes_nothing env o (Call.revoke_attestation id) s e h = ground arith
