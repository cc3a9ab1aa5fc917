-- ===== src/Rewards/Calls.antt =====
-- `#[pallet::call]` of pallets/rewards/src/lib.rs: the calls as data, the dispatchable of each, and
-- histories of extrinsics.
use contradots_techconnect_c.Base.{ℕ, Option, List}
use contradots_techconnect_c.Frame.{Frame, Env}
use contradots_techconnect_c.Extrinsics
use contradots_techconnect_c.Extrinsics.{Extrinsic}
use contradots_techconnect_c.Rewards
use contradots_techconnect_c.Rewards.{
  AccountId, RuleId, AttestationId, ClubId, RewardAmount, Moment, Bytes, Config, Storage, Handler,
}

pub data Call : Type 0 where
  create_rule : Bytes → RewardAmount → ℕ → Option ClubId → Option Bytes → Call
  create_attestation : AccountId → RuleId → Option Moment → Option Bytes → Call
  claim_reward : AttestationId → Call
  award_manual : AccountId → RewardAmount → Option Bytes → Call
  revoke_attestation : AttestationId → Call

module _ (F : Frame) (cfg : Config F) where
  unfoldable pub dispatch : Env → F.RuntimeOrigin → Call → Handler F
  dispatch env o (create_rule event_type amount limit club metadata) =
      Rewards.create_rule F cfg o event_type amount limit club metadata
  dispatch env o (create_attestation subject rule_id expires_at metadata) =
      Rewards.create_attestation F cfg env o subject rule_id expires_at metadata
  dispatch env o (claim_reward id) = Rewards.claim_reward F cfg env o id
  dispatch env o (award_manual to amount reason) = Rewards.award_manual F cfg o to amount reason
  dispatch env o (revoke_attestation id) = Rewards.revoke_attestation F cfg o id

  abbrev pub submit : Extrinsic F Call → Handler F
  submit x = dispatch x.env x.origin x.call

  unfoldable pub run : Storage F → List (Extrinsic F Call) → Storage F
  unfolding Extrinsics.run
  run = Extrinsics.run submit
