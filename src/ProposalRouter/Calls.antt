-- ===== src/ProposalRouter/Calls.antt =====
-- `#[pallet::call]` of pallets/proposal-router/src/lib.rs: the calls as data, the dispatchable of
-- each, and histories of extrinsics.
use contradots_techconnect_c.Base.{ℕ, Bool, Option, List}
use contradots_techconnect_c.Frame.{Frame, Env}
use contradots_techconnect_c.Extrinsics
use contradots_techconnect_c.Extrinsics.{Extrinsic}
use contradots_techconnect_c.ProposalRouter
use contradots_techconnect_c.ProposalRouter.{
  ProposalId, BlockNumber, Votes, Scope, Bytes, Config, World, Handler,
}

pub data Call : Type 0 where
  propose : Scope → Bytes → Option Bytes → Option BlockNumber → Option Votes → Option ℕ → Call
  vote : ProposalId → Bool → Call
  execute : ProposalId → Call
  cancel : ProposalId → Call

module _ (F : Frame) (cfg : Config F) where
  unfoldable pub dispatch : Env → F.RuntimeOrigin → Call → Handler F cfg
  dispatch env o (propose scope call metadata period quorum threshold) =
      ProposalRouter.propose F cfg env o scope call metadata period quorum threshold
  dispatch env o (vote id aye) = ProposalRouter.vote F cfg env o id aye
  dispatch env o (execute id) = ProposalRouter.execute F cfg env o id
  dispatch env o (cancel id) = ProposalRouter.cancel F cfg o id

  abbrev pub submit : Extrinsic F Call → Handler F cfg
  submit x = dispatch x.env x.origin x.call

  unfoldable pub apply : World F cfg → Extrinsic F Call → World F cfg
  unfolding Extrinsics.apply
  apply = Extrinsics.apply submit

  unfoldable pub run : World F cfg → List (Extrinsic F Call) → World F cfg
  unfolding Extrinsics.run
  run = Extrinsics.run submit
