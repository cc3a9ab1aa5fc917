-- ===== src/Badges/Calls.antt =====
-- `#[pallet::call]` of pallets/badges/src/lib.rs: the calls as data, the dispatchable of each, and
-- histories of extrinsics.
use contradots_techconnect_c.Base.{Bool, Option, List}
use contradots_techconnect_c.Frame.{Frame, Env}
use contradots_techconnect_c.Extrinsics
use contradots_techconnect_c.Extrinsics.{Extrinsic}
use contradots_techconnect_c.Badges
use contradots_techconnect_c.Badges.{
  AccountId, ClassId, InstanceId, ClubId, Hash, Config, Storage, Handler,
}

pub data Call : Type 0 where
  create_class : Hash → Option ClubId → Bool → Bool → Call
  issue_badge : ClassId → AccountId → Hash → Option Bool → Option Bool → Call
  revoke_badge : ClassId → InstanceId → Call
  transfer_badge : ClassId → InstanceId → AccountId → Call

module _ (F : Frame) (cfg : Config F) where
  unfoldable pub dispatch : Env → F.RuntimeOrigin → Call → Handler F
  dispatch env o (create_class hash club transferable soulbound) =
      Badges.create_class F cfg o hash club transferable soulbound
  dispatch env o (issue_badge class to hash transferable soulbound) =
      Badges.issue_badge F cfg env o class to hash transferable soulbound
  dispatch env o (revoke_badge class id) = Badges.revoke_badge F cfg o class id
  dispatch env o (transfer_badge class id to) = Badges.transfer_badge F cfg o class id to

  abbrev pub submit : Extrinsic F Call → Handler F
  submit x = dispatch x.env x.origin x.call

  unfoldable pub run : Storage F → List (Extrinsic F Call) → Storage F
  unfolding Extrinsics.run
  run = Extrinsics.run submit
