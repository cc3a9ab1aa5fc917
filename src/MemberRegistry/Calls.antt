-- ===== src/MemberRegistry/Calls.antt =====
-- `#[pallet::call]` of pallets/member-registry/src/lib.rs: the calls as data, the dispatchable of
-- each, and histories of extrinsics.
use contradots_techconnect_c.Base.{List, Option}
use contradots_techconnect_c.Frame.{Frame, Env}
use contradots_techconnect_c.Extrinsics
use contradots_techconnect_c.Extrinsics.{Extrinsic}
use contradots_techconnect_c.MemberRegistry
use contradots_techconnect_c.MemberRegistry.{
  AccountId, ClubId, RoleId, AttestationId, Moment, Hash, Config, Storage, Error, Handler,
}
use Prim.Native.Nat.{ℕ}

pub data Call : Type 0 where
  create_club : List ℕ → AccountId → Option Hash → Call
  add_officer remove_officer : ClubId → AccountId → Call
  create_attestation : AccountId → ClubId → Option Moment → Option Hash → Call
  register_member : AttestationId → Call
  add_member_admin remove_member_admin : AccountId → ClubId → Call
  set_role : AccountId → RoleId → Call
  revoke_attestation : AttestationId → Call

module _ (F : Frame) (cfg : Config F) where
  unfoldable pub dispatch : Env → F.RuntimeOrigin → Call → Handler F
  dispatch env o (create_club name admin meta) = MemberRegistry.create_club F cfg o name admin meta
  dispatch env o (add_officer club who) = MemberRegistry.add_officer F cfg o club who
  dispatch env o (remove_officer club who) = MemberRegistry.remove_officer F cfg o club who
  dispatch env o (create_attestation who club expiry meta) =
      MemberRegistry.create_attestation F cfg env o who club expiry meta
  dispatch env o (register_member id) = MemberRegistry.register_member F cfg env o id
  dispatch env o (add_member_admin who club) = MemberRegistry.add_member_admin F cfg env o who club
  dispatch env o (remove_member_admin who club) =
      MemberRegistry.remove_member_admin F cfg o who club
  dispatch env o (set_role who role) = MemberRegistry.set_role F cfg o who role
  dispatch env o (revoke_attestation id) = MemberRegistry.revoke_attestation F cfg o id

  abbrev pub submit : Extrinsic F Call → Handler F
  submit x = dispatch x.env x.origin x.call

  unfoldable pub apply : Storage F → Extrinsic F Call → Storage F
  unfolding Extrinsics.apply
  apply = Extrinsics.apply submit

  unfoldable pub run : Storage F → List (Extrinsic F Call) → Storage F
  unfolding Extrinsics.run
  run = Extrinsics.run submit
