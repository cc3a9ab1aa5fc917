-- ===== src/MemberRegistry/Refinement.antt =====
-- The dispatchables of the member registry accept exactly what the specification accepts, and
-- leave the storage that it says.
mod Clubs
mod Members
use contradots_techconnect_c.Base.{
  ap, subst, ◌↔◌, ℕ, ◌≡◌, some, true, List, Option, [], ◌∷◌, arith, value_of, is_some,
}
use contradots_techconnect_c.Frame.{Frame, Env, ok}
use contradots_techconnect_c.MemberRegistry
use contradots_techconnect_c.MemberRegistry.{
  Hash, Config, Storage, Attestation, ClubInfo, MemberInfo,
}
use contradots_techconnect_c.MemberRegistry.Calls.{Call, dispatch}
use contradots_techconnect_c.MemberRegistry.Effects.{
  Effect, CreatesClub, AddsOfficer, RemovesOfficer, Attests, Registers, AddsMember, RemovesMember,
  SetsRole, Revokes,
}
use Clubs.{
  create_club-CreatesClub, CreatesClub-create_club, add_officer-club, add_officer-AddsOfficer,
  AddsOfficer-add_officer, remove_officer-club, remove_officer-RemovesOfficer,
  RemovesOfficer-remove_officer, create_attestation-signer, create_attestation-club,
  create_attestation-Attests, Attests-create_attestation,
}
use Members.{
  register_member-attestation, register_member-club, register_member-Registers,
  Registers-register_member, add_member_admin-club, add_member_admin-AddsMember,
  AddsMember-add_member_admin, remove_member_admin-club, remove_member_admin-member,
  remove_member_admin-RemovesMember, RemovesMember-remove_member_admin, set_role-member,
  set_role-SetsRole, SetsRole-set_role, revoke_attestation-signer, revoke_attestation-attestation,
  revoke_attestation-club, revoke_attestation-Revokes, Revokes-revoke_attestation,
}

module _ (F : Frame) (cfg : Config F) where
  -- An accepted call has met the specification's conditions, and leaves its storage.
  pub dispatch-Effect :
      (env : Env) (o : F.RuntimeOrigin) (c : Call) (s : Storage F)
      → (dispatch F cfg env o c s).0 ≡ ok tt
      → Effect F cfg env o c s (dispatch F cfg env o c s).1
  unfolding dispatch
  dispatch-Effect env o (Call.create_club name admin meta) s h =
      create_club-CreatesClub F cfg o name admin meta s h
  dispatch-Effect env o (Call.add_officer club who) s h =
      let (c, ec) = value_of _ (add_officer-club F cfg o club who s h) in
      (c, add_officer-AddsOfficer F cfg o club who s c ec h)
  dispatch-Effect env o (Call.remove_officer club who) s h =
      let (c, ec) = value_of _ (remove_officer-club F cfg o club who s h) in
      (c, remove_officer-RemovesOfficer F cfg o club who s c ec h)
  dispatch-Effect env o (Call.create_attestation who club expiry meta) s h =
      let (a, ea) = value_of _ (create_attestation-signer F cfg env o who club expiry meta s h) in
      let (c, ec) =
        value_of _ (create_attestation-club F cfg env o who club expiry meta s a ea h) in
      (a, c, create_attestation-Attests F cfg env o who club expiry meta s a c ea ec h)
  dispatch-Effect env o (Call.register_member id) s h =
      let (att, eatt) = value_of _ (register_member-attestation F cfg env o id s h) in
      let (c, ec) = value_of _ (register_member-club F cfg env o id s att eatt h) in
      (att, c, register_member-Registers F cfg env o id s att c eatt ec h)
  dispatch-Effect env o (Call.add_member_admin who club) s h =
      let (c, ec) = value_of _ (add_member_admin-club F cfg env o who club s h) in
      (c, add_member_admin-AddsMember F cfg env o who club s c ec h)
  dispatch-Effect env o (Call.remove_member_admin who club) s h =
      let (c, ec) = value_of _ (remove_member_admin-club F cfg o who club s h) in
      let (m, em) = value_of _ (remove_member_admin-member F cfg o who club s c ec h) in
      (c, m, remove_member_admin-RemovesMember F cfg o who club s c m ec em h)
  dispatch-Effect env o (Call.set_role who role) s h =
      let (m, em) = value_of _ (set_role-member F cfg o who role s h) in
      (m, set_role-SetsRole F cfg o who role s m em h)
  dispatch-Effect env o (Call.revoke_attestation id) s h =
      let (who, ewho) = value_of _ (revoke_attestation-signer F cfg o id s h) in
      let (att, eatt) = value_of _ (revoke_attestation-attestation F cfg o id s who ewho h) in
      let (c, ec) = value_of _ (revoke_attestation-club F cfg o id s who att ewho eatt h) in
      (who, att, c, revoke_attestation-Revokes F cfg o id s who att c ewho eatt ec h)

  -- A call that meets the specification's conditions is accepted.
  pub Effect-dispatch :
      (env : Env) (o : F.RuntimeOrigin) (c : Call) (s s' : Storage F)
      → Effect F cfg env o c s s'
      → dispatch F cfg env o c s ≡ (ok tt, s')
  unfolding dispatch
  Effect-dispatch env o (Call.create_club name admin meta) s s' h =
      CreatesClub-create_club F cfg o name admin meta s s' h
  Effect-dispatch env o (Call.add_officer club who) s s' (c, h) =
      AddsOfficer-add_officer F cfg o club who s s' c h
  Effect-dispatch env o (Call.remove_officer club who) s s' (c, h) =
      RemovesOfficer-remove_officer F cfg o club who s s' c h
  Effect-dispatch env o (Call.create_attestation who club expiry meta) s s' (a, c, h) =
      Attests-create_attestation F cfg env o who club expiry meta s s' a c h
  Effect-dispatch env o (Call.register_member id) s s' (att, c, h) =
      Registers-register_member F cfg env o id s s' att c h
  Effect-dispatch env o (Call.add_member_admin who club) s s' (c, h) =
      AddsMember-add_member_admin F cfg env o who club s s' c h
  Effect-dispatch env o (Call.remove_member_admin who club) s s' (c, m, h) =
      RemovesMember-remove_member_admin F cfg o who club s s' c m h
  Effect-dispatch env o (Call.set_role who role) s s' (m, h) =
      SetsRole-set_role F cfg o who role s s' m h
  Effect-dispatch env o (Call.revoke_attestation id) s s' (who, att, c, h) =
      Revokes-revoke_attestation F cfg o id s s' who att c h

  -- For every call of the pallet, and every origin, block and storage: the call succeeds and leaves
  -- the storage `s'` exactly when the specification accepts the call and says `s'`.
  pub member_call_iff-Effect :
      (env : Env) (o : F.RuntimeOrigin) (c : Call) (s s' : Storage F)
      → (dispatch F cfg env o c s ≡ (ok tt, s')) ↔ Effect F cfg env o c s s'
  member_call_iff-Effect env o c s s' = (
    λ e. subst (λ r. Effect F cfg env o c s r.1) e (dispatch-Effect env o c s (ap (λ r. r.0) e)),
    Effect-dispatch env o c s s',
  )
