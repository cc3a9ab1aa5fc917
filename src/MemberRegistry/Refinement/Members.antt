-- ===== src/MemberRegistry/Refinement/Members.antt =====
-- The calls of the member registry that register, add, remove and change members and revoke
-- attestations, against the specification.
use contradots_techconnect_c.Base.{ℕ, ◌≡◌, some, true, arith, is_some}
use contradots_techconnect_c.Frame.{Frame, Env, ok}
use contradots_techconnect_c.MemberRegistry
use contradots_techconnect_c.MemberRegistry.{
  Hash, Config, Storage, Attestation, ClubInfo, MemberInfo,
}
use contradots_techconnect_c.MemberRegistry.Effects.{
  Registers, AddsMember, RemovesMember, SetsRole, Revokes,
}
use contradots_techconnect_c.MemberRegistry.Refinement.Clubs.{taken, none_taken}

module _ (F : Frame) (cfg : Config F) where
  pub register_member-attestation :
      (env : Env) (o : F.RuntimeOrigin) (id : ℕ) (s : Storage F)
      → (MemberRegistry.register_member F cfg env o id s).0 ≡ ok tt
      → is_some (F.get s.attestations id) ≡ true
  unfolding MemberRegistry.register_member
  register_member-attestation env o id s h = ground arith

  pub register_member-club :
      (env : Env) (o : F.RuntimeOrigin) (id : ℕ) (s : Storage F) (att : Attestation)
      → F.get s.attestations id ≡ some att
      → (MemberRegistry.register_member F cfg env o id s).0 ≡ ok tt
      → is_some (F.get s.clubs att.club) ≡ true
  unfolding MemberRegistry.register_member
  register_member-club env o id s att eatt h = ground arith

  pub register_member-Registers :
      (env : Env) (o : F.RuntimeOrigin) (id : ℕ) (s : Storage F) (att : Attestation) (c : ClubInfo)
      → F.get s.attestations id ≡ some att
      → F.get s.clubs att.club ≡ some c
      → (MemberRegistry.register_member F cfg env o id s).0 ≡ ok tt
      → Registers F cfg env o id s (MemberRegistry.register_member F cfg env o id s).1 att c
  unfolding MemberRegistry.register_member
  register_member-Registers env o id s att c eatt ec h =
      ground (arith, taken F cfg att.club, none_taken F cfg 8)

  pub Registers-register_member :
      (env : Env) (o : F.RuntimeOrigin) (id : ℕ) (s s' : Storage F) (att : Attestation)
      (c : ClubInfo)
      → Registers F cfg env o id s s' att c
      → MemberRegistry.register_member F cfg env o id s ≡ (ok tt, s')
  unfolding MemberRegistry.register_member
  Registers-register_member env o id s s' att c h =
      ground (arith, taken F cfg att.club, none_taken F cfg 8)

  pub add_member_admin-club :
      (env : Env) (o : F.RuntimeOrigin) (who club : ℕ) (s : Storage F)
      → (MemberRegistry.add_member_admin F cfg env o who club s).0 ≡ ok tt
      → is_some (F.get s.clubs club) ≡ true
  unfolding MemberRegistry.add_member_admin
  add_member_admin-club env o who club s h = ground arith

  pub add_member_admin-AddsMember :
      (env : Env) (o : F.RuntimeOrigin) (who club : ℕ) (s : Storage F) (c : ClubInfo)
      → F.get s.clubs club ≡ some c
      → (MemberRegistry.add_member_admin F cfg env o who club s).0 ≡ ok tt
      → AddsMember F cfg env o who club s
          (MemberRegistry.add_member_admin F cfg env o who club s).1
          c
  unfolding MemberRegistry.add_member_admin
  add_member_admin-AddsMember env o who club s c ec h =
      ground (arith, taken F cfg club, none_taken F cfg 8)

  pub AddsMember-add_member_admin :
      (env : Env) (o : F.RuntimeOrigin) (who club : ℕ) (s s' : Storage F) (c : ClubInfo)
      → AddsMember F cfg env o who club s s' c
      → MemberRegistry.add_member_admin F cfg env o who club s ≡ (ok tt, s')
  unfolding MemberRegistry.add_member_admin
  AddsMember-add_member_admin env o who club s s' c h =
      ground (arith, taken F cfg club, none_taken F cfg 8)

  pub remove_member_admin-club :
      (o : F.RuntimeOrigin) (who club : ℕ) (s : Storage F)
      → (MemberRegistry.remove_member_admin F cfg o who club s).0 ≡ ok tt
      → is_some (F.get s.clubs club) ≡ true
  unfolding MemberRegistry.remove_member_admin
  remove_member_admin-club o who club s h = ground arith

  pub remove_member_admin-member :
      (o : F.RuntimeOrigin) (who club : ℕ) (s : Storage F) (c : ClubInfo)
      → F.get s.clubs club ≡ some c
      → (MemberRegistry.remove_member_admin F cfg o who club s).0 ≡ ok tt
      → is_some (F.get s.members who) ≡ true
  unfolding MemberRegistry.remove_member_admin
  remove_member_admin-member o who club s c ec h = ground arith

  pub remove_member_admin-RemovesMember :
      (o : F.RuntimeOrigin) (who club : ℕ) (s : Storage F) (c : ClubInfo) (m : MemberInfo)
      → F.get s.clubs club ≡ some c
      → F.get s.members who ≡ some m
      → (MemberRegistry.remove_member_admin F cfg o who club s).0 ≡ ok tt
      → RemovesMember F cfg o who club s
          (MemberRegistry.remove_member_admin F cfg o who club s).1
          c
          m
  unfolding MemberRegistry.remove_member_admin
  remove_member_admin-RemovesMember o who club s c m ec em h = ground arith

  pub RemovesMember-remove_member_admin :
      (o : F.RuntimeOrigin) (who club : ℕ) (s s' : Storage F) (c : ClubInfo) (m : MemberInfo)
      → RemovesMember F cfg o who club s s' c m
      → MemberRegistry.remove_member_admin F cfg o who club s ≡ (ok tt, s')
  unfolding MemberRegistry.remove_member_admin
  RemovesMember-remove_member_admin o who club s s' c m h = ground arith

  pub set_role-member :
      (o : F.RuntimeOrigin) (who role : ℕ) (s : Storage F)
      → (MemberRegistry.set_role F cfg o who role s).0 ≡ ok tt
      → is_some (F.get s.members who) ≡ true
  unfolding MemberRegistry.set_role
  set_role-member o who role s h = ground arith

  pub set_role-SetsRole :
      (o : F.RuntimeOrigin) (who role : ℕ) (s : Storage F) (m : MemberInfo)
      → F.get s.members who ≡ some m
      → (MemberRegistry.set_role F cfg o who role s).0 ≡ ok tt
      → SetsRole F cfg o who role s (MemberRegistry.set_role F cfg o who role s).1 m
  unfolding MemberRegistry.set_role
  set_role-SetsRole o who role s m em h = ground (arith, F.try_push_lem 8 m.roles role)

  pub SetsRole-set_role :
      (o : F.RuntimeOrigin) (who role : ℕ) (s s' : Storage F) (m : MemberInfo)
      → SetsRole F cfg o who role s s' m
      → MemberRegistry.set_role F cfg o who role s ≡ (ok tt, s')
  unfolding MemberRegistry.set_role
  SetsRole-set_role o who role s s' m h = ground (arith, F.try_push_lem 8 m.roles role)

  pub revoke_attestation-signer :
      (o : F.RuntimeOrigin) (id : ℕ) (s : Storage F)
      → (MemberRegistry.revoke_attestation F cfg o id s).0 ≡ ok tt
      → is_some (F.ensure_signed o) ≡ true
  unfolding MemberRegistry.revoke_attestation
  revoke_attestation-signer o id s h = ground arith

  pub revoke_attestation-attestation :
      (o : F.RuntimeOrigin) (id : ℕ) (s : Storage F) (who : ℕ)
      → F.ensure_signed o ≡ some who
      → (MemberRegistry.revoke_attestation F cfg o id s).0 ≡ ok tt
      → is_some (F.get s.attestations id) ≡ true
  unfolding MemberRegistry.revoke_attestation
  revoke_attestation-attestation o id s who ewho h = ground arith

  pub revoke_attestation-club :
      (o : F.RuntimeOrigin) (id : ℕ) (s : Storage F) (who : ℕ) (att : Attestation)
      → F.ensure_signed o ≡ some who
      → F.get s.attestations id ≡ some att
      → (MemberRegistry.revoke_attestation F cfg o id s).0 ≡ ok tt
      → is_some (F.get s.clubs att.club) ≡ true
  unfolding MemberRegistry.revoke_attestation
  revoke_attestation-club o id s who att ewho eatt h = ground arith

  pub revoke_attestation-Revokes :
      (o : F.RuntimeOrigin) (id : ℕ) (s : Storage F) (who : ℕ) (att : Attestation) (c : ClubInfo)
      → F.ensure_signed o ≡ some who
      → F.get s.attestations id ≡ some att
      → F.get s.clubs att.club ≡ some c
      → (MemberRegistry.revoke_attestation F cfg o id s).0 ≡ ok tt
      → Revokes F cfg o id s (MemberRegistry.revoke_attestation F cfg o id s).1 who att c
  unfolding MemberRegistry.revoke_attestation
  revoke_attestation-Revokes o id s who att c ewho eatt ec h = ground arith

  pub Revokes-revoke_attestation :
      (o : F.RuntimeOrigin) (id : ℕ) (s s' : Storage F) (who : ℕ) (att : Attestation) (c : ClubInfo)
      → Revokes F cfg o id s s' who att c
      → MemberRegistry.revoke_attestation F cfg o id s ≡ (ok tt, s')
  unfolding MemberRegistry.revoke_attestation
  Revokes-revoke_attestation o id s s' who att c h = ground arith
