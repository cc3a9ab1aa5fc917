-- ===== src/MemberRegistry/Refinement/Clubs.antt =====
-- The calls of the member registry that create clubs, change their officers and attest, against
-- the specification.
use contradots_techconnect_c.Base.{ℕ, ◌≡◌, some, true, List, Option, [], ◌∷◌, arith, is_some}
use contradots_techconnect_c.Frame.{Frame, Env, ok}
use contradots_techconnect_c.MemberRegistry
use contradots_techconnect_c.MemberRegistry.{
  Hash, Config, Storage, Attestation, ClubInfo, MemberInfo,
}
use contradots_techconnect_c.MemberRegistry.Effects.{
  CreatesClub, AddsOfficer, RemovesOfficer, Attests,
}

module _ (F : Frame) (cfg : Config F) where
  pub taken : (club : ℕ) → F.try_from 8 (club ∷ []) ≡ some (club ∷ [])
  taken club = rw (F.try_from_lem 8 (club ∷ []))

  pub none_taken : (bound : ℕ) → F.try_from {A = ℕ} bound [] ≡ some []
  none_taken bound = rw (F.try_from_lem {A = ℕ} bound []) (ground arith)

  pub create_club-CreatesClub :
      (o : F.RuntimeOrigin) (name : List ℕ) (admin : ℕ) (meta : Option Hash) (s : Storage F)
      → (MemberRegistry.create_club F cfg o name admin meta s).0 ≡ ok tt
      → CreatesClub F cfg o name admin meta s
          (MemberRegistry.create_club F cfg o name admin meta s).1
  unfolding MemberRegistry.create_club
  create_club-CreatesClub o name admin meta s h = ground (arith, none_taken 32)

  pub CreatesClub-create_club :
      (o : F.RuntimeOrigin) (name : List ℕ) (admin : ℕ) (meta : Option Hash) (s s' : Storage F)
      → CreatesClub F cfg o name admin meta s s'
      → MemberRegistry.create_club F cfg o name admin meta s ≡ (ok tt, s')
  unfolding MemberRegistry.create_club
  CreatesClub-create_club o name admin meta s s' h = ground (arith, none_taken 32)

  pub add_officer-club :
      (o : F.RuntimeOrigin) (club who : ℕ) (s : Storage F)
      → (MemberRegistry.add_officer F cfg o club who s).0 ≡ ok tt
      → is_some (F.get s.clubs club) ≡ true
  unfolding MemberRegistry.add_officer
  add_officer-club o club who s h = ground arith

  pub add_officer-AddsOfficer :
      (o : F.RuntimeOrigin) (club who : ℕ) (s : Storage F) (c : ClubInfo)
      → F.get s.clubs club ≡ some c
      → (MemberRegistry.add_officer F cfg o club who s).0 ≡ ok tt
      → AddsOfficer F cfg o club who s (MemberRegistry.add_officer F cfg o club who s).1 c
  unfolding MemberRegistry.add_officer
  add_officer-AddsOfficer o club who s c ec h = ground (arith, F.try_push_lem 32 c.officers who)

  pub AddsOfficer-add_officer :
      (o : F.RuntimeOrigin) (club who : ℕ) (s s' : Storage F) (c : ClubInfo)
      → AddsOfficer F cfg o club who s s' c
      → MemberRegistry.add_officer F cfg o club who s ≡ (ok tt, s')
  unfolding MemberRegistry.add_officer
  AddsOfficer-add_officer o club who s s' c h = ground (arith, F.try_push_lem 32 c.officers who)

  pub remove_officer-club :
      (o : F.RuntimeOrigin) (club who : ℕ) (s : Storage F)
      → (MemberRegistry.remove_officer F cfg o club who s).0 ≡ ok tt
      → is_some (F.get s.clubs club) ≡ true
  unfolding MemberRegistry.remove_officer
  remove_officer-club o club who s h = ground arith

  pub remove_officer-RemovesOfficer :
      (o : F.RuntimeOrigin) (club who : ℕ) (s : Storage F) (c : ClubInfo)
      → F.get s.clubs club ≡ some c
      → (MemberRegistry.remove_officer F cfg o club who s).0 ≡ ok tt
      → RemovesOfficer F cfg o club who s (MemberRegistry.remove_officer F cfg o club who s).1 c
  unfolding MemberRegistry.remove_officer
  remove_officer-RemovesOfficer o club who s c ec h = ground arith

  pub RemovesOfficer-remove_officer :
      (o : F.RuntimeOrigin) (club who : ℕ) (s s' : Storage F) (c : ClubInfo)
      → RemovesOfficer F cfg o club who s s' c
      → MemberRegistry.remove_officer F cfg o club who s ≡ (ok tt, s')
  unfolding MemberRegistry.remove_officer
  RemovesOfficer-remove_officer o club who s s' c h = ground arith

  pub create_attestation-signer :
      (env : Env) (o : F.RuntimeOrigin) (who club : ℕ) (expiry : Option ℕ) (meta : Option Hash)
      (s : Storage F)
      → (MemberRegistry.create_attestation F cfg env o who club expiry meta s).0 ≡ ok tt
      → is_some (F.ensure_signed o) ≡ true
  unfolding MemberRegistry.create_attestation
  create_attestation-signer env o who club expiry meta s h = ground arith

  pub create_attestation-club :
      (env : Env) (o : F.RuntimeOrigin) (who club : ℕ) (expiry : Option ℕ) (meta : Option Hash)
      (s : Storage F) (a : ℕ)
      → F.ensure_signed o ≡ some a
      → (MemberRegistry.create_attestation F cfg env o who club expiry meta s).0 ≡ ok tt
      → is_some (F.get s.clubs club) ≡ true
  unfolding MemberRegistry.create_attestation
  create_attestation-club env o who club expiry meta s a ea h = ground arith

  pub create_attestation-Attests :
      (env : Env) (o : F.RuntimeOrigin) (who club : ℕ) (expiry : Option ℕ) (meta : Option Hash)
      (s : Storage F) (a : ℕ) (c : ClubInfo)
      → F.ensure_signed o ≡ some a
      → F.get s.clubs club ≡ some c
      → (MemberRegistry.create_attestation F cfg env o who club expiry meta s).0 ≡ ok tt
      → Attests F cfg env o who club expiry meta s
          (MemberRegistry.create_attestation F cfg env o who club expiry meta s).1
          a
          c
  unfolding MemberRegistry.create_attestation
  create_attestation-Attests env o who club expiry meta s a c ea ec h = ground arith

  pub Attests-create_attestation :
      (env : Env) (o : F.RuntimeOrigin) (who club : ℕ) (expiry : Option ℕ) (meta : Option Hash)
      (s s' : Storage F) (a : ℕ) (c : ClubInfo)
      → Attests F cfg env o who club expiry meta s s' a c
      → MemberRegistry.create_attestation F cfg env o who club expiry meta s ≡ (ok tt, s')
  unfolding MemberRegistry.create_attestation
  Attests-create_attestation env o who club expiry meta s s' a c h = ground arith
