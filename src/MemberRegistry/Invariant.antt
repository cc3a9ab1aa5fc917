-- ===== src/MemberRegistry/Invariant.antt =====
-- What holds of the storage of the member registry after any history. The maps are treated in
-- Invariant/Maps; here is the invariant of the storage, kept by every call.
mod Maps
pub use Maps.*
use contradots_techconnect_c.Base.{
  ℕ, Option, none, ◌≤◌, ◌≡◌, some, List, [], ◌∷◌, ◌++◌, arith, length, length-append, u32_max,
  u64_max, inl, inr, min, ◌+◌, is_some, true,
}
use contradots_techconnect_c.Frame.{Frame, Env, now_millis}
use contradots_techconnect_c.Extrinsics.{Extrinsic}
use contradots_techconnect_c.MemberRegistry.{
  Config, Storage, genesis, MemberInfo, ClubInfo, Attestation, Event,
}
use contradots_techconnect_c.MemberRegistry.Lists.{length-without_officer-le}
use contradots_techconnect_c.MemberRegistry.Calls.{Call, run}
use contradots_techconnect_c.MemberRegistry.Effects.{Effect, joined, counted_up, counted_down}
use contradots_techconnect_c.MemberRegistry.History.{run_inv}

pub record IsValid (F : Frame) (s : Storage F) : Type 0 where
  pub clubs_valid : AllClubs F s.next_club_id s.clubs
  pub members_valid : AllMembers F s.clubs s.members
  pub attestations_valid : AllAttestations F s.clubs s.members s.next_attestation_id s.attestations
  pub club_ids_bounded : s.next_club_id ≤ u32_max
  pub attestation_ids_bounded : s.next_attestation_id ≤ u64_max

pub genesis-IsValid : (F : Frame) → IsValid F (genesis F)
genesis-IsValid F = record {
  clubs_valid = λ id c e. ground (arith, F.get-empty {V = ClubInfo} id);
  members_valid = λ who m e. ground (arith, F.get-empty {V = MemberInfo} who);
  attestations_valid = λ id a e. ground (arith, F.get-empty {V = Attestation} id);
  club_ids_bounded = omega arith;
  attestation_ids_bounded = omega arith;
}

module _ (F : Frame) (cfg : Config F) where
  -- A call that changes one club, and keeps its entry valid.
  club_changed :
      (s : Storage F) (k : ℕ) (c : ClubInfo) (es : List Event)
      → IsValid F s
      → IsValidClub s.next_club_id k c
      → IsValid F (record s { clubs = F.insert s.clubs k c; events = es })
  club_changed s k c es v one = record {
    clubs_valid = insert-AllClubs F _ k c _ v.clubs_valid one;
    members_valid = AllMembers-insert_club F _ _ k c v.members_valid;
    attestations_valid = AllAttestations-insert_club F _ _ _ _ v.attestations_valid k c;
    club_ids_bounded = v.club_ids_bounded;
    attestation_ids_bounded = v.attestation_ids_bounded;
  }

  -- A call that writes one member's entry, and keeps it valid.
  member_changed :
      (s : Storage F) (who : ℕ) (m : MemberInfo) (es : List Event)
      → IsValid F s
      → IsValidMember F s.clubs m
      → IsValid F (record s { members = F.insert s.members who m; events = es })
  member_changed s who m es v one = record {
    clubs_valid = v.clubs_valid;
    members_valid = insert-AllMembers F _ _ who m v.members_valid one;
    attestations_valid = AllAttestations-insert_member F _ _ _ _ v.attestations_valid who m;
    club_ids_bounded = v.club_ids_bounded;
    attestation_ids_bounded = v.attestation_ids_bounded;
  }

  -- A call that writes the attestations, and keeps them valid.
  attestations_changed :
      (s : Storage F) (next : ℕ) (atts : F.StorageMap Attestation) (es : List Event)
      → IsValid F s
      → next ≤ u64_max
      → AllAttestations F s.clubs s.members next atts
      → IsValid F (record s { attestations = atts; next_attestation_id = next; events = es })
  attestations_changed s next atts es v bounded all = record {
    clubs_valid = v.clubs_valid;
    members_valid = v.members_valid;
    attestations_valid = all;
    club_ids_bounded = v.club_ids_bounded;
    attestation_ids_bounded = bounded;
  }

  -- Every accepted call keeps the invariant.
  pub Effect-IsValid :
      (env : Env) (o : F.RuntimeOrigin) (c : Call) (s s' : Storage F)
      → IsValid F s
      → Effect F cfg env o c s s'
      → IsValid F s'
  Effect-IsValid env o (Call.create_club name admin meta) s s' v h = rw h.after (record {
    clubs_valid =
        insert-AllClubs F _ _ _ _ (AllClubs-next F _ _ v.club_ids_bounded v.clubs_valid)
          (ground arith);
    members_valid = AllMembers-insert_club F _ _ _ _ v.members_valid;
    attestations_valid = AllAttestations-insert_club F _ _ _ _ v.attestations_valid _ _;
    club_ids_bounded = omega arith;
    attestation_ids_bounded = v.attestation_ids_bounded;
  })
  Effect-IsValid env o (Call.add_officer club who) s s' v (c, h) = rw h.after (
      club_changed s club _ _ v (
        ground
          (arith, v.clubs_valid club c h.club_found, length-append c.officers (who ∷ []), h.room)))
  Effect-IsValid env o (Call.remove_officer club who) s s' v (c, h) = rw h.after (
      club_changed s club _ _ v (
        ground
          (arith, v.clubs_valid club c h.club_found, length-without_officer-le c.officers who)))
  Effect-IsValid env o (Call.create_attestation who club expiry meta) s s' v (a, c, h) =
      rw h.after (
        attestations_changed s _ _ _ v (omega arith) (
          insert-AllAttestations F _ _ _ _
            (AllAttestations-next F _ _ _ _ v.attestations_valid v.attestation_ids_bounded) _ _
            (ground arith)))
  Effect-IsValid env o (Call.register_member id) s s' v (att, c, h) =
      let joined_valid =
        member_changed s att.subject (joined att.club att.created_at) s.events v (ground arith) in
      let counted =
        club_changed _ att.club (counted_up c) s.events joined_valid
          (ground (arith, v.clubs_valid att.club c h.club_found)) in
      rw h.after (
        attestations_changed _ _ _ _ counted v.attestation_ids_bounded (
          insert-AllAttestations F _ _ _ _ counted.attestations_valid id _ (
            ground (
              arith,
              v.attestations_valid id att h.found,
              F.get-insert s.clubs att.club (counted_up c) att.club,
              F.get-insert s.members att.subject (joined att.club att.created_at) att.subject,
            ))))
  Effect-IsValid env o (Call.add_member_admin who club) s s' v (c, h) = rw h.after (
      club_changed _ club (counted_up c) _
        (member_changed s who (joined club (now_millis env)) s.events v (ground arith))
        (ground (arith, v.clubs_valid club c h.club_found)))
  Effect-IsValid env o (Call.remove_member_admin who club) s s' v (c, m, h) = rw h.after (
      club_changed _ club (counted_down c) _
        (member_changed s who _ s.events v (ground (arith, v.members_valid who m h.found)))
        (ground (arith, v.clubs_valid club c h.club_found)))
  Effect-IsValid env o (Call.set_role who role) s s' v (m, h) = rw h.after (
      member_changed s who _ _ v
        (ground (arith, v.members_valid who m h.found, length-append m.roles (role ∷ []), h.room)))
  Effect-IsValid env o (Call.revoke_attestation id) s s' v (who, att, c, h) = rw h.after (
      attestations_changed s _ _ _ v v.attestation_ids_bounded
        (remove-AllAttestations F _ _ _ _ v.attestations_valid id))

  -- After any history that began with the empty storage: each club's and attestation's
  -- identifier was handed out before, unless the counter has reached its end; officers, roles
  -- and counts are within their bounds; each member is in exactly one club, and it exists; each
  -- attestation is for a club that exists, and if used, its subject is a member.
  pub run-IsValid : (xs : List (Extrinsic F Call)) → IsValid F (run F cfg (genesis F) xs)
  run-IsValid xs =
      run_inv F cfg (IsValid F) (λ x. Effect-IsValid x.env x.origin x.call) xs (genesis F)
        (genesis-IsValid F)
