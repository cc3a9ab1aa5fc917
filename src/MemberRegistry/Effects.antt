-- ===== src/MemberRegistry/Effects.antt =====
-- The calls of pallets/member-registry/src/lib.rs as a specification: when a call is accepted, and
-- the storage that it leaves, without the order of the checks and writes.
use contradots_techconnect_c.Base.{
  ℕ, ◌+◌, ◌-◌, ◌<◌, ◌≡◌, ◌⊎◌, true, false, none, some, List, Option, [], ◌∷◌, ◌++◌, length, min,
  u32_max, u64_max,
}
use contradots_techconnect_c.Frame.{Frame, Env, now_millis}
use contradots_techconnect_c.MemberRegistry.{
  Hash, Config, Storage, ClubInfo, MemberInfo, Attestation, Event, active, removed,
  is_admin_or_officer, is_unexpired,
}
use contradots_techconnect_c.MemberRegistry.Lists.{without_officer}
use contradots_techconnect_c.MemberRegistry.Calls.{Call}

abbrev pub joined : ℕ → ℕ → MemberInfo
joined club at = record {
  clubs = club ∷ [];
  roles = [];
  joined_at = at;
  status = active;
  metadata = none;
}

abbrev pub counted_up : ClubInfo → ClubInfo
counted_up c = record c { members_count = min (c.members_count + 1) u32_max }

abbrev pub counted_down : ClubInfo → ClubInfo
counted_down c = record c { members_count = c.members_count - 1 }

-- The attestation that `create_attestation` stores.
abbrev pub attested : ℕ → ℕ → Option ℕ → Option Hash → ℕ → ℕ → Attestation
attested who club expiry meta attestor at = record {
  subject = who;
  club = club;
  attestor = attestor;
  created_at = at;
  expires_at = expiry;
  used = false;
  metadata = meta;
}

-- The storage after a registration by the attestation `att`.
abbrev pub registered : (F : Frame) → Storage F → ℕ → Attestation → ClubInfo → Storage F
registered F s id att c = record s {
  members = F.insert s.members att.subject (joined att.club att.created_at);
  clubs = F.insert s.clubs att.club (counted_up c);
  attestations = F.insert s.attestations id (record att { used = true });
  events =
      Event.attestation_used id att.subject att.club
      ∷ Event.member_registered att.subject att.club
      ∷ s.events;
}

module _ (F : Frame) (cfg : Config F) where
  open F use {RuntimeOrigin, get, insert, remove, ensure_signed}

  -- The club gets the next identifier, and has no officers and no members.
  pub record CreatesClub (o : RuntimeOrigin) (name : List ℕ) (admin : ℕ) (meta : Option Hash)
      (s s' : Storage F) : Type 0 where
    pub allowed : cfg.root_club_admin_origin o ≡ true
    pub after : s' ≡ record s {
      clubs = insert s.clubs s.next_club_id (record {
        name = name;
        admin = admin;
        officers = [];
        members_count = 0;
        metadata = meta;
      });
      next_club_id = min (s.next_club_id + 1) u32_max;
      events = Event.club_created s.next_club_id admin ∷ s.events;
    }

  -- The club's admin adds an officer, at most the 32nd.
  pub record AddsOfficer (o : RuntimeOrigin) (club who : ℕ) (s s' : Storage F) (c : ClubInfo)
      : Type 0 where
    pub club_found : get s.clubs club ≡ some c
    pub signed : ensure_signed o ≡ some c.admin
    pub room : length c.officers < 32
    pub after : s' ≡ record s {
      clubs = insert s.clubs club (record c { officers = c.officers ++ who ∷ [] });
      events = Event.officer_added club who ∷ s.events;
    }

  -- The club's admin removes the first entry of an officer, if there is one.
  pub record RemovesOfficer (o : RuntimeOrigin) (club who : ℕ) (s s' : Storage F) (c : ClubInfo)
      : Type 0 where
    pub club_found : get s.clubs club ≡ some c
    pub signed : ensure_signed o ≡ some c.admin
    pub after : s' ≡ record s {
      clubs = insert s.clubs club (record c { officers = without_officer c.officers who });
      events = Event.officer_removed club who ∷ s.events;
    }

  -- The club's admin or an officer attests, under the next identifier.
  pub record Attests (env : Env) (o : RuntimeOrigin) (who club : ℕ) (expiry : Option ℕ)
      (meta : Option Hash) (s s' : Storage F) (attestor : ℕ) (c : ClubInfo) : Type 0 where
    pub signed : ensure_signed o ≡ some attestor
    pub club_found : get s.clubs club ≡ some c
    pub authorized : is_admin_or_officer c attestor ≡ true
    pub after : s' ≡ record s {
      attestations =
          insert s.attestations s.next_attestation_id
            (attested who club expiry meta attestor (now_millis env));
      next_attestation_id = min (s.next_attestation_id + 1) u64_max;
      events = Event.attestation_created s.next_attestation_id who club attestor ∷ s.events;
    }

  -- The caller registers by the attestation, which is spent, and the club has one member more.
  pub record Registers (env : Env) (o : RuntimeOrigin) (id : ℕ) (s s' : Storage F)
      (att : Attestation) (c : ClubInfo) : Type 0 where
    pub found : get s.attestations id ≡ some att
    pub signed : ensure_signed o ≡ some att.subject
    pub unused : att.used ≡ false
    pub unexpired : is_unexpired att.expires_at (now_millis env) ≡ true
    pub club_found : get s.clubs att.club ≡ some c
    pub attested : is_admin_or_officer c att.attestor ≡ true
    pub fresh : get s.members att.subject ≡ none
    pub after : s' ≡ registered F s id att c

  -- The club's admin makes an account a member of the club.
  pub record AddsMember (env : Env) (o : RuntimeOrigin) (who club : ℕ) (s s' : Storage F)
      (c : ClubInfo) : Type 0 where
    pub club_found : get s.clubs club ≡ some c
    pub signed : ensure_signed o ≡ some c.admin
    pub fresh : get s.members who ≡ none
    pub after : s' ≡ record s {
      members = insert s.members who (joined club (now_millis env));
      clubs = insert s.clubs club (counted_up c);
      events = Event.member_registered who club ∷ s.events;
    }

  -- A club's admin marks a member as removed, and the club's count falls.
  pub record RemovesMember (o : RuntimeOrigin) (who club : ℕ) (s s' : Storage F) (c : ClubInfo)
      (m : MemberInfo) : Type 0 where
    pub club_found : get s.clubs club ≡ some c
    pub signed : ensure_signed o ≡ some c.admin
    pub found : get s.members who ≡ some m
    pub after : s' ≡ record s {
      members = insert s.members who (record m { status = removed });
      clubs = insert s.clubs club (counted_down c);
      events = Event.member_removed who club ∷ s.events;
    }

  -- The privileged origin gives a member a role, at most the eighth.
  pub record SetsRole (o : RuntimeOrigin) (who role : ℕ) (s s' : Storage F) (m : MemberInfo)
      : Type 0 where
    pub allowed : cfg.root_club_admin_origin o ≡ true
    pub found : get s.members who ≡ some m
    pub room : length m.roles < 8
    pub after : s' ≡ record s {
      members = insert s.members who (record m { roles = m.roles ++ role ∷ [] });
      events = Event.role_assigned who role ∷ s.events;
    }

  -- The attestor or the club's admin deletes an attestation.
  pub record Revokes (o : RuntimeOrigin) (id : ℕ) (s s' : Storage F) (who : ℕ) (att : Attestation)
      (c : ClubInfo) : Type 0 where
    pub signed : ensure_signed o ≡ some who
    pub found : get s.attestations id ≡ some att
    pub club_found : get s.clubs att.club ≡ some c
    pub authorized : (who ≡ att.attestor) ⊎ (who ≡ c.admin)
    pub after : s' ≡ record s {
      attestations = remove s.attestations id;
      events = Event.attestation_revoked id ∷ s.events;
    }

  -- The call is accepted in `s`, and leaves `s'`.
  abbrev pub Effect : Env → RuntimeOrigin → Call → Storage F → Storage F → Type 0
  Effect env o (Call.create_club name admin meta) s s' = CreatesClub o name admin meta s s'
  Effect env o (Call.add_officer club who) s s' = (c : ClubInfo) × AddsOfficer o club who s s' c
  Effect env o (Call.remove_officer club who) s s' =
      (c : ClubInfo) × RemovesOfficer o club who s s' c
  Effect env o (Call.create_attestation who club expiry meta) s s' =
      (attestor : ℕ) × (c : ClubInfo) × Attests env o who club expiry meta s s' attestor c
  Effect env o (Call.register_member id) s s' =
      (att : Attestation) × (c : ClubInfo) × Registers env o id s s' att c
  Effect env o (Call.add_member_admin who club) s s' =
      (c : ClubInfo) × AddsMember env o who club s s' c
  Effect env o (Call.remove_member_admin who club) s s' =
      (c : ClubInfo) × (m : MemberInfo) × RemovesMember o who club s s' c m
  Effect env o (Call.set_role who role) s s' = (m : MemberInfo) × SetsRole o who role s s' m
  Effect env o (Call.revoke_attestation id) s s' =
      (who : ℕ) × (att : Attestation) × (c : ClubInfo) × Revokes o id s s' who att c
