-- ===== src/MemberRegistry/Invariant/Maps.antt =====
-- The entries of the maps of the member registry, and what keeps them valid.
use contradots_techconnect_c.Base.{
  ℕ, ◌≡◌, ◌≤◌, ◌<◌, ◌+◌, ◌⊎◌, true, some, List, [], ◌∷◌, arith, length, is_some, min, u32_max,
  u64_max,
}
use contradots_techconnect_c.Frame.{Frame}
use contradots_techconnect_c.MemberRegistry.Data.{MemberInfo, ClubInfo, Attestation}

-- An identifier was handed out before the counter reached `next`, or the counter is at its end.
abbrev pub IsIssued : ℕ → ℕ → ℕ → Type 0
IsIssued top next id = (id < next) ⊎ (next ≡ top)

pub record IsValidClub (next id : ℕ) (c : ClubInfo) : Type 0 where
  pub issued : IsIssued u32_max next id
  pub officers_bounded : length c.officers ≤ 32
  pub count_bounded : c.members_count ≤ u32_max

module _ (F : Frame) where
  open F use {StorageMap, get, insert, remove, get-insert, get-remove}

  -- The list holds one club, and that club is there.
  abbrev pub IsOneClub : StorageMap ClubInfo → List ℕ → Type 0
  IsOneClub clubs [] = ⊥
  IsOneClub clubs (c ∷ []) = is_some (get clubs c) ≡ true
  IsOneClub clubs (c ∷ d ∷ cs) = ⊥

  pub record IsValidMember (clubs : StorageMap ClubInfo) (m : MemberInfo) : Type 0 where
    pub one_club : IsOneClub clubs m.clubs
    pub roles_bounded : length m.roles ≤ 8

  pub record IsValidAttestation (clubs : StorageMap ClubInfo) (members : StorageMap MemberInfo)
      (next id : ℕ) (a : Attestation) : Type 0 where
    pub issued : IsIssued u64_max next id
    pub club_exists : is_some (get clubs a.club) ≡ true
    pub used_by_member : a.used ≡ true → is_some (get members a.subject) ≡ true

  abbrev pub AllClubs : ℕ → StorageMap ClubInfo → Type 0
  AllClubs next clubs = (id : ℕ) (c : ClubInfo) → get clubs id ≡ some c → IsValidClub next id c

  abbrev pub AllMembers : StorageMap ClubInfo → StorageMap MemberInfo → Type 0
  AllMembers clubs members =
      (who : ℕ) (m : MemberInfo) → get members who ≡ some m → IsValidMember clubs m

  abbrev pub AllAttestations :
      StorageMap ClubInfo → StorageMap MemberInfo → ℕ → StorageMap Attestation → Type 0
  AllAttestations clubs members next atts =
      (id : ℕ) (a : Attestation) → get atts id ≡ some a → IsValidAttestation clubs members next id a

  pub insert-AllClubs :
      (next k : ℕ) (c : ClubInfo) (clubs : StorageMap ClubInfo)
      → AllClubs next clubs
      → IsValidClub next k c
      → AllClubs next (insert clubs k c)
  insert-AllClubs next k c clubs all one id d e = ground (arith, get-insert clubs k c id, all id d)

  pub AllClubs-next :
      (next : ℕ) (clubs : StorageMap ClubInfo)
      → next ≤ u32_max
      → AllClubs next clubs
      → AllClubs (min (next + 1) u32_max) clubs
  AllClubs-next next clubs h all id d e = ground (arith, all id d)

  IsOneClub-insert :
      (clubs : StorageMap ClubInfo) (k : ℕ) (c : ClubInfo) (l : List ℕ)
      → IsOneClub clubs l
      → IsOneClub (insert clubs k c) l
  IsOneClub-insert clubs k c [] h = h
  IsOneClub-insert clubs k c (d ∷ []) h = ground (arith, get-insert clubs k c d)
  IsOneClub-insert clubs k c (d ∷ e ∷ l) h = h

  pub AllMembers-insert_club :
      (clubs : StorageMap ClubInfo) (members : StorageMap MemberInfo) (k : ℕ) (c : ClubInfo)
      → AllMembers clubs members
      → AllMembers (insert clubs k c) members
  AllMembers-insert_club clubs members k c all who m e = record {
    one_club = IsOneClub-insert clubs k c m.clubs (all who m e).one_club;
    roles_bounded = (all who m e).roles_bounded;
  }

  pub insert-AllMembers :
      (clubs : StorageMap ClubInfo) (members : StorageMap MemberInfo) (k : ℕ) (m : MemberInfo)
      → AllMembers clubs members
      → IsValidMember clubs m
      → AllMembers clubs (insert members k m)
  insert-AllMembers clubs members k m all one who n e =
      ground (arith, get-insert members k m who, all who n)

  module _ (clubs : StorageMap ClubInfo) (members : StorageMap MemberInfo) (next : ℕ)
      (atts : StorageMap Attestation) (all : AllAttestations clubs members next atts) where
    pub AllAttestations-insert_club :
        (k : ℕ) (c : ClubInfo) → AllAttestations (insert clubs k c) members next atts
    AllAttestations-insert_club k c id a e = ground (arith, get-insert clubs k c a.club, all id a)

    pub AllAttestations-insert_member :
        (k : ℕ) (m : MemberInfo) → AllAttestations clubs (insert members k m) next atts
    AllAttestations-insert_member k m id a e =
        ground (arith, get-insert members k m a.subject, all id a)

    pub AllAttestations-next :
        next ≤ u64_max → AllAttestations clubs members (min (next + 1) u64_max) atts
    AllAttestations-next h id a e = ground (arith, all id a)

    pub insert-AllAttestations :
        (k : ℕ) (a : Attestation)
        → IsValidAttestation clubs members next k a
        → AllAttestations clubs members next (insert atts k a)
    insert-AllAttestations k a one id b e = ground (arith, get-insert atts k a id, all id b)

    pub remove-AllAttestations : (k : ℕ) → AllAttestations clubs members next (remove atts k)
    remove-AllAttestations k id b e = ground (arith, get-remove atts k id, all id b)
