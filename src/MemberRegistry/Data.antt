-- ===== src/MemberRegistry/Data.antt =====
-- pallets/member-registry/src/lib.rs: the types, the configuration, the storage and its maps.
use contradots_techconnect_c.Base.{
  ℕ, Bool, true, Option, none, some, List, [], ◌∷◌, ◌||◌, leb, ◌==◌, contains,
}
use contradots_techconnect_c.Frame.{Frame, Action, ⊤, ◌>>=◌, pure, modify, ok_or}
use contradots_techconnect_c.Storage.{Item}

-- Accounts are only compared, so they are numbers (a `u64` in the mock, 32 bytes in the runtime).
abbrev pub AccountId : Type 0
AccountId = ℕ

abbrev pub ClubId : Type 0
ClubId = ℕ

abbrev pub RoleId : Type 0
RoleId = ℕ

abbrev pub AttestationId : Type 0
AttestationId = ℕ

-- Milliseconds.
abbrev pub Moment : Type 0
Moment = ℕ

-- The bytes of a `[u8; 32]`.
abbrev pub Hash : Type 0
Hash = List ℕ

pub data MemberStatus : Type 0 where
  active suspended removed : MemberStatus

pub record MemberInfo : Type 0 where
  pub clubs : List ClubId
  pub roles : List RoleId
  pub joined_at : Moment
  pub status : MemberStatus
  pub metadata : Option Hash

pub record ClubInfo : Type 0 where
  pub name : List ℕ
  pub admin : AccountId
  pub officers : List AccountId
  pub members_count : ℕ
  pub metadata : Option Hash

pub record Attestation : Type 0 where
  pub subject : AccountId
  pub club : ClubId
  pub attestor : AccountId
  pub created_at : Moment
  pub expires_at : Option Moment
  pub used : Bool
  pub metadata : Option Hash

pub data Event : Type 0 where
  club_created : ClubId → AccountId → Event
  officer_added officer_removed : ClubId → AccountId → Event
  member_registered member_removed : AccountId → ClubId → Event
  role_assigned : AccountId → RoleId → Event
  attestation_created : AttestationId → AccountId → ClubId → AccountId → Event
  attestation_used : AttestationId → AccountId → ClubId → Event
  attestation_revoked : AttestationId → Event

pub data Error : Type 0 where
  club_not_found already_member not_member not_club_admin not_officer : Error
  member_not_found overflow attestation_not_found attestation_expired : Error
  attestation_used attestor_not_authorized invalid_input : Error

pub record Config (F : Frame) : Type 0 where
  pub root_club_admin_origin : F.RuntimeOrigin → Bool

pub record Storage (F : Frame) : Type 0 where
  pub members : F.StorageMap MemberInfo
  pub clubs : F.StorageMap ClubInfo
  pub next_club_id : ClubId
  pub next_attestation_id : AttestationId
  pub attestations : F.StorageMap Attestation
  -- The events handed to frame_system, the latest first.
  pub events : List Event

-- `attestor == admin || officers.iter().any(|o| o == &attestor)`
abbrev pub is_admin_or_officer : ClubInfo → AccountId → Bool
is_admin_or_officer c who = who == c.admin || contains c.officers who

-- The test of `if let Some(exp) = expires_at { ensure!(now <= exp) }`.
abbrev pub is_unexpired : Option Moment → Moment → Bool
is_unexpired none now = true
is_unexpired (some expiry) now = leb now expiry

-- `if let Some(ref mut c) = maybe { c.members_count = … }`
abbrev pub set_members_count : (ℕ → ℕ) → Option ClubInfo → Option ClubInfo
set_members_count f none = none
set_members_count f (some c) = some (record c { members_count = f c.members_count })

module _ (F : Frame) where
  abbrev pub Handler : Type 0
  Handler = Action (Storage F) Error ⊤

  abbrev pub members : Item F (Storage F) MemberInfo
  members = record { read = λ s. s.members; write = λ s m. record s { members = m } }

  abbrev pub clubs : Item F (Storage F) ClubInfo
  clubs = record { read = λ s. s.clubs; write = λ s m. record s { clubs = m } }

  abbrev pub attestations : Item F (Storage F) Attestation
  attestations = record { read = λ s. s.attestations; write = λ s m. record s { attestations = m } }

  abbrev pub deposit_event : Event → Handler
  deposit_event e = modify (λ s. record s { events = e ∷ s.events })

  -- A new member's record, where the bounded vectors take what they are given.
  abbrev pub new_member : ClubId → Moment → Action (Storage F) Error MemberInfo
  new_member club joined_at = do
    clubs ← ok_or (F.try_from 8 (club ∷ [])) overflow
    roles ← ok_or (F.try_from 8 []) overflow
    pure (record {
      clubs = clubs;
      roles = roles;
      joined_at = joined_at;
      status = active;
      metadata = none;
    })

-- The storage of a chain on which the pallet has not been called: empty maps, and counters at 0.
abbrev pub genesis : (F : Frame) → Storage F
genesis F = record {
  members = F.empty;
  clubs = F.empty;
  next_club_id = 0;
  next_attestation_id = 0;
  attestations = F.empty;
  events = [];
}
