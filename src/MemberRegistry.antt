-- ===== src/MemberRegistry.antt =====
-- pallets/member-registry/src/lib.rs: the dispatchables and the helper functions. The data is in
-- MemberRegistry/Data, the list operations in MemberRegistry/Lists; the other children are about
-- what is defined here.
mod Lists
mod Data
pub mod Calls
pub mod Atomic
pub mod Effects
pub mod Refinement
pub mod History
pub mod Membership
pub mod Clubs
pub mod Counting
mod Tests
pub mod Invariant
pub use Data.*
use contradots_techconnect_c.Base.{
  ℕ, ◌+◌, Bool, true, false, not, Option, none, some, List, [], ◌∷◌, ◌||◌, leb, ◌==◌, contains,
  u32_max, u64_max, saturating_add, saturating_sub, is_some,
}
use contradots_techconnect_c.Frame.{
  Frame, Action, Env, ⊤, ◌>>=◌, ◌>>◌, pure, gets, modify, ensure, ok_or, signer, ensure_origin,
  now_millis,
}
use mathlib.Core.Option
use contradots_techconnect_c.Storage.{Item, get_item, contains_key, insert_item, try_mutate, mutate}
use Lists.{without_officer}

module _ (F : Frame) (cfg : Config F) where
  pub create_club : F.RuntimeOrigin → List ℕ → AccountId → Option Hash → Handler F
  create_club origin name admin metadata = do
    ensure_origin (cfg.root_club_admin_origin origin)
    id ← gets (λ s. s.next_club_id)
    officers ← ok_or (F.try_from 32 []) overflow
    insert_item (clubs F) id (record {
      name = name;
      admin = admin;
      officers = officers;
      members_count = 0;
      metadata = metadata;
    })
    modify (λ s. record s { next_club_id = saturating_add u32_max id 1 })
    deposit_event F (club_created id admin)

  pub add_officer : F.RuntimeOrigin → ClubId → AccountId → Handler F
  add_officer origin club officer = do
    who ← signer (F.ensure_signed origin)
    try_mutate (clubs F) club λ maybe. do
      c ← ok_or maybe club_not_found
      ensure (c.admin == who) not_club_admin
      officers ← ok_or (F.try_push 32 c.officers officer) overflow
      pure (some (record c { officers = officers }))
    deposit_event F (officer_added club officer)

  pub remove_officer : F.RuntimeOrigin → ClubId → AccountId → Handler F
  unfolding without_officer
  remove_officer origin club officer = do
    who ← signer (F.ensure_signed origin)
    try_mutate (clubs F) club λ maybe. do
      c ← ok_or maybe club_not_found
      ensure (c.admin == who) not_club_admin
      pure (some (record c { officers = without_officer c.officers officer }))
    deposit_event F (officer_removed club officer)

  pub create_attestation :
      Env → F.RuntimeOrigin → AccountId → ClubId → Option Moment → Option Hash → Handler F
  create_attestation env origin subject club expires_at metadata = do
    attestor ← signer (F.ensure_signed origin)
    club_info ← ok_or (← get_item (clubs F) club) club_not_found
    ensure (is_admin_or_officer club_info attestor) attestor_not_authorized
    id ← gets (λ s. s.next_attestation_id)
    insert_item (attestations F) id (record {
      subject = subject;
      club = club;
      attestor = attestor;
      created_at = now_millis env;
      expires_at = expires_at;
      used = false;
      metadata = metadata;
    })
    modify (λ s. record s { next_attestation_id = saturating_add u64_max id 1 })
    deposit_event F (attestation_created id subject club attestor)

  pub register_member : Env → F.RuntimeOrigin → AttestationId → Handler F
  register_member env origin attestation_id = do
    who ← signer (F.ensure_signed origin)
    try_mutate (attestations F) attestation_id λ maybe. do
      att ← ok_or maybe attestation_not_found
      ensure (not att.used) Error.attestation_used
      ensure (att.subject == who) invalid_input
      ensure (is_unexpired att.expires_at (now_millis env)) attestation_expired
      club_info ← ok_or (← get_item (clubs F) att.club) club_not_found
      ensure (is_admin_or_officer club_info att.attestor) attestor_not_authorized
      ensure (not (← contains_key (members F) who)) already_member
      member ← new_member F att.club att.created_at
      insert_item (members F) who member
      mutate (clubs F) att.club (set_members_count (λ n. saturating_add u32_max n 1))
      deposit_event F (member_registered who att.club)
      deposit_event F (Event.attestation_used attestation_id who att.club)
      pure (some (record att { used = true }))

  pub add_member_admin : Env → F.RuntimeOrigin → AccountId → ClubId → Handler F
  add_member_admin env origin subject club = do
    who ← signer (F.ensure_signed origin)
    club_info ← ok_or (← get_item (clubs F) club) club_not_found
    ensure (who == club_info.admin) not_club_admin
    ensure (not (← contains_key (members F) subject)) already_member
    member ← new_member F club (now_millis env)
    insert_item (members F) subject member
    mutate (clubs F) club (set_members_count (λ n. saturating_add u32_max n 1))
    deposit_event F (member_registered subject club)

  pub remove_member_admin : F.RuntimeOrigin → AccountId → ClubId → Handler F
  remove_member_admin origin subject club = do
    who ← signer (F.ensure_signed origin)
    club_info ← ok_or (← get_item (clubs F) club) club_not_found
    ensure (who == club_info.admin) not_club_admin
    try_mutate (members F) subject
        λ maybe. do m ← ok_or maybe member_not_found; pure (some (record m { status = removed }))
    mutate (clubs F) club (set_members_count (λ n. saturating_sub n 1))
    deposit_event F (member_removed subject club)

  pub set_role : F.RuntimeOrigin → AccountId → RoleId → Handler F
  set_role origin subject role = do
    ensure_origin (cfg.root_club_admin_origin origin)
    try_mutate (members F) subject λ maybe. do
      m ← ok_or maybe member_not_found
      roles ← ok_or (F.try_push 8 m.roles role) overflow
      pure (some (record m { roles = roles }))
    deposit_event F (role_assigned subject role)

  pub revoke_attestation : F.RuntimeOrigin → AttestationId → Handler F
  revoke_attestation origin attestation_id = do
    who ← signer (F.ensure_signed origin)
    try_mutate (attestations F) attestation_id λ maybe. do
      att ← ok_or maybe attestation_not_found
      club_info ← ok_or (← get_item (clubs F) att.club) club_not_found
      ensure (who == att.attestor || who == club_info.admin) not_club_admin
      pure none
    deposit_event F (attestation_revoked attestation_id)

-- The helper functions that other pallets are meant to call.
module _ (F : Frame) where
  pub is_officer_or_admin : AccountId → ClubId → Action (Storage F) Error Bool
  is_officer_or_admin acct club = do
    club_info ← ok_or (← get_item (clubs F) club) club_not_found
    pure (is_admin_or_officer club_info acct)

  pub is_member : Storage F → AccountId → Bool
  is_member s who = is_some (F.get s.members who)

  pub member_clubs : Storage F → AccountId → Option (List ClubId)
  member_clubs s who = Option.map (λ m. m.clubs) (F.get s.members who)
