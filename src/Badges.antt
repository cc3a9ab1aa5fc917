-- ===== src/Badges.antt =====
-- pallets/badges/src/lib.rs: the dispatchables, the read functions and the genesis. The data is in
-- Badges/Data; the other children are about what is defined here.
mod Data
pub mod Calls
pub mod Effects
pub mod Refinement
pub mod History
pub mod Index
pub mod Invariant
pub mod Ownership
pub mod Creation
mod Tests
pub use Data.*
use mathlib.Core.Option
use contradots_techconnect_c.Base.{
  ℕ, Bool, not, Option, some, none, List, [], ◌∷◌, ltb, leb, ◌==◌, u32_max, u64_max, saturating_add,
  if◌then◌else◌,
}
use contradots_techconnect_c.Frame.{
  Frame, Env, ◌>>=◌, ◌>>◌, pure, gets, modify, ensure, ok_or, signer, ensure_origin, now_millis,
}
use contradots_techconnect_c.Storage.{
  get_item, insert_item, try_mutate, mutate, double_insert_item, double_try_mutate,
}

module _ (F : Frame) (cfg : Config F) where
  pub create_class : F.RuntimeOrigin → Hash → Option ClubId → Bool → Bool → Handler F
  create_class origin metadata_hash club default_transferable default_soulbound = do
    ensure_origin (cfg.class_creation_origin origin)
    who ← signer (F.ensure_signed origin)
    class_id ← gets (λ s. s.next_class_id)
    ensure (ltb class_id cfg.max_classes) class_limit_reached
    insert_item (classes F) class_id (record {
      creator = who;
      club = club;
      metadata_hash = metadata_hash;
      default_transferable = default_transferable;
      default_soulbound = default_soulbound;
      instances_count = 0;
    })
    modify (λ s. record s { next_class_id = saturating_add u32_max class_id 1 })
    deposit_event F (class_created class_id who club)

  pub issue_badge :
      Env → F.RuntimeOrigin → ClassId → AccountId → Hash → Option Bool → Option Bool → Handler F
  issue_badge env origin class to uri_hash transferable bound = do
    issuer ← signer (F.ensure_signed origin)
    try_mutate (classes F) class λ maybe_class. do
      class_info ← ok_or maybe_class class_not_found
      ensure (is_allowed class_info.club class_info.creator issuer) not_issuer
      next_inst ← gets (λ s. unwrap_or (F.get s.next_instance_id class) 0)
      ensure (ltb next_inst cfg.max_instances_per_class) instances_limit_reached
      double_insert_item (badge_instances F) class next_inst (record {
        owner = to;
        issued_at = now_millis env;
        issuer = issuer;
        uri_hash = uri_hash;
        transferable = unwrap_or transferable class_info.default_transferable;
        soulbound = unwrap_or bound class_info.default_soulbound;
      })
      mutate (class_instances F) class (index_instance F next_inst)
      insert_item (next_instance_ids F) class (saturating_add u64_max next_inst 1)
      deposit_event F (badge_issued class next_inst to)
      pure (
          some (record class_info {
            instances_count = saturating_add u32_max class_info.instances_count 1;
          }))

  pub revoke_badge : F.RuntimeOrigin → ClassId → InstanceId → Handler F
  revoke_badge origin class instance_id = do
    who ← signer (F.ensure_signed origin)
    class_info ← ok_or (← get_item (classes F) class) class_not_found
    ensure (is_allowed class_info.club class_info.creator who) not_class_owner
    double_try_mutate (badge_instances F) class instance_id
        λ maybe. do inst ← ok_or maybe instance_not_found; pure none
    deposit_event F (badge_revoked class instance_id)

  pub transfer_badge : F.RuntimeOrigin → ClassId → InstanceId → AccountId → Handler F
  transfer_badge origin class instance_id to = do
    who ← signer (F.ensure_signed origin)
    double_try_mutate (badge_instances F) class instance_id λ maybe. do
      inst ← ok_or maybe instance_not_found
      ensure (inst.owner == who) not_owner
      ensure (not inst.soulbound) Error.soulbound
      ensure inst.transferable not_transferable
      deposit_event F (badge_transferred class instance_id inst.owner to)
      pure (some (record inst { owner = to }))

module _ (F : Frame) where
  pub owner_of : Storage F → ClassId → InstanceId → Option AccountId
  owner_of s class instance_id =
      Option.map (λ i. i.owner) (F.double_get s.badge_instances class instance_id)

  pub instance_metadata : Storage F → ClassId → InstanceId → Option BadgeInstance
  instance_metadata s class instance_id = F.double_get s.badge_instances class instance_id

  pub class_info : Storage F → ClassId → Option ClassInfo
  class_info s class = F.get s.classes class

  -- One round of `build`: the class is stored, and the next identifier is above it.
  abbrev build_class : Storage F → ClassId → ClassInfo → Storage F
  build_class s class_id info = record s {
    classes = F.insert s.classes class_id info;
    next_class_id =
        if leb s.next_class_id class_id then saturating_add u32_max class_id 1 else s.next_class_id;
  }

  -- `GenesisConfig::build`
  pub build : List (ClassId × ClassInfo) → Storage F → Storage F
  build [] s = s
  build ((class_id, info) ∷ rest) s = build rest (build_class s class_id info)
