-- ===== src/Badges/Data.antt =====
-- pallets/badges/src/lib.rs: the types, the configuration, the storage and its maps.
use contradots_techconnect_c.Base.{
  ℕ, Bool, true, false, Option, none, some, List, [], ◌∷◌, ◌==◌, if◌then◌else◌,
}
use contradots_techconnect_c.Frame.{Frame, Action, ⊤, modify}
use contradots_techconnect_c.Storage.{Item, DoubleItem}

abbrev pub AccountId : Type 0
AccountId = ℕ

abbrev pub ClassId : Type 0
ClassId = ℕ

abbrev pub InstanceId : Type 0
InstanceId = ℕ

abbrev pub ClubId : Type 0
ClubId = ℕ

abbrev pub Moment : Type 0
Moment = ℕ

-- The bytes of a `[u8; 32]`.
abbrev pub Hash : Type 0
Hash = List ℕ

pub record ClassInfo : Type 0 where
  pub creator : AccountId
  pub club : Option ClubId
  pub metadata_hash : Hash
  pub default_transferable : Bool
  pub default_soulbound : Bool
  pub instances_count : ℕ

pub record BadgeInstance : Type 0 where
  pub owner : AccountId
  pub issued_at : Moment
  pub issuer : AccountId
  pub uri_hash : Hash
  pub transferable : Bool
  pub soulbound : Bool

pub data Event : Type 0 where
  class_created : ClassId → AccountId → Option ClubId → Event
  badge_issued : ClassId → InstanceId → AccountId → Event
  badge_revoked : ClassId → InstanceId → Event
  badge_transferred : ClassId → InstanceId → AccountId → AccountId → Event

pub data Error : Type 0 where
  class_not_found instance_not_found not_issuer not_class_owner : Error
  not_club_admin_or_officer not_owner not_transferable soulbound : Error
  class_limit_reached instances_limit_reached instances_index_overflow : Error
  overflow invalid_metadata : Error

pub record Config (F : Frame) : Type 0 where
  pub class_creation_origin : F.RuntimeOrigin → Bool
  pub max_classes : ℕ
  pub max_instances_per_class : ℕ

pub record Storage (F : Frame) : Type 0 where
  pub next_class_id : ClassId
  -- A `ValueQuery` map: an absent key reads as 0.
  pub next_instance_id : F.StorageMap InstanceId
  pub classes : F.StorageMap (ClassInfo)
  pub badge_instances : F.StorageDoubleMap BadgeInstance
  pub class_instances : F.StorageMap (List InstanceId)
  -- The events handed to frame_system, the latest first.
  pub events : List Event

-- The permission to issue or revoke: where the class has a club, the code tests the creator
-- first, and answers no to everybody else, for want of the member registry.
abbrev pub is_allowed : Option ClubId → AccountId → AccountId → Bool
is_allowed (some club) creator who = if who == creator then true else false
is_allowed none creator who = who == creator

abbrev pub unwrap_or : {A : Type 0} → Option A → A → A
unwrap_or none a = a
unwrap_or (some b) a = b

module _ (F : Frame) where
  abbrev pub Handler : Type 0
  Handler = Action (Storage F) Error ⊤

  abbrev pub next_instance_ids : Item F (Storage F) InstanceId
  next_instance_ids = record {
    read = λ s. s.next_instance_id;
    write = λ s m. record s { next_instance_id = m };
  }

  abbrev pub classes : Item F (Storage F) ClassInfo
  classes = record { read = λ s. s.classes; write = λ s m. record s { classes = m } }

  abbrev pub badge_instances : DoubleItem F (Storage F) BadgeInstance
  badge_instances = record {
    read = λ s. s.badge_instances;
    write = λ s m. record s { badge_instances = m };
  }

  abbrev pub class_instances : Item F (Storage F) (List InstanceId)
  class_instances = record {
    read = λ s. s.class_instances;
    write = λ s m. record s { class_instances = m };
  }

  abbrev pub deposit_event : Event → Handler
  deposit_event e = modify (λ s. record s { events = e ∷ s.events })

  -- The closure of the index: an absent list is made, and a full list is left as it is.
  abbrev pub pushed : List InstanceId → Option (List InstanceId) → Option (List InstanceId)
  pushed v none = some v
  pushed v (some w) = some w

  abbrev pub push_instance : InstanceId → Option (List InstanceId) → Option (List InstanceId)
  push_instance id none = none
  push_instance id (some v) = pushed v (F.try_push 1024 v id)

  abbrev pub index_instance : InstanceId → Option (List InstanceId) → Option (List InstanceId)
  index_instance id none = push_instance id (F.try_from 1024 [])
  index_instance id (some v) = push_instance id (some v)

  -- The storage of a chain on which the pallet has not been called.
  abbrev pub empty_storage : Storage F
  empty_storage = record {
    next_class_id = 0;
    next_instance_id = F.empty;
    classes = F.empty;
    badge_instances = F.double_empty;
    class_instances = F.empty;
    events = [];
  }
