-- ===== src/Tcc/Data.antt =====
-- pallets/tcc/src/lib.rs: the types, the configuration and the storage.
use contradots_techconnect_c.Base.{
  ℕ, ◌+◌, ◌-◌, Bool, false, Option, none, some, List, [], ◌∷◌, leb, if◌then◌else◌,
}
use contradots_techconnect_c.Frame.{Action, ⊤, Frame, ok, err, cannot_lookup, modify}

abbrev pub AccountId : Type 0
AccountId = ℕ

abbrev pub AssetId : Type 0
AssetId = ℕ

abbrev pub Balance : Type 0
Balance = ℕ

-- `<T::Lookup as StaticLookup>::Source`
abbrev pub Source : Type 0
Source = ℕ

pub data Event : Type 0 where
  asset_instantiated : AssetId → AccountId → Event
  minted : AccountId → Balance → Event
  burned : AccountId → Balance → Event
  transferred : AccountId → AccountId → Balance → Event

pub data Error : Type 0 where
  already_instantiated not_instantiated not_authorized asset_operation_failed : Error
  transfer_failed supply_overflow : Error

pub record Config (F : Frame) : Type 0 where
  pub tcc_asset_id : AssetId
  pub instantiate_origin : F.RuntimeOrigin → Bool
  pub mint_origin : F.RuntimeOrigin → Bool
  pub burn_origin : F.RuntimeOrigin → Bool
  -- `T::Lookup::lookup`, and the last value of `T::Balance`.
  pub lookup : Source → Option AccountId
  pub max_balance : Balance

pub record Storage : Type 0 where
  pub asset_instantiated : Bool
  pub cached_total_supply : Balance
  -- The events handed to frame_system, the latest first.
  pub events : List Event

abbrev pub Handler : Type 0
Handler = Action Storage Error ⊤

abbrev pub deposit_event : Event → Handler
deposit_event e = modify (λ s. record s { events = e ∷ s.events })

-- `T::Lookup::lookup(source)?`, on its result.
abbrev pub looked_up : Option AccountId → Action Storage Error AccountId
looked_up none s = (err cannot_lookup, s)
looked_up (some who) s = (ok who, s)

-- `checked_add` and `checked_sub` of a balance.
abbrev pub checked_add : Balance → Balance → Balance → Option Balance
checked_add max a b = if leb (a + b) max then some (a + b) else none

abbrev pub checked_sub : Balance → Balance → Option Balance
checked_sub a b = if leb b a then some (a - b) else none

abbrev pub empty_storage : Storage
empty_storage = record { asset_instantiated = false; cached_total_supply = 0; events = [] }
