-- ===== src/Tcc.antt =====
-- pallets/tcc/src/lib.rs: the dispatchables, the read functions and the genesis. The data is in
-- Tcc/Data; the other children are about what is defined here.
mod Data
pub mod Calls
pub mod Effects
pub mod Refinement
pub mod Supply
mod Tests
pub use Data.*
use contradots_techconnect_c.Base.{ℕ, Bool, true, not, ◌==◌, if◌then◌else◌}
use contradots_techconnect_c.Frame.{
  Frame, Env, ◌>>=◌, ◌>>◌, gets, modify, ensure, ok_or, signer, ensure_origin,
}

module _ (F : Frame) (cfg : Config F) where
  pub instantiate_asset : F.RuntimeOrigin → Source → Balance → Bool → Handler
  instantiate_asset origin owner min_balance is_sufficient = do
    ensure_origin (cfg.instantiate_origin origin)
    instantiated ← gets (λ s. s.asset_instantiated)
    ensure (not instantiated) already_instantiated
    owner_id ← looked_up (cfg.lookup owner)
    modify (λ s. record s { asset_instantiated = true })
    modify (λ s. record s { cached_total_supply = 0 })
    deposit_event (asset_instantiated cfg.tcc_asset_id owner_id)

  -- The calls of pallet-assets are commented out in the source, here and below: the cached supply
  -- is all that changes.
  pub mint : F.RuntimeOrigin → Source → Balance → Handler
  mint origin to amount = do
    ensure_origin (cfg.mint_origin origin)
    instantiated ← gets (λ s. s.asset_instantiated)
    ensure instantiated not_instantiated
    to_id ← looked_up (cfg.lookup to)
    supply ← gets (λ s. s.cached_total_supply)
    raised ← ok_or (checked_add cfg.max_balance supply amount) supply_overflow
    modify (λ s. record s { cached_total_supply = raised })
    deposit_event (minted to_id amount)

  pub burn : F.RuntimeOrigin → Source → Balance → Handler
  burn origin source amount = do
    ensure_origin (cfg.burn_origin origin)
    instantiated ← gets (λ s. s.asset_instantiated)
    ensure instantiated not_instantiated
    from_id ← looked_up (cfg.lookup source)
    supply ← gets (λ s. s.cached_total_supply)
    lowered ← ok_or (checked_sub supply amount) supply_overflow
    modify (λ s. record s { cached_total_supply = lowered })
    deposit_event (burned from_id amount)

  pub transfer : F.RuntimeOrigin → Source → Balance → Handler
  transfer origin to amount = do
    who ← signer (F.ensure_signed origin)
    instantiated ← gets (λ s. s.asset_instantiated)
    ensure instantiated not_instantiated
    to_id ← looked_up (cfg.lookup to)
    deposit_event (transferred who to_id amount)

pub asset_exists : Storage → Bool
asset_exists s = s.asset_instantiated

pub balance_of : Storage → AccountId → Balance
balance_of s who = 0

pub total_supply : Storage → Balance
total_supply s =
    if not (s.cached_total_supply == 0) then s.cached_total_supply else s.cached_total_supply

-- `GenesisConfig::build`
pub build : Bool → Balance → Storage → Storage
build instantiate cached_total s =
    if instantiate
    then (record s { asset_instantiated = true; cached_total_supply = cached_total })
    else s
