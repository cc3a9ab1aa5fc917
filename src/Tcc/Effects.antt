-- ===== src/Tcc/Effects.antt =====
-- The calls of pallets/tcc/src/lib.rs as a specification: when a call is accepted, and the storage
-- that it leaves.
use contradots_techconnect_c.Base.{ℕ, ◌+◌, ◌-◌, ◌≤◌, ◌≡◌, true, false, some, ◌∷◌}
use contradots_techconnect_c.Frame.{Frame, Env}
use contradots_techconnect_c.Tcc.{Config, Storage, Event}
use contradots_techconnect_c.Tcc.Calls.{Call}

module _ (F : Frame) (cfg : Config F) where
  -- The instantiation, once, for an owner that the lookup knows; the supply begins at 0.
  pub record Instantiates (o : F.RuntimeOrigin) (owner : ℕ) (s s' : Storage) (who : ℕ)
      : Type 0 where
    pub known : cfg.lookup owner ≡ some who
    pub allowed : cfg.instantiate_origin o ≡ true
    pub first : s.asset_instantiated ≡ false
    pub after : s' ≡ record s {
      asset_instantiated = true;
      cached_total_supply = 0;
      events = Event.asset_instantiated cfg.tcc_asset_id who ∷ s.events;
    }

  -- A mint raises the supply, within the type of a balance.
  pub record Mints (o : F.RuntimeOrigin) (to amount : ℕ) (s s' : Storage) (who : ℕ) : Type 0 where
    pub known : cfg.lookup to ≡ some who
    pub allowed : cfg.mint_origin o ≡ true
    pub instantiated : s.asset_instantiated ≡ true
    pub within : s.cached_total_supply + amount ≤ cfg.max_balance
    pub after : s' ≡ record s {
      cached_total_supply = s.cached_total_supply + amount;
      events = Event.minted who amount ∷ s.events;
    }

  -- A burn lowers the supply, by no more than there is.
  pub record Burns (o : F.RuntimeOrigin) (source amount : ℕ) (s s' : Storage) (who : ℕ)
      : Type 0 where
    pub known : cfg.lookup source ≡ some who
    pub allowed : cfg.burn_origin o ≡ true
    pub instantiated : s.asset_instantiated ≡ true
    pub within : amount ≤ s.cached_total_supply
    pub after : s' ≡ record s {
      cached_total_supply = s.cached_total_supply - amount;
      events = Event.burned who amount ∷ s.events;
    }

  -- A transfer leaves an event, and nothing else.
  pub record Transfers (o : F.RuntimeOrigin) (to amount : ℕ) (s s' : Storage) (who whom : ℕ)
      : Type 0 where
    pub signed : F.ensure_signed o ≡ some who
    pub known : cfg.lookup to ≡ some whom
    pub instantiated : s.asset_instantiated ≡ true
    pub after : s' ≡ record s { events = Event.transferred who whom amount ∷ s.events }

  -- The call is accepted in `s`, and leaves `s'`.
  abbrev pub Effect : Env → F.RuntimeOrigin → Call → Storage → Storage → Type 0
  Effect env o (Call.instantiate_asset owner min_balance is_sufficient) s s' =
      (who : ℕ) × Instantiates o owner s s' who
  Effect env o (Call.mint to amount) s s' = (who : ℕ) × Mints o to amount s s' who
  Effect env o (Call.burn source amount) s s' = (who : ℕ) × Burns o source amount s s' who
  Effect env o (Call.transfer to amount) s s' =
      (who : ℕ) × (whom : ℕ) × Transfers o to amount s s' who whom
