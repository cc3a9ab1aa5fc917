-- ===== src/Runtime/Collators.antt =====
-- runtime/src/genesis_config_presets.rs: what the presets make of their collators, and which
-- presets there are.
use Prim.Native.String.{String}
use text.Mathlib.TextEquality.{eq_iff}
use contradots_techconnect_c.Base.{
  ℕ, ◌+◌, ◌^◌, ◌≢◌, ap, ◌≤◌, ◌≡◌, ◌⊎◌, inl, inr, ◌↔◌, true, List, [], ◌∷◌, arith, is_some,
}
use contradots_techconnect_c.Runtime.{existential_deposit, parachain_id}
use contradots_techconnect_c.Runtime.Presets.{
  AccountId, AuraId, Balance, RuntimeGenesisConfig, Presets, template_session_keys, map,
  testnet_genesis, get_preset, preset_names, local_testnet_genesis,
}

abbrev pub Member : {A : Type 0} → A → List A → Type 0
Member a [] = ⊥
Member a (x ∷ xs) = (x ≡ a) ⊎ Member a xs

map-Member :
    {A B : Type 0} (f : A → B) (a : A) (xs : List A) → Member a xs → Member (f a) (map f xs)
map-Member f a [] h = h
map-Member f a (x ∷ xs) (inl e) = inl (ap f e)
map-Member f a (x ∷ xs) (inr h) = inr (map-Member f a xs h)

-- A collator has its own session keys, and a balance that pays the candidacy bond and keeps the
-- account alive.
pub record IsReady (g : RuntimeGenesisConfig) (account : AccountId) (aura : AuraId) : Type 0 where
  pub invulnerable : Member account g.invulnerables
  pub keys : Member (account, account, template_session_keys aura) g.session_keys
  pub balance : Balance
  pub endowed : Member (account, balance) g.balances
  pub pays_bond : g.candidacy_bond + existential_deposit ≤ balance

module _ (P : Presets) where
  -- Every collator of a genesis preset whose account is endowed is an invulnerable with its own
  -- session keys, and its balance pays the candidacy bond and keeps the existential deposit.
  pub testnet_collators-IsReady :
      (invulnerables : List (AccountId × AuraId)) (endowed : List AccountId) (root : AccountId)
      (id : ℕ) (account : AccountId) (aura : AuraId)
      → Member (account, aura) invulnerables
      → Member account endowed
      → IsReady (testnet_genesis P invulnerables endowed root id) account aura
  unfolding testnet_genesis
  testnet_collators-IsReady invulnerables endowed root id account aura collator has = record {
    invulnerable = map-Member (λ i. i.0) (account, aura) invulnerables collator;
    keys =
        map-Member (λ i. (i.0, i.0, template_session_keys i.1)) (account, aura) invulnerables
          collator;
    balance = 2 ^ 60;
    endowed = map-Member (λ k. (k, 2 ^ 60)) account endowed has;
    pays_bond = omega arith;
  }

  -- The names that are listed are those of the presets that there are, and no others.
  pub preset_names_iff-get_preset :
      (id : String) → Member id (preset_names P) ↔ (is_some (get_preset P id) ≡ true)
  unfolding get_preset preset_names
  preset_names_iff-get_preset id =
      ground (arith, eq_iff id P.local_testnet_preset, eq_iff id P.dev_preset)

  -- The parachain of the presets is not the one that the node's chain specifications name.
  presets_of_other_parachain : (local_testnet_genesis P).parachain_id ≢ parachain_id
  unfolding local_testnet_genesis
  presets_of_other_parachain h = omega (arith, h)
