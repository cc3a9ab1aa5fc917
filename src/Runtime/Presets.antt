-- ===== src/Runtime/Presets.antt =====
-- runtime/src/genesis_config_presets.rs: the genesis presets. The keyring, the serialization and the
-- names of the presets are Substrate's; `ExistentialDeposit` is a constant of the runtime.
use Prim.Native.String.{String}
use text.Mathlib.Text.{◌==◌}
use contradots_techconnect_c.Base.{ℕ, ◌*◌, ◌^◌, Option, none, some, List, [], ◌∷◌, if◌then◌else◌}
use contradots_techconnect_c.Runtime.{existential_deposit}

abbrev pub AccountId : Type 0
AccountId = ℕ

abbrev pub AuraId : Type 0
AuraId = ℕ

abbrev pub Balance : Type 0
Balance = ℕ

-- The presets' own constant of this name.
abbrev pub preset_parachain_id : ℕ
preset_parachain_id = 1000

pub record SessionKeys : Type 0 where
  pub aura : AuraId

-- The part of `RuntimeGenesisConfig` that the presets set.
pub record RuntimeGenesisConfig : Type 0 where
  pub balances : List (AccountId × Balance)
  pub parachain_id : ℕ
  pub invulnerables : List AccountId
  pub candidacy_bond : Balance
  -- The account, the validator and its session keys.
  pub session_keys : List (AccountId × AccountId × SessionKeys)
  pub safe_xcm_version : Option ℕ
  pub sudo_key : Option AccountId

-- `Sr25519Keyring`, `serde_json::to_string`, and `sp_genesis_builder`'s preset names.
pub record Presets : Type 1 where
  pub Keyring : Type 0
  pub alice : Keyring
  pub bob : Keyring
  pub well_known : List Keyring
  pub to_account_id : Keyring → AccountId
  pub public : Keyring → AuraId
  pub to_json : RuntimeGenesisConfig → List ℕ
  pub xcm_version : ℕ
  pub local_testnet_preset : String
  pub dev_preset : String

abbrev pub template_session_keys : AuraId → SessionKeys
template_session_keys keys = record { aura = keys }

abbrev pub map : {A B : Type 0} → (A → B) → List A → List B
map f [] = []
map f (x ∷ xs) = f x ∷ map f xs

module _ (P : Presets) where
  unfoldable pub testnet_genesis :
      List (AccountId × AuraId) → List AccountId → AccountId → ℕ → RuntimeGenesisConfig
  testnet_genesis invulnerables endowed_accounts root id = record {
    balances = map (λ k. (k, 2 ^ 60)) endowed_accounts;
    parachain_id = id;
    invulnerables = map (λ i. i.0) invulnerables;
    candidacy_bond = existential_deposit * 16;
    session_keys = map (λ i. (i.0, i.0, template_session_keys i.1)) invulnerables;
    safe_xcm_version = some P.xcm_version;
    sudo_key = some root;
  }

  -- The initial collators.
  abbrev pub collators : List (AccountId × AuraId)
  collators =
      (P.to_account_id P.alice, P.public P.alice) ∷ (P.to_account_id P.bob, P.public P.bob) ∷ []

  unfoldable pub local_testnet_genesis : RuntimeGenesisConfig
  unfolding testnet_genesis
  local_testnet_genesis =
      testnet_genesis collators (map P.to_account_id P.well_known) (P.to_account_id P.alice)
        preset_parachain_id

  unfoldable pub development_config_genesis : RuntimeGenesisConfig
  unfolding testnet_genesis
  development_config_genesis =
      testnet_genesis collators (map P.to_account_id P.well_known) (P.to_account_id P.alice)
        preset_parachain_id

  unfoldable pub get_preset : String → Option (List ℕ)
  unfolding local_testnet_genesis development_config_genesis
  get_preset id =
      if id == P.local_testnet_preset
      then some (P.to_json local_testnet_genesis)
      else if id == P.dev_preset
      then some (P.to_json development_config_genesis)
      else none

  unfoldable pub preset_names : List String
  preset_names = P.dev_preset ∷ P.local_testnet_preset ∷ []
