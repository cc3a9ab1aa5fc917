-- ===== src/Runtime/Tests.antt =====
-- A keyring of two keys, and the theorems about the runtime at concrete values.
use contradots_techconnect_c.Base.{
  ℕ, ◌≡◌, ◌↔◌, refl, true, none, some, List, [], ◌∷◌, inl, inr, is_some,
}
use contradots_techconnect_c.Frame.Memory.{memory, signed}
use contradots_techconnect_c.Extrinsics.{Extrinsic}
use contradots_techconnect_c.MemberRegistry.{genesis}
use contradots_techconnect_c.MemberRegistry.Calls.{Call, run}
use contradots_techconnect_c.Runtime.{member_registry_config}
use contradots_techconnect_c.Runtime.Bootstrap.{signed_history_changes_nothing}
use contradots_techconnect_c.Runtime.Presets.{
  Presets, testnet_genesis, local_testnet_genesis, development_config_genesis, get_preset,
  preset_names,
}
use contradots_techconnect_c.Runtime.Collators.{
  Member, IsReady, testnet_collators-IsReady, preset_names_iff-get_preset,
}

program : Unit {0}
unfolding testnet_genesis local_testnet_genesis development_config_genesis get_preset preset_names
program = tt

abbrev presets : Presets
presets = record {
  Keyring = ℕ;
  alice = 1;
  bob = 2;
  well_known = 1 ∷ 2 ∷ 3 ∷ [];
  to_account_id = λ k. k;
  public = λ k. k;
  to_json = λ g. 123 ∷ 125 ∷ [];
  xcm_version = 5;
  local_testnet_preset = "local_testnet";
  dev_preset = "development";
}

presets_test :
    (get_preset presets "development" ≡ some (123 ∷ 125 ∷ []))
    × ((local_testnet_genesis presets).session_keys
        ≡ (1, 1, record { aura = 1 }) ∷ (2, 2, record { aura = 2 }) ∷ [])
unfolding program
presets_test = (refl, refl)

preset_names_test :
    Member "local_testnet" (preset_names presets)
    ↔ (is_some (get_preset presets "local_testnet") ≡ true)
preset_names_test = preset_names_iff-get_preset presets "local_testnet"

testnet_collators-IsReady_example :
    IsReady (testnet_genesis presets ((1, 7) ∷ (2, 8) ∷ []) (1 ∷ 2 ∷ []) 1 1000) 2 8
testnet_collators-IsReady_example =
    testnet_collators-IsReady presets ((1, 7) ∷ (2, 8) ∷ []) (1 ∷ 2 ∷ []) 1 1000 2 8
      (inr (inl refl)) (inr (inl refl))

-- An account tries to make a club, and to give itself a role.
abbrev attempts : List (Extrinsic memory Call)
attempts =
    record {
      env = record { millis = 1; block_number = 1 };
      origin = signed 4;
      call = Call.create_club [] 4 none;
    }
    ∷ record {
      env = record { millis = 2; block_number = 1 };
      origin = signed 4;
      call = Call.set_role 4 1;
    }
    ∷ []

signed_history_changes_nothing_example :
    run memory member_registry_config (genesis memory) attempts ≡ genesis memory
signed_history_changes_nothing_example = signed_history_changes_nothing attempts refl
