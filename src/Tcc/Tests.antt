-- ===== src/Tcc/Tests.antt =====
-- Concrete flows of pallets/tcc/src/lib.rs, and the theorems at concrete storages.
use contradots_techconnect_c.Base.{◌≡◌, ◌↔◌, refl, true, some, List, [], ◌∷◌, u128_max}
use contradots_techconnect_c.Frame.{Env, ok, err, module_error, bad_origin}
use contradots_techconnect_c.Frame.Memory.{memory, root, signed, ensure_root}
use contradots_techconnect_c.Extrinsics.{Extrinsic}
use contradots_techconnect_c.Tcc
use contradots_techconnect_c.Tcc.{
  Config, Storage, Event, empty_storage, already_instantiated, supply_overflow,
}
use contradots_techconnect_c.Tcc.Calls.{Call, dispatch, run}
use contradots_techconnect_c.Tcc.Effects.{Effect}
use contradots_techconnect_c.Tcc.Refinement.{tcc_call_iff-Effect}
use contradots_techconnect_c.Tcc.Supply.{IsAccounted, supply-IsAccounted, transfer_moves_nothing}

program : Unit {0}
unfolding Tcc.instantiate_asset Tcc.mint Tcc.burn Tcc.transfer Tcc.asset_exists Tcc.balance_of
    Tcc.total_supply Tcc.build dispatch run
program = tt

-- Root instantiates, mints and burns; every address is an account.
abbrev cfg : Config memory
cfg = record {
  tcc_asset_id = 1;
  instantiate_origin = ensure_root;
  mint_origin = ensure_root;
  burn_origin = ensure_root;
  lookup = λ source. some source;
  max_balance = u128_max;
}

abbrev now : Env
now = record { millis = 1; block_number = 1 }

abbrev by_root : Call → Extrinsic memory Call
by_root c = record { env = now; origin = root; call = c }

abbrev flows : List (Extrinsic memory Call)
flows =
    by_root (Call.instantiate_asset 1 1 true)
    ∷ by_root (Call.mint 1 1000)
    ∷ by_root (Call.burn 1 400)
    ∷ []

abbrev after_flows : Storage
after_flows = run memory cfg empty_storage flows

flows_test :
    (Tcc.asset_exists after_flows ≡ true)
    × (Tcc.total_supply after_flows ≡ 600)
    × (Tcc.balance_of after_flows 1 ≡ 0)
    × ((dispatch memory cfg now root (Call.instantiate_asset 1 1 true) after_flows).0
        ≡ err (module_error already_instantiated))
    × ((dispatch memory cfg now root (Call.burn 1 601) after_flows).0
        ≡ err (module_error supply_overflow))
    × ((dispatch memory cfg now (signed 1) (Call.mint 1 1) after_flows).0 ≡ err bad_origin)
    × (Tcc.total_supply (Tcc.build true 5 empty_storage) ≡ 5)
unfolding program
flows_test = (refl, refl, refl, refl, refl, refl, refl)

abbrev minted_more : Storage
minted_more = record after_flows {
  cached_total_supply = 700;
  events = Event.minted 9 100 ∷ after_flows.events;
}

tcc_call_iff-Effect_example :
    (dispatch memory cfg now root (Call.mint 9 100) after_flows ≡ (ok tt, minted_more))
    ↔ Effect memory cfg now root (Call.mint 9 100) after_flows minted_more
tcc_call_iff-Effect_example =
    tcc_call_iff-Effect memory cfg now root (Call.mint 9 100) after_flows minted_more

supply-IsAccounted_example : IsAccounted memory cfg after_flows
supply-IsAccounted_example = supply-IsAccounted memory cfg flows

transfer_moves_nothing_test :
    let r = dispatch memory cfg now (signed 7) (Call.transfer 8 1000000) after_flows in
    (r.0 ≡ ok tt)
    × (r.1.events ≡ Event.transferred 7 8 1000000 ∷ after_flows.events)
    × (Tcc.total_supply r.1 ≡ Tcc.total_supply after_flows)
    × (Tcc.balance_of r.1 3 ≡ Tcc.balance_of after_flows 3)
    × (Tcc.balance_of r.1 7 ≡ 0)
unfolding program
transfer_moves_nothing_test =
    transfer_moves_nothing memory cfg now 7 8 3 8 1000000 after_flows refl refl
