-- ===== src/Tcc/Calls.antt =====
-- `#[pallet::call]` of pallets/tcc/src/lib.rs: the calls as data, the dispatchable of each, and
-- histories of extrinsics.
use contradots_techconnect_c.Base.{Bool, List}
use contradots_techconnect_c.Frame.{Frame, Env}
use contradots_techconnect_c.Extrinsics
use contradots_techconnect_c.Extrinsics.{Extrinsic}
use contradots_techconnect_c.Tcc
use contradots_techconnect_c.Tcc.{Source, Balance, Config, Storage, Handler}

pub data Call : Type 0 where
  instantiate_asset : Source → Balance → Bool → Call
  mint burn transfer : Source → Balance → Call

module _ (F : Frame) (cfg : Config F) where
  unfoldable pub dispatch : Env → F.RuntimeOrigin → Call → Handler
  dispatch env o (instantiate_asset owner min_balance is_sufficient) =
      Tcc.instantiate_asset F cfg o owner min_balance is_sufficient
  dispatch env o (mint to amount) = Tcc.mint F cfg o to amount
  dispatch env o (burn source amount) = Tcc.burn F cfg o source amount
  dispatch env o (transfer to amount) = Tcc.transfer F cfg o to amount

  abbrev pub submit : Extrinsic F Call → Handler
  submit x = dispatch x.env x.origin x.call

  unfoldable pub run : Storage → List (Extrinsic F Call) → Storage
  unfolding Extrinsics.run
  run = Extrinsics.run submit
