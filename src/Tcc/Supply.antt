-- ===== src/Tcc/Supply.antt =====
-- pallets/tcc/src/lib.rs: the supply over histories, and what the calls do not do.
use contradots_techconnect_c.Base.{
  ℕ, ◌+◌, ◌≤◌, ◌≡◌, ◌⊎◌, inr, refl, true, List, [], ◌∷◌, arith, if◌then◌else◌, some,
}
use contradots_techconnect_c.Frame.{Frame, Env, DispatchError, ok, err}
use contradots_techconnect_c.Extrinsics
use contradots_techconnect_c.Extrinsics.{Extrinsic}
use contradots_techconnect_c.Tcc
use contradots_techconnect_c.Tcc.{
  Config, Storage, Event, Error, already_instantiated, empty_storage,
}
use contradots_techconnect_c.Tcc.Calls.{Call, dispatch, submit, run}
use contradots_techconnect_c.Tcc.Effects.{Effect}
use contradots_techconnect_c.Tcc.Refinement.{tcc_call-Effect}

-- What the events say was minted, burned and instantiated.
abbrev pub total_minted : List Event → ℕ
total_minted [] = 0
total_minted (Event.minted to amount ∷ es) = amount + total_minted es
total_minted (Event.burned source amount ∷ es) = total_minted es
total_minted (Event.transferred source to amount ∷ es) = total_minted es
total_minted (Event.asset_instantiated id owner ∷ es) = total_minted es

abbrev pub total_burned : List Event → ℕ
total_burned [] = 0
total_burned (Event.burned source amount ∷ es) = amount + total_burned es
total_burned (Event.minted to amount ∷ es) = total_burned es
total_burned (Event.transferred source to amount ∷ es) = total_burned es
total_burned (Event.asset_instantiated id owner ∷ es) = total_burned es

abbrev pub instantiations : List Event → ℕ
instantiations [] = 0
instantiations (Event.asset_instantiated id owner ∷ es) = 1 + instantiations es
instantiations (Event.minted to amount ∷ es) = instantiations es
instantiations (Event.burned source amount ∷ es) = instantiations es
instantiations (Event.transferred source to amount ∷ es) = instantiations es

module _ (F : Frame) (cfg : Config F) where
  -- What every effect keeps holds after any history.
  run_inv :
      (P : Storage → Type 0)
      → ((x : Extrinsic F Call) (s s' : Storage)
          → P s
          → Effect F cfg x.env x.origin x.call s s'
          → P s')
      → (xs : List (Extrinsic F Call)) (s : Storage) → P s
      → P (run F cfg s xs)
  unfolding run
  run_inv P keep =
      Extrinsics.run_inv (submit F cfg) P
        (λ x s p e. keep x s _ p (tcc_call-Effect F cfg x.env x.origin x.call s e))

  -- The supply accounts for the events, is a balance, and is 0 before the instantiation.
  pub record IsAccounted (s : Storage) : Type 0 where
    pub accounted : s.cached_total_supply + total_burned s.events ≡ total_minted s.events
    pub bounded : s.cached_total_supply ≤ cfg.max_balance
    pub instantiated : instantiations s.events ≡ (if s.asset_instantiated then 1 else 0)
    pub unused : (s.asset_instantiated ≡ true) ⊎ (s.cached_total_supply ≡ 0)

  Effect-IsAccounted :
      (env : Env) (o : F.RuntimeOrigin) (c : Call) (s s' : Storage)
      → IsAccounted s
      → Effect F cfg env o c s s'
      → IsAccounted s'
  Effect-IsAccounted env o (Call.instantiate_asset owner m b) s s' i (who, h) =
      rw h.after (ground (arith, i.accounted, i.bounded, i.instantiated, i.unused, h.first))
  Effect-IsAccounted env o (Call.mint to amount) s s' i (who, h) =
      rw h.after
        (ground (arith, i.accounted, i.bounded, i.instantiated, i.unused, h.instantiated, h.within))
  Effect-IsAccounted env o (Call.burn source amount) s s' i (who, h) =
      rw h.after
        (ground (arith, i.accounted, i.bounded, i.instantiated, i.unused, h.instantiated, h.within))
  Effect-IsAccounted env o (Call.transfer to amount) s s' i (who, whom, h) =
      rw h.after (ground (arith, i.accounted, i.bounded, i.instantiated, i.unused))

  -- After any history that began with the empty storage, the supply and all that was burned make
  -- what was minted, the supply is within the type of a balance, the asset was instantiated once
  -- if it is and not at all otherwise, and before that the supply is 0.
  pub supply-IsAccounted : (xs : List (Extrinsic F Call)) → IsAccounted (run F cfg empty_storage xs)
  supply-IsAccounted xs =
      run_inv IsAccounted (λ x s s' i h. Effect-IsAccounted x.env x.origin x.call s s' i h) xs
        empty_storage
        (record {
          accounted = omega arith;
          bounded = omega arith;
          instantiated = omega arith;
          unused = inr refl;
        })

  -- A call that fails has changed nothing and deposited no event, also without the storage layer.
  pub failed_tcc_call_changes_nothing :
      (env : Env) (o : F.RuntimeOrigin) (c : Call) (s : Storage) (e : DispatchError Error)
      → (dispatch F cfg env o c s).0 ≡ err e
      → (dispatch F cfg env o c s).1 ≡ s
  unfolding dispatch Tcc.instantiate_asset Tcc.mint Tcc.burn Tcc.transfer
  failed_tcc_call_changes_nothing env o (Call.instantiate_asset owner m b) s e h = ground arith
  failed_tcc_call_changes_nothing env o (Call.mint to amount) s e h = ground arith
  failed_tcc_call_changes_nothing env o (Call.burn source amount) s e h = ground arith
  failed_tcc_call_changes_nothing env o (Call.transfer to amount) s e h = ground arith

  -- A transfer of any amount by a signer succeeds, once the asset is instantiated and where the
  -- destination is known; it deposits its event, and the supply and the balance of every account
  -- are as before, that of the signer being 0.
  pub transfer_moves_nothing :
      (env : Env) (who whom account to amount : ℕ) (s : Storage)
      → s.asset_instantiated ≡ true
      → cfg.lookup to ≡ some whom
      → let r = dispatch F cfg env (F.signed who) (Call.transfer to amount) s in
        (r.0 ≡ ok tt)
        × (r.1.events ≡ Event.transferred who whom amount ∷ s.events)
        × (Tcc.total_supply r.1 ≡ Tcc.total_supply s)
        × (Tcc.balance_of r.1 account ≡ Tcc.balance_of s account)
        × (Tcc.balance_of r.1 who ≡ 0)
  unfolding dispatch Tcc.transfer Tcc.total_supply Tcc.balance_of
  transfer_moves_nothing env who whom account to amount s instantiated known =
      ground (arith, F.ensure_signed-signed who)
