-- ===== src/Tcc/Refinement.antt =====
-- The dispatchables of the tcc pallet accept exactly what the specification accepts, and leave the
-- storage that it says.
use contradots_techconnect_c.Base.{
  ap, subst, ◌↔◌, ℕ, ◌≡◌, Bool, true, some, arith, value_of, is_some,
}
use contradots_techconnect_c.Frame.{Frame, Env, ok}
use contradots_techconnect_c.Tcc
use contradots_techconnect_c.Tcc.{Config, Storage}
use contradots_techconnect_c.Tcc.Calls.{Call, dispatch}
use contradots_techconnect_c.Tcc.Effects.{Effect, Instantiates, Mints, Burns, Transfers}

module _ (F : Frame) (cfg : Config F) where
  instantiate_asset-owner :
      (o : F.RuntimeOrigin) (owner min_balance : ℕ) (is_sufficient : Bool) (s : Storage)
      → (Tcc.instantiate_asset F cfg o owner min_balance is_sufficient s).0 ≡ ok tt
      → is_some (cfg.lookup owner) ≡ true
  unfolding Tcc.instantiate_asset
  instantiate_asset-owner o owner min_balance is_sufficient s h = ground arith

  instantiate_asset-Instantiates :
      (o : F.RuntimeOrigin) (owner min_balance : ℕ) (is_sufficient : Bool) (s : Storage) (who : ℕ)
      → cfg.lookup owner ≡ some who
      → (Tcc.instantiate_asset F cfg o owner min_balance is_sufficient s).0 ≡ ok tt
      → Instantiates F cfg o owner s
          (Tcc.instantiate_asset F cfg o owner min_balance is_sufficient s).1
          who
  unfolding Tcc.instantiate_asset
  instantiate_asset-Instantiates o owner min_balance is_sufficient s who ewho h = ground arith

  Instantiates-instantiate_asset :
      (o : F.RuntimeOrigin) (owner min_balance : ℕ) (is_sufficient : Bool) (s s' : Storage)
      (who : ℕ)
      → Instantiates F cfg o owner s s' who
      → Tcc.instantiate_asset F cfg o owner min_balance is_sufficient s ≡ (ok tt, s')
  unfolding Tcc.instantiate_asset
  Instantiates-instantiate_asset o owner min_balance is_sufficient s s' who h = ground arith

  mint-to :
      (o : F.RuntimeOrigin) (to amount : ℕ) (s : Storage)
      → (Tcc.mint F cfg o to amount s).0 ≡ ok tt
      → is_some (cfg.lookup to) ≡ true
  unfolding Tcc.mint
  mint-to o to amount s h = ground arith

  mint-Mints :
      (o : F.RuntimeOrigin) (to amount : ℕ) (s : Storage) (who : ℕ)
      → cfg.lookup to ≡ some who
      → (Tcc.mint F cfg o to amount s).0 ≡ ok tt
      → Mints F cfg o to amount s (Tcc.mint F cfg o to amount s).1 who
  unfolding Tcc.mint
  mint-Mints o to amount s who ewho h = ground arith

  Mints-mint :
      (o : F.RuntimeOrigin) (to amount : ℕ) (s s' : Storage) (who : ℕ)
      → Mints F cfg o to amount s s' who
      → Tcc.mint F cfg o to amount s ≡ (ok tt, s')
  unfolding Tcc.mint
  Mints-mint o to amount s s' who h = ground arith

  burn-source :
      (o : F.RuntimeOrigin) (source amount : ℕ) (s : Storage)
      → (Tcc.burn F cfg o source amount s).0 ≡ ok tt
      → is_some (cfg.lookup source) ≡ true
  unfolding Tcc.burn
  burn-source o source amount s h = ground arith

  burn-Burns :
      (o : F.RuntimeOrigin) (source amount : ℕ) (s : Storage) (who : ℕ)
      → cfg.lookup source ≡ some who
      → (Tcc.burn F cfg o source amount s).0 ≡ ok tt
      → Burns F cfg o source amount s (Tcc.burn F cfg o source amount s).1 who
  unfolding Tcc.burn
  burn-Burns o source amount s who ewho h = ground arith

  Burns-burn :
      (o : F.RuntimeOrigin) (source amount : ℕ) (s s' : Storage) (who : ℕ)
      → Burns F cfg o source amount s s' who
      → Tcc.burn F cfg o source amount s ≡ (ok tt, s')
  unfolding Tcc.burn
  Burns-burn o source amount s s' who h = ground arith

  transfer-signer :
      (o : F.RuntimeOrigin) (to amount : ℕ) (s : Storage)
      → (Tcc.transfer F cfg o to amount s).0 ≡ ok tt
      → is_some (F.ensure_signed o) ≡ true
  unfolding Tcc.transfer
  transfer-signer o to amount s h = ground arith

  transfer-to :
      (o : F.RuntimeOrigin) (to amount : ℕ) (s : Storage) (who : ℕ)
      → F.ensure_signed o ≡ some who
      → (Tcc.transfer F cfg o to amount s).0 ≡ ok tt
      → is_some (cfg.lookup to) ≡ true
  unfolding Tcc.transfer
  transfer-to o to amount s who ewho h = ground arith

  transfer-Transfers :
      (o : F.RuntimeOrigin) (to amount : ℕ) (s : Storage) (who : ℕ) (whom : ℕ)
      → F.ensure_signed o ≡ some who
      → cfg.lookup to ≡ some whom
      → (Tcc.transfer F cfg o to amount s).0 ≡ ok tt
      → Transfers F cfg o to amount s (Tcc.transfer F cfg o to amount s).1 who whom
  unfolding Tcc.transfer
  transfer-Transfers o to amount s who whom ewho ewhom h = ground arith

  Transfers-transfer :
      (o : F.RuntimeOrigin) (to amount : ℕ) (s s' : Storage) (who : ℕ) (whom : ℕ)
      → Transfers F cfg o to amount s s' who whom
      → Tcc.transfer F cfg o to amount s ≡ (ok tt, s')
  unfolding Tcc.transfer
  Transfers-transfer o to amount s s' who whom h = ground arith

  -- An accepted call has met the specification's conditions, and leaves its storage.
  pub tcc_call-Effect :
      (env : Env) (o : F.RuntimeOrigin) (c : Call) (s : Storage)
      → (dispatch F cfg env o c s).0 ≡ ok tt
      → Effect F cfg env o c s (dispatch F cfg env o c s).1
  unfolding dispatch
  tcc_call-Effect env o (Call.instantiate_asset owner min_balance is_sufficient) s h =
      let (who, ewho) =
        value_of _ (instantiate_asset-owner o owner min_balance is_sufficient s h) in
      (who, instantiate_asset-Instantiates o owner min_balance is_sufficient s who ewho h)
  tcc_call-Effect env o (Call.mint to amount) s h =
      let (who, ewho) = value_of _ (mint-to o to amount s h) in
      (who, mint-Mints o to amount s who ewho h)
  tcc_call-Effect env o (Call.burn source amount) s h =
      let (who, ewho) = value_of _ (burn-source o source amount s h) in
      (who, burn-Burns o source amount s who ewho h)
  tcc_call-Effect env o (Call.transfer to amount) s h =
      let (who, ewho) = value_of _ (transfer-signer o to amount s h) in
      let (whom, ewhom) = value_of _ (transfer-to o to amount s who ewho h) in
      (who, whom, transfer-Transfers o to amount s who whom ewho ewhom h)

  -- A call that meets the specification's conditions is accepted, and leaves its storage.
  pub Effect-tcc_call :
      (env : Env) (o : F.RuntimeOrigin) (c : Call) (s s' : Storage)
      → Effect F cfg env o c s s'
      → dispatch F cfg env o c s ≡ (ok tt, s')
  unfolding dispatch
  Effect-tcc_call env o (Call.instantiate_asset owner min_balance is_sufficient) s s' (who, h) =
      Instantiates-instantiate_asset o owner min_balance is_sufficient s s' who h
  Effect-tcc_call env o (Call.mint to amount) s s' (who, h) = Mints-mint o to amount s s' who h
  Effect-tcc_call env o (Call.burn source amount) s s' (who, h) =
      Burns-burn o source amount s s' who h
  Effect-tcc_call env o (Call.transfer to amount) s s' (who, whom, h) =
      Transfers-transfer o to amount s s' who whom h

  -- For every call of the pallet, and every origin, block and storage: the call succeeds and leaves
  -- the storage `s'` exactly when the specification accepts the call and says `s'`.
  pub tcc_call_iff-Effect :
      (env : Env) (o : F.RuntimeOrigin) (c : Call) (s s' : Storage)
      → (dispatch F cfg env o c s ≡ (ok tt, s')) ↔ Effect F cfg env o c s s'
  tcc_call_iff-Effect env o c s s' = (
    λ e. subst (λ r. Effect F cfg env o c s r.1) e (tcc_call-Effect env o c s (ap (λ r. r.0) e)),
    Effect-tcc_call env o c s s',
  )
