-- ===== src/Rewards/Refinement.antt =====
-- The dispatchables of the rewards pallet accept exactly what the specification accepts, and leave
-- the storage that it says.
mod Claiming
use contradots_techconnect_c.Base.{
  ap, subst, ◌↔◌, ℕ, ◌≡◌, true, Option, some, none, arith, value_of, is_some,
}
use contradots_techconnect_c.Frame.{Frame, Env, ok}
use contradots_techconnect_c.Rewards
use contradots_techconnect_c.Rewards.{
  Bytes, Config, Storage, RewardRule, Attestation, ClaimCounter, reset_counter, counter_or_default,
  current_epoch,
}
use contradots_techconnect_c.Rewards.Calls.{Call, dispatch}
use contradots_techconnect_c.Rewards.Effects.{
  Effect, CreatesRule, CreatesAttestation, Claims, Awards, RevokesAttestation, counted,
}
use contradots_techconnect_c.Rewards.Refinement.Claiming.{
  create_attestation-signer, create_attestation-rule, create_attestation-CreatesAttestation,
  CreatesAttestation-create_attestation, claim_reward-attestation, claim_reward-rule,
  claim_reward-Claims, Claims-claim_reward,
}

module _ (F : Frame) (cfg : Config F) where
  create_rule-CreatesRule :
      (o : F.RuntimeOrigin) (event_type : Bytes) (amount limit : ℕ) (club : Option ℕ)
      (metadata : Option Bytes) (s : Storage F)
      → (Rewards.create_rule F cfg o event_type amount limit club metadata s).0 ≡ ok tt
      → CreatesRule F cfg o event_type amount limit club metadata s
          (Rewards.create_rule F cfg o event_type amount limit club metadata s).1
  unfolding Rewards.create_rule
  create_rule-CreatesRule o event_type amount limit club metadata s h =
      ground (arith, F.try_from_lem 32 event_type)

  CreatesRule-create_rule :
      (o : F.RuntimeOrigin) (event_type : Bytes) (amount limit : ℕ) (club : Option ℕ)
      (metadata : Option Bytes) (s s' : Storage F)
      → CreatesRule F cfg o event_type amount limit club metadata s s'
      → Rewards.create_rule F cfg o event_type amount limit club metadata s ≡ (ok tt, s')
  unfolding Rewards.create_rule
  CreatesRule-create_rule o event_type amount limit club metadata s s' h =
      ground (arith, F.try_from_lem 32 event_type)

  award_manual-Awards :
      (o : F.RuntimeOrigin) (to amount : ℕ) (reason : Option Bytes) (s : Storage F)
      → (Rewards.award_manual F cfg o to amount reason s).0 ≡ ok tt
      → Awards F cfg o to amount reason s (Rewards.award_manual F cfg o to amount reason s).1
  unfolding Rewards.award_manual
  award_manual-Awards o to amount reason s h = ground arith

  Awards-award_manual :
      (o : F.RuntimeOrigin) (to amount : ℕ) (reason : Option Bytes) (s s' : Storage F)
      → Awards F cfg o to amount reason s s'
      → Rewards.award_manual F cfg o to amount reason s ≡ (ok tt, s')
  unfolding Rewards.award_manual
  Awards-award_manual o to amount reason s s' h = ground arith

  revoke_attestation-signer :
      (o : F.RuntimeOrigin) (id : ℕ) (s : Storage F)
      → (Rewards.revoke_attestation F cfg o id s).0 ≡ ok tt
      → is_some (F.ensure_signed o) ≡ true
  unfolding Rewards.revoke_attestation
  revoke_attestation-signer o id s h = ground arith

  revoke_attestation-attestation :
      (o : F.RuntimeOrigin) (id : ℕ) (s : Storage F) (who : ℕ)
      → F.ensure_signed o ≡ some who
      → (Rewards.revoke_attestation F cfg o id s).0 ≡ ok tt
      → is_some (F.get s.attestations id) ≡ true
  unfolding Rewards.revoke_attestation
  revoke_attestation-attestation o id s who ewho h = ground arith

  revoke_attestation-rule :
      (o : F.RuntimeOrigin) (id : ℕ) (s : Storage F) (who : ℕ) (att : Attestation)
      → F.ensure_signed o ≡ some who
      → F.get s.attestations id ≡ some att
      → (Rewards.revoke_attestation F cfg o id s).0 ≡ ok tt
      → is_some (F.get s.rules att.rule_id) ≡ true
  unfolding Rewards.revoke_attestation
  revoke_attestation-rule o id s who att ewho eatt h = ground arith

  revoke_attestation-RevokesAttestation :
      (o : F.RuntimeOrigin) (id : ℕ) (s : Storage F) (who : ℕ) (att : Attestation)
      (rule : RewardRule)
      → F.ensure_signed o ≡ some who
      → F.get s.attestations id ≡ some att
      → F.get s.rules att.rule_id ≡ some rule
      → (Rewards.revoke_attestation F cfg o id s).0 ≡ ok tt
      → RevokesAttestation F cfg o id s (Rewards.revoke_attestation F cfg o id s).1 who att rule
  unfolding Rewards.revoke_attestation
  revoke_attestation-RevokesAttestation o id s who att rule ewho eatt erule h = ground arith

  RevokesAttestation-revoke_attestation :
      (o : F.RuntimeOrigin) (id : ℕ) (s s' : Storage F) (who : ℕ) (att : Attestation)
      (rule : RewardRule)
      → RevokesAttestation F cfg o id s s' who att rule
      → Rewards.revoke_attestation F cfg o id s ≡ (ok tt, s')
  unfolding Rewards.revoke_attestation
  RevokesAttestation-revoke_attestation o id s s' who att rule h = ground arith

  -- An accepted call has met the specification's conditions, and leaves its storage.
  pub reward_call-Effect :
      (env : Env) (o : F.RuntimeOrigin) (c : Call) (s : Storage F)
      → (dispatch F cfg env o c s).0 ≡ ok tt
      → Effect F cfg env o c s (dispatch F cfg env o c s).1
  unfolding dispatch
  reward_call-Effect env o (Call.create_rule event_type amount limit club metadata) s h =
      create_rule-CreatesRule o event_type amount limit club metadata s h
  reward_call-Effect env o (Call.create_attestation subject rule_id expires_at metadata) s h =
      let (who, ewho) =
        value_of _
          (create_attestation-signer F cfg env o subject rule_id expires_at metadata s h) in
      let (rule, erule) =
        value_of _
          (create_attestation-rule F cfg env o subject rule_id expires_at metadata s who ewho h) in
      (
        who,
        rule,
        create_attestation-CreatesAttestation F cfg env o subject rule_id expires_at metadata s who
            rule ewho erule h,
      )
  reward_call-Effect env o (Call.claim_reward id) s h =
      let (att, eatt) = value_of _ (claim_reward-attestation F cfg env o id s h) in
      let (rule, erule) = value_of _ (claim_reward-rule F cfg env o id s att eatt h) in
      (att, rule, claim_reward-Claims F cfg env o id s att rule eatt erule h)
  reward_call-Effect env o (Call.award_manual to amount reason) s h =
      award_manual-Awards o to amount reason s h
  reward_call-Effect env o (Call.revoke_attestation id) s h =
      let (who, ewho) = value_of _ (revoke_attestation-signer o id s h) in
      let (att, eatt) = value_of _ (revoke_attestation-attestation o id s who ewho h) in
      let (rule, erule) = value_of _ (revoke_attestation-rule o id s who att ewho eatt h) in
      (who, att, rule, revoke_attestation-RevokesAttestation o id s who att rule ewho eatt erule h)

  -- A call that meets the specification's conditions is accepted, and leaves its storage.
  pub Effect-reward_call :
      (env : Env) (o : F.RuntimeOrigin) (c : Call) (s s' : Storage F)
      → Effect F cfg env o c s s'
      → dispatch F cfg env o c s ≡ (ok tt, s')
  unfolding dispatch
  Effect-reward_call env o (Call.create_rule event_type amount limit club metadata) s s' h =
      CreatesRule-create_rule o event_type amount limit club metadata s s' h
  Effect-reward_call env o (Call.create_attestation subject rule_id expires_at metadata) s s'
        (who, rule, h) =
      CreatesAttestation-create_attestation F cfg env o subject rule_id expires_at metadata s s' who
        rule h
  Effect-reward_call env o (Call.claim_reward id) s s' (att, rule, h) =
      Claims-claim_reward F cfg env o id s s' att rule h
  Effect-reward_call env o (Call.award_manual to amount reason) s s' h =
      Awards-award_manual o to amount reason s s' h
  Effect-reward_call env o (Call.revoke_attestation id) s s' (who, att, rule, h) =
      RevokesAttestation-revoke_attestation o id s s' who att rule h

  -- For every call of the pallet, and every origin, block and storage: the call succeeds and leaves
  -- the storage `s'` exactly when the specification accepts the call and says `s'`.
  pub reward_call_iff-Effect :
      (env : Env) (o : F.RuntimeOrigin) (c : Call) (s s' : Storage F)
      → (dispatch F cfg env o c s ≡ (ok tt, s')) ↔ Effect F cfg env o c s s'
  reward_call_iff-Effect env o c s s' = (
    λ e. subst (λ r. Effect F cfg env o c s r.1) e (reward_call-Effect env o c s (ap (λ r. r.0) e)),
    Effect-reward_call env o c s s',
  )
