-- ===== src/Rewards/Refinement/Claiming.antt =====
-- `create_attestation` and `claim_reward` of pallets/rewards/src/lib.rs against their
-- specification.
use contradots_techconnect_c.Base.{ℕ, ◌≡◌, true, Option, some, arith, is_some}
use contradots_techconnect_c.Frame.{Frame, Env, ok}
use contradots_techconnect_c.Rewards
use contradots_techconnect_c.Rewards.{
  Bytes, Config, Storage, RewardRule, Attestation, ClaimCounter, reset_counter, counter_or_default,
  current_epoch,
}
use contradots_techconnect_c.Rewards.Effects.{CreatesAttestation, Claims}

module _ (F : Frame) (cfg : Config F) where
  pub create_attestation-signer :
      (env : Env) (o : F.RuntimeOrigin) (subject rule_id : ℕ) (expires_at : Option ℕ)
      (metadata : Option Bytes) (s : Storage F)
      → (Rewards.create_attestation F cfg env o subject rule_id expires_at metadata s).0 ≡ ok tt
      → is_some (F.ensure_signed o) ≡ true
  unfolding Rewards.create_attestation
  create_attestation-signer env o subject rule_id expires_at metadata s h = ground arith

  pub create_attestation-rule :
      (env : Env) (o : F.RuntimeOrigin) (subject rule_id : ℕ) (expires_at : Option ℕ)
      (metadata : Option Bytes) (s : Storage F) (who : ℕ)
      → F.ensure_signed o ≡ some who
      → (Rewards.create_attestation F cfg env o subject rule_id expires_at metadata s).0 ≡ ok tt
      → is_some (F.get s.rules rule_id) ≡ true
  unfolding Rewards.create_attestation
  create_attestation-rule env o subject rule_id expires_at metadata s who ewho h = ground arith

  pub create_attestation-CreatesAttestation :
      (env : Env) (o : F.RuntimeOrigin) (subject rule_id : ℕ) (expires_at : Option ℕ)
      (metadata : Option Bytes) (s : Storage F) (who : ℕ) (rule : RewardRule)
      → F.ensure_signed o ≡ some who
      → F.get s.rules rule_id ≡ some rule
      → (Rewards.create_attestation F cfg env o subject rule_id expires_at metadata s).0 ≡ ok tt
      → CreatesAttestation F cfg env o subject rule_id expires_at metadata s
          (Rewards.create_attestation F cfg env o subject rule_id expires_at metadata s).1
          who
          rule
  unfolding Rewards.create_attestation
  create_attestation-CreatesAttestation env o subject rule_id expires_at metadata s who rule ewho
        erule h =
      ground arith

  pub CreatesAttestation-create_attestation :
      (env : Env) (o : F.RuntimeOrigin) (subject rule_id : ℕ) (expires_at : Option ℕ)
      (metadata : Option Bytes) (s s' : Storage F) (who : ℕ) (rule : RewardRule)
      → CreatesAttestation F cfg env o subject rule_id expires_at metadata s s' who rule
      → Rewards.create_attestation F cfg env o subject rule_id expires_at metadata s ≡ (ok tt, s')
  unfolding Rewards.create_attestation
  CreatesAttestation-create_attestation env o subject rule_id expires_at metadata s s' who rule h =
      ground arith

  pub claim_reward-attestation :
      (env : Env) (o : F.RuntimeOrigin) (id : ℕ) (s : Storage F)
      → (Rewards.claim_reward F cfg env o id s).0 ≡ ok tt
      → is_some (F.get s.attestations id) ≡ true
  unfolding Rewards.claim_reward
  claim_reward-attestation env o id s h = ground arith

  pub claim_reward-rule :
      (env : Env) (o : F.RuntimeOrigin) (id : ℕ) (s : Storage F) (att : Attestation)
      → F.get s.attestations id ≡ some att
      → (Rewards.claim_reward F cfg env o id s).0 ≡ ok tt
      → is_some (F.get s.rules att.rule_id) ≡ true
  unfolding Rewards.claim_reward
  claim_reward-rule env o id s att eatt h = ground arith

  pub claim_reward-Claims :
      (env : Env) (o : F.RuntimeOrigin) (id : ℕ) (s : Storage F) (att : Attestation)
      (rule : RewardRule)
      → F.get s.attestations id ≡ some att
      → F.get s.rules att.rule_id ≡ some rule
      → (Rewards.claim_reward F cfg env o id s).0 ≡ ok tt
      → Claims F cfg env o id s (Rewards.claim_reward F cfg env o id s).1 att rule
  unfolding Rewards.claim_reward
  claim_reward-Claims env o id s att rule eatt erule h = ground arith

  pub Claims-claim_reward :
      (env : Env) (o : F.RuntimeOrigin) (id : ℕ) (s s' : Storage F) (att : Attestation)
      (rule : RewardRule)
      → Claims F cfg env o id s s' att rule
      → Rewards.claim_reward F cfg env o id s ≡ (ok tt, s')
  unfolding Rewards.claim_reward
  Claims-claim_reward env o id s s' att rule h = ground arith
