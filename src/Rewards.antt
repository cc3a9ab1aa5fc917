-- ===== src/Rewards.antt =====
-- pallets/rewards/src/lib.rs: the dispatchables, the read functions and the genesis. The data is in
-- Rewards/Data; the other children are about what is defined here.
mod Data
pub mod Calls
pub mod Effects
pub mod Refinement
pub mod History
pub mod Once
pub mod Limits
pub mod Invariant
pub mod Attest
mod Tests
pub use Data.*
use contradots_techconnect_c.Base.{
  ℕ, Bool, true, false, not, Option, some, none, List, [], ◌∷◌, ltb, leb, ◌==◌, u32_max, u64_max,
  saturating_add, if◌then◌else◌,
}
use contradots_techconnect_c.Frame.{
  Frame, Env, ◌>>=◌, ◌>>◌, pure, gets, modify, ensure, ok_or, signer, ensure_origin, now_millis,
}
use contradots_techconnect_c.Storage.{get_item, insert_item, try_mutate, double_try_mutate}

-- The bound of a rule's event type, `ConstU32<32>`.
abbrev pub max_event_type : ℕ
max_event_type = 32

module _ (F : Frame) (cfg : Config F) where
  pub create_rule :
      F.RuntimeOrigin → Bytes → RewardAmount → ℕ → Option ClubId → Option Bytes → Handler F
  create_rule origin event_type amount max_per_epoch club metadata = do
    ensure_origin (cfg.rule_creation_origin origin)
    bounded_event ← ok_or (F.try_from max_event_type event_type) invalid_input
    id ← gets (λ s. s.next_rule_id)
    insert_item (rules F) id (record {
      event_type = bounded_event;
      amount = amount;
      max_per_epoch = max_per_epoch;
      club = club;
      metadata = metadata;
    })
    modify (λ s. record s { next_rule_id = saturating_add u32_max id 1 })
    deposit_event F (rule_created id)

  pub create_attestation :
      Env → F.RuntimeOrigin → AccountId → RuleId → Option Moment → Option Bytes → Handler F
  create_attestation env origin subject rule_id expires_at metadata = do
    attestor ← signer (F.ensure_signed origin)
    rule ← ok_or (← get_item (rules F) rule_id) rule_not_found
    ensure (may_attest rule.club (cfg.manual_award_origin (F.signed attestor)))
        not_authorized_attestor
    id ← gets (λ s. s.next_attestation_id)
    ensure (ltb id cfg.max_attestations) attestations_overflow
    insert_item (attestations F) id (record {
      subject = subject;
      rule_id = rule_id;
      attestor = attestor;
      created_at = now_millis env;
      expires_at = expires_at;
      used = false;
      metadata = metadata;
    })
    modify (λ s. record s { next_attestation_id = saturating_add u64_max id 1 })
    deposit_event F (attestation_created id subject rule_id attestor)

  pub claim_reward : Env → F.RuntimeOrigin → AttestationId → Handler F
  claim_reward env origin attestation_id = do
    who ← signer (F.ensure_signed origin)
    try_mutate (attestations F) attestation_id λ maybe_att. do
      att ← ok_or maybe_att attestation_not_found
      ensure (att.subject == who) invalid_input
      ensure (not att.used) attestation_used
      ensure (is_current env att.expires_at) attestation_expired
      rule ← ok_or (← get_item (rules F) att.rule_id) rule_not_found
      double_try_mutate (claims_this_epoch F) who att.rule_id
          (count_claim F (current_epoch F cfg env) rule)
      deposit_event F (reward_claimed who att.rule_id attestation_id rule.amount)
      pure (some (record att { used = true }))

  -- No currency is moved: the deposit is commented out in the source.
  pub award_manual : F.RuntimeOrigin → AccountId → RewardAmount → Option Bytes → Handler F
  award_manual origin to amount reason = do
    ensure_origin (cfg.manual_award_origin origin)
    deposit_event F (reward_awarded to amount reason)

  pub revoke_attestation : F.RuntimeOrigin → AttestationId → Handler F
  revoke_attestation origin attestation_id = do
    who ← signer (F.ensure_signed origin)
    try_mutate (attestations F) attestation_id λ maybe. do
      att ← ok_or maybe attestation_not_found
      rule ← ok_or (← get_item (rules F) att.rule_id) rule_not_found
      ensure (may_revoke rule.club (cfg.manual_award_origin (F.signed who)) att.attestor who)
          not_authorized_attestor
      pure none
    deposit_event F (attestation_revoked attestation_id)

module _ (F : Frame) where
  pub get_attestation : Storage F → AttestationId → Option Attestation
  get_attestation s attestation_id = F.get s.attestations attestation_id

  -- One round of `build`: the rule is stored, and the next identifier is above it.
  abbrev pub build_rule : Storage F → RuleId → RewardRule → Storage F
  build_rule s id rule = record s {
    rules = F.insert s.rules id rule;
    next_rule_id = if leb s.next_rule_id id then saturating_add u32_max id 1 else s.next_rule_id;
  }

  -- `GenesisConfig::build`
  pub build : List (RuleId × RewardRule) → Storage F → Storage F
  build [] s = s
  build ((id, rule) ∷ rest) s = build rest (build_rule s id rule)
