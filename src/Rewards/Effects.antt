-- ===== src/Rewards/Effects.antt =====
-- The calls of pallets/rewards/src/lib.rs as a specification: when a call is accepted, and the
-- storage that it leaves.
use contradots_techconnect_c.Base.{
  ℕ, ◌+◌, ◌<◌, ◌≤◌, ◌≡◌, true, false, Option, none, some, ◌∷◌, ◌==◌, length, min, u32_max, u64_max,
  if◌then◌else◌,
}
use contradots_techconnect_c.Frame.{Frame, Env, now_millis}
use contradots_techconnect_c.Rewards.{
  Bytes, Config, Storage, RewardRule, Attestation, ClaimCounter, Event, current_epoch, is_current,
  may_attest, may_revoke,
}
use contradots_techconnect_c.Rewards.Calls.{Call}

-- The claims that a stored counter stands for in an epoch: none where it is of another epoch.
abbrev pub counted : ℕ → Option ClaimCounter → ℕ
counted e none = 0
counted e (some c) = if c.epoch == e then c.count else 0

module _ (F : Frame) (cfg : Config F) where
  open F use {RuntimeOrigin, get, insert, remove, double_get, double_insert, ensure_signed, signed}

  -- The rule creation origin adds a rule, whose event type has 32 bytes at most.
  pub record CreatesRule (o : RuntimeOrigin) (event_type : Bytes) (amount limit : ℕ)
      (club : Option ℕ) (metadata : Option Bytes) (s s' : Storage F) : Type 0 where
    pub allowed : cfg.rule_creation_origin o ≡ true
    pub short : length event_type ≤ 32
    pub after : s' ≡ record s {
      rules = insert s.rules s.next_rule_id (record {
        event_type = event_type;
        amount = amount;
        max_per_epoch = limit;
        club = club;
        metadata = metadata;
      });
      next_rule_id = min (s.next_rule_id + 1) u32_max;
      events = Event.rule_created s.next_rule_id ∷ s.events;
    }

  -- A signer attests for an existing rule: anybody for a club's rule, the manual award origin for
  -- a global one; and there is room.
  pub record CreatesAttestation (env : Env) (o : RuntimeOrigin) (subject rule_id : ℕ)
      (expires_at : Option ℕ) (metadata : Option Bytes) (s s' : Storage F) (who : ℕ)
      (rule : RewardRule) : Type 0 where
    pub origin_signed : ensure_signed o ≡ some who
    pub found : get s.rules rule_id ≡ some rule
    pub allowed : may_attest rule.club (cfg.manual_award_origin (signed who)) ≡ true
    pub room : s.next_attestation_id < cfg.max_attestations
    pub after : s' ≡ record s {
      attestations = insert s.attestations s.next_attestation_id (record {
        subject = subject;
        rule_id = rule_id;
        attestor = who;
        created_at = now_millis env;
        expires_at = expires_at;
        used = false;
        metadata = metadata;
      });
      next_attestation_id = min (s.next_attestation_id + 1) u64_max;
      events = Event.attestation_created s.next_attestation_id subject rule_id who ∷ s.events;
    }

  -- The subject of an attestation that is neither used nor expired claims, within the limit of the
  -- epoch.
  pub record Claims (env : Env) (o : RuntimeOrigin) (id : ℕ) (s s' : Storage F) (att : Attestation)
      (rule : RewardRule) : Type 0 where
    pub found : get s.attestations id ≡ some att
    pub origin_signed : ensure_signed o ≡ some att.subject
    pub unused : att.used ≡ false
    pub current : is_current env att.expires_at ≡ true
    pub rule_found : get s.rules att.rule_id ≡ some rule
    pub within :
        min
          (counted
              (current_epoch F cfg env)
              (double_get s.claims_this_epoch att.subject att.rule_id)
            + 1)
          u32_max
        ≤ rule.max_per_epoch
    pub after : s' ≡ record s {
      attestations = insert s.attestations id (record att { used = true });
      claims_this_epoch = double_insert s.claims_this_epoch att.subject att.rule_id (record {
        epoch = current_epoch F cfg env;
        count =
            min
              (counted
                  (current_epoch F cfg env)
                  (double_get s.claims_this_epoch att.subject att.rule_id)
                + 1)
              u32_max;
      });
      events = Event.reward_claimed att.subject att.rule_id id rule.amount ∷ s.events;
    }

  -- The manual award origin awards; the event is all that happens.
  pub record Awards (o : RuntimeOrigin) (to amount : ℕ) (reason : Option Bytes) (s s' : Storage F)
      : Type 0 where
    pub allowed : cfg.manual_award_origin o ≡ true
    pub after : s' ≡ record s { events = Event.reward_awarded to amount reason ∷ s.events }

  -- The attestor of a club's rule, or the manual award origin for a global one, takes an
  -- attestation away.
  pub record RevokesAttestation (o : RuntimeOrigin) (id : ℕ) (s s' : Storage F) (who : ℕ)
      (att : Attestation) (rule : RewardRule) : Type 0 where
    pub origin_signed : ensure_signed o ≡ some who
    pub found : get s.attestations id ≡ some att
    pub rule_found : get s.rules att.rule_id ≡ some rule
    pub allowed :
        may_revoke rule.club (cfg.manual_award_origin (signed who)) att.attestor who ≡ true
    pub after : s' ≡ record s {
      attestations = remove s.attestations id;
      events = Event.attestation_revoked id ∷ s.events;
    }

  -- The call is accepted in `s`, and leaves `s'`.
  abbrev pub Effect : Env → RuntimeOrigin → Call → Storage F → Storage F → Type 0
  Effect env o (Call.create_rule event_type amount limit club metadata) s s' =
      CreatesRule o event_type amount limit club metadata s s'
  Effect env o (Call.create_attestation subject rule_id expires_at metadata) s s' =
      (who : ℕ) × (rule : RewardRule) × CreatesAttestation env o subject rule_id expires_at metadata
        s s' who rule
  Effect env o (Call.claim_reward id) s s' =
      (att : Attestation) × (rule : RewardRule) × Claims env o id s s' att rule
  Effect env o (Call.award_manual to amount reason) s s' = Awards o to amount reason s s'
  Effect env o (Call.revoke_attestation id) s s' =
      (who : ℕ) × (att : Attestation) × (rule : RewardRule) × RevokesAttestation o id s s' who att
        rule
