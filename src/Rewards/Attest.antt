-- ===== src/Rewards/Attest.antt =====
-- Who may attest and claim in pallets/rewards/src/lib.rs, and the rules of the genesis.
use contradots_techconnect_c.Base.{
  ℕ, refl, ◌+◌, ◌<◌, ◌≡◌, false, none, some, Option, List, [], ◌∷◌, arith, min, u32_max, u64_max,
}
use contradots_techconnect_c.Frame.{Frame, Env, ok, err, module_error, now_millis}
use contradots_techconnect_c.Rewards
use contradots_techconnect_c.Rewards.{
  Bytes, Config, Storage, RewardRule, Attestation, Event, Error, not_authorized_attestor,
  build_rule, current_epoch,
}
use contradots_techconnect_c.Rewards.Calls.{Call, dispatch}
use contradots_techconnect_c.Rewards.Effects.{counted}
use contradots_techconnect_c.Rewards.Refinement.{Effect-reward_call}

-- The attestation of an account for itself, and the storage that holds it.
abbrev own_attestation : Env → ℕ → ℕ → Attestation
own_attestation env who rule_id = record {
  subject = who;
  rule_id = rule_id;
  attestor = who;
  created_at = now_millis env;
  expires_at = none;
  used = false;
  metadata = none;
}

module _ (F : Frame) (cfg : Config F) where
  abbrev self_attested : Env → ℕ → ℕ → Storage F → Storage F
  self_attested env who rule_id s = record s {
    attestations = F.insert s.attestations s.next_attestation_id (own_attestation env who rule_id);
    next_attestation_id = min (s.next_attestation_id + 1) u64_max;
    events = Event.attestation_created s.next_attestation_id who rule_id who ∷ s.events;
  }

  -- Any account attests for itself for a club's rule and then claims, both calls being accepted,
  -- where there is room for an attestation and the epoch's limit is not reached: neither call asks
  -- for an officer of the club. The claim's event carries the rule's amount.
  pub club_rule_claimed_by_anyone :
      (env : Env) (who rule_id cid : ℕ) (rule : RewardRule) (s : Storage F)
      → F.get s.rules rule_id ≡ some rule
      → rule.club ≡ some cid
      → s.next_attestation_id < cfg.max_attestations
      → counted (current_epoch F cfg env) (F.double_get s.claims_this_epoch who rule_id)
        < rule.max_per_epoch
      → let first =
          dispatch F cfg env (F.signed who) (Call.create_attestation who rule_id none none) s in
        let second =
          dispatch F cfg env (F.signed who) (Call.claim_reward s.next_attestation_id) first.1 in
        (first.0 ≡ ok tt)
        × (second.0 ≡ ok tt)
        × (second.1.events
            ≡ Event.reward_claimed who rule_id s.next_attestation_id rule.amount
              ∷ Event.attestation_created s.next_attestation_id who rule_id who
              ∷ s.events)
  club_rule_claimed_by_anyone env who rule_id cid rule s found club room within =
      let s1 = self_attested env who rule_id s in
      let one =
        Effect-reward_call F cfg env (F.signed who) (Call.create_attestation who rule_id none none)
          s s1
          (
            who,
            rule,
            record {
              origin_signed = F.ensure_signed-signed who;
              found = found;
              allowed = ground (arith, club);
              room = room;
              after = refl;
            },
          ) in
      let two =
        Effect-reward_call F cfg env (F.signed who) (Call.claim_reward s.next_attestation_id) s1 _ (
          own_attestation env who rule_id,
          rule,
          record {
            found = rw F.get-insert (ground arith);
            origin_signed = F.ensure_signed-signed who;
            unused = refl;
            current = refl;
            rule_found = found;
            within = ground (arith, within);
            after = refl;
          },
        ) in
      rw (one, two) (refl, refl, refl)

  -- An account that the manual award origin does not admit can neither attest for a global rule
  -- nor revoke one of its attestations: both calls fail, whoever the attestor is.
  pub global_rule_needs_manual_origin :
      (env : Env) (who rule_id : ℕ) (rule : RewardRule) (s : Storage F) (subject : ℕ)
      (expires_at : Option ℕ) (metadata : Option Bytes) (id : ℕ) (att : Attestation)
      → F.get s.rules rule_id ≡ some rule
      → rule.club ≡ none
      → cfg.manual_award_origin (F.signed who) ≡ false
      → F.get s.attestations id ≡ some att
      → att.rule_id ≡ rule_id
      → (dispatch F cfg env
            (F.signed who)
            (Call.create_attestation subject rule_id expires_at metadata)
            s
          ≡ (err (module_error not_authorized_attestor), s))
        × (dispatch F cfg env (F.signed who) (Call.revoke_attestation id) s
            ≡ (err (module_error not_authorized_attestor), s))
  unfolding dispatch Rewards.create_attestation Rewards.revoke_attestation
  global_rule_needs_manual_origin env who rule_id rule s su ex md id att found global refused stored
        same =
      ground (arith, F.ensure_signed-signed who)

module _ (F : Frame) where
  -- Every rule that there is has an identifier below the next one.
  abbrev IsBelow : Storage F → Type 0
  IsBelow s = (id : ℕ) (r : RewardRule) → F.get s.rules id ≡ some r → id < s.next_rule_id

  abbrev AllBelow : List (ℕ × RewardRule) → Type 0
  AllBelow [] = Unit
  AllBelow ((id, rule) ∷ rest) = (id < u32_max) × AllBelow rest

  build_rule-IsBelow :
      (s : Storage F) (id : ℕ) (rule : RewardRule)
      → id < u32_max
      → IsBelow s
      → IsBelow (build_rule F s id rule)
  build_rule-IsBelow s id rule lt below k r e =
      ground (arith, F.get-insert s.rules id rule k, below k r)

  -- Genesis leaves every rule with an identifier below the next one, where it was so before and the
  -- identifiers given are below the end of `u32`.
  pub build-rules-IsBelow :
      (given : List (ℕ × RewardRule)) (s : Storage F)
      → AllBelow given
      → ((id : ℕ) (r : RewardRule) → F.get s.rules id ≡ some r → id < s.next_rule_id)
      → (k : ℕ) (r : RewardRule) → F.get (Rewards.build F given s).rules k ≡ some r
      → k < (Rewards.build F given s).next_rule_id
  unfolding Rewards.build
  build-rules-IsBelow [] s all below k r e = below k r e
  build-rules-IsBelow ((id, rule) ∷ rest) s all below k r e =
      build-rules-IsBelow rest (build_rule F s id rule) all.1
        (build_rule-IsBelow s id rule all.0 below) k r e
