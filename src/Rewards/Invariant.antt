-- ===== src/Rewards/Invariant.antt =====
-- pallets/rewards/src/lib.rs: what every reachable storage satisfies.
use contradots_techconnect_c.Base.{
  ℕ, ◌≡◌, ◌≤◌, ◌<◌, true, some, List, length, is_some, arith, u32_max,
}
use contradots_techconnect_c.Frame.{Frame, Env}
use contradots_techconnect_c.Extrinsics.{Extrinsic}
use contradots_techconnect_c.Rewards.{Config, Storage, RewardRule, Attestation, empty_storage}
use contradots_techconnect_c.Rewards.Calls.{Call, run}
use contradots_techconnect_c.Rewards.Effects.{Effect}
use contradots_techconnect_c.Rewards.History.{run_inv}

module _ (F : Frame) (cfg : Config F) where
  -- The identifiers in use are below the next ones and the configured bound, the event types fit
  -- in 32 bytes, and the rule of an attestation exists.
  pub record IsValid (s : Storage F) : Type 0 where
    pub attestations_bound : s.next_attestation_id ≤ cfg.max_attestations
    pub attestation_below :
        (id : ℕ) (att : Attestation)
        → F.get s.attestations id ≡ some att
        → id < s.next_attestation_id
    pub rule_found :
        (id : ℕ) (att : Attestation)
        → F.get s.attestations id ≡ some att
        → is_some (F.get s.rules att.rule_id) ≡ true
    pub next_rule_bound : s.next_rule_id ≤ u32_max
    pub rule_below : (id : ℕ) → is_some (F.get s.rules id) ≡ true → id ≤ s.next_rule_id
    pub event_type_bound :
        (id : ℕ) (rule : RewardRule) → F.get s.rules id ≡ some rule → length rule.event_type ≤ 32

  IsValid-empty_storage : IsValid (empty_storage F)
  IsValid-empty_storage = record {
    attestations_bound = ground arith;
    attestation_below = λ id att e. ground (arith, F.get-empty {V = Attestation} id);
    rule_found = λ id att e. ground (arith, F.get-empty {V = Attestation} id);
    next_rule_bound = ground arith;
    rule_below = λ id e. ground (arith, F.get-empty {V = RewardRule} id);
    event_type_bound = λ id rule e. ground (arith, F.get-empty {V = RewardRule} id);
  }

  IsValid-Effect :
      cfg.max_attestations ≤ u32_max
      → (env : Env) (o : F.RuntimeOrigin) (c : Call) (s s' : Storage F) → IsValid s
      → Effect F cfg env o c s s'
      → IsValid s'
  IsValid-Effect small env o (Call.create_rule ev am li cl md) s s' i h = rw h.after (record {
    attestations_bound = i.attestations_bound;
    attestation_below = i.attestation_below;
    rule_found = λ id att e. rw F.get-insert (ground (arith, i.rule_found id att e));
    next_rule_bound = ground arith;
    rule_below = λ id. rw F.get-insert (λ e. ground (arith, i.rule_below id, i.next_rule_bound));
    event_type_bound =
        λ id rule. rw F.get-insert (λ e. ground (arith, h.short, i.event_type_bound id rule));
  })
  IsValid-Effect small env o (Call.create_attestation su ru ex md) s s' i (w, r, h) =
      rw h.after (record {
        attestations_bound = ground (arith, h.room);
        attestation_below =
            λ id att. rw F.get-insert (λ e. ground (arith, i.attestation_below id att, h.room));
        rule_found = λ id att. rw F.get-insert (λ e. ground (arith, i.rule_found id att, h.found));
        next_rule_bound = i.next_rule_bound;
        rule_below = i.rule_below;
        event_type_bound = i.event_type_bound;
      })
  IsValid-Effect small env o (Call.claim_reward a) s s' i (old, r, h) = rw h.after (record {
    attestations_bound = i.attestations_bound;
    attestation_below = λ id att.
        rw F.get-insert
          (λ e. ground (arith, i.attestation_below id att, i.attestation_below a old h.found));
    rule_found = λ id att.
        rw F.get-insert (λ e. ground (arith, i.rule_found id att, i.rule_found a old h.found));
    next_rule_bound = i.next_rule_bound;
    rule_below = i.rule_below;
    event_type_bound = i.event_type_bound;
  })
  IsValid-Effect small env o (Call.award_manual to am re) s s' i h = rw h.after (record {
    attestations_bound = i.attestations_bound;
    attestation_below = i.attestation_below;
    rule_found = i.rule_found;
    next_rule_bound = i.next_rule_bound;
    rule_below = i.rule_below;
    event_type_bound = i.event_type_bound;
  })
  IsValid-Effect small env o (Call.revoke_attestation a) s s' i (w, old, r, h) =
      rw h.after (record {
        attestations_bound = i.attestations_bound;
        attestation_below =
            λ id att. rw F.get-remove (λ e. ground (arith, i.attestation_below id att));
        rule_found = λ id att. rw F.get-remove (λ e. ground (arith, i.rule_found id att));
        next_rule_bound = i.next_rule_bound;
        rule_below = i.rule_below;
        event_type_bound = i.event_type_bound;
      })

  -- Where `MaxAttestations` is a `u32`, every history that begins with the empty storage leaves a
  -- valid storage: at most `MaxAttestations` attestations, each with an identifier below the next and an existing rule,
  -- and rules whose event types fit in 32 bytes.
  pub run-rewards-IsValid :
      cfg.max_attestations ≤ u32_max
      → (xs : List (Extrinsic F Call)) → IsValid (run F cfg (empty_storage F) xs)
  run-rewards-IsValid small xs =
      run_inv F cfg IsValid (λ x s s' p e. IsValid-Effect small x.env x.origin x.call s s' p e) xs
        (empty_storage F) IsValid-empty_storage
