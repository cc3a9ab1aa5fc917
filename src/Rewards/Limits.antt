-- ===== src/Rewards/Limits.antt =====
-- pallets/rewards/src/lib.rs: the claims of an account with a rule in an epoch.
use contradots_techconnect_c.Base.{
  ℕ, ◌+◌, ◌≤◌, ◌<◌, ◌≡◌, Bool, true, false, some, List, ◌==◌, ◌&&◌, count_if, all, min,
  if◌then◌else◌, arith, u32_max,
}
use contradots_techconnect_c.Frame.{Frame, Env}
use contradots_techconnect_c.Extrinsics.{Extrinsic}
use contradots_techconnect_c.Rewards.{
  Config, Storage, RewardRule, ClaimCounter, Event, current_epoch,
}
use contradots_techconnect_c.Rewards.Calls.{Call, run}
use contradots_techconnect_c.Rewards.Effects.{Effect, counted}
use contradots_techconnect_c.Rewards.History.{run_inv_epoch, is_in_epoch}

-- The event of a claim by the account with the rule.
abbrev pub is_claim_by : ℕ → ℕ → Event → Bool
is_claim_by who rule_id (Event.reward_claimed w r a amount) = w == who && r == rule_id
is_claim_by who rule_id e = false

counted-double_insert :
    (F : Frame) (m : F.StorageDoubleMap ClaimCounter) (k l e c i j epoch : ℕ)
    → e ≡ epoch
    → counted epoch (F.double_get (F.double_insert m k l (record { epoch = e; count = c })) i j)
      ≡ (if k == i && l == j then c else counted epoch (F.double_get m i j))
counted-double_insert F m k l e c i j epoch same =
    rw F.double_get-double_insert (ground (arith, same))

module _ (F : Frame) (cfg : Config F) (who rule_id : ℕ) (rule : RewardRule) (epoch before : ℕ) where
  -- The rule is stored below the next identifier, and the counter stands for the claims made since
  -- there were `before` of them.
  record IsLimited (s : Storage F) : Type 0 where
    kept : F.get s.rules rule_id ≡ some rule
    old : rule_id < s.next_rule_id
    next_bound : s.next_rule_id ≤ u32_max
    within :
        count_if (is_claim_by who rule_id) s.events
        ≤ before
          + min (counted epoch (F.double_get s.claims_this_epoch who rule_id)) rule.max_per_epoch

  IsLimited-Effect :
      rule.max_per_epoch < u32_max
      → (env : Env) (o : F.RuntimeOrigin) (c : Call) (s s' : Storage F)
      → current_epoch F cfg env ≡ epoch
      → IsLimited s
      → Effect F cfg env o c s s'
      → IsLimited s'
  IsLimited-Effect small env o (Call.create_rule ev am li cl md) s s' e i h = rw h.after (
      ground (
        arith,
        i.kept,
        i.old,
        i.next_bound,
        i.within,
        F.get-insert s.rules s.next_rule_id
            (record { event_type = ev; amount = am; max_per_epoch = li; club = cl; metadata = md })
            rule_id,
      ))
  IsLimited-Effect small env o (Call.create_attestation su ru ex md) s s' e i (w, r, h) =
      rw h.after (ground (arith, i.kept, i.old, i.next_bound, i.within))
  IsLimited-Effect small env o (Call.claim_reward a) s s' e i (att, r, h) =
      let c =
        counted (current_epoch F cfg env)
          (F.double_get s.claims_this_epoch att.subject att.rule_id) in
      rw h.after (
        ground (
          arith,
          i.kept,
          i.old,
          i.next_bound,
          i.within,
          h.rule_found,
          h.within,
          e,
          counted-double_insert F s.claims_this_epoch att.subject att.rule_id
              (current_epoch F cfg env) (min (c + 1) u32_max) who rule_id epoch e,
        ))
  IsLimited-Effect small env o (Call.award_manual to am re) s s' e i h =
      rw h.after (ground (arith, i.kept, i.old, i.next_bound, i.within))
  IsLimited-Effect small env o (Call.revoke_attestation a) s s' e i (w, att, r, h) =
      rw h.after (ground (arith, i.kept, i.old, i.next_bound, i.within))

module _ (F : Frame) (cfg : Config F) where
  -- Within one epoch, whose number is that of every extrinsic's block, an account claims with a
  -- rule at most `max_per_epoch` times in any history, where the rule is stored below the next
  -- identifier, which is a `u32`, and its limit is not the last `u32`.
  pub claims_within_epoch :
      (who rule_id epoch : ℕ) (rule : RewardRule) (s : Storage F)
      → rule.max_per_epoch < u32_max
      → F.get s.rules rule_id ≡ some rule
      → rule_id < s.next_rule_id
      → s.next_rule_id ≤ u32_max
      → (xs : List (Extrinsic F Call)) → all (is_in_epoch F cfg epoch) xs ≡ true
      → count_if (is_claim_by who rule_id) (run F cfg s xs).events
        ≤ count_if (is_claim_by who rule_id) s.events + rule.max_per_epoch
  claims_within_epoch who rule_id epoch rule s small found old bound xs same =
      let before = count_if (is_claim_by who rule_id) s.events in
      let i =
        run_inv_epoch F cfg (IsLimited F cfg who rule_id rule epoch before) epoch
          (λ x s s' e p h.
            IsLimited-Effect F cfg who rule_id rule epoch before small x.env x.origin x.call s s'
              (ground (arith, e)) p h)
          xs same s
          (record { kept = found; old = old; next_bound = bound; within = ground arith }) in
      ground (arith, i.within)
