-- ===== src/Rewards/Tests.antt =====
-- Concrete flows of pallets/rewards/src/lib.rs, and the theorems at concrete storages.
use contradots_techconnect_c.Base.{
  ◌↔◌, ℕ, ◌≡◌, ◌≤◌, ◌<◌, ◌+◌, refl, true, false, none, some, List, [], ◌∷◌, arith, count_if,
}
use contradots_techconnect_c.Frame.{Env, ok, err, module_error}
use contradots_techconnect_c.Frame.Memory.{memory, root, signed, ensure_root}
use contradots_techconnect_c.Extrinsics.{Extrinsic}
use contradots_techconnect_c.Rewards
use contradots_techconnect_c.Rewards.{
  Config, Storage, RewardRule, Attestation, Event, attestation_used, exceeds_limit,
  not_authorized_attestor, empty_storage,
}
use contradots_techconnect_c.Rewards.Calls.{Call, dispatch, run}
use contradots_techconnect_c.Rewards.Effects.{Effect}
use contradots_techconnect_c.Rewards.Refinement.{reward_call_iff-Effect, Effect-reward_call}
use contradots_techconnect_c.Rewards.History.{failed_reward_call_changes_nothing}
use contradots_techconnect_c.Rewards.Once.{is_claim_with, attestation_claimed_once}
use contradots_techconnect_c.Rewards.Limits.{is_claim_by, claims_within_epoch}
use contradots_techconnect_c.Rewards.Invariant.{IsValid, run-rewards-IsValid}
use contradots_techconnect_c.Rewards.Attest.{
  club_rule_claimed_by_anyone, global_rule_needs_manual_origin, build-rules-IsBelow,
}

program : Unit {0}
unfolding Rewards.create_rule Rewards.create_attestation Rewards.claim_reward Rewards.award_manual
    Rewards.revoke_attestation Rewards.build dispatch run
program = tt

abbrev cfg : Config memory
cfg = record {
  rule_creation_origin = ensure_root;
  manual_award_origin = ensure_root;
  epoch_length_in_blocks = 10;
  max_attestations = 100;
}

abbrev block : ℕ → Env
block n = record { millis = n; block_number = n }

abbrev by : ℕ → Call → Extrinsic memory Call
by who c = record { env = block 1; origin = signed who; call = c }

abbrev by_root : Call → Extrinsic memory Call
by_root c = record { env = block 1; origin = root; call = c }

-- A club's rule with one claim an epoch; two attestations of 2 for 3, the first of them claimed.
abbrev flows : List (Extrinsic memory Call)
flows =
    by_root (Call.create_rule (97 ∷ []) 50 1 (some 0) none)
    ∷ by_root (Call.create_rule (98 ∷ []) 70 1 none none)
    ∷ by 2 (Call.create_attestation 3 0 none none)
    ∷ by 2 (Call.create_attestation 3 0 none none)
    ∷ by 3 (Call.claim_reward 0)
    ∷ []

abbrev after_flows : Storage memory
after_flows = run memory cfg (empty_storage memory) flows

abbrev club_rule : RewardRule
club_rule = record {
  event_type = 97 ∷ [];
  amount = 50;
  max_per_epoch = 1;
  club = some 0;
  metadata = none;
}

abbrev global_rule : RewardRule
global_rule = record club_rule { event_type = 98 ∷ []; amount = 70; club = none }

abbrev attested : Attestation
attested = record {
  subject = 3;
  rule_id = 0;
  attestor = 2;
  created_at = 1;
  expires_at = none;
  used = false;
  metadata = none;
}

flows_test :
    ((dispatch memory cfg (block 1) (signed 3) (Call.claim_reward 0) after_flows).0
      ≡ err (module_error attestation_used))
    × ((dispatch memory cfg (block 1) (signed 3) (Call.claim_reward 1) after_flows).0
        ≡ err (module_error exceeds_limit))
    × ((dispatch memory cfg (block 10) (signed 3) (Call.claim_reward 1) after_flows).0 ≡ ok tt)
unfolding program
flows_test = (refl, refl, refl)

unchanged_test :
    (dispatch memory cfg (block 1) (signed 3) (Call.claim_reward 1) after_flows).1 ≡ after_flows
unfolding program
unchanged_test =
    failed_reward_call_changes_nothing memory cfg (block 1) (signed 3) (Call.claim_reward 1)
      after_flows (module_error exceeds_limit) refl

abbrev claimed : Storage memory
claimed = record after_flows {
  attestations = memory.insert after_flows.attestations 1 (record attested { used = true });
  claims_this_epoch =
      memory.double_insert after_flows.claims_this_epoch 3 0 (record { epoch = 1; count = 1 });
  events = Event.reward_claimed 3 0 1 50 ∷ after_flows.events;
}

accepted_test :
    dispatch memory cfg (block 10) (signed 3) (Call.claim_reward 1) after_flows ≡ (ok tt, claimed)
unfolding program
accepted_test =
    Effect-reward_call memory cfg (block 10) (signed 3) (Call.claim_reward 1) after_flows claimed (
      attested,
      club_rule,
      record {
        found = refl;
        origin_signed = refl;
        unused = refl;
        current = refl;
        rule_found = refl;
        within = omega arith;
        after = refl;
      },
    )

attestation_claimed_once_example :
    count_if (is_claim_with 0) (run memory cfg (empty_storage memory) flows).events ≤ 1
attestation_claimed_once_example = attestation_claimed_once memory cfg (omega arith) flows 0

-- The second attestation is presented in the epoch of the first.
abbrev again : List (Extrinsic memory Call)
again = by 3 (Call.claim_reward 1) ∷ []

claims_within_epoch_example :
    count_if (is_claim_by 3 0) (run memory cfg after_flows again).events
    ≤ count_if (is_claim_by 3 0) after_flows.events + 1
unfolding program
claims_within_epoch_example =
    claims_within_epoch memory cfg 3 0 0 club_rule after_flows (omega arith) refl (omega arith)
      (omega arith) again refl

run-rewards-IsValid_example : IsValid memory cfg after_flows
run-rewards-IsValid_example = run-rewards-IsValid memory cfg (omega arith) flows

club_rule_claimed_by_anyone_example :
    let first =
      dispatch memory cfg
        (block 1)
        (signed 9)
        (Call.create_attestation 9 0 none none)
        after_flows in
    let second = dispatch memory cfg (block 1) (signed 9) (Call.claim_reward 2) first.1 in
    (first.0 ≡ ok tt)
    × (second.0 ≡ ok tt)
    × (second.1.events
        ≡ Event.reward_claimed 9 0 2 50 ∷ Event.attestation_created 2 9 0 9 ∷ after_flows.events)
unfolding program
club_rule_claimed_by_anyone_example =
    club_rule_claimed_by_anyone memory cfg (block 1) 9 0 0 club_rule after_flows refl refl
      (omega arith) (omega arith)

abbrev with_global : Storage memory
with_global = record after_flows {
  attestations = memory.insert after_flows.attestations 2 (record attested { rule_id = 1 });
}

global_rule_needs_manual_origin_test :
    (dispatch memory cfg (block 1) (signed 2) (Call.create_attestation 3 1 none none) with_global
      ≡ (err (module_error not_authorized_attestor), with_global))
    × (dispatch memory cfg (block 1) (signed 2) (Call.revoke_attestation 2) with_global
        ≡ (err (module_error not_authorized_attestor), with_global))
unfolding program
global_rule_needs_manual_origin_test =
    global_rule_needs_manual_origin memory cfg (block 1) 2 1 global_rule with_global 3 none none 2
      (record attested { rule_id = 1 }) refl refl refl refl refl

build-rules-IsBelow_test :
    3 < (Rewards.build memory ((3, club_rule) ∷ []) (empty_storage memory)).next_rule_id
unfolding program
build-rules-IsBelow_test =
    build-rules-IsBelow memory ((3, club_rule) ∷ []) (empty_storage memory) (omega arith, tt)
      (λ id r e. ground (arith, e)) 3 club_rule refl

reward_call_iff-Effect_example :
    (dispatch memory cfg (block 10) (signed 3) (Call.claim_reward 1) after_flows ≡ (ok tt, claimed))
    ↔ Effect memory cfg (block 10) (signed 3) (Call.claim_reward 1) after_flows claimed
reward_call_iff-Effect_example =
    reward_call_iff-Effect memory cfg (block 10) (signed 3) (Call.claim_reward 1) after_flows
      claimed
