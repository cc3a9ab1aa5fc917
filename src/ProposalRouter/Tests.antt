-- ===== src/ProposalRouter/Tests.antt =====
-- Concrete flows of pallets/proposal-router/src/lib.rs, and the theorems at concrete storages.
use contradots_techconnect_c.Base.{
  ℕ, zero, suc, ◌≡◌, ◌≢◌, ◌↔◌, ◌*◌, ◌+◌, ◌≤◌, refl, true, false, Option, none, some, List, [], ◌∷◌,
  arith, u32_max,
}
use contradots_techconnect_c.Frame.{Env, ok, err, module_error}
use contradots_techconnect_c.Frame.Memory.{memory, RawOrigin, root, signed, ensure_root}
use contradots_techconnect_c.Extrinsics.{Extrinsic}
use contradots_techconnect_c.ProposalRouter
use contradots_techconnect_c.ProposalRouter.{
  Config, Storage, World, Outcome, done, failed, Proposal, Event, club, global, Bytes,
  empty_storage, pallet_account, pallet_id_from_bytes, entropy, already_voted, voting_closed,
  proposal_already_executed, proposal_not_found, proposal_not_passed, execution_failed,
  club_index_overflow,
}
use contradots_techconnect_c.ProposalRouter.Calls.{Call, dispatch, apply, run}
use contradots_techconnect_c.ProposalRouter.Effects.{Effect, proposed}
use contradots_techconnect_c.ProposalRouter.Refinement.{router_call_iff-Effect}
use contradots_techconnect_c.ProposalRouter.Tally.{IsValid, run-router-IsValid}
use contradots_techconnect_c.ProposalRouter.Execution.{
  failed_execution_rolled_back, executed_iff_share, unanimous_vote_rejected,
  vote_excludes_execution,
}
use contradots_techconnect_c.ProposalRouter.Once.{IsTaken, executed_once}
use contradots_techconnect_c.ProposalRouter.Voters.{voted_once}
use contradots_techconnect_c.ProposalRouter.Voting.{cancelled_is_gone, propose_index_overflow}

program : Unit {0}
unfolding ProposalRouter.propose ProposalRouter.vote ProposalRouter.execute ProposalRouter.cancel
    dispatch apply run
program = tt

-- A runtime beside the pallet: a number, which a call adds to; the call with 0 fails.
abbrev add_call : Env → ℕ → RawOrigin → Storage memory ℕ → Outcome × Storage memory ℕ
add_call env zero o s = (failed (1 ∷ []), s)
add_call env (suc n) o s = (done, record s { rest = s.rest + suc n })

abbrev decode_call : Bytes → Option ℕ
decode_call [] = none
decode_call (n ∷ b) = some n

abbrev cfg : Config memory
cfg = record {
  max_metadata_len = 8;
  max_voters_per_proposal = 4;
  default_voting_period = 10;
  default_quorum = 1;
  default_pass_threshold = 5000;
  router_admin_origin = ensure_root;
  max_block_number = u32_max;
  into_account_truncating = λ id. 77;
  Rest = ℕ;
  RuntimeCall = ℕ;
  decode = decode_call;
  dispatch_call = add_call;
}

abbrev block : ℕ → Env
block n = record { millis = n; block_number = n }

abbrev by : ℕ → ℕ → Call → Extrinsic memory Call
by n who c = record { env = block n; origin = signed who; call = c }

-- Two proposals, the second one with a call that fails; one vote for each.
abbrev flows : List (Extrinsic memory Call)
flows =
    by 1 5 (Call.propose (club 0) (3 ∷ []) none none none none)
    ∷ by 1 5 (Call.propose global (0 ∷ []) (some []) none none none)
    ∷ by 2 6 (Call.vote 0 true)
    ∷ by 2 6 (Call.vote 1 true)
    ∷ []

abbrev after_flows : World memory cfg
after_flows = run memory cfg (empty_storage memory cfg 0) flows

abbrev first : Proposal
first = record {
  id = 0;
  proposer = 5;
  scope = club 0;
  call = 3 ∷ [];
  metadata = none;
  start = 1;
  end = 11;
  yea = 1;
  nay = 0;
  executed = false;
  voters = 6 ∷ [];
  quorum = 1;
  pass_threshold = 5000;
  proposal_club = some 0;
}

abbrev second : Proposal
second = record first {
  id = 1;
  scope = global;
  call = 0 ∷ [];
  metadata = some [];
  proposal_club = none;
}

abbrev after_execution : World memory cfg
after_execution = record after_flows {
  proposals = memory.insert after_flows.proposals 0 (record first { executed = true });
  events = Event.proposal_executed 0 ∷ after_flows.events;
  rest = 3;
}

flows_test :
    (dispatch memory cfg (block 12) (signed 9) (Call.execute 0) after_flows
      ≡ (ok tt, after_execution))
    × ((dispatch memory cfg (block 11) (signed 9) (Call.execute 0) after_flows).0
        ≡ err (module_error voting_closed))
    × (pallet_id_from_bytes entropy ≡ 112 ∷ 114 ∷ 111 ∷ 112 ∷ 111 ∷ 115 ∷ 97 ∷ 108 ∷ [])
    × (pallet_account memory cfg ≡ 77)
unfolding program
flows_test = (refl, refl, refl, refl)

router_call_iff-Effect_example :
    (dispatch memory cfg (block 12) (signed 9) (Call.execute 0) after_flows
      ≡ (ok tt, after_execution))
    ↔ Effect memory cfg (block 12) (signed 9) (Call.execute 0) after_flows after_execution
router_call_iff-Effect_example =
    router_call_iff-Effect memory cfg (block 12) (signed 9) (Call.execute 0) after_flows
      after_execution

add_call-IsValid :
    (env : Env) (c : ℕ) (o : RawOrigin) (s : World memory cfg)
    → IsValid memory cfg s
    → IsValid memory cfg (add_call env c o s).1
add_call-IsValid env zero o s v = v
add_call-IsValid env (suc n) o s v = record {
  proposals_valid = v.proposals_valid;
  index_bounded = v.index_bounded;
}

run-router-IsValid_test : IsValid memory cfg after_flows
run-router-IsValid_test = run-router-IsValid memory cfg (omega arith) add_call-IsValid flows 0

add_call-IsTaken :
    (env : Env) (c : ℕ) (o : RawOrigin) (s : World memory cfg)
    → IsTaken memory cfg 0 s
    → IsTaken memory cfg 0 (add_call env c o s).1
add_call-IsTaken env zero o s t = t
add_call-IsTaken env (suc n) o s t = record { below = t.below; next_bound = t.next_bound }

add_call-proposals :
    (env : Env) (c : ℕ) (o : RawOrigin) (s : World memory cfg)
    → (add_call env c o s).1.proposals ≡ s.proposals
add_call-proposals env zero o s = refl
add_call-proposals env (suc n) o s = refl

-- After the execution, the executed proposal is executed again and the other one voted on.
abbrev later : List (Extrinsic memory Call)
later = by 13 8 (Call.execute 0) ∷ by 11 8 (Call.vote 1 false) ∷ []

executed_once_test :
    (dispatch memory cfg (block 14) (signed 8) (Call.execute 0) (
      run memory cfg
        (dispatch memory cfg (block 12) (signed 9) (Call.execute 0) after_flows).1
        later)).0
    ≢ ok tt
unfolding program
executed_once_test =
    executed_once memory cfg 0 add_call-IsTaken
      (λ env c o s h. (add_call-IsTaken env c o s h.0, rw (add_call-proposals env c o s) h.1))
      (block 12) (block 14) (signed 9) (signed 8) after_flows
      (record { below = omega arith; next_bound = omega arith }) refl later

failed_execution_rolled_back_test :
    let r = dispatch memory cfg (block 12) (signed 9) (Call.execute 1) after_flows in
    (r.0 ≡ err (module_error execution_failed))
    × (r.1.events ≡ Event.proposal_failed 1 (1 ∷ []) ∷ after_flows.events)
    × (apply memory cfg after_flows
          (record { env = block 12; origin = signed 9; call = Call.execute 1 })
        ≡ after_flows)
unfolding program
failed_execution_rolled_back_test =
    failed_execution_rolled_back memory cfg (block 12) (signed 9) 1 9 after_flows second 0 (1 ∷ [])
      refl refl refl (omega arith) (omega arith) (omega arith) refl refl

executed_iff_share_example :
    ((dispatch memory cfg (block 12) (signed 9) (Call.execute 0) after_flows).0 ≡ ok tt)
    ↔ (5000 * (1 + 0) ≤ 1 * 10000)
unfolding program
executed_iff_share_example =
    executed_iff_share memory cfg (block 12) (signed 9) 0 9 after_flows first 3 refl refl refl
      (omega arith) (omega arith) refl refl (omega arith) (omega arith) (omega arith)

-- Half a million votes for a proposal that asks for all the votes.
abbrev unanimous : Proposal
unanimous = record first { yea = 500000; pass_threshold = 10000 }

abbrev large : World memory cfg
large = record after_flows { proposals = memory.insert after_flows.proposals 0 unanimous }

unanimous_vote_rejected_example :
    dispatch memory cfg (block 12) (signed 9) (Call.execute 0) large
    ≡ (err (module_error proposal_not_passed), large)
unanimous_vote_rejected_example =
    unanimous_vote_rejected memory cfg (block 12) (signed 9) 0 9 large unanimous refl refl refl
      (omega arith) (omega arith) refl (omega arith) (omega arith) refl

vote_excludes_execution_test :
    (dispatch memory cfg (block 3) (signed 9) (Call.execute 0) after_flows).0 ≢ ok tt
unfolding program
vote_excludes_execution_test =
    vote_excludes_execution memory cfg (block 3) (signed 7) (signed 9) 0 false after_flows refl

voted_once_test :
    (dispatch memory cfg (block 4) (signed 7) (Call.vote 0 true) (
      run memory cfg
        (dispatch memory cfg (block 3) (signed 7) (Call.vote 0 false) after_flows).1
        later)).0
    ≢ ok tt
unfolding program
voted_once_test =
    voted_once memory cfg 0 7
      (λ env c o s h. (add_call-IsTaken env c o s h.0, rw (add_call-proposals env c o s) h.1))
      (block 3) (block 4) false true after_flows
      (record { below = omega arith; next_bound = omega arith }) refl later

cancelled_is_gone_test :
    let s' = (dispatch memory cfg (block 3) root (Call.cancel 0) after_flows).1 in
    (dispatch memory cfg (block 4) (signed 7) (Call.vote 0 true) s'
      ≡ (err (module_error proposal_not_found), s'))
    × (dispatch memory cfg (block 4) (signed 7) (Call.execute 0) s'
        ≡ (err (module_error proposal_not_found), s'))
unfolding program
cancelled_is_gone_test =
    cancelled_is_gone memory cfg (block 3) (block 4) root 7 0 true after_flows refl

abbrev zeros : ℕ → List ℕ
zeros zero = []
zeros (suc n) = 0 ∷ zeros n

abbrev full : World memory cfg
full = record after_flows {
  club_proposals = memory.insert after_flows.club_proposals 4 (zeros 1024);
}

propose_index_overflow_test :
    let r =
      dispatch memory cfg
        (block 3)
        (signed 5)
        (Call.propose (club 4) [] none none none none)
        full in
    (r.0 ≡ err (module_error club_index_overflow))
    × (memory.get r.1.proposals full.next_proposal_id
        ≡ some
            (proposed memory cfg (block 3) (club 4) [] none none none none full.next_proposal_id 5))
    × (apply memory cfg full (record {
      env = block 3;
      origin = signed 5;
      call = Call.propose (club 4) [] none none none none;
    })
        ≡ full)
propose_index_overflow_test =
    propose_index_overflow memory cfg (block 3) (signed 5) 4 5 [] none none none full refl
      (omega arith)
