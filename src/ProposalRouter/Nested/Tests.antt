-- ===== src/ProposalRouter/Nested/Tests.antt =====
-- A runtime with the proposal router, a pallet that adds to a number, one that dispatches a call as
-- root, and one that attempts a call and goes on where it fails; and the theorems about nested calls
-- at concrete storages.
use contradots_techconnect_c.Base.{
  ℕ, zero, suc, ◌+◌, ◌≤◌, ◌<◌, ◌≡◌, ◌≢◌, refl, ap, true, false, Option, none, some, List, [], ◌∷◌,
  arith, u32_max, ◌++◌,
}
use contradots_techconnect_c.Frame.{Env, Result, ok, err, with_storage_layer, ⊤}
use contradots_techconnect_c.Frame.Memory.{memory, RawOrigin, root, signed, ensure_root}
use contradots_techconnect_c.Extrinsics.{Extrinsic, layer_cases, layer-ok}
use contradots_techconnect_c.ProposalRouter
use contradots_techconnect_c.ProposalRouter.{
  Config, World, Outcome, done, failed, Proposal, Event, Error, club, Bytes, empty_storage,
}
use contradots_techconnect_c.ProposalRouter.Calls.{Call, dispatch}
use contradots_techconnect_c.ProposalRouter.Tally.{IsValid}
use contradots_techconnect_c.ProposalRouter.Once.{executions}
use contradots_techconnect_c.ProposalRouter.Nested.{
  Dispatcher, dispatch_with, Reaches, Runtime, accept, run_at,
}
use contradots_techconnect_c.ProposalRouter.Nested.Reaches.{here, other}
use contradots_techconnect_c.ProposalRouter.Nested.Direct.{direct_proposal_executes_once}
use contradots_techconnect_c.ProposalRouter.Nested.Cycles.{cyclic_execution_fails}
use contradots_techconnect_c.ProposalRouter.Nested.Valid.{run_at-IsValid}
use contradots_techconnect_c.ProposalRouter.Nested.Once.{done_execution_is_last, runtime_votes_once}
use contradots_techconnect_c.ProposalRouter.Nested.Records.{IsRecorded, run_at-IsRecorded}

data RuntimeCall : Type 0 where
  router : Call → RuntimeCall
  add : ℕ → RuntimeCall
  as_root attempt : RuntimeCall → RuntimeCall

-- The first byte chooses the call, and the second one is its argument.
abbrev decode_call : Bytes → Option RuntimeCall
decode_call (zero ∷ k ∷ []) = some (router (Call.execute k))
decode_call (suc zero ∷ n ∷ []) = some (add n)
decode_call (suc (suc zero) ∷ k ∷ []) = some (as_root (router (Call.cancel k)))
decode_call (suc (suc (suc tag)) ∷ k ∷ []) = some (attempt (router (Call.execute k)))
decode_call b = none

abbrev cfg : Config memory
cfg = record {
  max_metadata_len = 8;
  max_voters_per_proposal = 4;
  default_voting_period = 10;
  default_quorum = 1;
  default_pass_threshold = 5000;
  router_admin_origin = ensure_root;
  max_block_number = u32_max;
  into_account_truncating = λ id. 77;
  Rest = ℕ;
  RuntimeCall = RuntimeCall;
  decode = decode_call;
  dispatch_call = λ env c o s. (failed [], s);
}

-- What the caller learns of a call's result.
abbrev outcome : Result Error ⊤ → Outcome
outcome (ok a) = done
outcome (err e) = failed (9 ∷ [])

-- Without a layer left, the dispatch is an error.
abbrev dispatch_at : ℕ → Dispatcher memory cfg
dispatch_at zero env c o s = (failed (0 ∷ []), s)
dispatch_at (suc n) env (router call) o s =
    let x = with_storage_layer (dispatch_with memory cfg (dispatch_at n) env o call) s in
    (outcome x.0, x.1)
dispatch_at (suc n) env (add k) o s = (done, record s { rest = s.rest + k })
dispatch_at (suc n) env (as_root c) o s = dispatch_at n env c root s
dispatch_at (suc n) env (attempt c) o s = (done, accept memory cfg s (dispatch_at n env c o s))

Reaches-le :
    {n m : ℕ} {s t : World memory cfg}
    → n ≤ m
    → Reaches memory cfg dispatch_at n s t
    → Reaches memory cfg dispatch_at m s t
Reaches-le le here = here
Reaches-le le (other r rest) = other (Reaches-le le r) rest
Reaches-le le (Reaches.router r k less env o call e) =
    Reaches.router (Reaches-le le r) k (omega (arith, less, le)) env o call e

accept-Reaches :
    (n : ℕ) (s : World memory cfg) (x : Outcome × World memory cfg)
    → Reaches memory cfg dispatch_at n s x.1
    → Reaches memory cfg dispatch_at n s (accept memory cfg s x)
accept-Reaches n s (done, s') r = r
accept-Reaches n s (failed e, s') r = here

dispatch_at-Reaches :
    (n : ℕ) (env : Env) (c : RuntimeCall) (o : RawOrigin) (s : World memory cfg)
    → Reaches memory cfg dispatch_at n s (dispatch_at n env c o s).1
dispatch_at-Reaches zero env c o s = here
dispatch_at-Reaches (suc n) env (router call) o s =
    let x = dispatch_with memory cfg (dispatch_at n) env o call s in
    layer_cases (Reaches memory cfg dispatch_at (suc n) s) s x.1 x.0 here
      (λ h. Reaches.router here n (omega arith) env o call (ap (λ r. (r, x.1)) h))
dispatch_at-Reaches (suc n) env (add k) o s = other here _
dispatch_at-Reaches (suc n) env (as_root c) o s =
    Reaches-le (omega arith) (dispatch_at-Reaches n env c root s)
dispatch_at-Reaches (suc n) env (attempt c) o s =
    Reaches-le (omega arith) (accept-Reaches n s _ (dispatch_at-Reaches n env c o s))

outcome-done : (r : Result Error ⊤) → outcome r ≡ done → r ≡ ok tt
outcome-done (ok tt) h = refl
outcome-done (err e) h = ground (arith, h)

dispatch_at-from_call :
    (n : ℕ) (env : Env) (call : Call) (o : RawOrigin) (s : World memory cfg)
    → (dispatch_at n env (router call) o s).0 ≡ done
    → (m : ℕ) × (m < n)
      × (dispatch_with memory cfg (dispatch_at m) env o call s
          ≡ (ok tt, (dispatch_at n env (router call) o s).1))
dispatch_at-from_call zero env call o s h = ground (arith, h)
dispatch_at-from_call (suc n) env call o s h =
    let (accepted, left) =
      layer-ok (dispatch_with memory cfg (dispatch_at n) env o call) s (outcome-done _ h) in
    (n, omega arith, ground (arith, accepted, left))

abbrev runtime : Runtime memory cfg
runtime = record {
  from_call = router;
  dispatch_at = dispatch_at;
  dispatch_at-Reaches = dispatch_at-Reaches;
  dispatch_at-from_call = dispatch_at-from_call;
}

program : Unit {0}
unfolding ProposalRouter.propose ProposalRouter.vote ProposalRouter.execute ProposalRouter.cancel
    dispatch run_at
program = tt

abbrev block : ℕ → Env
block n = record { millis = n; block_number = n }

abbrev by : ℕ → ℕ → RuntimeCall → Extrinsic memory RuntimeCall
by n who c = record { env = block n; origin = signed who; call = c }

abbrev propose : Bytes → RuntimeCall
propose call = router (Call.propose (club 0) call none none none none)

-- Proposals that execute themselves, add 3, execute the second one, cancel themselves, and attempt
-- to execute themselves.
abbrev flows : List (Extrinsic memory RuntimeCall)
flows =
    by 1 5 (propose (0 ∷ 0 ∷ []))
    ∷ by 1 5 (propose (1 ∷ 3 ∷ []))
    ∷ by 1 5 (propose (0 ∷ 1 ∷ []))
    ∷ by 1 5 (propose (2 ∷ 3 ∷ []))
    ∷ by 1 5 (propose (3 ∷ 4 ∷ []))
    ∷ by 2 6 (router (Call.vote 0 true))
    ∷ by 2 6 (router (Call.vote 1 true))
    ∷ by 2 6 (router (Call.vote 2 true))
    ∷ by 2 6 (router (Call.vote 3 true))
    ∷ by 2 6 (router (Call.vote 4 true))
    ∷ []

abbrev after_flows : World memory cfg
after_flows = run_at runtime 6 (empty_storage memory cfg 0) flows

abbrev execute_at : ℕ → ℕ → Outcome × World memory cfg
execute_at n id = dispatch_at n (block 12) (router (Call.execute id)) (signed 9) after_flows

-- The third proposal executes the second one where three layers are left, but not two; the fourth
-- one cancels itself in vain. The first one runs into the limit, however many layers there are; the
-- last one survives it, and is executed once for every second layer.
flows_test :
    ((execute_at 3 2).0 ≡ done)
    × (((execute_at 3 2).1.rest ≡ 3)
        × (((execute_at 2 2).0 ≡ failed (9 ∷ []))
            × (((execute_at 4 3).0 ≡ done)
                × (((execute_at 6 0).0 ≡ failed (9 ∷ []))
                    × (((execute_at 6 4).0 ≡ done)
                        × (executions 4 (execute_at 6 4).1.events ≡ 3))))))
unfolding program
flows_test = (refl, (refl, (refl, (refl, (refl, (refl, refl))))))

-- The first proposal, of those that are stored, by itself.
abbrev IsFirst : ℕ → Type 0
IsFirst id = id ≡ 0

IsFirst-is_closed :
    (id : ℕ) (p : Proposal)
    → IsFirst id
    → memory.get after_flows.proposals id ≡ some p
    → (k : ℕ) × IsFirst k × (decode_call p.call ≡ some (router (Call.execute k)))
unfolding program
IsFirst-is_closed zero p first found = (0, refl, ground (arith, found))
IsFirst-is_closed (suc id) p first found = absurd (omega (arith, first))

cyclic_execution_fails_example :
    ((execute_at 255 0).0 ≢ done) × (accept memory cfg after_flows (execute_at 255 0) ≡ after_flows)
cyclic_execution_fails_example =
    cyclic_execution_fails runtime IsFirst after_flows IsFirst-is_closed 255 0 (block 12) (signed 9)
      refl

run_at-IsValid_example : IsValid memory cfg after_flows
run_at-IsValid_example = run_at-IsValid runtime (omega arith) 6 flows 0

-- The third proposal, which executes the second one, is executed, and the first one cancelled.
abbrev later : List (Extrinsic memory RuntimeCall)
later = by 13 8 (router (Call.execute 2)) ∷ by 13 8 (as_root (router (Call.cancel 0))) ∷ []

-- The flows, and executions of which the first one fails.
abbrev with_executions : List (Extrinsic memory RuntimeCall)
with_executions = flows ++ by 12 9 (router (Call.execute 0)) ∷ later

run_at-IsRecorded_example :
    IsRecorded memory cfg (run_at runtime 6 (empty_storage memory cfg 0) with_executions)
run_at-IsRecorded_example = run_at-IsRecorded runtime 6 with_executions 0

with_executions_test :
    executions 1 (run_at runtime 6 (empty_storage memory cfg 0) with_executions).events ≡ 1
unfolding program
with_executions_test = refl

done_execution_is_last_example :
    let after = (execute_at 4 1).1 in
    (executions 1 (run_at runtime 4 after later).events ≡ 1)
    × ((dispatch_at 4
          (block 14)
          (router (Call.execute 1))
          (signed 8)
          (run_at runtime 4 after later)).0
        ≢ done)
unfolding program
done_execution_is_last_example =
    done_execution_is_last runtime 4 1 (block 12) (block 14) (signed 9) (signed 8) after_flows
      (record { below = omega arith; next_bound = omega arith }) refl later

-- The second proposal, whose call only adds.
abbrev second : Proposal
second = record {
  id = 1;
  proposer = 5;
  scope = club 0;
  call = 1 ∷ 3 ∷ [];
  metadata = none;
  start = 1;
  end = 11;
  yea = 1;
  nay = 0;
  executed = false;
  voters = 6 ∷ [];
  quorum = 1;
  pass_threshold = 5000;
  proposal_club = some 0;
}

add-executions :
    (m : ℕ) (env : Env) (t : World memory cfg)
    → executions 1 (dispatch_at m env (add 3) (signed 77) t).1.events ≡ executions 1 t.events
add-executions zero env t = refl
add-executions (suc m) env t = refl

-- An account asks for its execution, and then the third proposal does.
abbrev executed_twice : List (Extrinsic memory RuntimeCall)
executed_twice = by 12 8 (router (Call.execute 1)) ∷ later

executed_twice_test : executions 1 (run_at runtime 6 after_flows executed_twice).events ≡ 1
unfolding program
executed_twice_test = refl

direct_proposal_executes_once_example :
    executions 1 (run_at runtime 6 after_flows executed_twice).events ≤ 1
unfolding program
direct_proposal_executes_once_example =
    direct_proposal_executes_once runtime 6 1 after_flows second (add 3)
      (record { below = omega arith; next_bound = omega arith }) refl refl refl refl add-executions
      executed_twice

runtime_votes_once_example :
    (dispatch_at 4 (block 4) (router (Call.vote 1 false)) (signed 7) (
      run_at runtime 4
        (dispatch_at 4 (block 3) (router (Call.vote 1 true)) (signed 7) after_flows).1
        later)).0
    ≢ done
unfolding program
runtime_votes_once_example =
    runtime_votes_once runtime 4 1 7 (block 3) (block 4) true false after_flows
      (record { below = omega arith; next_bound = omega arith }) refl later
