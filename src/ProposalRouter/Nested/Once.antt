-- ===== src/ProposalRouter/Nested/Once.antt =====
-- pallets/proposal-router/src/lib.rs: an account votes once on a proposal, and no execution
-- follows one that is done, over histories of runtime calls.
use contradots_techconnect_c.Base.{ℕ, ◌≡◌, ◌≢◌, refl, Bool, List}
use contradots_techconnect_c.Frame.{Frame, Env}
use contradots_techconnect_c.Extrinsics.{Extrinsic}
use contradots_techconnect_c.ProposalRouter.{Config, World, done}
use contradots_techconnect_c.ProposalRouter.Calls.{Call}
use contradots_techconnect_c.ProposalRouter.Effects.{Effect}
use contradots_techconnect_c.ProposalRouter.Once.{
  IsTaken, IsSpent, executions, Effect-IsTaken, Effect-executions, execute-IsSpent, IsSpent-execute,
}
use contradots_techconnect_c.ProposalRouter.Voters.{
  HasVoted, Effect-HasVoted, vote-HasVoted, HasVoted-vote,
}
use contradots_techconnect_c.ProposalRouter.Nested.{
  Dispatcher, with_dispatcher, Keeps, IgnoresRest, Runtime, run_at,
}
use contradots_techconnect_c.ProposalRouter.Nested.Histories.{
  dispatch_at-Keeps, run_at-Keeps, done-Effect,
}

module _ {F : Frame} (cfg : Config F) (d : Dispatcher F cfg) where
  IsTaken-with_dispatcher :
      (id : ℕ) (s : World F cfg) → IsTaken F cfg id s → IsTaken F (with_dispatcher F cfg d) id s
  IsTaken-with_dispatcher id s t = record { below = t.below; next_bound = t.next_bound }

  with_dispatcher-IsTaken :
      (id : ℕ) (s : World F cfg) → IsTaken F (with_dispatcher F cfg d) id s → IsTaken F cfg id s
  with_dispatcher-IsTaken id s t = record { below = t.below; next_bound = t.next_bound }

module _ {F : Frame} {cfg : Config F} (R : Runtime F cfg) where
  dispatch_at-IsTaken : (id n : ℕ) → Keeps F cfg (IsTaken F cfg id) (R.dispatch_at n)
  dispatch_at-IsTaken id =
      dispatch_at-Keeps R (IsTaken F cfg id)
        (λ s r t. record { below = t.below; next_bound = t.next_bound })
        (λ m kept env o call s s' t e.
          let d = R.dispatch_at m in
          with_dispatcher-IsTaken cfg d id s' (
            Effect-IsTaken F (with_dispatcher F cfg d) id
              (λ env c o s t.
                IsTaken-with_dispatcher cfg d id _
                  (kept env c o s (with_dispatcher-IsTaken cfg d id s t)))
              env o call s s' (IsTaken-with_dispatcher cfg d id s t) e))

  -- A property of the proposal `id`, beside `IsTaken`, that the effects of the router keep, is kept
  -- by every history.
  pub run_at-IsTaken :
      (id : ℕ) (Q : World F cfg → Type 0)
      → IgnoresRest F cfg Q
      → ((m : ℕ)
          → Keeps F
              (with_dispatcher F cfg (R.dispatch_at m))
              (λ s. IsTaken F (with_dispatcher F cfg (R.dispatch_at m)) id s × Q s)
              (R.dispatch_at m)
          → (env : Env) (o : F.RuntimeOrigin) (call : Call) (s s' : World F cfg)
          → IsTaken F (with_dispatcher F cfg (R.dispatch_at m)) id s × Q s
          → Effect F (with_dispatcher F cfg (R.dispatch_at m)) env o call s s'
          → IsTaken F (with_dispatcher F cfg (R.dispatch_at m)) id s' × Q s')
      → (n : ℕ) (xs : List (Extrinsic F cfg.RuntimeCall)) (s : World F cfg)
      → IsTaken F cfg id s × Q s
      → Q (run_at R n s xs)
  run_at-IsTaken id Q ignores keeps n xs s i =
      (run_at-Keeps R (λ t. IsTaken F cfg id t × Q t)
        (λ s r t. (record { below = t.0.below; next_bound = t.0.next_bound }, ignores s r t.1))
        (λ m kept env o call s s' t e.
          let d = R.dispatch_at m in
          let after =
            keeps m
              (λ env c o s t.
                let k = kept env c o s (with_dispatcher-IsTaken cfg d id s t.0, t.1) in
                (IsTaken-with_dispatcher cfg d id _ k.0, k.1))
              env o call s s' (IsTaken-with_dispatcher cfg d id s t.0, t.1) e in
          (with_dispatcher-IsTaken cfg d id s' after.0, after.1))
        n xs s i).1

  -- After an execution of a proposal that is done, no later execution is: after any history of
  -- runtime calls that follows it, nested in any way, no event records an execution of the proposal
  -- that none recorded when the first one was done, and an execution of it is not done, where the
  -- proposal's identifier was handed out. What the executed call itself dispatches, before that
  -- execution is done, is not excluded.
  pub done_execution_is_last :
      (n id : ℕ) (env env' : Env) (o o' : F.RuntimeOrigin) (s : World F cfg)
      → IsTaken F cfg id s
      → (R.dispatch_at n env (R.from_call (Call.execute id)) o s).0 ≡ done
      → (xs : List (Extrinsic F cfg.RuntimeCall))
      → let after = (R.dispatch_at n env (R.from_call (Call.execute id)) o s).1 in
        (executions id (run_at R n after xs).events ≡ executions id after.events)
        × ((R.dispatch_at n env' (R.from_call (Call.execute id)) o' (run_at R n after xs)).0 ≢ done)
  done_execution_is_last n id env env' o o' s taken h xs =
      let (m, first) = done-Effect R n env (Call.execute id) o s h in
      let spent =
        execute-IsSpent F (with_dispatcher F cfg (R.dispatch_at m)) id
          (λ env c o s t. IsTaken-with_dispatcher cfg (R.dispatch_at m) id _ (
            dispatch_at-IsTaken id m env c o s
              (with_dispatcher-IsTaken cfg (R.dispatch_at m) id s t)))
          env o s _ (IsTaken-with_dispatcher cfg (R.dispatch_at m) id s taken) first in
      let after = (R.dispatch_at n env (R.from_call (Call.execute id)) o s).1 in
      let later =
        run_at-IsTaken id
          (λ t.
            IsSpent (F.get t.proposals id) × (executions id t.events ≡ executions id after.events))
          (λ s r t. t)
          (λ m kept. Effect-executions F (with_dispatcher F cfg (R.dispatch_at m)) id _ kept) n xs _
          (with_dispatcher-IsTaken cfg (R.dispatch_at m) id _ spent.0, (spent.1, refl)) in
      (
        later.1,
        λ again.
            let (m', second) = done-Effect R n env' (Call.execute id) o' _ again in
            IsSpent-execute F (with_dispatcher F cfg (R.dispatch_at m')) id env' o' _ _ later.0
              second,
      )

  -- After a vote of an account on a proposal that is done, and any history of runtime calls, nested
  -- in any way, no other vote of that account on the proposal is done,
  -- in any block and on either side, where the proposal's identifier was handed out.
  pub runtime_votes_once :
      (n id who : ℕ) (env env' : Env) (aye aye' : Bool) (s : World F cfg)
      → IsTaken F cfg id s
      → (R.dispatch_at n env (R.from_call (Call.vote id aye)) (F.signed who) s).0 ≡ done
      → (xs : List (Extrinsic F cfg.RuntimeCall))
      → (R.dispatch_at n env' (R.from_call (Call.vote id aye')) (F.signed who) (
          run_at R n
            (R.dispatch_at n env (R.from_call (Call.vote id aye)) (F.signed who) s).1
            xs)).0
        ≢ done
  runtime_votes_once n id who env env' aye aye' s taken h xs again =
      let (m, first) = done-Effect R n env (Call.vote id aye) (F.signed who) s h in
      let (m', second) = done-Effect R n env' (Call.vote id aye') (F.signed who) _ again in
      let voted =
        vote-HasVoted F (with_dispatcher F cfg (R.dispatch_at m)) id who env aye s _
          (IsTaken-with_dispatcher cfg (R.dispatch_at m) id s taken) first in
      HasVoted-vote F (with_dispatcher F cfg (R.dispatch_at m')) id who env' aye' _ _
        (run_at-IsTaken id (λ t. HasVoted who (F.get t.proposals id)) (λ s r t. t)
          (λ m kept. Effect-HasVoted F (with_dispatcher F cfg (R.dispatch_at m)) id who kept) n xs _
          (with_dispatcher-IsTaken cfg (R.dispatch_at m) id _ voted.0, voted.1))
        second
