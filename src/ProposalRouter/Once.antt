-- ===== src/ProposalRouter/Once.antt =====
-- pallets/proposal-router/src/lib.rs: a proposal that was executed stays so, and the events that
-- record executions.
use contradots_techconnect_c.Base.{
  ℕ, suc, ◌≤◌, ◌<◌, ◌≡◌, ◌≢◌, Bool, true, false, Option, none, some, List, [], ◌∷◌, ◌==◌, arith,
  u64_max, if◌then◌else◌,
}
use contradots_techconnect_c.Frame.{Frame, Env, ok}
use contradots_techconnect_c.Extrinsics.{Extrinsic}
use contradots_techconnect_c.ProposalRouter.{
  Config, World, Proposal, Event, count_vote, pallet_account,
}
use contradots_techconnect_c.ProposalRouter.Calls.{Call, dispatch, run}
use contradots_techconnect_c.ProposalRouter.Effects.{Effect}
use contradots_techconnect_c.ProposalRouter.History.{run_inv}
use contradots_techconnect_c.ProposalRouter.Refinement.{router_call-Effect}

-- The proposal was executed, or is gone.
abbrev pub IsSpent : Option Proposal → Type 0
IsSpent none = Unit
IsSpent (some p) = p.executed ≡ true

-- The event records an execution of the proposal.
abbrev pub is_execution : ℕ → Event → Bool
is_execution id (Event.proposal_executed k) = k == id
is_execution id (Event.proposal_created k who is_club) = false
is_execution id (Event.voted k who aye votes) = false
is_execution id (Event.proposal_failed k e) = false
is_execution id (Event.proposal_cancelled k) = false

-- How often the events record an execution of the proposal.
abbrev pub executions : ℕ → List Event → ℕ
executions id [] = 0
executions id (e ∷ es) = let rest = executions id es in if is_execution id e then suc rest else rest

pub count_vote-executed : (aye : Bool) (p : Proposal) → (count_vote aye p).executed ≡ p.executed
count_vote-executed true p = ground arith
count_vote-executed false p = ground arith

module _ (F : Frame) (cfg : Config F) where
  -- The identifier was handed out, and the next one is a `u64`.
  pub record IsTaken (id : ℕ) (s : World F cfg) : Type 0 where
    pub below : id < s.next_proposal_id
    pub next_bound : s.next_proposal_id ≤ u64_max

  pub Effect-IsTaken :
      (id : ℕ)
      → ((env : Env) (c : cfg.RuntimeCall) (o : F.RuntimeOrigin) (s : World F cfg)
          → IsTaken id s
          → IsTaken id (cfg.dispatch_call env c o s).1)
      → (env : Env) (o : F.RuntimeOrigin) (call : Call) (s s' : World F cfg) → IsTaken id s
      → Effect F cfg env o call s s'
      → IsTaken id s'
  Effect-IsTaken id keeps env o (Call.propose scope call md period quorum threshold) s s' i
        (who, h) =
      rw h.after
        (record { below = ground (arith, i.below, i.next_bound); next_bound = ground arith })
  Effect-IsTaken id keeps env o (Call.vote k aye) s s' i (who, p, h) =
      rw h.after (record { below = i.below; next_bound = i.next_bound })
  Effect-IsTaken id keeps env o (Call.execute k) s s' i (who, p, c, h) =
      let kept = keeps env c (F.signed (pallet_account F cfg)) s i in
      rw h.after (record { below = kept.below; next_bound = kept.next_bound })
  Effect-IsTaken id keeps env o (Call.cancel k) s s' i (p, h) =
      rw h.after (record { below = i.below; next_bound = i.next_bound })

  pub Effect-IsSpent :
      (id : ℕ)
      → ((env : Env) (c : cfg.RuntimeCall) (o : F.RuntimeOrigin) (s : World F cfg)
          → IsTaken id s × IsSpent (F.get s.proposals id)
          → IsTaken id (cfg.dispatch_call env c o s).1
            × IsSpent (F.get (cfg.dispatch_call env c o s).1.proposals id))
      → (env : Env) (o : F.RuntimeOrigin) (call : Call) (s s' : World F cfg)
      → IsTaken id s × IsSpent (F.get s.proposals id)
      → Effect F cfg env o call s s'
      → IsTaken id s' × IsSpent (F.get s'.proposals id)
  Effect-IsSpent id keeps env o (Call.propose scope call md period quorum threshold) s s' i
        (who, h) =
      rw (h.after, F.get-insert)
        (
          record { below = ground (arith, i.0.below, i.0.next_bound); next_bound = ground arith },
          ground (arith, i.1, i.0.below),
        )
  Effect-IsSpent id keeps env o (Call.vote k aye) s s' i (who, p, h) =
      rw (h.after, F.get-insert)
        (
          record { below = i.0.below; next_bound = i.0.next_bound },
          ground (arith, i.1, h.found, count_vote-executed aye p),
        )
  Effect-IsSpent id keeps env o (Call.execute k) s s' i (who, p, c, h) =
      let kept = keeps env c (F.signed (pallet_account F cfg)) s i in
      rw (h.after, F.get-insert)
        (record { below = kept.0.below; next_bound = kept.0.next_bound }, ground (arith, kept.1))
  Effect-IsSpent id keeps env o (Call.cancel k) s s' i (p, h) =
      rw (h.after, F.get-remove)
        (record { below = i.0.below; next_bound = i.0.next_bound }, ground (arith, i.1))

  -- Once the proposal was executed or is gone, no event records another execution of it.
  pub Effect-executions :
      (id n : ℕ)
      → ((env : Env) (c : cfg.RuntimeCall) (o : F.RuntimeOrigin) (s : World F cfg)
          → IsTaken id s × (IsSpent (F.get s.proposals id) × (executions id s.events ≡ n))
          → IsTaken id (cfg.dispatch_call env c o s).1
            × (IsSpent (F.get (cfg.dispatch_call env c o s).1.proposals id)
                × (executions id (cfg.dispatch_call env c o s).1.events ≡ n)))
      → (env : Env) (o : F.RuntimeOrigin) (call : Call) (s s' : World F cfg)
      → IsTaken id s × (IsSpent (F.get s.proposals id) × (executions id s.events ≡ n))
      → Effect F cfg env o call s s'
      → IsTaken id s' × (IsSpent (F.get s'.proposals id) × (executions id s'.events ≡ n))
  Effect-executions id n keeps env o (Call.propose scope call md period quorum threshold) s s' i
        (who, h) =
      rw (h.after, F.get-insert)
        (
          record { below = ground (arith, i.0.below, i.0.next_bound); next_bound = ground arith },
          (ground (arith, i.1.0, i.0.below), i.1.1),
        )
  Effect-executions id n keeps env o (Call.vote k aye) s s' i (who, p, h) =
      rw (h.after, F.get-insert)
        (
          record { below = i.0.below; next_bound = i.0.next_bound },
          (ground (arith, i.1.0, h.found, count_vote-executed aye p), i.1.1),
        )
  Effect-executions id n keeps env o (Call.execute k) s s' i (who, p, c, h) =
      let kept = keeps env c (F.signed (pallet_account F cfg)) s i in
      rw (h.after, F.get-insert)
        (
          record { below = kept.0.below; next_bound = kept.0.next_bound },
          (ground (arith, kept.1.0), ground (arith, kept.1.1, i.1.0, h.found, h.unexecuted)),
        )
  Effect-executions id n keeps env o (Call.cancel k) s s' i (p, h) =
      rw (h.after, F.get-remove)
        (record { below = i.0.below; next_bound = i.0.next_bound }, (ground (arith, i.1.0), i.1.1))

  pub execute-IsSpent :
      (id : ℕ)
      → ((env : Env) (c : cfg.RuntimeCall) (o : F.RuntimeOrigin) (s : World F cfg)
          → IsTaken id s
          → IsTaken id (cfg.dispatch_call env c o s).1)
      → (env : Env) (o : F.RuntimeOrigin) (s s' : World F cfg) → IsTaken id s
      → Effect F cfg env o (Call.execute id) s s'
      → IsTaken id s' × IsSpent (F.get s'.proposals id)
  execute-IsSpent id keeps env o s s' taken (who, p, c, h) =
      let kept = keeps env c (F.signed (pallet_account F cfg)) s taken in
      rw (h.after, F.get-insert)
        (record { below = kept.below; next_bound = kept.next_bound }, ground arith)

  pub IsSpent-execute :
      (id : ℕ) (env : Env) (o : F.RuntimeOrigin) (s s' : World F cfg)
      → IsSpent (F.get s.proposals id)
      → ¬ Effect F cfg env o (Call.execute id) s s'
  IsSpent-execute id env o s s' spent (who, p, c, h) = ground (arith, spent, h.found, h.unexecuted)

  -- After an accepted execution and any history of the router's own calls, no
  -- execution of the proposal is accepted, where the calls of the runtime hand out no identifier twice and
  -- take no execution back, and the proposal's identifier was handed out.
  pub executed_once :
      (id : ℕ)
      → ((env : Env) (c : cfg.RuntimeCall) (o : F.RuntimeOrigin) (s : World F cfg)
          → IsTaken id s
          → IsTaken id (cfg.dispatch_call env c o s).1)
      → ((env : Env) (c : cfg.RuntimeCall) (o : F.RuntimeOrigin) (s : World F cfg)
          → IsTaken id s × IsSpent (F.get s.proposals id)
          → IsTaken id (cfg.dispatch_call env c o s).1
            × IsSpent (F.get (cfg.dispatch_call env c o s).1.proposals id))
      → (env env' : Env) (o o' : F.RuntimeOrigin) (s : World F cfg) → IsTaken id s
      → (dispatch F cfg env o (Call.execute id) s).0 ≡ ok tt
      → (xs : List (Extrinsic F Call))
      → (dispatch F cfg env' o'
          (Call.execute id)
          (run F cfg (dispatch F cfg env o (Call.execute id) s).1 xs)).0
        ≢ ok tt
  executed_once id keeps_taken keeps env env' o o' s taken h xs again =
      IsSpent-execute id env' o' _ _
        (run_inv F cfg (λ t. IsTaken id t × IsSpent (F.get t.proposals id))
          (λ x t t' i e. Effect-IsSpent id keeps x.env x.origin x.call t t' i e) xs
          (dispatch F cfg env o (Call.execute id) s).1
          (execute-IsSpent id keeps_taken env o s _ taken
            (router_call-Effect F cfg env o (Call.execute id) s h))).1
        (router_call-Effect F cfg env' o' (Call.execute id) _ again)
