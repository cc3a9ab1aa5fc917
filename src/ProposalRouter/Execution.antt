-- ===== src/ProposalRouter/Execution.antt =====
-- pallets/proposal-router/src/lib.rs: when a proposal is executed, and when it is not.
use contradots_techconnect_c.Base.{
  ℕ, ◌+◌, ◌*◌, ◌≤◌, ◌<◌, ◌≡◌, ◌≢◌, ◌↔◌, Bool, false, some, ◌∷◌, min, arith, u32_max,
}
use native.Mathlib.Nat.{le-div_iff_mul-le, div-lt_iff_lt-mul}
use contradots_techconnect_c.Frame.{Frame, Env, ok, err, module_error}
use contradots_techconnect_c.Extrinsics
use contradots_techconnect_c.Extrinsics.{Extrinsic}
use contradots_techconnect_c.ProposalRouter
use contradots_techconnect_c.ProposalRouter.{
  Bytes, Scope, Config, World, Proposal, Event, club, done, failed, pallet_account,
  pass_percent_x100, total_votes, Error, proposal_already_executed, proposal_not_found,
  already_voted, execution_failed, proposal_not_passed, club_index_overflow,
}
use contradots_techconnect_c.ProposalRouter.Calls.{Call, dispatch, apply}
use contradots_techconnect_c.ProposalRouter.Refinement.{router_call-Effect}

-- The share that `execute` computes reaches a threshold exactly when the votes in favour do,
-- where their product with 10000 is a `u32` and somebody voted.
pass_percent_x100_lem :
    (p : Proposal) (t : ℕ)
    → 0 < p.yea + p.nay
    → p.yea + p.nay ≤ u32_max
    → p.yea * 10000 ≤ u32_max
    → (t ≤ pass_percent_x100 p) ↔ (t * (p.yea + p.nay) ≤ p.yea * 10000)
pass_percent_x100_lem p t some_votes fits fits' =
    ground (arith, le-div_iff_mul-le {k = p.yea + p.nay} {x = t} {y = p.yea * 10000} some_votes)

pass_percent_x100_saturates :
    (p : Proposal) → 429496 < p.yea → p.nay ≡ 0 → p.yea ≤ u32_max → pass_percent_x100 p < 10000
pass_percent_x100_saturates p many no_nay fits =
    ground (arith, div-lt_iff_lt-mul {k = p.yea} {x = u32_max} {y = 10000} (omega (arith, many)))

module _ (F : Frame) (cfg : Config F) where
  -- A signer's execution that meets every condition but whose call is refused fails, with an event
  -- on top of those that the call left; but the extrinsic leaves the storage as it was before,
  -- without the event and the flag.
  pub failed_execution_rolled_back :
      (env : Env) (o : F.RuntimeOrigin) (id who : ℕ) (s : World F cfg) (p : Proposal)
      (c : cfg.RuntimeCall) (e : Bytes)
      → F.ensure_signed o ≡ some who
      → F.get s.proposals id ≡ some p
      → p.executed ≡ false
      → p.end < env.block_number
      → p.quorum ≤ min (p.yea + p.nay) u32_max
      → p.pass_threshold ≤ pass_percent_x100 p
      → cfg.decode p.call ≡ some c
      → (cfg.dispatch_call env c (F.signed (pallet_account F cfg)) s).0 ≡ failed e
      → let r = dispatch F cfg env o (Call.execute id) s in
        (r.0 ≡ err (module_error execution_failed))
        × (r.1.events
            ≡ Event.proposal_failed id e
              ∷ (cfg.dispatch_call env c (F.signed (pallet_account F cfg)) s).1.events)
        × (apply F cfg s (record { env = env; origin = o; call = Call.execute id }) ≡ s)
  unfolding dispatch ProposalRouter.execute apply Extrinsics.apply
  failed_execution_rolled_back env o id who s p c e signer found un ended quorate pass dec fails =
      ground arith

  -- Where a signer executes a proposal that was not executed, after its period, with its quorum,
  -- and with a call that is decoded and succeeds, and where somebody voted, the votes are a `u32`
  -- and those in favour are 429,496 at most: the execution is accepted exactly when the votes in
  -- favour reach the threshold, in hundredths of a percent of the votes.
  pub executed_iff_share :
      (env : Env) (o : F.RuntimeOrigin) (id who : ℕ) (s : World F cfg) (p : Proposal)
      (c : cfg.RuntimeCall)
      → F.ensure_signed o ≡ some who
      → F.get s.proposals id ≡ some p
      → p.executed ≡ false
      → p.end < env.block_number
      → p.quorum ≤ p.yea + p.nay
      → cfg.decode p.call ≡ some c
      → (cfg.dispatch_call env c (F.signed (pallet_account F cfg)) s).0 ≡ done
      → 0 < p.yea + p.nay
      → p.yea + p.nay ≤ u32_max
      → p.yea ≤ 429496
      → ((dispatch F cfg env o (Call.execute id) s).0 ≡ ok tt)
        ↔ (p.pass_threshold * (p.yea + p.nay) ≤ p.yea * 10000)
  unfolding dispatch ProposalRouter.execute
  executed_iff_share env o id who s p c signer found un ended quorate dec succeeds voted fits few =
      ground (arith, pass_percent_x100_lem p p.pass_threshold voted fits (omega (arith, few)))

  -- Above 429,496 votes the product saturates: a unanimous vote, as a `u32`, for a proposal that
  -- asks for all the votes (a threshold of 10000), that has its quorum, whose period is over and
  -- that was not executed, is refused as not passed, and nothing changes.
  pub unanimous_vote_rejected :
      (env : Env) (o : F.RuntimeOrigin) (id who : ℕ) (s : World F cfg) (p : Proposal)
      → F.ensure_signed o ≡ some who
      → F.get s.proposals id ≡ some p
      → p.executed ≡ false
      → p.end < env.block_number
      → p.quorum ≤ p.yea
      → p.nay ≡ 0
      → 429496 < p.yea
      → p.yea ≤ u32_max
      → p.pass_threshold ≡ 10000
      → dispatch F cfg env o (Call.execute id) s ≡ (err (module_error proposal_not_passed), s)
  unfolding dispatch ProposalRouter.execute
  unanimous_vote_rejected env o id who s p signer found un ended quorate no_nay many fits all =
      ground (arith, pass_percent_x100_saturates p many no_nay fits)

  -- Where a block accepts a vote on a proposal, it accepts no execution of it from the same
  -- storage.
  pub vote_excludes_execution :
      (env : Env) (o o' : F.RuntimeOrigin) (id : ℕ) (aye : Bool) (s : World F cfg)
      → (dispatch F cfg env o (Call.vote id aye) s).0 ≡ ok tt
      → (dispatch F cfg env o' (Call.execute id) s).0 ≢ ok tt
  vote_excludes_execution env o o' id aye s hv he =
      let (w, p, v) = router_call-Effect F cfg env o (Call.vote id aye) s hv in
      let (w', p', c, x) = router_call-Effect F cfg env o' (Call.execute id) s he in
      ground (arith, v.found, x.found, v.open_still, x.ended)
