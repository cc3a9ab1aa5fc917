-- ===== src/ProposalRouter/Nested/Cycles.antt =====
-- pallets/proposal-router/src/lib.rs: `execute` dispatches the stored call before it marks the
-- proposal, also where that call is another execution.
use contradots_techconnect_c.Base.{ℕ, zero, suc, ◌<◌, ◌≡◌, ◌≢◌, refl, some, arith}
use contradots_techconnect_c.Frame.{Frame, Env}
use contradots_techconnect_c.ProposalRouter.{
  Config, World, Outcome, Proposal, done, failed, pallet_account,
}
use contradots_techconnect_c.ProposalRouter.Calls.{Call}
use contradots_techconnect_c.ProposalRouter.Nested.{Runtime, accept}
use contradots_techconnect_c.ProposalRouter.Nested.Histories.{done-Effect_below}

module _ {F : Frame} {cfg : Config F} (R : Runtime F cfg) where
  accept-failed : (s : World F cfg) (x : Outcome × World F cfg) → x.0 ≢ done → accept F cfg s x ≡ s
  accept-failed s (done, s') h = absurd (h refl)
  accept-failed s (failed e, s') h = refl

  module _ (P : ℕ → Type 0) (s : World F cfg)
      (closed : (id : ℕ) (p : Proposal)
        → P id
        → F.get s.proposals id ≡ some p
        → (k : ℕ) × P k × (cfg.decode p.call ≡ some (R.from_call (Call.execute k)))) where
    below_not_done :
        (n m : ℕ)
        → m < n
        → (id : ℕ) (env : Env) (o : F.RuntimeOrigin) → P id
        → (R.dispatch_at m env (R.from_call (Call.execute id)) o s).0 ≢ done
    below_not_done zero m less id env o member h = absurd (omega (arith, less))
    below_not_done (suc n) m less id env o member h =
        let (k, lower, (who, p, c, x)) = done-Effect_below R m env (Call.execute id) o s h in
        let (next, chosen, decodes) = closed id p member x.found in
        below_not_done n k (omega (arith, less, lower)) next env (F.signed (pallet_account F cfg))
          chosen (ground (arith, x.decoded, decodes, x.dispatched))

    -- For a set of proposals of which each one that is stored has as its call the execution of one of
    -- the set, as a proposal that executes itself or two that execute each other: no execution of
    -- one of the set is done, by whatever origin, in whichever block, and with whatever number of
    -- storage layers left; and the storage stays as it was.
    pub cyclic_execution_fails :
        (n id : ℕ) (env : Env) (o : F.RuntimeOrigin)
        → P id
        → ((R.dispatch_at n env (R.from_call (Call.execute id)) o s).0 ≢ done)
          × (accept F cfg s (R.dispatch_at n env (R.from_call (Call.execute id)) o s) ≡ s)
    cyclic_execution_fails n id env o member =
        let fails = below_not_done (suc n) n (omega arith) id env o member in
        (fails, accept-failed s _ fails)
