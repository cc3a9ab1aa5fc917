-- ===== src/ProposalRouter/Nested/Direct.antt =====
-- pallets/proposal-router/src/lib.rs: how often `execute` executes a proposal whose call leads to no
-- execution of it.
use contradots_techconnect_c.Base.{
  ℕ, ◌≤◌, ◌≡◌, refl, Bool, true, false, Option, none, some, List, ◌==◌, inl, inr, ◌⊎◌, Bool-cases,
  arith,
}
use contradots_techconnect_c.Frame.{Frame, Env}
use contradots_techconnect_c.Extrinsics.{Extrinsic}
use contradots_techconnect_c.ProposalRouter.{
  Config, World, Bytes, Proposal, count_vote, pallet_account,
}
use contradots_techconnect_c.ProposalRouter.Calls.{Call}
use contradots_techconnect_c.ProposalRouter.Effects.{Effect}
use contradots_techconnect_c.ProposalRouter.Once.{IsTaken, IsSpent, executions, count_vote-executed}
use contradots_techconnect_c.ProposalRouter.Nested.{with_dispatcher, Runtime, run_at}
use contradots_techconnect_c.ProposalRouter.Nested.Once.{run_at-IsTaken}

-- The proposal, if it is there, was not executed and has this call.
abbrev pub IsOpen : Bytes → Option Proposal → Type 0
IsOpen call none = Unit
IsOpen call (some p) = (p.executed ≡ false) × (p.call ≡ call)

count_vote-call : (aye : Bool) (p : Proposal) → (count_vote aye p).call ≡ p.call
count_vote-call true p = ground arith
count_vote-call false p = ground arith

module _ (F : Frame) (cfg : Config F) (id : ℕ) (call : Bytes) where
  -- No execution is recorded and the proposal is open, or one is at most, and it is spent.
  abbrev pub IsSingle : World F cfg → Type 0
  IsSingle s =
      ((executions id s.events ≡ 0) × IsOpen call (F.get s.proposals id))
      ⊎ ((executions id s.events ≤ 1) × IsSpent (F.get s.proposals id))

  at_most_one : (s : World F cfg) → IsSingle s → executions id s.events ≤ 1
  at_most_one s (inl i) = omega (arith, i.0)
  at_most_one s (inr i) = i.0

  module _ (c : cfg.RuntimeCall) (decodes : cfg.decode call ≡ some c)
      (direct : (env : Env) (s : World F cfg)
        → executions id (cfg.dispatch_call env c (F.signed (pallet_account F cfg)) s).1.events
          ≡ executions id s.events)
      (keeps : (env : Env) (c : cfg.RuntimeCall) (o : F.RuntimeOrigin) (s : World F cfg)
        → IsTaken F cfg id s × IsSingle s
        → IsTaken F cfg id (cfg.dispatch_call env c o s).1
          × IsSingle (cfg.dispatch_call env c o s).1) where
    step-IsSingle :
        (env : Env) (o : F.RuntimeOrigin) (x : Call) (s s' : World F cfg)
        → IsTaken F cfg id s
        → IsSingle s
        → Effect F cfg env o x s s'
        → IsSingle s'
    step-IsSingle env o (Call.propose scope b md period quorum threshold) s s' taken (inl i)
          (who, h) =
        rw (h.after, F.get-insert) (inl (i.0, ground (arith, i.1, taken.below)))
    step-IsSingle env o (Call.propose scope b md period quorum threshold) s s' taken (inr i)
          (who, h) =
        rw (h.after, F.get-insert) (inr (i.0, ground (arith, i.1, taken.below)))
    step-IsSingle env o (Call.vote k aye) s s' taken (inl i) (who, p, h) =
        rw (h.after, F.get-insert)
          (inl
            (i.0, ground (arith, i.1, h.found, count_vote-executed aye p, count_vote-call aye p)))
    step-IsSingle env o (Call.vote k aye) s s' taken (inr i) (who, p, h) =
        rw (h.after, F.get-insert)
          (inr (i.0, ground (arith, i.1, h.found, count_vote-executed aye p)))
    step-IsSingle env o (Call.execute k) s s' taken i (who, p, d, h) =
        let kept = (keeps env d (F.signed (pallet_account F cfg)) s (taken, i)).1 in
        rw (h.after, F.get-insert)
          (elim (Bool-cases (k == id)) [
            | inl e ↦ elim i [
              | inl j ↦ inr (
                ground (arith, e, j, h.found, h.decoded, decodes, direct env s),
                ground (arith, e),
              )
              | inr j ↦ absurd (ground (arith, e, j, h.found, h.unexecuted))
            ]
            | inr e ↦ elim kept [
              | inl j ↦ inl (ground (arith, e, j), ground (arith, e, j))
              | inr j ↦ inr (ground (arith, e, j), ground (arith, e, j))
            ]
          ])
    step-IsSingle env o (Call.cancel k) s s' taken (inl i) (p, h) =
        rw (h.after, F.get-remove) (inl (i.0, ground (arith, i.1)))
    step-IsSingle env o (Call.cancel k) s s' taken (inr i) (p, h) =
        rw (h.after, F.get-remove) (inr (i.0, ground (arith, i.1)))

    pub Effect-IsSingle :
        (env : Env) (o : F.RuntimeOrigin) (x : Call) (s s' : World F cfg)
        → IsTaken F cfg id s × IsSingle s
        → Effect F cfg env o x s s'
        → IsTaken F cfg id s' × IsSingle s'
    Effect-IsSingle env o (Call.propose scope b md period quorum threshold) s s' i (who, h) = (
      rw h.after
          (record { below = ground (arith, i.0.below, i.0.next_bound); next_bound = ground arith }),
      step-IsSingle env o (Call.propose scope b md period quorum threshold) s s' i.0 i.1 (who, h),
    )
    Effect-IsSingle env o (Call.vote k aye) s s' i (who, p, h) = (
      rw h.after (record { below = i.0.below; next_bound = i.0.next_bound }),
      step-IsSingle env o (Call.vote k aye) s s' i.0 i.1 (who, p, h),
    )
    Effect-IsSingle env o (Call.execute k) s s' i (who, p, d, h) =
        let kept = keeps env d (F.signed (pallet_account F cfg)) s i in
        (
          rw h.after (record { below = kept.0.below; next_bound = kept.0.next_bound }),
          step-IsSingle env o (Call.execute k) s s' i.0 i.1 (who, p, d, h),
        )
    Effect-IsSingle env o (Call.cancel k) s s' i (p, h) = (
      rw h.after (record { below = i.0.below; next_bound = i.0.next_bound }),
      step-IsSingle env o (Call.cancel k) s s' i.0 i.1 (p, h),
    )

module _ {F : Frame} {cfg : Config F} (R : Runtime F cfg) where
  -- A proposal is executed at most once, where its call leads to no execution of it: where a stored
  -- proposal was not executed, no event records an execution of it, its identifier was handed out,
  -- and the dispatch of its call by the pallet's account never deposits such an event, any history
  -- of runtime calls, nested in any way, deposits at most one.
  pub direct_proposal_executes_once :
      (n id : ℕ) (s : World F cfg) (p : Proposal) (c : cfg.RuntimeCall)
      → IsTaken F cfg id s
      → F.get s.proposals id ≡ some p
      → p.executed ≡ false
      → executions id s.events ≡ 0
      → cfg.decode p.call ≡ some c
      → ((m : ℕ) (env : Env) (t : World F cfg)
          → executions id (R.dispatch_at m env c (F.signed (pallet_account F cfg)) t).1.events
            ≡ executions id t.events)
      → (xs : List (Extrinsic F cfg.RuntimeCall)) → executions id (run_at R n s xs).events ≤ 1
  direct_proposal_executes_once n id s p c taken found un none_yet decodes direct xs =
      at_most_one F cfg id p.call (run_at R n s xs) (
        run_at-IsTaken R id (IsSingle F cfg id p.call) (λ s r t. t)
          (λ m kept.
            Effect-IsSingle F (with_dispatcher F cfg (R.dispatch_at m)) id p.call c decodes
              (direct m) kept)
          n xs s (taken, inl (none_yet, rw found (un, refl))))
