-- ===== src/ProposalRouter/Voters.antt =====
-- pallets/proposal-router/src/lib.rs: an account votes at most once on a proposal.
use contradots_techconnect_c.Base.{
  ℕ, ◌≡◌, ◌≢◌, ◌↔◌, Bool, true, Option, none, some, List, [], ◌∷◌, ◌++◌, ◌==◌, ◌||◌, arith,
  contains, count-append, contains_iff-count,
}
use contradots_techconnect_c.Frame.{Frame, Env, ok}
use contradots_techconnect_c.Extrinsics.{Extrinsic}
use contradots_techconnect_c.ProposalRouter.{Config, World, Proposal, pallet_account}
use contradots_techconnect_c.ProposalRouter.Calls.{Call, dispatch, run}
use contradots_techconnect_c.ProposalRouter.Effects.{Effect}
use contradots_techconnect_c.ProposalRouter.History.{run_inv}
use contradots_techconnect_c.ProposalRouter.Once.{IsTaken}
use contradots_techconnect_c.ProposalRouter.Refinement.{router_call-Effect}

-- The account voted on the proposal, or the proposal is gone.
abbrev pub HasVoted : ℕ → Option Proposal → Type 0
HasVoted who none = Unit
HasVoted who (some p) = contains p.voters who ≡ true

contains-append :
    (xs : List ℕ) (a b : ℕ)
    → (contains (xs ++ a ∷ []) b ≡ true) ↔ ((contains xs b || a == b) ≡ true)
contains-append xs a b = ground (
  arith,
  contains_iff-count (xs ++ a ∷ []) b,
  contains_iff-count xs b,
  count-append b xs (a ∷ []),
)

module _ (F : Frame) (cfg : Config F) where
  pub Effect-HasVoted :
      (id who : ℕ)
      → ((env : Env) (c : cfg.RuntimeCall) (o : F.RuntimeOrigin) (s : World F cfg)
          → IsTaken F cfg id s × HasVoted who (F.get s.proposals id)
          → IsTaken F cfg id (cfg.dispatch_call env c o s).1
            × HasVoted who (F.get (cfg.dispatch_call env c o s).1.proposals id))
      → (env : Env) (o : F.RuntimeOrigin) (call : Call) (s s' : World F cfg)
      → IsTaken F cfg id s × HasVoted who (F.get s.proposals id)
      → Effect F cfg env o call s s'
      → IsTaken F cfg id s' × HasVoted who (F.get s'.proposals id)
  Effect-HasVoted id who keeps env o (Call.propose scope call md period quorum threshold) s s' i
        (w, h) =
      rw (h.after, F.get-insert)
        (
          record { below = ground (arith, i.0.below, i.0.next_bound); next_bound = ground arith },
          ground (arith, i.1, i.0.below),
        )
  Effect-HasVoted id who keeps env o (Call.vote k aye) s s' i (w, p, h) =
      rw (h.after, F.get-insert)
        (
          record { below = i.0.below; next_bound = i.0.next_bound },
          ground (arith, i.1, h.found, contains-append p.voters w who),
        )
  Effect-HasVoted id who keeps env o (Call.execute k) s s' i (w, p, c, h) =
      let kept = keeps env c (F.signed (pallet_account F cfg)) s i in
      rw (h.after, F.get-insert)
        (
          record { below = kept.0.below; next_bound = kept.0.next_bound },
          ground (arith, kept.1, i.1, h.found),
        )
  Effect-HasVoted id who keeps env o (Call.cancel k) s s' i (p, h) =
      rw (h.after, F.get-remove)
        (record { below = i.0.below; next_bound = i.0.next_bound }, ground (arith, i.1))

  pub vote-HasVoted :
      (id who : ℕ) (env : Env) (aye : Bool) (s s' : World F cfg)
      → IsTaken F cfg id s
      → Effect F cfg env (F.signed who) (Call.vote id aye) s s'
      → IsTaken F cfg id s' × HasVoted who (F.get s'.proposals id)
  vote-HasVoted id who env aye s s' taken (w, p, h) =
      rw (h.after, F.get-insert)
        (
          record { below = taken.below; next_bound = taken.next_bound },
          ground
              (arith, contains-append p.voters w who, h.origin_signed, F.ensure_signed-signed who),
        )

  pub HasVoted-vote :
      (id who : ℕ) (env : Env) (aye : Bool) (s s' : World F cfg)
      → HasVoted who (F.get s.proposals id)
      → ¬ Effect F cfg env (F.signed who) (Call.vote id aye) s s'
  HasVoted-vote id who env aye s s' voted (w, p, h) =
      ground (arith, voted, h.found, h.fresh, h.origin_signed, F.ensure_signed-signed who)

  -- An account votes at most once on a proposal: after its accepted vote and any history, no
  -- other vote of it on the proposal is accepted, in any block and on either side, where the calls
  -- of the runtime hand out no identifier twice and take no vote back, and the proposal's
  -- identifier was handed out.
  pub voted_once :
      (id who : ℕ)
      → ((env : Env) (c : cfg.RuntimeCall) (o : F.RuntimeOrigin) (s : World F cfg)
          → IsTaken F cfg id s × HasVoted who (F.get s.proposals id)
          → IsTaken F cfg id (cfg.dispatch_call env c o s).1
            × HasVoted who (F.get (cfg.dispatch_call env c o s).1.proposals id))
      → (env env' : Env) (aye aye' : Bool) (s : World F cfg) → IsTaken F cfg id s
      → (dispatch F cfg env (F.signed who) (Call.vote id aye) s).0 ≡ ok tt
      → (xs : List (Extrinsic F Call))
      → (dispatch F cfg env'
          (F.signed who)
          (Call.vote id aye')
          (run F cfg (dispatch F cfg env (F.signed who) (Call.vote id aye) s).1 xs)).0
        ≢ ok tt
  voted_once id who keeps env env' aye aye' s taken h xs again =
      HasVoted-vote id who env' aye' _ _
        (run_inv F cfg (λ t. IsTaken F cfg id t × HasVoted who (F.get t.proposals id))
          (λ x t t' i e. Effect-HasVoted id who keeps x.env x.origin x.call t t' i e) xs
          (dispatch F cfg env (F.signed who) (Call.vote id aye) s).1
          (vote-HasVoted id who env aye s _ taken
            (router_call-Effect F cfg env (F.signed who) (Call.vote id aye) s h))).1
        (router_call-Effect F cfg env' (F.signed who) (Call.vote id aye') _ again)
