-- ===== src/ProposalRouter/Refinement.antt =====
-- The dispatchables of the proposal router accept exactly what the specification accepts, and leave
-- the storage that it says.
mod Propose
pub use Propose.{push_index_lem}
use contradots_techconnect_c.ProposalRouter.Refinement.Propose.{
  propose-signer, propose-Proposes, Proposes-propose,
}
use contradots_techconnect_c.Base.{
  ap, subst, ◌↔◌, ℕ, ◌≡◌, Bool, true, Option, some, none, List, [], ◌∷◌, arith, value_of, is_some,
  length, ltb, ◌++◌, if◌then◌else◌, false,
}
use contradots_techconnect_c.Frame.{Frame, Env, ok}
use contradots_techconnect_c.ProposalRouter
use contradots_techconnect_c.ProposalRouter.{
  Bytes, Scope, club, global, Config, World, Proposal, push_index, unwrap_or,
}
use contradots_techconnect_c.ProposalRouter.Calls.{Call, dispatch}
use contradots_techconnect_c.ProposalRouter.Effects.{Effect, Proposes, VotesOn, Executes, Cancels}

module _ (F : Frame) (cfg : Config F) where
  vote-signer :
      (env : Env) (o : F.RuntimeOrigin) (id : ℕ) (aye : Bool) (s : World F cfg)
      → (ProposalRouter.vote F cfg env o id aye s).0 ≡ ok tt
      → is_some (F.ensure_signed o) ≡ true
  unfolding ProposalRouter.vote
  vote-signer env o id aye s h = ground arith

  vote-proposal :
      (env : Env) (o : F.RuntimeOrigin) (id : ℕ) (aye : Bool) (s : World F cfg) (who : ℕ)
      → F.ensure_signed o ≡ some who
      → (ProposalRouter.vote F cfg env o id aye s).0 ≡ ok tt
      → is_some (F.get s.proposals id) ≡ true
  unfolding ProposalRouter.vote
  vote-proposal env o id aye s who ewho h = ground arith

  vote-VotesOn :
      (env : Env) (o : F.RuntimeOrigin) (id : ℕ) (aye : Bool) (s : World F cfg) (who : ℕ)
      (p : Proposal)
      → F.ensure_signed o ≡ some who
      → F.get s.proposals id ≡ some p
      → (ProposalRouter.vote F cfg env o id aye s).0 ≡ ok tt
      → VotesOn F cfg env o id aye s (ProposalRouter.vote F cfg env o id aye s).1 who p
  unfolding ProposalRouter.vote
  vote-VotesOn env o id aye s who p ewho ep h =
      ground (arith, F.try_push_lem cfg.max_voters_per_proposal p.voters who)

  VotesOn-vote :
      (env : Env) (o : F.RuntimeOrigin) (id : ℕ) (aye : Bool) (s s' : World F cfg) (who : ℕ)
      (p : Proposal)
      → VotesOn F cfg env o id aye s s' who p
      → ProposalRouter.vote F cfg env o id aye s ≡ (ok tt, s')
  unfolding ProposalRouter.vote
  VotesOn-vote env o id aye s s' who p h =
      ground (arith, F.try_push_lem cfg.max_voters_per_proposal p.voters who)

  execute-signer :
      (env : Env) (o : F.RuntimeOrigin) (id : ℕ) (s : World F cfg)
      → (ProposalRouter.execute F cfg env o id s).0 ≡ ok tt
      → is_some (F.ensure_signed o) ≡ true
  unfolding ProposalRouter.execute
  execute-signer env o id s h = ground arith

  execute-proposal :
      (env : Env) (o : F.RuntimeOrigin) (id : ℕ) (s : World F cfg) (who : ℕ)
      → F.ensure_signed o ≡ some who
      → (ProposalRouter.execute F cfg env o id s).0 ≡ ok tt
      → is_some (F.get s.proposals id) ≡ true
  unfolding ProposalRouter.execute
  execute-proposal env o id s who ewho h = ground arith

  execute-call :
      (env : Env) (o : F.RuntimeOrigin) (id : ℕ) (s : World F cfg) (who : ℕ) (p : Proposal)
      → F.ensure_signed o ≡ some who
      → F.get s.proposals id ≡ some p
      → (ProposalRouter.execute F cfg env o id s).0 ≡ ok tt
      → is_some (cfg.decode p.call) ≡ true
  unfolding ProposalRouter.execute
  execute-call env o id s who p ewho ep h = ground arith

  execute-Executes :
      (env : Env) (o : F.RuntimeOrigin) (id : ℕ) (s : World F cfg) (who : ℕ) (p : Proposal)
      (c : cfg.RuntimeCall)
      → F.ensure_signed o ≡ some who
      → F.get s.proposals id ≡ some p
      → cfg.decode p.call ≡ some c
      → (ProposalRouter.execute F cfg env o id s).0 ≡ ok tt
      → Executes F cfg env o id s (ProposalRouter.execute F cfg env o id s).1 who p c
  unfolding ProposalRouter.execute
  execute-Executes env o id s who p c ewho ep ec h = ground arith

  Executes-execute :
      (env : Env) (o : F.RuntimeOrigin) (id : ℕ) (s s' : World F cfg) (who : ℕ) (p : Proposal)
      (c : cfg.RuntimeCall)
      → Executes F cfg env o id s s' who p c
      → ProposalRouter.execute F cfg env o id s ≡ (ok tt, s')
  unfolding ProposalRouter.execute
  Executes-execute env o id s s' who p c h = ground arith

  cancel-proposal :
      (o : F.RuntimeOrigin) (id : ℕ) (s : World F cfg)
      → (ProposalRouter.cancel F cfg o id s).0 ≡ ok tt
      → is_some (F.get s.proposals id) ≡ true
  unfolding ProposalRouter.cancel
  cancel-proposal o id s h = ground arith

  cancel-Cancels :
      (o : F.RuntimeOrigin) (id : ℕ) (s : World F cfg) (p : Proposal)
      → F.get s.proposals id ≡ some p
      → (ProposalRouter.cancel F cfg o id s).0 ≡ ok tt
      → Cancels F cfg o id s (ProposalRouter.cancel F cfg o id s).1 p
  unfolding ProposalRouter.cancel
  cancel-Cancels o id s p ep h = ground arith

  Cancels-cancel :
      (o : F.RuntimeOrigin) (id : ℕ) (s s' : World F cfg) (p : Proposal)
      → Cancels F cfg o id s s' p
      → ProposalRouter.cancel F cfg o id s ≡ (ok tt, s')
  unfolding ProposalRouter.cancel
  Cancels-cancel o id s s' p h = ground arith

  -- An accepted call has met the specification's conditions, and leaves its storage.
  pub router_call-Effect :
      (env : Env) (o : F.RuntimeOrigin) (c : Call) (s : World F cfg)
      → (dispatch F cfg env o c s).0 ≡ ok tt
      → Effect F cfg env o c s (dispatch F cfg env o c s).1
  unfolding dispatch
  router_call-Effect env o (Call.propose scope call metadata period quorum threshold) s h =
      let (who, ewho) =
        value_of _ (propose-signer F cfg env o scope call metadata period quorum threshold s h) in
      (who, propose-Proposes F cfg env o scope call metadata period quorum threshold s who ewho h)
  router_call-Effect env o (Call.vote id aye) s h =
      let (who, ewho) = value_of _ (vote-signer env o id aye s h) in
      let (p, ep) = value_of _ (vote-proposal env o id aye s who ewho h) in
      (who, p, vote-VotesOn env o id aye s who p ewho ep h)
  router_call-Effect env o (Call.execute id) s h =
      let (who, ewho) = value_of _ (execute-signer env o id s h) in
      let (p, ep) = value_of _ (execute-proposal env o id s who ewho h) in
      let (c, ec) = value_of _ (execute-call env o id s who p ewho ep h) in
      (who, p, c, execute-Executes env o id s who p c ewho ep ec h)
  router_call-Effect env o (Call.cancel id) s h =
      let (p, ep) = value_of _ (cancel-proposal o id s h) in (p, cancel-Cancels o id s p ep h)

  -- A call that meets the specification's conditions is accepted, and leaves its storage.
  pub Effect-router_call :
      (env : Env) (o : F.RuntimeOrigin) (c : Call) (s s' : World F cfg)
      → Effect F cfg env o c s s'
      → dispatch F cfg env o c s ≡ (ok tt, s')
  unfolding dispatch
  Effect-router_call env o (Call.propose scope call metadata period quorum threshold) s s'
        (who, h) =
      Proposes-propose F cfg env o scope call metadata period quorum threshold s s' who h
  Effect-router_call env o (Call.vote id aye) s s' (who, p, h) =
      VotesOn-vote env o id aye s s' who p h
  Effect-router_call env o (Call.execute id) s s' (who, p, c, h) =
      Executes-execute env o id s s' who p c h
  Effect-router_call env o (Call.cancel id) s s' (p, h) = Cancels-cancel o id s s' p h

  -- For every call of the pallet, and every origin, block and storage: the call succeeds and leaves
  -- the storage `s'` exactly when the specification accepts the call and says `s'`.
  pub router_call_iff-Effect :
      (env : Env) (o : F.RuntimeOrigin) (c : Call) (s s' : World F cfg)
      → (dispatch F cfg env o c s ≡ (ok tt, s')) ↔ Effect F cfg env o c s s'
  router_call_iff-Effect env o c s s' = (
    λ e. subst (λ r. Effect F cfg env o c s r.1) e (router_call-Effect env o c s (ap (λ r. r.0) e)),
    Effect-router_call env o c s s',
  )
