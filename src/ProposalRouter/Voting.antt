-- ===== src/ProposalRouter/Voting.antt =====
-- pallets/proposal-router/src/lib.rs: the life of a proposal before its execution.
use contradots_techconnect_c.Base.{ℕ, ◌≤◌, ◌≡◌, Bool, Option, none, some, [], length, arith}
use contradots_techconnect_c.Frame.{Frame, Env, ok, err, module_error}
use contradots_techconnect_c.Extrinsics
use contradots_techconnect_c.Extrinsics.{Extrinsic}
use contradots_techconnect_c.ProposalRouter
use contradots_techconnect_c.ProposalRouter.{
  Bytes, Scope, Config, World, Proposal, club, count_vote, Error, proposal_not_found, already_voted,
  club_index_overflow,
}
use contradots_techconnect_c.ProposalRouter.Calls.{Call, dispatch, apply}
use contradots_techconnect_c.ProposalRouter.Effects.{listed, proposed}
use contradots_techconnect_c.ProposalRouter.Refinement.{router_call-Effect, push_index_lem}

module _ (F : Frame) (cfg : Config F) where
  not_found :
      (env : Env) (o : F.RuntimeOrigin) (id who : ℕ) (aye : Bool) (s : World F cfg)
      → F.ensure_signed o ≡ some who
      → F.get s.proposals id ≡ none
      → (dispatch F cfg env o (Call.vote id aye) s ≡ (err (module_error proposal_not_found), s))
        × (dispatch F cfg env o (Call.execute id) s ≡ (err (module_error proposal_not_found), s))
  unfolding dispatch ProposalRouter.vote ProposalRouter.execute
  not_found env o id who aye s signer gone = ground arith

  -- A cancelled proposal is gone: in the storage that the cancellation left, every vote on it and
  -- execution of it by a signer, in any block, fails as not found and changes nothing.
  pub cancelled_is_gone :
      (env env' : Env) (o : F.RuntimeOrigin) (who id : ℕ) (aye : Bool) (s : World F cfg)
      → (dispatch F cfg env o (Call.cancel id) s).0 ≡ ok tt
      → let s' = (dispatch F cfg env o (Call.cancel id) s).1 in
        (dispatch F cfg env' (F.signed who) (Call.vote id aye) s'
          ≡ (err (module_error proposal_not_found), s'))
        × (dispatch F cfg env' (F.signed who) (Call.execute id) s'
            ≡ (err (module_error proposal_not_found), s'))
  cancelled_is_gone env env' o who id aye s h =
      let (p, r) = router_call-Effect F cfg env o (Call.cancel id) s h in
      not_found env' (F.signed who) id who aye _ (F.ensure_signed-signed who)
        (rw (r.after, F.get-remove) (ground arith))

  -- A signer's proposal without metadata for a club whose index is full fails; the call has then
  -- stored the proposal already, and the extrinsic leaves the storage as it was before.
  pub propose_index_overflow :
      (env : Env) (o : F.RuntimeOrigin) (cid who : ℕ) (call : Bytes)
      (period quorum threshold : Option ℕ) (s : World F cfg)
      → F.ensure_signed o ≡ some who
      → 1024 ≤ length (listed F cfg s.club_proposals cid)
      → let r =
          dispatch F cfg env o (Call.propose (club cid) call none period quorum threshold) s in
        (r.0 ≡ err (module_error club_index_overflow))
        × (F.get r.1.proposals s.next_proposal_id
            ≡ some (
                proposed F cfg env
                  (club cid)
                  call
                  none
                  period
                  quorum
                  threshold
                  s.next_proposal_id
                  who))
        × (apply F cfg s (record {
          env = env;
          origin = o;
          call = Call.propose (club cid) call none period quorum threshold;
        })
            ≡ s)
  unfolding dispatch ProposalRouter.propose apply Extrinsics.apply
  propose_index_overflow env o cid who call period quorum threshold s signer full = ground (
    arith,
    F.try_from_lem {A = ℕ} cfg.max_voters_per_proposal [],
    push_index_lem F cfg s.next_proposal_id (F.get s.club_proposals cid),
    F.get-insert s.proposals s.next_proposal_id
        (proposed F cfg env (club cid) call none period quorum threshold s.next_proposal_id who)
        s.next_proposal_id,
  )
