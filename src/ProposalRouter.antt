-- ===== src/ProposalRouter.antt =====
-- pallets/proposal-router/src/lib.rs: the dispatchables. The data is in ProposalRouter/Data; the
-- other children are about what is defined here.
mod Data
pub mod Calls
pub mod Effects
pub mod Refinement
pub mod History
pub mod Tally
pub mod Execution
pub mod Once
pub mod Voters
pub mod Voting
pub mod Nested
mod Tests
pub use Data.*
use contradots_techconnect_c.Base.{
  ℕ, Bool, true, false, not, ◌&&◌, Option, some, none, List, [], ◌∷◌, ltb, leb, contains, u32_max,
  u64_max, saturating_add,
}
use contradots_techconnect_c.Frame.{
  Frame, Env, Action, ok, ◌>>=◌, ◌>>◌, pure, gets, modify, ensure, ok_or, signer, ensure_origin,
}
use contradots_techconnect_c.Storage.{get_item, insert_item, put_item, try_mutate}

module _ (F : Frame) (cfg : Config F) where
  -- A club's proposal is added to the index of the club; what the closure leaves is written also
  -- where it fails.
  index_proposal : Scope → ProposalId → Handler F cfg
  index_proposal global id = pure tt
  index_proposal (club cid) id = do
    before ← get_item (club_proposals F cfg) cid
    put_item (club_proposals F cfg) cid (push_index F cfg id before).1
    ensure (push_index F cfg id before).0 club_index_overflow

  -- The membership tests are commented out in the source, here and in `vote`.
  pub propose :
      Env
      → F.RuntimeOrigin
      → Scope
      → Bytes
      → Option Bytes
      → Option BlockNumber
      → Option Votes
      → Option ℕ
      → Handler F cfg
  unfolding index_proposal
  propose env origin scope call metadata voting_period quorum pass_threshold = do
    who ← signer (F.ensure_signed origin)
    metadata_bounded ← bound_metadata F cfg metadata
    id ← gets (λ s. s.next_proposal_id)
    voters ← ok_or (F.try_from cfg.max_voters_per_proposal []) voters_overflow
    insert_item (proposals F cfg) id (record {
      id = id;
      proposer = who;
      scope = scope;
      call = call;
      metadata = metadata_bounded;
      start = env.block_number;
      end =
          saturating_add cfg.max_block_number env.block_number
            (unwrap_or voting_period cfg.default_voting_period);
      yea = 0;
      nay = 0;
      executed = false;
      voters = voters;
      quorum = unwrap_or quorum cfg.default_quorum;
      pass_threshold = unwrap_or pass_threshold cfg.default_pass_threshold;
      proposal_club = club_of scope;
    })
    index_proposal scope id
    modify (λ s. record s { next_proposal_id = saturating_add u64_max id 1 })
    deposit_event F cfg (proposal_created id who (is_club scope))

  pub vote : Env → F.RuntimeOrigin → ProposalId → Bool → Handler F cfg
  vote env origin proposal_id aye = do
    who ← signer (F.ensure_signed origin)
    try_mutate (proposals F cfg) proposal_id λ maybe. do
      p ← ok_or maybe proposal_not_found
      ensure (leb p.start env.block_number && leb env.block_number p.end) voting_closed
      ensure (not (contains p.voters who)) already_voted
      voters ← ok_or (F.try_push cfg.max_voters_per_proposal p.voters who) voters_overflow
      deposit_event F cfg (voted proposal_id who aye 1)
      pure (some (record (count_vote aye p) { voters = voters }))

  -- The dispatch of the decoded call, as the pallet's account.
  abbrev pub dispatch_decoded : Env → cfg.RuntimeCall → Action (World F cfg) Error Outcome
  dispatch_decoded env c s =
      let (result, s') = cfg.dispatch_call env c (F.signed (pallet_account F cfg)) s in
      (ok result, s')

  -- The end of `execute`, on the result of the call.
  abbrev pub settle : ProposalId → Outcome → Handler F cfg
  settle id done = deposit_event F cfg (proposal_executed id)
  settle id (failed err_bytes) = do
    deposit_event F cfg (proposal_failed id err_bytes)
    ensure false execution_failed

  pub execute : Env → F.RuntimeOrigin → ProposalId → Handler F cfg
  execute env origin proposal_id = do
    who ← signer (F.ensure_signed origin)
    try_mutate (proposals F cfg) proposal_id λ maybe. do
      p ← ok_or maybe proposal_not_found
      ensure (not p.executed) proposal_already_executed
      ensure (ltb p.end env.block_number) voting_closed
      ensure (leb p.quorum (total_votes p)) quorum_not_reached
      ensure (leb p.pass_threshold (pass_percent_x100 p)) proposal_not_passed
      decoded_call ← ok_or (cfg.decode p.call) invalid_call_encoding
      result ← dispatch_decoded env decoded_call
      settle proposal_id result
      pure (some (record p { executed = true }))

  pub cancel : F.RuntimeOrigin → ProposalId → Handler F cfg
  cancel origin proposal_id = do
    ensure_origin (cfg.router_admin_origin origin)
    try_mutate (proposals F cfg) proposal_id
        λ maybe. do p ← ok_or maybe proposal_not_found; pure none
    deposit_event F cfg (proposal_cancelled proposal_id)
