-- ===== src/ProposalRouter/Effects.antt =====
-- The calls of pallets/proposal-router/src/lib.rs as a specification: when a call is accepted, and
-- the storage that it leaves.
use contradots_techconnect_c.Base.{
  ℕ, ◌+◌, ◌<◌, ◌≤◌, ◌≡◌, Bool, true, false, Option, none, some, List, [], ◌∷◌, ◌++◌, length,
  contains, min, u32_max, u64_max,
}
use contradots_techconnect_c.Frame.{Frame, Env}
use contradots_techconnect_c.ProposalRouter.{
  Bytes, Scope, club, global, Config, World, Proposal, Event, done, unwrap_or, club_of, is_club,
  count_vote, pass_percent_x100, pallet_account,
}
use contradots_techconnect_c.ProposalRouter.Calls.{Call}

-- The metadata of a proposal fits.
abbrev pub Fits : ℕ → Option Bytes → Type 0
Fits bound none = Unit
Fits bound (some md) = length md ≤ bound

module _ (F : Frame) (cfg : Config F) where
  open F use {RuntimeOrigin, StorageMap, get, insert, remove, ensure_signed, signed}

  -- The proposals of a club, an absent index being empty.
  abbrev pub listed : StorageMap (List ℕ) → ℕ → List ℕ
  listed m cid = unwrap_or (get m cid) []

  -- A club's index has room; a global proposal needs none.
  abbrev pub HasRoom : Scope → StorageMap (List ℕ) → Type 0
  HasRoom (club cid) m = length (listed m cid) < 1024
  HasRoom global m = Unit

  abbrev pub add_to_index : Scope → ℕ → StorageMap (List ℕ) → StorageMap (List ℕ)
  add_to_index (club cid) id m = insert m cid (listed m cid ++ id ∷ [])
  add_to_index global id m = m

  abbrev pub proposed :
      Env → Scope → Bytes → Option Bytes → Option ℕ → Option ℕ → Option ℕ → ℕ → ℕ → Proposal
  proposed env scope call metadata period quorum threshold id who = record {
    id = id;
    proposer = who;
    scope = scope;
    call = call;
    metadata = metadata;
    start = env.block_number;
    end = min (env.block_number + unwrap_or period cfg.default_voting_period) cfg.max_block_number;
    yea = 0;
    nay = 0;
    executed = false;
    voters = [];
    quorum = unwrap_or quorum cfg.default_quorum;
    pass_threshold = unwrap_or threshold cfg.default_pass_threshold;
    proposal_club = club_of scope;
  }

  -- Any signer proposes, with metadata that fits, where the club's index has room.
  pub record Proposes (env : Env) (o : RuntimeOrigin) (scope : Scope) (call : Bytes)
      (metadata : Option Bytes) (period quorum threshold : Option ℕ) (s s' : World F cfg) (who : ℕ)
      : Type 0 where
    pub origin_signed : ensure_signed o ≡ some who
    pub fits : Fits cfg.max_metadata_len metadata
    pub room : HasRoom scope s.club_proposals
    pub after : s' ≡ record s {
      next_proposal_id = min (s.next_proposal_id + 1) u64_max;
      proposals =
          insert s.proposals s.next_proposal_id
            (proposed env scope call metadata period quorum threshold s.next_proposal_id who);
      club_proposals = add_to_index scope s.next_proposal_id s.club_proposals;
      events = Event.proposal_created s.next_proposal_id who (is_club scope) ∷ s.events;
    }

  -- A signer who has not voted votes in the voting period, where there is room for a voter.
  pub record VotesOn (env : Env) (o : RuntimeOrigin) (id : ℕ) (aye : Bool) (s s' : World F cfg)
      (who : ℕ) (p : Proposal) : Type 0 where
    pub origin_signed : ensure_signed o ≡ some who
    pub found : get s.proposals id ≡ some p
    pub begun : p.start ≤ env.block_number
    pub open_still : env.block_number ≤ p.end
    pub fresh : contains p.voters who ≡ false
    pub room : length p.voters < cfg.max_voters_per_proposal
    pub after : s' ≡ record s {
      proposals =
          insert s.proposals id (record (count_vote aye p) { voters = p.voters ++ who ∷ [] });
      events = Event.voted id who aye 1 ∷ s.events;
    }

  -- Anybody executes a proposal that was not executed, after the voting period, with a quorum and
  -- the share of votes asked for; the call is dispatched by the pallet's account, and succeeds.
  pub record Executes (env : Env) (o : RuntimeOrigin) (id : ℕ) (s s' : World F cfg) (who : ℕ)
      (p : Proposal) (c : cfg.RuntimeCall) : Type 0 where
    pub origin_signed : ensure_signed o ≡ some who
    pub found : get s.proposals id ≡ some p
    pub unexecuted : p.executed ≡ false
    pub ended : p.end < env.block_number
    pub quorate : p.quorum ≤ min (p.yea + p.nay) u32_max
    pub passed : p.pass_threshold ≤ pass_percent_x100 p
    pub decoded : cfg.decode p.call ≡ some c
    pub dispatched : (cfg.dispatch_call env c (signed (pallet_account F cfg)) s).0 ≡ done
    pub after : s' ≡ (
        let s1 = (cfg.dispatch_call env c (signed (pallet_account F cfg)) s).1 in
        record s1 {
          proposals = insert s1.proposals id (record p { executed = true });
          events = Event.proposal_executed id ∷ s1.events;
        })

  -- The admin origin takes a proposal away.
  pub record Cancels (o : RuntimeOrigin) (id : ℕ) (s s' : World F cfg) (p : Proposal) : Type 0 where
    pub allowed : cfg.router_admin_origin o ≡ true
    pub found : get s.proposals id ≡ some p
    pub after : s' ≡ record s {
      proposals = remove s.proposals id;
      events = Event.proposal_cancelled id ∷ s.events;
    }

  -- The call is accepted in `s`, and leaves `s'`.
  abbrev pub Effect : Env → RuntimeOrigin → Call → World F cfg → World F cfg → Type 0
  Effect env o (Call.propose scope call metadata period quorum threshold) s s' =
      (who : ℕ) × Proposes env o scope call metadata period quorum threshold s s' who
  Effect env o (Call.vote id aye) s s' =
      (who : ℕ) × (p : Proposal) × VotesOn env o id aye s s' who p
  Effect env o (Call.execute id) s s' =
      (who : ℕ) × (p : Proposal) × (c : cfg.RuntimeCall) × Executes env o id s s' who p c
  Effect env o (Call.cancel id) s s' = (p : Proposal) × Cancels o id s s' p
