-- ===== src/ProposalRouter/Refinement/Propose.antt =====
-- `propose` of pallets/proposal-router/src/lib.rs against its specification.
use contradots_techconnect_c.Base.{
  ℕ, ◌≡◌, true, Option, some, none, List, [], ◌∷◌, arith, is_some, length, ltb, ◌++◌, if◌then◌else◌,
  false,
}
use contradots_techconnect_c.Frame.{Frame, Env, ok}
use contradots_techconnect_c.ProposalRouter
use contradots_techconnect_c.ProposalRouter.{
  Bytes, Scope, club, global, Config, World, Proposal, push_index, unwrap_or,
}
use contradots_techconnect_c.ProposalRouter.Effects.{Proposes}

module _ (F : Frame) (cfg : Config F) where
  pub push_index_lem :
      (id : ℕ) (before : Option (List ℕ))
      → push_index F cfg id before ≡ (
          let v = unwrap_or before [] in
          if ltb (length v) 1024 then (true, some (v ++ id ∷ [])) else (false, before))
  push_index_lem id none = ground (arith, F.try_push_lem {A = ℕ} 1024 [] id)
  push_index_lem id (some v) = ground (arith, F.try_push_lem 1024 v id)

  pub propose-signer :
      (env : Env) (o : F.RuntimeOrigin) (scope : Scope) (call : Bytes) (metadata : Option Bytes)
      (period quorum threshold : Option ℕ) (s : World F cfg)
      → (ProposalRouter.propose F cfg env o scope call metadata period quorum threshold s).0 ≡ ok tt
      → is_some (F.ensure_signed o) ≡ true
  unfolding ProposalRouter.propose
  propose-signer env o scope call metadata period quorum threshold s h = ground arith

  pub propose-Proposes :
      (env : Env) (o : F.RuntimeOrigin) (scope : Scope) (call : Bytes) (metadata : Option Bytes)
      (period quorum threshold : Option ℕ) (s : World F cfg) (who : ℕ)
      → F.ensure_signed o ≡ some who
      → (ProposalRouter.propose F cfg env o scope call metadata period quorum threshold s).0 ≡ ok tt
      → Proposes F cfg env o scope call metadata period quorum threshold s
          (ProposalRouter.propose F cfg env o scope call metadata period quorum threshold s).1
          who
  unfolding ProposalRouter.propose
  propose-Proposes env o (club cid) call none period quorum threshold s who ewho h = ground (
    arith,
    F.try_from_lem {A = ℕ} cfg.max_voters_per_proposal [],
    push_index_lem s.next_proposal_id (F.get s.club_proposals cid),
  )
  propose-Proposes env o (club cid) call (some md) period quorum threshold s who ewho h = ground (
    arith,
    F.try_from_lem {A = ℕ} cfg.max_voters_per_proposal [],
    push_index_lem s.next_proposal_id (F.get s.club_proposals cid),
    F.try_from_lem cfg.max_metadata_len md,
  )
  propose-Proposes env o global call none period quorum threshold s who ewho h =
      ground (arith, F.try_from_lem {A = ℕ} cfg.max_voters_per_proposal [])
  propose-Proposes env o global call (some md) period quorum threshold s who ewho h = ground (
    arith,
    F.try_from_lem {A = ℕ} cfg.max_voters_per_proposal [],
    F.try_from_lem cfg.max_metadata_len md,
  )

  pub Proposes-propose :
      (env : Env) (o : F.RuntimeOrigin) (scope : Scope) (call : Bytes) (metadata : Option Bytes)
      (period quorum threshold : Option ℕ) (s s' : World F cfg) (who : ℕ)
      → Proposes F cfg env o scope call metadata period quorum threshold s s' who
      → ProposalRouter.propose F cfg env o scope call metadata period quorum threshold s
        ≡ (ok tt, s')
  unfolding ProposalRouter.propose
  Proposes-propose env o (club cid) call none period quorum threshold s s' who h = ground (
    arith,
    F.try_from_lem {A = ℕ} cfg.max_voters_per_proposal [],
    push_index_lem s.next_proposal_id (F.get s.club_proposals cid),
  )
  Proposes-propose env o (club cid) call (some md) period quorum threshold s s' who h = ground (
    arith,
    F.try_from_lem {A = ℕ} cfg.max_voters_per_proposal [],
    push_index_lem s.next_proposal_id (F.get s.club_proposals cid),
    F.try_from_lem cfg.max_metadata_len md,
  )
  Proposes-propose env o global call none period quorum threshold s s' who h =
      ground (arith, F.try_from_lem {A = ℕ} cfg.max_voters_per_proposal [])
  Proposes-propose env o global call (some md) period quorum threshold s s' who h = ground (
    arith,
    F.try_from_lem {A = ℕ} cfg.max_voters_per_proposal [],
    F.try_from_lem cfg.max_metadata_len md,
  )
