-- ===== src/ProposalRouter/Tally.antt =====
-- pallets/proposal-router/src/lib.rs: the votes of a proposal are those of its voters.
use contradots_techconnect_c.Base.{
  ℕ, ◌+◌, ◌≤◌, ◌<◌, ◌≡◌, refl, subst, inl, inr, Bool-cases, Bool, true, false, Option, none, some,
  List, [], ◌∷◌, ◌++◌, ◌==◌, length, length-append, contains, count, count-append,
  contains_iff-count, arith, u32_max,
}
use contradots_techconnect_c.Frame.{Frame, Env}
use contradots_techconnect_c.Extrinsics.{Extrinsic}
use contradots_techconnect_c.ProposalRouter.{
  Config, World, Proposal, club, global, count_vote, empty_storage, pallet_account,
}
use contradots_techconnect_c.ProposalRouter.Calls.{Call, run}
use contradots_techconnect_c.ProposalRouter.Effects.{Effect, Fits, listed}
use contradots_techconnect_c.ProposalRouter.History.{run_inv}

module _ (F : Frame) (cfg : Config F) where
  -- A proposal stored under its own identifier, with one vote for each of its voters, who are
  -- different accounts and not too many.
  pub record IsTallied (id : ℕ) (p : Proposal) : Type 0 where
    pub own_id : p.id ≡ id
    pub tallied : p.yea + p.nay ≡ length p.voters
    pub bounded : length p.voters ≤ cfg.max_voters_per_proposal
    pub distinct : (a : ℕ) → count a p.voters ≤ 1
    pub fits : Fits cfg.max_metadata_len p.metadata

  abbrev pub IsTalliedAt : ℕ → Option Proposal → Type 0
  IsTalliedAt id none = Unit
  IsTalliedAt id (some p) = IsTallied id p

  pub record IsValid (s : World F cfg) : Type 0 where
    pub proposals_valid : (id : ℕ) → IsTalliedAt id (F.get s.proposals id)
    pub index_bounded : (cid : ℕ) → length (listed F cfg s.club_proposals cid) ≤ 1024

  pub empty-IsValid : (rest : cfg.Rest) → IsValid (empty_storage F cfg rest)
  empty-IsValid rest = record {
    proposals_valid = λ id. rw F.get-empty tt;
    index_bounded = λ cid. rw F.get-empty (omega arith);
  }

  new-IsTallied :
      (id : ℕ) (p : Proposal)
      → Fits cfg.max_metadata_len p.metadata
      → p.id ≡ id
      → p.yea ≡ 0
      → p.nay ≡ 0
      → p.voters ≡ []
      → IsTallied id p
  new-IsTallied id p fits own yea nay voters = record {
    own_id = own;
    tallied = ground (arith, yea, nay, voters);
    bounded = ground (arith, voters);
    distinct = λ a. ground (arith, voters);
    fits = fits;
  }

  vote-IsTallied :
      cfg.max_voters_per_proposal ≤ u32_max
      → (id who : ℕ) (aye : Bool) (p : Proposal) → IsTallied id p
      → contains p.voters who ≡ false
      → length p.voters < cfg.max_voters_per_proposal
      → IsTallied id (record (count_vote aye p) { voters = p.voters ++ who ∷ [] })
  vote-IsTallied small id who true p i fresh room = record {
    own_id = i.own_id;
    tallied = ground (arith, i.tallied, length-append p.voters (who ∷ []));
    bounded = ground (arith, length-append p.voters (who ∷ []));
    distinct = λ a.
        ground (
          arith,
          i.distinct a,
          count-append a p.voters (who ∷ []),
          contains_iff-count p.voters who,
        );
    fits = i.fits;
  }
  vote-IsTallied small id who false p i fresh room = record {
    own_id = i.own_id;
    tallied = ground (arith, i.tallied, length-append p.voters (who ∷ []));
    bounded = ground (arith, length-append p.voters (who ∷ []));
    distinct = λ a.
        ground (
          arith,
          i.distinct a,
          count-append a p.voters (who ∷ []),
          contains_iff-count p.voters who,
        );
    fits = i.fits;
  }

  found-IsTallied :
      (id : ℕ) (p : Proposal) (before : Option Proposal)
      → before ≡ some p
      → IsTalliedAt id before
      → IsTallied id p
  found-IsTallied id p before e i = subst (IsTalliedAt id) e i

  -- Storing a valid proposal, or removing one, keeps the others.
  insert-IsTalliedAt :
      (m : F.StorageMap Proposal) (k : ℕ) (p : Proposal)
      → ((id : ℕ) → IsTalliedAt id (F.get m id))
      → IsTallied k p
      → (id : ℕ) → IsTalliedAt id (F.get (F.insert m k p) id)
  insert-IsTalliedAt m k p valid new id = rw F.get-insert (elim (Bool-cases (k == id)) [
    | inl e ↦ rw e (subst (λ j. IsTallied j p) (ground (arith, e)) new)
    | inr e ↦ rw e (valid id)
  ])

  remove-IsTalliedAt :
      (m : F.StorageMap Proposal) (k : ℕ)
      → ((id : ℕ) → IsTalliedAt id (F.get m id))
      → (id : ℕ) → IsTalliedAt id (F.get (F.remove m k) id)
  remove-IsTalliedAt m k valid id =
      rw F.get-remove (elim (Bool-cases (k == id)) [ inl e ↦ rw e tt | inr e ↦ rw e (valid id) ])

  module _ (small : cfg.max_voters_per_proposal ≤ u32_max)
      (keeps : (env : Env) (c : cfg.RuntimeCall) (o : F.RuntimeOrigin) (s : World F cfg)
        → IsValid s
        → IsValid (cfg.dispatch_call env c o s).1) where
    pub Effect-IsValid :
        (env : Env) (o : F.RuntimeOrigin) (call : Call) (s s' : World F cfg)
        → IsValid s
        → Effect F cfg env o call s s'
        → IsValid s'
    Effect-IsValid env o (Call.propose (club cid) call md period quorum threshold) s s' i (who, h) =
        rw h.after (record {
          proposals_valid =
              insert-IsTalliedAt s.proposals s.next_proposal_id _ i.proposals_valid
                (new-IsTallied s.next_proposal_id _ h.fits refl refl refl refl);
          index_bounded = λ k. rw F.get-insert (
              ground (
                arith,
                h.room,
                i.index_bounded k,
                length-append (listed F cfg s.club_proposals cid) (s.next_proposal_id ∷ []),
              ));
        })
    Effect-IsValid env o (Call.propose global call md period quorum threshold) s s' i (who, h) =
        rw h.after (record {
          proposals_valid =
              insert-IsTalliedAt s.proposals s.next_proposal_id _ i.proposals_valid
                (new-IsTallied s.next_proposal_id _ h.fits refl refl refl refl);
          index_bounded = i.index_bounded;
        })
    Effect-IsValid env o (Call.vote id aye) s s' i (who, p, h) = rw h.after (record {
      proposals_valid = insert-IsTalliedAt s.proposals id _ i.proposals_valid (
          vote-IsTallied small id who aye p (found-IsTallied id p _ h.found (i.proposals_valid id))
            h.fresh h.room);
      index_bounded = i.index_bounded;
    })
    Effect-IsValid env o (Call.execute id) s s' i (who, p, c, h) =
        let after = keeps env c (F.signed (pallet_account F cfg)) s i in
        let old = found-IsTallied id p _ h.found (i.proposals_valid id) in
        rw h.after (record {
          proposals_valid = insert-IsTalliedAt _ id _ after.proposals_valid (record {
            own_id = old.own_id;
            tallied = old.tallied;
            bounded = old.bounded;
            distinct = old.distinct;
            fits = old.fits;
          });
          index_bounded = after.index_bounded;
        })
    Effect-IsValid env o (Call.cancel id) s s' i (p, h) = rw h.after (record {
      proposals_valid = remove-IsTalliedAt s.proposals id i.proposals_valid;
      index_bounded = i.index_bounded;
    })

    -- Where a `u32` bounds the voters, and the calls that are executed keep it, every history
    -- leaves proposals stored under their own identifiers, each with one vote for each of its
    -- voters, who are different accounts and within the bound, and the index of each club within
    -- 1024 entries.
    pub run-router-IsValid :
        (xs : List (Extrinsic F Call)) (rest : cfg.Rest)
        → IsValid (run F cfg (empty_storage F cfg rest) xs)
    run-router-IsValid xs rest =
        run_inv F cfg IsValid (λ x s s' p e. Effect-IsValid x.env x.origin x.call s s' p e) xs
          (empty_storage F cfg rest) (empty-IsValid rest)
