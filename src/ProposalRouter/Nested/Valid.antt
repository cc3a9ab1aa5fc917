-- ===== src/ProposalRouter/Nested/Valid.antt =====
-- The storage invariant of pallets/proposal-router/src/lib.rs over histories of runtime calls.
use contradots_techconnect_c.Base.{ℕ, ◌≤◌, Option, none, some, List, u32_max}
use contradots_techconnect_c.Frame.{Frame}
use contradots_techconnect_c.Extrinsics.{Extrinsic}
use contradots_techconnect_c.ProposalRouter.{Config, World, Proposal, empty_storage}
use contradots_techconnect_c.ProposalRouter.Tally.{
  IsTalliedAt, IsValid, Effect-IsValid, empty-IsValid,
}
use contradots_techconnect_c.ProposalRouter.Nested.{Dispatcher, with_dispatcher, Runtime, run_at}
use contradots_techconnect_c.ProposalRouter.Nested.Histories.{run_at-Keeps}

-- The predicates of the router do not depend on how the runtime dispatches.
module _ {F : Frame} (cfg : Config F) (d : Dispatcher F cfg) where
  IsTalliedAt-with_dispatcher :
      (id : ℕ) (p : Option Proposal)
      → IsTalliedAt F cfg id p
      → IsTalliedAt F (with_dispatcher F cfg d) id p
  IsTalliedAt-with_dispatcher id none t = tt
  IsTalliedAt-with_dispatcher id (some p) t = record {
    own_id = t.own_id;
    tallied = t.tallied;
    bounded = t.bounded;
    distinct = t.distinct;
    fits = t.fits;
  }

  IsValid-with_dispatcher :
      (s : World F cfg) → IsValid F cfg s → IsValid F (with_dispatcher F cfg d) s
  IsValid-with_dispatcher s v = record {
    proposals_valid =
        λ id. IsTalliedAt-with_dispatcher id (F.get s.proposals id) (v.proposals_valid id);
    index_bounded = v.index_bounded;
  }

module _ {F : Frame} {cfg : Config F} (R : Runtime F cfg) where
  -- Where a `u32` bounds the voters, every history of runtime calls, nested to any depth, leaves
  -- proposals stored under their own identifiers, each with one vote for each of its voters, who
  -- are different accounts and within the bound, and the index of each club within 1024 entries.
  pub run_at-IsValid :
      cfg.max_voters_per_proposal ≤ u32_max
      → (n : ℕ) (xs : List (Extrinsic F cfg.RuntimeCall)) (rest : cfg.Rest)
      → IsValid F cfg (run_at R n (empty_storage F cfg rest) xs)
  run_at-IsValid small n xs rest =
      run_at-Keeps R (IsValid F cfg)
        (λ s r v. record { proposals_valid = v.proposals_valid; index_bounded = v.index_bounded })
        (λ m kept env o call s s' v e.
          let d = R.dispatch_at m in
          IsValid-with_dispatcher (with_dispatcher F cfg d) cfg.dispatch_call s' (
            Effect-IsValid F (with_dispatcher F cfg d) small
              (λ env c o s v. IsValid-with_dispatcher cfg d _ (
                kept env c o s
                  (IsValid-with_dispatcher (with_dispatcher F cfg d) cfg.dispatch_call s v)))
              env o call s s' (IsValid-with_dispatcher cfg d s v) e))
        n xs (empty_storage F cfg rest) (empty-IsValid F cfg rest)
