-- ===== src/ProposalRouter/Nested/Records.antt =====
-- What the events of pallets/proposal-router/src/lib.rs record of executions, over histories of
-- runtime calls: `ProposalExecuted` and `ProposalFailed` of `execute`.
use contradots_techconnect_c.Base.{
  ℕ, suc, ◌<◌, ◌≡◌, refl, Bool, true, false, Option, none, some, List, [], ◌∷◌, arith,
  if◌then◌else◌,
}
use contradots_techconnect_c.Frame.{Frame, Env}
use contradots_techconnect_c.Extrinsics.{Extrinsic}
use contradots_techconnect_c.ProposalRouter.{
  Config, World, Proposal, Event, pallet_account, empty_storage,
}
use contradots_techconnect_c.ProposalRouter.Calls.{Call}
use contradots_techconnect_c.ProposalRouter.Effects.{Effect}
use contradots_techconnect_c.ProposalRouter.Once.{executions, count_vote-executed}
use contradots_techconnect_c.ProposalRouter.Nested.{Dispatcher, with_dispatcher, Runtime, run_at}
use contradots_techconnect_c.ProposalRouter.Nested.Histories.{run_at-Keeps}

abbrev is_failure : Event → Bool
is_failure (Event.proposal_failed k e) = true
is_failure (Event.proposal_executed k) = false
is_failure (Event.proposal_created k who is_club) = false
is_failure (Event.voted k who aye votes) = false
is_failure (Event.proposal_cancelled k) = false

-- How many events record a failed execution.
abbrev pub failures : List Event → ℕ
failures [] = 0
failures (e ∷ es) = let rest = failures es in if is_failure e then suc rest else rest

-- A proposal that is marked as executed has an event that says so.
abbrev pub IsRecordedAt : ℕ → List Event → Option Proposal → Type 0
IsRecordedAt id es none = Unit
IsRecordedAt id es (some p) = p.executed ≡ true → 0 < executions id es

module _ (F : Frame) (cfg : Config F) where
  -- No failed execution is recorded, and every stored proposal that is marked has its event.
  pub record IsRecorded (s : World F cfg) : Type 0 where
    pub no_failures : failures s.events ≡ 0
    pub recorded : (id : ℕ) → IsRecordedAt id s.events (F.get s.proposals id)

  Effect-IsRecorded :
      ((env : Env) (c : cfg.RuntimeCall) (o : F.RuntimeOrigin) (s : World F cfg)
        → IsRecorded s
        → IsRecorded (cfg.dispatch_call env c o s).1)
      → (env : Env) (o : F.RuntimeOrigin) (call : Call) (s s' : World F cfg) → IsRecorded s
      → Effect F cfg env o call s s'
      → IsRecorded s'
  Effect-IsRecorded keeps env o (Call.propose scope call md period quorum threshold) s s' i
        (who, h) =
      rw h.after (record {
        no_failures = i.no_failures;
        recorded = λ id. rw F.get-insert (ground (arith, i.recorded id));
      })
  Effect-IsRecorded keeps env o (Call.vote k aye) s s' i (who, p, h) = rw h.after (record {
    no_failures = i.no_failures;
    recorded =
        λ id. rw F.get-insert (ground (arith, i.recorded id, h.found, count_vote-executed aye p));
  })
  Effect-IsRecorded keeps env o (Call.execute k) s s' i (who, p, c, h) =
      let kept = keeps env c (F.signed (pallet_account F cfg)) s i in
      rw h.after (record {
        no_failures = kept.no_failures;
        recorded = λ id. rw F.get-insert (ground (arith, kept.recorded id));
      })
  Effect-IsRecorded keeps env o (Call.cancel k) s s' i (p, h) = rw h.after (record {
    no_failures = i.no_failures;
    recorded = λ id. rw F.get-remove (ground (arith, i.recorded id));
  })

  empty-IsRecorded : (rest : cfg.Rest) → IsRecorded (empty_storage F cfg rest)
  empty-IsRecorded rest = record { no_failures = refl; recorded = λ id. rw F.get-empty tt }

module _ {F : Frame} (cfg : Config F) (d : Dispatcher F cfg) where
  IsRecorded-with_dispatcher :
      (s : World F cfg) → IsRecorded F cfg s → IsRecorded F (with_dispatcher F cfg d) s
  IsRecorded-with_dispatcher s i = record { no_failures = i.no_failures; recorded = i.recorded }

  with_dispatcher-IsRecorded :
      (s : World F cfg) → IsRecorded F (with_dispatcher F cfg d) s → IsRecorded F cfg s
  with_dispatcher-IsRecorded s i = record { no_failures = i.no_failures; recorded = i.recorded }

module _ {F : Frame} {cfg : Config F} (R : Runtime F cfg) where
  -- From the empty storage, every history of runtime calls, nested in any way, leaves no
  -- `ProposalFailed` event, also where executions failed; and every stored proposal that is marked
  -- as executed has a `ProposalExecuted` event.
  pub run_at-IsRecorded :
      (n : ℕ) (xs : List (Extrinsic F cfg.RuntimeCall)) (rest : cfg.Rest)
      → IsRecorded F cfg (run_at R n (empty_storage F cfg rest) xs)
  run_at-IsRecorded n xs rest =
      run_at-Keeps R (IsRecorded F cfg)
        (λ s r i. record { no_failures = i.no_failures; recorded = i.recorded })
        (λ m kept env o call s s' i e.
          let d = R.dispatch_at m in
          with_dispatcher-IsRecorded cfg d s' (
            Effect-IsRecorded F (with_dispatcher F cfg d)
              (λ env c o s i.
                IsRecorded-with_dispatcher cfg d _
                  (kept env c o s (with_dispatcher-IsRecorded cfg d s i)))
              env o call s s' (IsRecorded-with_dispatcher cfg d s i) e))
        n xs (empty_storage F cfg rest) (empty-IsRecorded F cfg rest)
