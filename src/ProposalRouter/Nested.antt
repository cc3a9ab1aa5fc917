-- ===== src/ProposalRouter/Nested.antt =====
-- `RuntimeCall: … From<Call<Self>>` of pallets/proposal-router/src/lib.rs: the runtime's calls are
-- the router's own and those of other pallets, and an executed proposal may dispatch either. How the
-- runtime dispatches them is FRAME's, and a parameter here: the record Runtime says what FRAME
-- documents of it. The children are about histories of runtime calls.
pub mod Histories
pub mod Valid
pub mod Once
pub mod Records
pub mod Cycles
pub mod Direct
mod Tests
use contradots_techconnect_c.Base.{ℕ, ◌<◌, ◌≡◌, List, [], ◌∷◌}
use contradots_techconnect_c.Frame.{Frame, Env, ok}
use contradots_techconnect_c.Extrinsics.{Extrinsic}
use contradots_techconnect_c.ProposalRouter.Data.{Config, World, Handler, Outcome, done, failed}
use contradots_techconnect_c.ProposalRouter.Calls.{Call, dispatch}

module _ (F : Frame) (cfg : Config F) where
  abbrev pub Dispatcher : Type 0
  Dispatcher = Env → cfg.RuntimeCall → F.RuntimeOrigin → World F cfg → Outcome × World F cfg

  -- The router in a runtime whose calls `d` dispatches.
  abbrev pub with_dispatcher : Dispatcher → Config F
  with_dispatcher d = record cfg { dispatch_call = d }

  abbrev pub dispatch_with : Dispatcher → Env → F.RuntimeOrigin → Call → Handler F cfg
  dispatch_with d = dispatch F (with_dispatcher d)

  -- Every dispatch keeps a predicate.
  abbrev pub Keeps : (World F cfg → Type 0) → Dispatcher → Type 0
  Keeps P d =
      (env : Env) (c : cfg.RuntimeCall) (o : F.RuntimeOrigin) (s : World F cfg)
      → P s
      → P (d env c o s).1

  -- A predicate on the storage that the storage of other pallets has no part in.
  abbrev pub IgnoresRest : (World F cfg → Type 0) → Type 0
  IgnoresRest P = (s : World F cfg) (rest : cfg.Rest) → P s → P (record s { rest = rest })

  -- What the dispatch of a call may do with `n` storage layers left, step by step: another pallet
  -- changes its own storage, or a call of the router is accepted with fewer layers left. What fails
  -- is rolled back, and leaves no step.
  pub data Reaches (dispatch_at : ℕ → Dispatcher) (n : ℕ) (s : World F cfg)
      : World F cfg → Type 0 where
    here : Reaches dispatch_at n s s
    other :
        {t : World F cfg}
        → Reaches dispatch_at n s t
        → (rest : cfg.Rest) → Reaches dispatch_at n s (record t { rest = rest })
    router :
        {t u : World F cfg}
        → Reaches dispatch_at n s t
        → (m : ℕ) → m < n
        → (env : Env) (o : F.RuntimeOrigin) (call : Call)
        → dispatch_with (dispatch_at m) env o call t ≡ (ok tt, u)
        → Reaches dispatch_at n s u

  -- The dispatch of the runtime's calls, with the storage layers that are left (at most 255): the
  -- router's storage changes only by calls of the router, each in a layer of its own, and a call of
  -- the router that is done is one that the router accepted.
  pub record Runtime : Type 1 where
    pub from_call : Call → cfg.RuntimeCall
    pub dispatch_at : ℕ → Dispatcher
    pub dispatch_at-Reaches :
        (n : ℕ) (env : Env) (c : cfg.RuntimeCall) (o : F.RuntimeOrigin) (s : World F cfg)
        → Reaches dispatch_at n s (dispatch_at n env c o s).1
    pub dispatch_at-from_call :
        (n : ℕ) (env : Env) (call : Call) (o : F.RuntimeOrigin) (s : World F cfg)
        → (dispatch_at n env (from_call call) o s).0 ≡ done
        → (m : ℕ) × (m < n)
          × (dispatch_with (dispatch_at m) env o call s
              ≡ (ok tt, (dispatch_at n env (from_call call) o s).1))

  -- An extrinsic of the runtime, which leaves no storage unless its call is done.
  abbrev pub accept : World F cfg → Outcome × World F cfg → World F cfg
  accept s (done, s') = s'
  accept s (failed e, s') = s

module _ {F : Frame} {cfg : Config F} (R : Runtime F cfg) where
  unfoldable pub run_at : ℕ → World F cfg → List (Extrinsic F cfg.RuntimeCall) → World F cfg
  run_at n s [] = s
  run_at n s (x ∷ xs) = run_at n (accept F cfg s (R.dispatch_at n x.env x.call x.origin s)) xs
