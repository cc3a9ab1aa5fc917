-- ===== src/ProposalRouter/Nested/Histories.antt =====
-- Histories of runtime calls (`RuntimeCall` of pallets/proposal-router/src/lib.rs): what the
-- router's accepted calls keep, every call of the runtime keeps, however calls nest.
use contradots_techconnect_c.Base.{ℕ, zero, suc, ◌<◌, ◌≡◌, List, [], ◌∷◌, subst, ap, arith}
use contradots_techconnect_c.Frame.{Frame, Env}
use contradots_techconnect_c.Extrinsics.{Extrinsic}
use contradots_techconnect_c.ProposalRouter.{Config, World, Outcome, done, failed}
use contradots_techconnect_c.ProposalRouter.Calls.{Call}
use contradots_techconnect_c.ProposalRouter.Effects.{Effect}
use contradots_techconnect_c.ProposalRouter.Refinement.{router_call-Effect}
use contradots_techconnect_c.ProposalRouter.Nested.{
  with_dispatcher, Keeps, IgnoresRest, Reaches, here, other, router, Runtime, accept, run_at,
}

module _ {F : Frame} {cfg : Config F} (R : Runtime F cfg) where
  accept_cases :
      (P : World F cfg → Type 0) (s : World F cfg) (x : Outcome × World F cfg)
      → P s
      → P x.1
      → P (accept F cfg s x)
  accept_cases P s (done, s') p p' = p'
  accept_cases P s (failed e, s') p p' = p

  module _ (P : World F cfg → Type 0) (ignores : IgnoresRest F cfg P)
      (keeps : (m : ℕ)
        → Keeps F cfg P (R.dispatch_at m)
        → (env : Env) (o : F.RuntimeOrigin) (call : Call) (s s' : World F cfg) → P s
        → Effect F (with_dispatcher F cfg (R.dispatch_at m)) env o call s s'
        → P s') where
    Reaches-Keeps :
        (n : ℕ)
        → ((m : ℕ) → m < n → Keeps F cfg P (R.dispatch_at m))
        → {s t : World F cfg} → Reaches F cfg R.dispatch_at n s t
        → P s
        → P t
    Reaches-Keeps n below here p = p
    Reaches-Keeps n below (other r rest) p = ignores _ rest (Reaches-Keeps n below r p)
    Reaches-Keeps n below (router {t} {u} r m less env o call e) p =
        keeps m (below m less) env o call t u (Reaches-Keeps n below r p) (
          subst (λ x. Effect F (with_dispatcher F cfg (R.dispatch_at m)) env o call t x.1) e
            (router_call-Effect F (with_dispatcher F cfg (R.dispatch_at m)) env o call t
              (ap (λ x. x.0) e)))

    below-Keeps : (n m : ℕ) → m < n → Keeps F cfg P (R.dispatch_at m)
    below-Keeps zero m less env c o s p = absurd (omega (arith, less))
    below-Keeps (suc n) m less env c o s p =
        Reaches-Keeps m (λ k less'. below-Keeps n k (omega (arith, less, less')))
          (R.dispatch_at-Reaches m env c o s) p

    pub dispatch_at-Keeps : (n : ℕ) → Keeps F cfg P (R.dispatch_at n)
    dispatch_at-Keeps n = below-Keeps (suc n) n (omega arith)

    pub run_at-Keeps :
        (n : ℕ) (xs : List (Extrinsic F cfg.RuntimeCall)) (s : World F cfg)
        → P s
        → P (run_at R n s xs)
    unfolding run_at
    run_at-Keeps n [] s p = p
    run_at-Keeps n (x ∷ xs) s p =
        run_at-Keeps n xs _ (accept_cases P s _ p (dispatch_at-Keeps n x.env x.call x.origin s p))

  -- A call of the router that is done was accepted by the router, with fewer layers left.
  pub done-Effect_below :
      (n : ℕ) (env : Env) (call : Call) (o : F.RuntimeOrigin) (s : World F cfg)
      → (R.dispatch_at n env (R.from_call call) o s).0 ≡ done
      → (m : ℕ) × (m < n)
        × Effect F
            (with_dispatcher F cfg (R.dispatch_at m))
            env
            o
            call
            s
            (R.dispatch_at n env (R.from_call call) o s).1
  done-Effect_below n env call o s h =
      let (m, less, e) = R.dispatch_at-from_call n env call o s h in
      (
        m,
        less,
        subst (λ x. Effect F (with_dispatcher F cfg (R.dispatch_at m)) env o call s x.1) e
            (router_call-Effect F (with_dispatcher F cfg (R.dispatch_at m)) env o call s
              (ap (λ x. x.0) e)),
      )

  pub done-Effect :
      (n : ℕ) (env : Env) (call : Call) (o : F.RuntimeOrigin) (s : World F cfg)
      → (R.dispatch_at n env (R.from_call call) o s).0 ≡ done
      → (m : ℕ) × Effect F
          (with_dispatcher F cfg (R.dispatch_at m))
          env
          o
          call
          s
          (R.dispatch_at n env (R.from_call call) o s).1
  done-Effect n env call o s h =
      let (m, less, effect) = done-Effect_below n env call o s h in (m, effect)
