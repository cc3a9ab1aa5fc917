-- ===== src/Runtime/Bootstrap.antt =====
-- runtime/src/lib.rs: `RootClubAdminOrigin = EnsureRoot`, and what accounts can do without root.
use contradots_techconnect_c.Base.{ℕ, ◌≡◌, refl, subst, Bool, true, false, List, arith, all}
use contradots_techconnect_c.Frame.{Env, ok}
use contradots_techconnect_c.Frame.Memory.{memory, RawOrigin, root, signed}
use contradots_techconnect_c.Extrinsics
use contradots_techconnect_c.Extrinsics.{Extrinsic}
use contradots_techconnect_c.MemberRegistry.{Storage, genesis}
use contradots_techconnect_c.MemberRegistry.Calls.{Call, run, submit, dispatch}
use contradots_techconnect_c.MemberRegistry.Effects.{Effect}
use contradots_techconnect_c.MemberRegistry.Refinement.{dispatch-Effect}
use contradots_techconnect_c.Runtime.{member_registry_config}

abbrev pub is_signed : Extrinsic memory Call → Bool
is_signed x = elim x.origin as (λ _. Bool) [ root ↦ false | signed who ↦ true ]

-- Without a club, no call of an account is accepted.
signed_call_refused :
    (env : Env) (who : ℕ) (call : Call) (s' : Storage memory)
    → ¬ Effect memory member_registry_config env (signed who) call (genesis memory) s'
signed_call_refused env who (Call.create_club name admin meta) s' h = ground (arith, h.allowed)
signed_call_refused env who (Call.add_officer club a) s' (c, h) = ground (arith, h.club_found)
signed_call_refused env who (Call.remove_officer club a) s' (c, h) = ground (arith, h.club_found)
signed_call_refused env who (Call.create_attestation a club expiry meta) s' (w, c, h) =
    ground (arith, h.club_found)
signed_call_refused env who (Call.register_member id) s' (att, c, h) = ground (arith, h.club_found)
signed_call_refused env who (Call.add_member_admin a club) s' (c, h) = ground (arith, h.club_found)
signed_call_refused env who (Call.remove_member_admin a club) s' (c, m, h) =
    ground (arith, h.club_found)
signed_call_refused env who (Call.set_role a role) s' (m, h) = ground (arith, h.allowed)
signed_call_refused env who (Call.revoke_attestation id) s' (w, att, c, h) =
    ground (arith, h.club_found)

signed_extrinsic_refused :
    (env : Env) (o : RawOrigin) (call : Call) (s' : Storage memory)
    → is_signed (record { env = env; origin = o; call = call }) ≡ true
    → ¬ Effect memory member_registry_config env o call (genesis memory) s'
signed_extrinsic_refused env root call s' h e = ground arith
signed_extrinsic_refused env (signed who) call s' h e = signed_call_refused env who call s' e

-- In this runtime, where the registry's privileged origin is root, every history of calls that
-- accounts sign leaves the registry empty: only root makes the first club.
pub signed_history_changes_nothing :
    (xs : List (Extrinsic memory Call))
    → all is_signed xs ≡ true
    → run memory member_registry_config (genesis memory) xs ≡ genesis memory
unfolding run
signed_history_changes_nothing xs h =
    Extrinsics.run_inv_all (submit memory member_registry_config) (λ s. s ≡ genesis memory)
      is_signed
      (λ x s hx e accepted.
        let accepted' =
          subst (λ t. (dispatch memory member_registry_config x.env x.origin x.call t).0 ≡ ok tt) e
            accepted in
        absurd (
          signed_extrinsic_refused x.env x.origin x.call _ hx (
            dispatch-Effect memory member_registry_config x.env x.origin x.call (genesis memory)
              accepted')))
      xs h (genesis memory) refl
