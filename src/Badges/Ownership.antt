-- ===== src/Badges/Ownership.antt =====
-- Who holds a badge of pallets/badges/src/lib.rs, and how that changes.
use contradots_techconnect_c.Base.{
  ℕ, ◌+◌, ◌≤◌, ◌<◌, ◌≡◌, ◌⊎◌, Bool, true, false, Option, none, some, List, arith, min, u32_max,
  u64_max, refl,
}
use contradots_techconnect_c.Frame.{Frame, Env, ok}
use contradots_techconnect_c.Extrinsics.{Extrinsic}
use contradots_techconnect_c.Badges
use contradots_techconnect_c.Badges.{Hash, Config, Storage, ClassInfo, BadgeInstance}
use contradots_techconnect_c.Badges.Calls.{Call, dispatch, run}
use contradots_techconnect_c.Badges.Effects.{Effect, next_id}
use contradots_techconnect_c.Badges.Refinement.{badge_call-Effect}
use contradots_techconnect_c.Badges.History.{run_inv}
use contradots_techconnect_c.Badges.Invariant.{IsValid, Effect-IsValid}

-- All of a badge but its owner.
abbrev pub IsSameBadge : BadgeInstance → BadgeInstance → Type 0
IsSameBadge b b' =
    (b'.issued_at ≡ b.issued_at)
    × (b'.issuer ≡ b.issuer)
    × (b'.uri_hash ≡ b.uri_hash)
    × (b'.transferable ≡ b.transferable)
    × (b'.soulbound ≡ b.soulbound)

module _ (F : Frame) (cfg : Config F) where
  -- What a call may do to a badge: nothing, a revocation by the creator of the class, or a
  -- transfer by the owner of a badge that is transferable and not soulbound.
  abbrev pub Allowed : Option ℕ → Option ClassInfo → BadgeInstance → Option BadgeInstance → Type 0
  Allowed signer none b none = ⊥
  Allowed signer (some c) b none = signer ≡ some c.creator
  Allowed signer c b (some b') =
      IsSameBadge b b'
      × ((b'.owner ≡ b.owner)
          ⊎ ((signer ≡ some b.owner) × (b.soulbound ≡ false) × (b.transferable ≡ true)))

  -- An accepted call keeps a badge that was issued before, with all but its owner, or its signer
  -- is the creator of the class and the badge is revoked; and where the owner differs, its signer
  -- was the owner, and the badge transferable and not soulbound.
  pub badge_change-Allowed :
      (env : Env) (o : F.RuntimeOrigin) (call : Call) (k i : ℕ) (b : BadgeInstance) (s : Storage F)
      → F.double_get s.badge_instances k i ≡ some b
      → i < next_id F s k
      → (dispatch F cfg env o call s).0 ≡ ok tt
      → Allowed
          (F.ensure_signed o)
          (F.get s.classes k)
          b
          (F.double_get (dispatch F cfg env o call s).1.badge_instances k i)
  badge_change-Allowed env o (Call.create_class hash club tr sb) k i b s e lt h =
      let (who, r) = badge_call-Effect F cfg env o (Call.create_class hash club tr sb) s h in
      rw (r.after, e) (ground arith)
  badge_change-Allowed env o (Call.issue_badge class to uri tr sb) k i b s e lt h =
      let (c, r) = badge_call-Effect F cfg env o (Call.issue_badge class to uri tr sb) s h in
      rw (r.after, F.double_get-double_insert, e) (ground arith)
  badge_change-Allowed env o (Call.revoke_badge class id) k i b s e lt h =
      let (c, b', r) = badge_call-Effect F cfg env o (Call.revoke_badge class id) s h in
      rw (r.after, F.double_get-double_remove, e) (ground (arith, r.found, r.signed))
  badge_change-Allowed env o (Call.transfer_badge class id to) k i b s e lt h =
      let (b', r) = badge_call-Effect F cfg env o (Call.transfer_badge class id to) s h in
      rw (r.after, F.double_get-double_insert, e)
        (ground (arith, e, r.found, r.signed, r.free, r.movable))

  -- Issuing gives the badge to the account named, under the next identifier of the class, with
  -- the flags asked for or the defaults of the class, and leaves every other badge.
  pub issue_badge_owner :
      (env : Env) (o : F.RuntimeOrigin) (class to : ℕ) (uri : Hash) (tr sb : Option Bool) (k i : ℕ)
      (s : Storage F)
      → (dispatch F cfg env o (Call.issue_badge class to uri tr sb) s).0 ≡ ok tt
      → let s' = (dispatch F cfg env o (Call.issue_badge class to uri tr sb) s).1 in
        (Badges.owner_of F s' class (next_id F s class) ≡ some to)
        × ((k ≡ class) × (i ≡ next_id F s class)
            ⊎ (F.double_get s'.badge_instances k i ≡ F.double_get s.badge_instances k i))
  unfolding Badges.owner_of
  issue_badge_owner env o class to uri tr sb k i s h =
      let (c, r) = badge_call-Effect F cfg env o (Call.issue_badge class to uri tr sb) s h in
      (
        rw (r.after, F.double_get-double_insert) (ground arith),
        rw (r.after, F.double_get-double_insert) (ground arith),
      )

  -- Nobody can take the badge, or it is gone.
  abbrev Stays : BadgeInstance → Option BadgeInstance → Type 0
  Stays b none = Unit
  Stays b (some b') = b' ≡ b

  module _ (classes_bounded : cfg.max_classes ≤ u32_max)
      (instances_bounded : cfg.max_instances_per_class ≤ u32_max) where
    Effect-Stays :
        (env : Env) (o : F.RuntimeOrigin) (call : Call) (k i : ℕ) (b : BadgeInstance)
        (s s' : Storage F)
        → (b.soulbound ≡ true) ⊎ (b.transferable ≡ false)
        → IsValid F cfg s
        → (i < next_id F s k) × Stays b (F.double_get s.badge_instances k i)
        → Effect F cfg env o call s s'
        → (i < next_id F s' k) × Stays b (F.double_get s'.badge_instances k i)
    Effect-Stays env o (Call.create_class hash club tr sb) k i b s s' fixed v p (who, h) =
        rw h.after p
    Effect-Stays env o (Call.issue_badge class to uri tr sb) k i b s s' fixed v p (c, h) =
        rw (h.after, F.double_get-double_insert)
          (ground (
            arith,
            F.get-insert s.next_instance_id class (min (next_id F s class + 1) u64_max) k,
            h.room,
          ))
    Effect-Stays env o (Call.revoke_badge class id) k i b s s' fixed v p (c, b', h) =
        rw (h.after, F.double_get-double_remove) (ground arith)
    Effect-Stays env o (Call.transfer_badge class id to) k i b s s' fixed v p (b', h) =
        rw (h.after, F.double_get-double_insert) (ground (arith, h.found, h.free, h.movable))

    run-Stays :
        (xs : List (Extrinsic F Call)) (k i : ℕ) (b : BadgeInstance) (s : Storage F)
        → (b.soulbound ≡ true) ⊎ (b.transferable ≡ false)
        → IsValid F cfg s
        → F.double_get s.badge_instances k i ≡ some b
        → Stays b (F.double_get (run F cfg s xs).badge_instances k i)
    run-Stays xs k i b s fixed v e =
        (run_inv F cfg
          (λ t.
            IsValid F cfg t × ((i < next_id F t k) × Stays b (F.double_get t.badge_instances k i)))
          (λ x t t' p h. (
            Effect-IsValid F cfg classes_bounded instances_bounded x.env x.origin x.call t t' p.0 h,
            Effect-Stays x.env x.origin x.call k i b t t' fixed p.0 p.1 h,
          ))
          xs s (v, (ground (arith, v.instances_issued k i), rw e refl))).1.1

    -- With limits that are `u32`, and from a valid storage: after any history a badge that is
    -- soulbound or not transferable is as it was, its owner included, or there is no badge under
    -- its identifier.
    pub fixed_badge_stays :
        (xs : List (Extrinsic F Call)) (k i : ℕ) (b : BadgeInstance) (s : Storage F)
        → (b.soulbound ≡ true) ⊎ (b.transferable ≡ false)
        → IsValid F cfg s
        → F.double_get s.badge_instances k i ≡ some b
        → (F.double_get (run F cfg s xs).badge_instances k i ≡ none)
          ⊎ (F.double_get (run F cfg s xs).badge_instances k i ≡ some b)
    fixed_badge_stays xs k i b s fixed v e = ground (arith, run-Stays xs k i b s fixed v e)
