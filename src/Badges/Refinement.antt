-- ===== src/Badges/Refinement.antt =====
-- The dispatchables of the badges pallet accept exactly what the specification accepts, and leave
-- the storage that it says.
use contradots_techconnect_c.Base.{
  ap, subst, ◌↔◌, ℕ, ◌≡◌, Bool, true, Option, none, some, List, [], arith, value_of, is_some,
}
use contradots_techconnect_c.Frame.{Frame, Env, ok}
use contradots_techconnect_c.Badges
use contradots_techconnect_c.Badges.{
  Hash, Config, Storage, ClassInfo, BadgeInstance, index_instance,
}
use contradots_techconnect_c.Badges.Calls.{Call, dispatch}
use contradots_techconnect_c.Badges.Effects.{
  Effect, CreatesClass, Issues, RevokesBadge, Transfers, next_id, indexed,
}

module _ (F : Frame) (cfg : Config F) where
  index_instance-indexed :
      (id : ℕ) (index : Option (List ℕ)) → index_instance F id index ≡ some (indexed id index)
  index_instance-indexed id none =
      ground (arith, F.try_from_lem {A = ℕ} 1024 [], F.try_push_lem {A = ℕ} 1024 [] id)
  index_instance-indexed id (some v) = ground (arith, F.try_push_lem 1024 v id)

  create_class-signer :
      (o : F.RuntimeOrigin) (hash : Hash) (club : Option ℕ) (transferable soulbound : Bool)
      (s : Storage F)
      → (Badges.create_class F cfg o hash club transferable soulbound s).0 ≡ ok tt
      → is_some (F.ensure_signed o) ≡ true
  unfolding Badges.create_class
  create_class-signer o hash club transferable soulbound s h = ground arith

  create_class-CreatesClass :
      (o : F.RuntimeOrigin) (hash : Hash) (club : Option ℕ) (transferable soulbound : Bool)
      (s : Storage F) (who : ℕ)
      → F.ensure_signed o ≡ some who
      → (Badges.create_class F cfg o hash club transferable soulbound s).0 ≡ ok tt
      → CreatesClass F cfg o hash club transferable soulbound s
          (Badges.create_class F cfg o hash club transferable soulbound s).1
          who
  unfolding Badges.create_class
  create_class-CreatesClass o hash club transferable soulbound s who ewho h = ground arith

  CreatesClass-create_class :
      (o : F.RuntimeOrigin) (hash : Hash) (club : Option ℕ) (transferable soulbound : Bool)
      (s s' : Storage F) (who : ℕ)
      → CreatesClass F cfg o hash club transferable soulbound s s' who
      → Badges.create_class F cfg o hash club transferable soulbound s ≡ (ok tt, s')
  unfolding Badges.create_class
  CreatesClass-create_class o hash club transferable soulbound s s' who h = ground arith

  issue_badge-class :
      (env : Env) (o : F.RuntimeOrigin) (class to : ℕ) (uri : Hash)
      (transferable soulbound : Option Bool) (s : Storage F)
      → (Badges.issue_badge F cfg env o class to uri transferable soulbound s).0 ≡ ok tt
      → is_some (F.get s.classes class) ≡ true
  unfolding Badges.issue_badge
  issue_badge-class env o class to uri transferable soulbound s h = ground arith

  issue_badge-Issues :
      (env : Env) (o : F.RuntimeOrigin) (class to : ℕ) (uri : Hash)
      (transferable soulbound : Option Bool) (s : Storage F) (c : ClassInfo)
      → F.get s.classes class ≡ some c
      → (Badges.issue_badge F cfg env o class to uri transferable soulbound s).0 ≡ ok tt
      → Issues F cfg env o class to uri transferable soulbound s
          (Badges.issue_badge F cfg env o class to uri transferable soulbound s).1
          c
  unfolding Badges.issue_badge
  issue_badge-Issues env o class to uri transferable soulbound s c ec h =
      ground (arith, index_instance-indexed (next_id F s class) (F.get s.class_instances class))

  Issues-issue_badge :
      (env : Env) (o : F.RuntimeOrigin) (class to : ℕ) (uri : Hash)
      (transferable soulbound : Option Bool) (s s' : Storage F) (c : ClassInfo)
      → Issues F cfg env o class to uri transferable soulbound s s' c
      → Badges.issue_badge F cfg env o class to uri transferable soulbound s ≡ (ok tt, s')
  unfolding Badges.issue_badge
  Issues-issue_badge env o class to uri transferable soulbound s s' c h =
      ground (arith, index_instance-indexed (next_id F s class) (F.get s.class_instances class))

  revoke_badge-class :
      (o : F.RuntimeOrigin) (class id : ℕ) (s : Storage F)
      → (Badges.revoke_badge F cfg o class id s).0 ≡ ok tt
      → is_some (F.get s.classes class) ≡ true
  unfolding Badges.revoke_badge
  revoke_badge-class o class id s h = ground arith

  revoke_badge-instance :
      (o : F.RuntimeOrigin) (class id : ℕ) (s : Storage F) (c : ClassInfo)
      → F.get s.classes class ≡ some c
      → (Badges.revoke_badge F cfg o class id s).0 ≡ ok tt
      → is_some (F.double_get s.badge_instances class id) ≡ true
  unfolding Badges.revoke_badge
  revoke_badge-instance o class id s c ec h = ground arith

  revoke_badge-RevokesBadge :
      (o : F.RuntimeOrigin) (class id : ℕ) (s : Storage F) (c : ClassInfo) (b : BadgeInstance)
      → F.get s.classes class ≡ some c
      → F.double_get s.badge_instances class id ≡ some b
      → (Badges.revoke_badge F cfg o class id s).0 ≡ ok tt
      → RevokesBadge F cfg o class id s (Badges.revoke_badge F cfg o class id s).1 c b
  unfolding Badges.revoke_badge
  revoke_badge-RevokesBadge o class id s c b ec eb h = ground arith

  RevokesBadge-revoke_badge :
      (o : F.RuntimeOrigin) (class id : ℕ) (s s' : Storage F) (c : ClassInfo) (b : BadgeInstance)
      → RevokesBadge F cfg o class id s s' c b
      → Badges.revoke_badge F cfg o class id s ≡ (ok tt, s')
  unfolding Badges.revoke_badge
  RevokesBadge-revoke_badge o class id s s' c b h = ground arith

  transfer_badge-instance :
      (o : F.RuntimeOrigin) (class id to : ℕ) (s : Storage F)
      → (Badges.transfer_badge F cfg o class id to s).0 ≡ ok tt
      → is_some (F.double_get s.badge_instances class id) ≡ true
  unfolding Badges.transfer_badge
  transfer_badge-instance o class id to s h = ground arith

  transfer_badge-Transfers :
      (o : F.RuntimeOrigin) (class id to : ℕ) (s : Storage F) (b : BadgeInstance)
      → F.double_get s.badge_instances class id ≡ some b
      → (Badges.transfer_badge F cfg o class id to s).0 ≡ ok tt
      → Transfers F cfg o class id to s (Badges.transfer_badge F cfg o class id to s).1 b
  unfolding Badges.transfer_badge
  transfer_badge-Transfers o class id to s b eb h = ground arith

  Transfers-transfer_badge :
      (o : F.RuntimeOrigin) (class id to : ℕ) (s s' : Storage F) (b : BadgeInstance)
      → Transfers F cfg o class id to s s' b
      → Badges.transfer_badge F cfg o class id to s ≡ (ok tt, s')
  unfolding Badges.transfer_badge
  Transfers-transfer_badge o class id to s s' b h = ground arith

  -- An accepted call has met the specification's conditions, and leaves its storage.
  pub badge_call-Effect :
      (env : Env) (o : F.RuntimeOrigin) (c : Call) (s : Storage F)
      → (dispatch F cfg env o c s).0 ≡ ok tt
      → Effect F cfg env o c s (dispatch F cfg env o c s).1
  unfolding dispatch
  badge_call-Effect env o (Call.create_class hash club transferable soulbound) s h =
      let (who, ewho) = value_of _ (create_class-signer o hash club transferable soulbound s h) in
      (who, create_class-CreatesClass o hash club transferable soulbound s who ewho h)
  badge_call-Effect env o (Call.issue_badge class to uri transferable soulbound) s h =
      let (c, ec) = value_of _ (issue_badge-class env o class to uri transferable soulbound s h) in
      (c, issue_badge-Issues env o class to uri transferable soulbound s c ec h)
  badge_call-Effect env o (Call.revoke_badge class id) s h =
      let (c, ec) = value_of _ (revoke_badge-class o class id s h) in
      let (b, eb) = value_of _ (revoke_badge-instance o class id s c ec h) in
      (c, b, revoke_badge-RevokesBadge o class id s c b ec eb h)
  badge_call-Effect env o (Call.transfer_badge class id to) s h =
      let (b, eb) = value_of _ (transfer_badge-instance o class id to s h) in
      (b, transfer_badge-Transfers o class id to s b eb h)

  -- A call that meets the specification's conditions is accepted, and leaves its storage.
  pub Effect-badge_call :
      (env : Env) (o : F.RuntimeOrigin) (c : Call) (s s' : Storage F)
      → Effect F cfg env o c s s'
      → dispatch F cfg env o c s ≡ (ok tt, s')
  unfolding dispatch
  Effect-badge_call env o (Call.create_class hash club transferable soulbound) s s' (who, h) =
      CreatesClass-create_class o hash club transferable soulbound s s' who h
  Effect-badge_call env o (Call.issue_badge class to uri transferable soulbound) s s' (c, h) =
      Issues-issue_badge env o class to uri transferable soulbound s s' c h
  Effect-badge_call env o (Call.revoke_badge class id) s s' (c, b, h) =
      RevokesBadge-revoke_badge o class id s s' c b h
  Effect-badge_call env o (Call.transfer_badge class id to) s s' (b, h) =
      Transfers-transfer_badge o class id to s s' b h

  -- For every call of the pallet, and every origin, block and storage: the call succeeds and leaves
  -- the storage `s'` exactly when the specification accepts the call and says `s'`.
  pub badge_call_iff-Effect :
      (env : Env) (o : F.RuntimeOrigin) (c : Call) (s s' : Storage F)
      → (dispatch F cfg env o c s ≡ (ok tt, s')) ↔ Effect F cfg env o c s s'
  badge_call_iff-Effect env o c s s' = (
    λ e. subst (λ r. Effect F cfg env o c s r.1) e (badge_call-Effect env o c s (ap (λ r. r.0) e)),
    Effect-badge_call env o c s s',
  )
