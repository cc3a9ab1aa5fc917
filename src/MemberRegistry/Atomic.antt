-- ===== src/MemberRegistry/Atomic.antt =====
-- Every dispatchable of the member registry checks first and writes last.
use contradots_techconnect_c.Base.{ℕ, ◌≡◌, Option, List, arith}
use contradots_techconnect_c.Frame.{Frame, Env, IsAtomic, DispatchError, err}
use contradots_techconnect_c.MemberRegistry
use contradots_techconnect_c.MemberRegistry.{Hash, Config, Storage, Error}
use contradots_techconnect_c.MemberRegistry.Calls.{Call, dispatch}

module _ (F : Frame) (cfg : Config F) where
  create_club-IsAtomic :
      (o : F.RuntimeOrigin) (name : List ℕ) (admin : ℕ) (meta : Option Hash) (s : Storage F)
      → IsAtomic (MemberRegistry.create_club F cfg o name admin meta) s
  unfolding MemberRegistry.create_club
  create_club-IsAtomic o name admin meta s e h = ground (arith, F.try_from_lem, F.try_push_lem)

  add_officer-IsAtomic :
      (o : F.RuntimeOrigin) (club who : ℕ) (s : Storage F)
      → IsAtomic (MemberRegistry.add_officer F cfg o club who) s
  unfolding MemberRegistry.add_officer
  add_officer-IsAtomic o club who s e h = ground (arith, F.try_from_lem, F.try_push_lem)

  remove_officer-IsAtomic :
      (o : F.RuntimeOrigin) (club who : ℕ) (s : Storage F)
      → IsAtomic (MemberRegistry.remove_officer F cfg o club who) s
  unfolding MemberRegistry.remove_officer
  remove_officer-IsAtomic o club who s e h = ground (arith, F.try_from_lem, F.try_push_lem)

  create_attestation-IsAtomic :
      (env : Env) (o : F.RuntimeOrigin) (who club : ℕ) (expiry : Option ℕ) (meta : Option Hash)
      (s : Storage F)
      → IsAtomic (MemberRegistry.create_attestation F cfg env o who club expiry meta) s
  unfolding MemberRegistry.create_attestation
  create_attestation-IsAtomic env o who club expiry meta s e h =
      ground (arith, F.try_from_lem, F.try_push_lem)

  register_member-IsAtomic :
      (env : Env) (o : F.RuntimeOrigin) (id : ℕ) (s : Storage F)
      → IsAtomic (MemberRegistry.register_member F cfg env o id) s
  unfolding MemberRegistry.register_member
  register_member-IsAtomic env o id s e h = ground (arith, F.try_from_lem, F.try_push_lem)

  add_member_admin-IsAtomic :
      (env : Env) (o : F.RuntimeOrigin) (who club : ℕ) (s : Storage F)
      → IsAtomic (MemberRegistry.add_member_admin F cfg env o who club) s
  unfolding MemberRegistry.add_member_admin
  add_member_admin-IsAtomic env o who club s e h = ground (arith, F.try_from_lem, F.try_push_lem)

  remove_member_admin-IsAtomic :
      (o : F.RuntimeOrigin) (who club : ℕ) (s : Storage F)
      → IsAtomic (MemberRegistry.remove_member_admin F cfg o who club) s
  unfolding MemberRegistry.remove_member_admin
  remove_member_admin-IsAtomic o who club s e h = ground (arith, F.try_from_lem, F.try_push_lem)

  set_role-IsAtomic :
      (o : F.RuntimeOrigin) (who role : ℕ) (s : Storage F)
      → IsAtomic (MemberRegistry.set_role F cfg o who role) s
  unfolding MemberRegistry.set_role
  set_role-IsAtomic o who role s e h = ground (arith, F.try_from_lem, F.try_push_lem)

  revoke_attestation-IsAtomic :
      (o : F.RuntimeOrigin) (id : ℕ) (s : Storage F)
      → IsAtomic (MemberRegistry.revoke_attestation F cfg o id) s
  unfolding MemberRegistry.revoke_attestation
  revoke_attestation-IsAtomic o id s e h = ground (arith, F.try_from_lem, F.try_push_lem)

  dispatch-IsAtomic :
      (env : Env) (o : F.RuntimeOrigin) (c : Call) (s : Storage F)
      → IsAtomic (dispatch F cfg env o c) s
  unfolding dispatch
  dispatch-IsAtomic env o (Call.create_club name admin meta) s =
      create_club-IsAtomic o name admin meta s
  dispatch-IsAtomic env o (Call.add_officer club who) s = add_officer-IsAtomic o club who s
  dispatch-IsAtomic env o (Call.remove_officer club who) s = remove_officer-IsAtomic o club who s
  dispatch-IsAtomic env o (Call.create_attestation who club expiry meta) s =
      create_attestation-IsAtomic env o who club expiry meta s
  dispatch-IsAtomic env o (Call.register_member id) s = register_member-IsAtomic env o id s
  dispatch-IsAtomic env o (Call.add_member_admin who club) s =
      add_member_admin-IsAtomic env o who club s
  dispatch-IsAtomic env o (Call.remove_member_admin who club) s =
      remove_member_admin-IsAtomic o who club s
  dispatch-IsAtomic env o (Call.set_role who role) s = set_role-IsAtomic o who role s
  dispatch-IsAtomic env o (Call.revoke_attestation id) s = revoke_attestation-IsAtomic o id s

  -- A call that fails, for whatever reason, has changed nothing and deposited no event, also
  -- without the storage layer that FRAME puts round an extrinsic.
  pub failed_call_changes_nothing :
      (env : Env) (o : F.RuntimeOrigin) (c : Call) (s : Storage F) (e : DispatchError Error)
      → (dispatch F cfg env o c s).0 ≡ err e
      → (dispatch F cfg env o c s).1 ≡ s
  failed_call_changes_nothing = dispatch-IsAtomic
