-- ===== src/MemberRegistry/Membership.antt =====
-- Who becomes a member of pallets/member-registry/src/lib.rs, and stays one.
use contradots_techconnect_c.Base.{
  ℕ, ◌≡◌, ◌≢◌, refl, true, none, some, Option, false, [], ◌∷◌, ◌++◌, List, arith, value_of, ap,
}
use contradots_techconnect_c.Frame.{Frame, Env, ok, now_millis}
use contradots_techconnect_c.Extrinsics.{Extrinsic}
use contradots_techconnect_c.MemberRegistry
use contradots_techconnect_c.MemberRegistry.{
  Hash, Config, Storage, MemberInfo, ClubInfo, removed, is_admin_or_officer, is_unexpired,
}
use contradots_techconnect_c.MemberRegistry.Calls.{Call, dispatch, run}
use contradots_techconnect_c.MemberRegistry.Effects.{
  Effect, Attests, Registers, joined, attested, registered,
}
use contradots_techconnect_c.MemberRegistry.Refinement.{dispatch-Effect, Effect-dispatch}
use contradots_techconnect_c.MemberRegistry.History.{run_inv}

-- The entry is there, with the clubs and the date of `m`, and removed if `m` was.
abbrev pub Keeps : MemberInfo → Option MemberInfo → Type 0
Keeps m none = ⊥
Keeps m (some n) =
    (n.clubs ≡ m.clubs) × (n.joined_at ≡ m.joined_at) × (m.status ≡ removed → n.status ≡ removed)

module _ (F : Frame) (cfg : Config F) where
  Effect-Keeps :
      (env : Env) (o : F.RuntimeOrigin) (c : Call) (m : MemberInfo) (who : ℕ) (s s' : Storage F)
      → Keeps m (F.get s.members who)
      → Effect F cfg env o c s s'
      → Keeps m (F.get s'.members who)
  Effect-Keeps env o (Call.register_member id) m who s s' k (att, c, h) = rw h.after (
      ground
        (arith, F.get-insert s.members att.subject (joined att.club att.created_at) who, h.fresh))
  Effect-Keeps env o (Call.add_member_admin subject club) m who s s' k (c, h) =
      rw h.after
        (ground (arith, F.get-insert s.members subject (joined club (now_millis env)) who, h.fresh))
  Effect-Keeps env o (Call.remove_member_admin subject club) m who s s' k (c, n, h) =
      rw h.after (
        ground (arith, F.get-insert s.members subject (record n { status = removed }) who, h.found))
  Effect-Keeps env o (Call.set_role subject role) m who s s' k (n, h) = rw h.after (
      ground (
        arith,
        F.get-insert s.members subject (record n { roles = n.roles ++ role ∷ [] }) who,
        h.found,
      ))
  Effect-Keeps env o (Call.create_club name admin meta) m who s s' k h = rw h.after k
  Effect-Keeps env o (Call.add_officer club officer) m who s s' k (c, h) = rw h.after k
  Effect-Keeps env o (Call.remove_officer club officer) m who s s' k (c, h) = rw h.after k
  Effect-Keeps env o (Call.create_attestation subject club expiry meta) m who s s' k (a, c, h) =
      rw h.after k
  Effect-Keeps env o (Call.revoke_attestation id) m who s s' k (a, att, c, h) = rw h.after k

  run-Keeps :
      (m : MemberInfo) (who : ℕ) (xs : List (Extrinsic F Call)) (s : Storage F)
      → Keeps m (F.get s.members who)
      → Keeps m (F.get (run F cfg s xs).members who)
  run-Keeps m who =
      run_inv F cfg (λ s. Keeps m (F.get s.members who))
        (λ x. Effect-Keeps x.env x.origin x.call m who)

  -- Nobody ceases to be a member: `is_member` stays true through any history.
  pub is_member-run :
      (xs : List (Extrinsic F Call)) (s : Storage F) (who : ℕ)
      → MemberRegistry.is_member F s who ≡ true
      → MemberRegistry.is_member F (run F cfg s xs) who ≡ true
  unfolding MemberRegistry.is_member
  is_member-run xs s who h =
      let (m, e) = value_of (F.get s.members who) h in
      ground (arith, run-Keeps m who xs s (rw e (refl, refl, λ r. r)))

  -- A member who was removed stays removed through any history, in the same clubs and with the
  -- date of joining, and `is_member` goes on to hold.
  pub removed_member_stays :
      (xs : List (Extrinsic F Call)) (s : Storage F) (who : ℕ) (m : MemberInfo)
      → F.get s.members who ≡ some m
      → m.status ≡ removed
      → (MemberRegistry.is_member F (run F cfg s xs) who ≡ true)
        × ((n : MemberInfo) × (F.get (run F cfg s xs).members who ≡ some n)
            × (n.status ≡ removed)
            × (n.clubs ≡ m.clubs)
            × (n.joined_at ≡ m.joined_at))
  unfolding MemberRegistry.is_member
  removed_member_stays xs s who m e r =
      let kept = run-Keeps m who xs s (rw e (refl, refl, λ r. r)) in
      let (n, e') = value_of (F.get (run F cfg s xs).members who) (ground (arith, kept)) in
      (
        ground (arith, kept),
        (n, e', ground (arith, kept), ground (arith, kept), ground (arith, kept)),
      )

  registered-is_member :
      (env : Env) (o : F.RuntimeOrigin) (id who : ℕ) (s : Storage F)
      → (dispatch F cfg env o (Call.register_member id) s).0 ≡ ok tt
      → F.ensure_signed o ≡ some who
      → MemberRegistry.is_member F (dispatch F cfg env o (Call.register_member id) s).1 who ≡ true
  unfolding MemberRegistry.is_member
  registered-is_member env o id who s h e =
      let (att, c, r) = dispatch-Effect F cfg env o (Call.register_member id) s h in
      rw r.after (
        ground (
          arith,
          F.get-insert s.members att.subject (joined att.club att.created_at) who,
          r.signed,
        ))

  members_do_not_register :
      (env : Env) (o : F.RuntimeOrigin) (id who : ℕ) (s : Storage F)
      → MemberRegistry.is_member F s who ≡ true
      → F.ensure_signed o ≡ some who
      → (dispatch F cfg env o (Call.register_member id) s).0 ≢ ok tt
  unfolding MemberRegistry.is_member
  members_do_not_register env o id who s m e h =
      let (att, c, r) = dispatch-Effect F cfg env o (Call.register_member id) s h in
      ground (arith, r.fresh, r.signed)

  -- Once an account has registered, every later registration by it is refused, whatever
  -- happened in between and whatever attestation it presents.
  pub registers_once :
      (env env' : Env) (o o' : F.RuntimeOrigin) (id id' who : ℕ) (xs : List (Extrinsic F Call))
      (s : Storage F)
      → F.ensure_signed o ≡ some who
      → F.ensure_signed o' ≡ some who
      → (dispatch F cfg env o (Call.register_member id) s).0 ≡ ok tt
      → (dispatch F cfg env' o'
          (Call.register_member id')
          (run F cfg (dispatch F cfg env o (Call.register_member id) s).1 xs)).0
        ≢ ok tt
  registers_once env env' o o' id id' who xs s e e' h =
      members_do_not_register env' o' id' who _
        (is_member-run xs _ who (registered-is_member env o id who s h e)) e'

  attested-Registers :
      (env env' : Env) (o o' : F.RuntimeOrigin) (who club : ℕ) (expiry : Option ℕ)
      (meta : Option Hash) (a : ℕ) (s s₁ : Storage F) (c : ClubInfo)
      → Attests F cfg env o who club expiry meta s s₁ a c
      → F.ensure_signed o' ≡ some who
      → MemberRegistry.is_member F s who ≡ false
      → is_unexpired expiry (now_millis env') ≡ true
      → Registers F cfg env' o' s.next_attestation_id s₁
          (registered F s₁ s.next_attestation_id
            (attested who club expiry meta a (now_millis env))
            c)
          (attested who club expiry meta a (now_millis env))
          c
  unfolding MemberRegistry.is_member
  attested-Registers env env' o o' who club expiry meta a s s₁ c r e fresh fit = ground (
    arith,
    F.get-insert s.attestations s.next_attestation_id
        (attested who club expiry meta a (now_millis env)) s.next_attestation_id,
  )

  -- An attestation that an officer or the admin has just made lets its subject register, as long
  -- as it has not expired and the subject is no member yet, and makes the subject a member.
  pub attested_registers :
      (env env' : Env) (o o' : F.RuntimeOrigin) (who club : ℕ) (expiry : Option ℕ)
      (meta : Option Hash) (s : Storage F)
      → (dispatch F cfg env o (Call.create_attestation who club expiry meta) s).0 ≡ ok tt
      → F.ensure_signed o' ≡ some who
      → MemberRegistry.is_member F s who ≡ false
      → is_unexpired expiry (now_millis env') ≡ true
      → let s₁ = (dispatch F cfg env o (Call.create_attestation who club expiry meta) s).1 in
        let (r, s₂) = dispatch F cfg env' o' (Call.register_member s.next_attestation_id) s₁ in
        (r ≡ ok tt) × (MemberRegistry.is_member F s₂ who ≡ true)
  attested_registers env env' o o' who club expiry meta s h e fresh fit =
      let (a, c, r) =
        dispatch-Effect F cfg env o (Call.create_attestation who club expiry meta) s h in
      let accepted =
        Effect-dispatch F cfg env' o' (Call.register_member s.next_attestation_id) _ _ (
          attested who club expiry meta a (now_millis env),
          c,
          attested-Registers env env' o o' who club expiry meta a s _ c r e fresh fit,
        ) in
      (
        ap (λ p. p.0) accepted,
        registered-is_member env' o' s.next_attestation_id who _ (ap (λ p. p.0) accepted) e,
      )
