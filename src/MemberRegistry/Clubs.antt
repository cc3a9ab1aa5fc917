-- ===== src/MemberRegistry/Clubs.antt =====
-- Who may change a club of pallets/member-registry/src/lib.rs, and its officers.
use contradots_techconnect_c.Base.{
  ℕ, ◌≡◌, ◌≤◌, ◌<◌, ◌-◌, ◌⊎◌, ◌↔◌, inl, refl, true, none, some, Option, [], ◌∷◌, ◌++◌, arith,
  value_of, count, contains, contains_iff-count, ◌==◌, if◌then◌else◌, count-append,
}
use contradots_techconnect_c.Frame.{Frame, Env, ok}
use contradots_techconnect_c.Extrinsics.{Extrinsic}
use contradots_techconnect_c.MemberRegistry
use contradots_techconnect_c.MemberRegistry.{Hash, Config, Storage, ClubInfo, is_admin_or_officer}
use contradots_techconnect_c.MemberRegistry.Lists.{without_officer, count-without_officer}
use contradots_techconnect_c.MemberRegistry.Calls.{Call, dispatch, apply}
use contradots_techconnect_c.MemberRegistry.Effects.{Effect}
use contradots_techconnect_c.MemberRegistry.Refinement.{dispatch-Effect, Effect-dispatch}
use contradots_techconnect_c.MemberRegistry.History.{apply_cases}

-- The club is there with its name and admin, and its officers are the same or the admin signed.
abbrev Guarded : Option ℕ → ClubInfo → Option ClubInfo → Type 0
Guarded signer c none = ⊥
Guarded signer c (some c') =
    (c'.name ≡ c.name)
    × (c'.admin ≡ c.admin)
    × (c'.metadata ≡ c.metadata)
    × ((c'.officers ≡ c.officers) ⊎ (signer ≡ some c.admin))

module _ (F : Frame) (cfg : Config F) where
  Effect-Guarded :
      (env : Env) (o : F.RuntimeOrigin) (call : Call) (k : ℕ) (c : ClubInfo) (s s' : Storage F)
      → F.get s.clubs k ≡ some c
      → k < s.next_club_id
      → Effect F cfg env o call s s'
      → Guarded (F.ensure_signed o) c (F.get s'.clubs k)
  Effect-Guarded env o (Call.create_club name admin meta) k c s s' e lt h =
      rw (h.after, F.get-insert) (ground arith)
  Effect-Guarded env o (Call.add_officer club who) k c s s' e lt (d, h) =
      rw (h.after, F.get-insert) (ground (arith, h.club_found, h.signed))
  Effect-Guarded env o (Call.remove_officer club who) k c s s' e lt (d, h) =
      rw (h.after, F.get-insert) (ground (arith, h.club_found, h.signed))
  Effect-Guarded env o (Call.create_attestation who club expiry meta) k c s s' e lt (a, d, h) =
      rw h.after (rw e (refl, refl, refl, inl refl))
  Effect-Guarded env o (Call.register_member id) k c s s' e lt (att, d, h) =
      rw (h.after, F.get-insert) (ground (arith, h.club_found))
  Effect-Guarded env o (Call.add_member_admin who club) k c s s' e lt (d, h) =
      rw (h.after, F.get-insert) (ground (arith, h.club_found))
  Effect-Guarded env o (Call.remove_member_admin who club) k c s s' e lt (d, m, h) =
      rw (h.after, F.get-insert) (ground (arith, h.club_found))
  Effect-Guarded env o (Call.set_role who role) k c s s' e lt (m, h) =
      rw h.after (rw e (refl, refl, refl, inl refl))
  Effect-Guarded env o (Call.revoke_attestation id) k c s s' e lt (who, att, d, h) =
      rw h.after (rw e (refl, refl, refl, inl refl))

  apply-Guarded :
      (x : Extrinsic F Call) (k : ℕ) (c : ClubInfo) (s : Storage F)
      → F.get s.clubs k ≡ some c
      → k < s.next_club_id
      → Guarded (F.ensure_signed x.origin) c (F.get (apply F cfg s x).clubs k)
  apply-Guarded x k c s e lt =
      apply_cases F cfg (λ s'. Guarded (F.ensure_signed x.origin) c (F.get s'.clubs k)) s x
        (rw e (refl, refl, refl, inl refl))
        (λ s' h. Effect-Guarded x.env x.origin x.call k c s s' e lt h)

  -- An extrinsic leaves a club that was created before in place, with its name, admin and
  -- metadata; if its officers differ afterwards, then the club's admin signed.
  pub club_changed_by_admin :
      (x : Extrinsic F Call) (k : ℕ) (c : ClubInfo) (s : Storage F)
      → F.get s.clubs k ≡ some c
      → k < s.next_club_id
      → (c' : ClubInfo) × (F.get (apply F cfg s x).clubs k ≡ some c')
        × (c'.name ≡ c.name)
        × (c'.admin ≡ c.admin)
        × (c'.metadata ≡ c.metadata)
        × ((c'.officers ≡ c.officers) ⊎ (F.ensure_signed x.origin ≡ some c.admin))
  club_changed_by_admin x k c s e lt =
      let kept = apply-Guarded x k c s e lt in
      let (c', e') = value_of (F.get (apply F cfg s x).clubs k) (ground (arith, kept)) in
      (
        c',
        e',
        ground (arith, kept),
        ground (arith, kept),
        ground (arith, kept),
        ground (arith, kept),
      )

  -- An accepted `remove_officer` takes one entry of the account out of the officers, and leaves
  -- every other entry; so the account is an officer afterwards exactly if it stood there twice or more.
  pub remove_officer_count :
      (env : Env) (o : F.RuntimeOrigin) (club who b : ℕ) (c : ClubInfo) (s : Storage F)
      → F.get s.clubs club ≡ some c
      → (dispatch F cfg env o (Call.remove_officer club who) s).0 ≡ ok tt
      → (c' : ClubInfo) × (F.get
            (dispatch F cfg env o (Call.remove_officer club who) s).1.clubs
            club
          ≡ some c')
        × (count b c'.officers ≡ count b c.officers - (if who == b then 1 else 0))
        × ((contains c'.officers who ≡ true) ↔ (2 ≤ count who c.officers))
  remove_officer_count env o club who b c s e h =
      let (d, r) = dispatch-Effect F cfg env o (Call.remove_officer club who) s h in
      let same : d.officers ≡ c.officers = ground (arith, r.club_found) in
      (
        record d { officers = without_officer d.officers who },
        rw (r.after, F.get-insert) (ground arith),
        rw (← same) (count-without_officer d.officers who b),
        rw (← same) (
            ground (
              arith,
              contains_iff-count (without_officer d.officers who) who,
              count-without_officer d.officers who who,
            )),
      )

  remove_officer_accepted :
      (env : Env) (o : F.RuntimeOrigin) (club who : ℕ) (c : ClubInfo) (s : Storage F)
      → F.get s.clubs club ≡ some c
      → F.ensure_signed o ≡ some c.admin
      → let (r, s') = dispatch F cfg env o (Call.remove_officer club who) s in
        (r ≡ ok tt)
        × (F.get s'.clubs club ≡ some (record c { officers = without_officer c.officers who }))
  remove_officer_accepted env o club who c s e signed =
      rw
        (Effect-dispatch F cfg env o (Call.remove_officer club who) s _
          (c, record { club_found = e; signed = signed; after = refl }))
        (refl, rw F.get-insert (ground arith))

  -- `remove_officer` undoes `add_officer`: the officers are as before, but for their order.
  pub add_remove_officer :
      (env : Env) (o : F.RuntimeOrigin) (club who b : ℕ) (c : ClubInfo) (s : Storage F)
      → F.get s.clubs club ≡ some c
      → (dispatch F cfg env o (Call.add_officer club who) s).0 ≡ ok tt
      → let s₁ = (dispatch F cfg env o (Call.add_officer club who) s).1 in
        let (r, s₂) = dispatch F cfg env o (Call.remove_officer club who) s₁ in
        (r ≡ ok tt)
        × ((c' : ClubInfo) × (F.get s₂.clubs club ≡ some c')
            × (count b c'.officers ≡ count b c.officers))
  add_remove_officer env o club who b c s e h =
      let (d, r) = dispatch-Effect F cfg env o (Call.add_officer club who) s h in
      let same : d.officers ≡ c.officers = ground (arith, r.club_found) in
      let added : ClubInfo = record d { officers = d.officers ++ who ∷ [] } in
      let removal =
        remove_officer_accepted env o club who added
          (dispatch F cfg env o (Call.add_officer club who) s).1
          (rw (r.after, F.get-insert) (ground arith)) r.signed in
      (
        removal.0,
        (
          record added { officers = without_officer added.officers who },
          removal.1,
          rw (← same) (
              ground (
                arith,
                count-without_officer added.officers who b,
                count-append b d.officers (who ∷ []),
              )),
        ),
      )

  -- The helper `is_officer_or_admin` answers yes exactly for those who may attest for the club.
  pub is_officer_or_admin_iff-create_attestation :
      (env : Env) (o : F.RuntimeOrigin) (acct who club : ℕ) (expiry : Option ℕ) (meta : Option Hash)
      (s : Storage F)
      → F.ensure_signed o ≡ some acct
      → ((MemberRegistry.is_officer_or_admin F acct club s).0 ≡ ok true)
        ↔ ((dispatch F cfg env o (Call.create_attestation who club expiry meta) s).0 ≡ ok tt)
  unfolding MemberRegistry.is_officer_or_admin MemberRegistry.create_attestation dispatch
  is_officer_or_admin_iff-create_attestation env o acct who club expiry meta s e = ground arith
