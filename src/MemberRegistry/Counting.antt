-- ===== src/MemberRegistry/Counting.antt =====
-- The counter `members_count` of pallets/member-registry/src/lib.rs against the events.
use contradots_techconnect_c.Base.{
  ℕ, suc, ◌≡◌, ◌≤◌, ◌<◌, ◌+◌, refl, none, some, Option, List, [], ◌∷◌, arith, ◌==◌, if◌then◌else◌,
  u32_max,
}
use contradots_techconnect_c.Frame.{Frame, Env}
use contradots_techconnect_c.Extrinsics.{Extrinsic}
use contradots_techconnect_c.MemberRegistry.{
  Hash, Config, Storage, genesis, ClubInfo, Event, member_registered, member_removed,
}
use contradots_techconnect_c.MemberRegistry.Calls.{Call, run}
use contradots_techconnect_c.MemberRegistry.Effects.{Effect, CreatesClub}
use contradots_techconnect_c.MemberRegistry.History.{run_inv}
use contradots_techconnect_c.MemberRegistry.Invariant.{IsValid, Effect-IsValid, genesis-IsValid}

-- How often the log says that somebody joined the club, or was removed from it.
abbrev pub registrations : ℕ → List Event → ℕ
registrations k [] = 0
registrations k (member_registered who club ∷ es) =
    if club == k then suc (registrations k es) else registrations k es
registrations k (_ ∷ es) = registrations k es

abbrev pub removals : ℕ → List Event → ℕ
removals k [] = 0
removals k (member_removed who club ∷ es) = if club == k then suc (removals k es) else removals k es
removals k (_ ∷ es) = removals k es

-- While identifiers and counters have not reached their ends.
abbrev InRange : {F : Frame} → ℕ → Storage F → Type 0
InRange k s = (s.next_club_id < u32_max) × (registrations k s.events ≤ u32_max)

abbrev Counts : {F : Frame} → ℕ → Storage F → Option ClubInfo → Type 0
Counts k s none = registrations k s.events ≡ 0
Counts k s (some c) =
    (c.members_count ≤ registrations k s.events)
    × (InRange k s → registrations k s.events ≤ c.members_count + removals k s.events)

module _ (F : Frame) (cfg : Config F) where
  create_club-Counts :
      (o : F.RuntimeOrigin) (name : List ℕ) (admin : ℕ) (meta : Option Hash) (k : ℕ)
      (s s' : Storage F) (before : Option ClubInfo)
      → F.get s.clubs k ≡ before
      → IsValid F s
      → Counts k s before
      → CreatesClub F cfg o name admin meta s s'
      → Counts k s' (F.get s'.clubs k)
  create_club-Counts o name admin meta k s s' none e v n h =
      rw (h.after, F.get-insert, e) (ground arith)
  create_club-Counts o name admin meta k s s' (some c) e v n h =
      rw (h.after, F.get-insert, e) (ground (arith, v.clubs_valid k c e))

  Effect-Counts :
      (env : Env) (o : F.RuntimeOrigin) (call : Call) (k : ℕ) (s s' : Storage F)
      → IsValid F s
      → Counts k s (F.get s.clubs k)
      → Effect F cfg env o call s s'
      → Counts k s' (F.get s'.clubs k)
  Effect-Counts env o (Call.create_club name admin meta) k s s' v n h =
      create_club-Counts o name admin meta k s s' (F.get s.clubs k) refl v n h
  Effect-Counts env o (Call.add_officer club who) k s s' v n (d, h) =
      rw (h.after, F.get-insert) (ground (arith, h.club_found))
  Effect-Counts env o (Call.remove_officer club who) k s s' v n (d, h) =
      rw (h.after, F.get-insert) (ground (arith, h.club_found))
  Effect-Counts env o (Call.create_attestation who club expiry meta) k s s' v n (a, d, h) =
      rw h.after (ground arith)
  Effect-Counts env o (Call.register_member id) k s s' v n (att, d, h) =
      rw (h.after, F.get-insert) (ground (arith, h.club_found))
  Effect-Counts env o (Call.add_member_admin who club) k s s' v n (d, h) =
      rw (h.after, F.get-insert) (ground (arith, h.club_found))
  Effect-Counts env o (Call.remove_member_admin who club) k s s' v n (d, m, h) =
      rw (h.after, F.get-insert) (ground (arith, h.club_found))
  Effect-Counts env o (Call.set_role who role) k s s' v n (m, h) = rw h.after (ground arith)
  Effect-Counts env o (Call.revoke_attestation id) k s s' v n (who, att, d, h) =
      rw h.after (ground arith)

  run-Counts :
      (k : ℕ) (xs : List (Extrinsic F Call)) (s : Storage F)
      → IsValid F s × Counts k s (F.get s.clubs k)
      → IsValid F (run F cfg s xs) × Counts k (run F cfg s xs) (F.get (run F cfg s xs).clubs k)
  run-Counts k =
      run_inv F cfg (λ s. IsValid F s × Counts k s (F.get s.clubs k))
        λ x s s' p h. (
          Effect-IsValid F cfg x.env x.origin x.call s s' p.0 h,
          Effect-Counts x.env x.origin x.call k s s' p.0 p.1 h,
        )

  -- After any history that began with the empty storage, a club counts at most the registrations
  -- that the events report for it, and at least those less the removals, as long as neither the
  -- club identifiers nor the registrations have reached the end of `u32`.
  pub members_count_bounds :
      (xs : List (Extrinsic F Call)) (k : ℕ) (c : ClubInfo)
      → F.get (run F cfg (genesis F) xs).clubs k ≡ some c
      → (run F cfg (genesis F) xs).next_club_id < u32_max
      → registrations k (run F cfg (genesis F) xs).events ≤ u32_max
      → (c.members_count ≤ registrations k (run F cfg (genesis F) xs).events)
        × (registrations k (run F cfg (genesis F) xs).events
            ≤ c.members_count + removals k (run F cfg (genesis F) xs).events)
  members_count_bounds xs k c e below few =
      let counts = (run-Counts k xs (genesis F) (genesis-IsValid F, rw F.get-empty refl)).1 in
      ground (arith, counts, e)
