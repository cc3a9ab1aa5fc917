-- ===== src/MemberRegistry/Tests.antt =====
-- The flows of pallets/member-registry/src/tests.rs, and the theorems at concrete storages.
use contradots_techconnect_c.Base.{
  ℕ, ◌≡◌, ◌≢◌, ◌≤◌, ◌+◌, ◌↔◌, ◌⊎◌, refl, true, none, some, Option, List, [], ◌∷◌, arith, count,
  contains,
}
use contradots_techconnect_c.Frame.{Env, ok, err, module_error}
use contradots_techconnect_c.Frame.Memory.{memory, root, signed, ensure_root}
use contradots_techconnect_c.Extrinsics.{Extrinsic}
use contradots_techconnect_c.MemberRegistry
use contradots_techconnect_c.MemberRegistry.{
  Config, Storage, genesis, MemberInfo, ClubInfo, Attestation, Error, Event, active, removed,
  not_club_admin, attestor_not_authorized,
}
use contradots_techconnect_c.MemberRegistry.Lists.{without_officer}
use contradots_techconnect_c.MemberRegistry.Calls.{Call, dispatch, apply, run}
use contradots_techconnect_c.MemberRegistry.Atomic.{failed_call_changes_nothing}
use contradots_techconnect_c.MemberRegistry.Effects.{Effect}
use contradots_techconnect_c.MemberRegistry.Refinement.{member_call_iff-Effect, Effect-dispatch}
use contradots_techconnect_c.MemberRegistry.Invariant.{IsValid, run-IsValid}
use contradots_techconnect_c.MemberRegistry.Membership.{
  is_member-run, removed_member_stays, registers_once, attested_registers,
}
use contradots_techconnect_c.MemberRegistry.Clubs.{
  club_changed_by_admin, remove_officer_count, add_remove_officer,
  is_officer_or_admin_iff-create_attestation,
}
use contradots_techconnect_c.MemberRegistry.Counting.{registrations, removals, members_count_bounds}

program : Unit {0}
unfolding MemberRegistry.create_club MemberRegistry.add_officer MemberRegistry.remove_officer
    MemberRegistry.create_attestation MemberRegistry.register_member MemberRegistry.add_member_admin
    MemberRegistry.remove_member_admin MemberRegistry.set_role MemberRegistry.revoke_attestation
    MemberRegistry.is_member MemberRegistry.is_officer_or_admin dispatch apply run without_officer
program = tt

-- The runtime's `EnsureRoot` as the privileged origin.
abbrev cfg : Config memory
cfg = record { root_club_admin_origin = ensure_root }

abbrev at_time : ℕ → Env
at_time t = record { millis = t; block_number = 1 }

abbrev by : ℕ → Call → Extrinsic memory Call
by who c = record { env = at_time 1; origin = signed who; call = c }

abbrev by_root : Call → Extrinsic memory Call
by_root c = record { env = at_time 1; origin = root; call = c }

-- `member_registry_core_flows`
abbrev core_flows : List (Extrinsic memory Call)
core_flows =
    by_root (Call.create_club (68 ∷ 101 ∷ 118 ∷ []) 10 none)
    ∷ by 10 (Call.add_officer 0 2)
    ∷ by 2 (Call.create_attestation 3 0 none none)
    ∷ by 3 (Call.register_member 0)
    ∷ by 10 (Call.add_member_admin 4 0)
    ∷ by 10 (Call.remove_member_admin 4 0)
    ∷ by 2 (Call.create_attestation 5 0 none none)
    ∷ by 2 (Call.revoke_attestation 1)
    ∷ []

abbrev after_flows : Storage memory
after_flows = run memory cfg (genesis memory) core_flows

abbrev devs : ClubInfo
devs = record {
  name = 68 ∷ 101 ∷ 118 ∷ [];
  admin = 10;
  officers = 2 ∷ [];
  members_count = 1;
  metadata = none;
}

abbrev member_3 : MemberInfo
member_3 = record { clubs = 0 ∷ []; roles = []; joined_at = 1; status = active; metadata = none }

core_flows_test :
    (memory.get after_flows.clubs 0 ≡ some devs)
    × (memory.get after_flows.members 3 ≡ some member_3)
    × (memory.get after_flows.members 4 ≡ some (record member_3 { status = removed }))
    × (memory.get after_flows.attestations 1 ≡ none)
unfolding program
core_flows_test = (refl, refl, refl, refl)

-- `attestation_invalid_and_double_use`
double_use_test :
    ((dispatch memory cfg (at_time 1) (signed 3) (Call.register_member 0) after_flows).0
      ≡ err (module_error Error.attestation_used))
    × ((dispatch memory cfg
          (at_time 1)
          (signed 3)
          (Call.create_attestation 6 0 none none)
          after_flows).0
        ≡ err (module_error attestor_not_authorized))
unfolding program
double_use_test = (refl, refl)

failed_call_changes_nothing_example :
    (dispatch memory cfg (at_time 1) (signed 3) (Call.remove_member_admin 4 0) after_flows).1
    ≡ after_flows
unfolding program
failed_call_changes_nothing_example =
    failed_call_changes_nothing memory cfg (at_time 1) (signed 3) (Call.remove_member_admin 4 0)
      after_flows (module_error not_club_admin) refl

abbrev with_officer : Storage memory
with_officer = record after_flows {
  clubs = memory.insert after_flows.clubs 0 (record devs { officers = 2 ∷ 7 ∷ [] });
  events = Event.officer_added 0 7 ∷ after_flows.events;
}

accepted_test :
    dispatch memory cfg (at_time 1) (signed 10) (Call.add_officer 0 7) after_flows
    ≡ (ok tt, with_officer)
unfolding program
accepted_test =
    Effect-dispatch memory cfg (at_time 1) (signed 10) (Call.add_officer 0 7) after_flows
      with_officer
      (devs, record { club_found = refl; signed = refl; room = omega arith; after = refl })

run-IsValid_example : IsValid memory after_flows
run-IsValid_example = run-IsValid memory cfg core_flows

is_member-run_example :
    MemberRegistry.is_member memory (run memory cfg after_flows core_flows) 3 ≡ true
unfolding program
is_member-run_example = is_member-run memory cfg core_flows after_flows 3 refl

removed_member_stays_example :
    (MemberRegistry.is_member memory (run memory cfg after_flows core_flows) 4 ≡ true)
    × ((n : MemberInfo) × (memory.get (run memory cfg after_flows core_flows).members 4 ≡ some n)
        × (n.status ≡ removed)
        × (n.clubs ≡ 0 ∷ [])
        × (n.joined_at ≡ 1))
unfolding program
removed_member_stays_example =
    removed_member_stays memory cfg core_flows after_flows 4 (record member_3 { status = removed })
      refl refl

abbrev attested_5 : Storage memory
attested_5 = run memory cfg after_flows (by 10 (Call.create_attestation 5 0 none none) ∷ [])

registers_once_example :
    (dispatch memory cfg (at_time 9) (signed 5) (Call.register_member 2) (
      run memory cfg
        (dispatch memory cfg (at_time 2) (signed 5) (Call.register_member 2) attested_5).1
        core_flows)).0
    ≢ ok tt
unfolding program
registers_once_example =
    registers_once memory cfg (at_time 2) (at_time 9) (signed 5) (signed 5) 2 2 5 core_flows
      attested_5 refl refl refl

attested_registers_example :
    let s₁ =
      (dispatch memory cfg
        (at_time 1)
        (signed 2)
        (Call.create_attestation 6 0 (some 9) none)
        after_flows).1 in
    let (r, s₂) = dispatch memory cfg (at_time 8) (signed 6) (Call.register_member 2) s₁ in
    (r ≡ ok tt) × (MemberRegistry.is_member memory s₂ 6 ≡ true)
unfolding program
attested_registers_example =
    attested_registers memory cfg (at_time 1) (at_time 8) (signed 2) (signed 6) 6 0 (some 9) none
      after_flows refl refl refl refl

club_changed_by_admin_example :
    (c' : ClubInfo) × (memory.get
        (apply memory cfg after_flows (by 10 (Call.add_officer 0 7))).clubs
        0
      ≡ some c')
    × (c'.name ≡ devs.name)
    × (c'.admin ≡ 10)
    × (c'.metadata ≡ none)
    × ((c'.officers ≡ 2 ∷ []) ⊎ (◌≡◌ {A = Option ℕ} (some 10) (some 10)))
unfolding program
club_changed_by_admin_example =
    club_changed_by_admin memory cfg (by 10 (Call.add_officer 0 7)) 0 devs after_flows refl
      (omega arith)

-- The officer 2 was added twice: removed once, it is an officer still.
abbrev added_twice : Storage memory
added_twice = run memory cfg after_flows (by 10 (Call.add_officer 0 2) ∷ [])

remove_officer_count_test :
    (c' : ClubInfo) × (memory.get
        (dispatch memory cfg (at_time 1) (signed 10) (Call.remove_officer 0 2) added_twice).1.clubs
        0
      ≡ some c')
    × (count 2 c'.officers ≡ 1)
    × ((contains c'.officers 2 ≡ true) ↔ (2 ≤ 2))
unfolding program
remove_officer_count_test =
    remove_officer_count memory cfg (at_time 1) (signed 10) 0 2 2
      (record devs { officers = 2 ∷ 2 ∷ [] }) added_twice refl refl

add_remove_officer_example :
    let s₁ = (dispatch memory cfg (at_time 1) (signed 10) (Call.add_officer 0 7) after_flows).1 in
    let (r, s₂) = dispatch memory cfg (at_time 1) (signed 10) (Call.remove_officer 0 7) s₁ in
    (r ≡ ok tt) × ((c' : ClubInfo) × (memory.get s₂.clubs 0 ≡ some c') × (count 2 c'.officers ≡ 1))
unfolding program
add_remove_officer_example =
    add_remove_officer memory cfg (at_time 1) (signed 10) 0 7 2 devs after_flows refl refl

is_officer_or_admin_iff-create_attestation_example :
    ((MemberRegistry.is_officer_or_admin memory 2 0 after_flows).0 ≡ ok true) ↔ (
      (dispatch memory cfg
        (at_time 1)
        (signed 2)
        (Call.create_attestation 6 0 none none)
        after_flows).0
      ≡ ok tt)
is_officer_or_admin_iff-create_attestation_example =
    is_officer_or_admin_iff-create_attestation memory cfg (at_time 1) (signed 2) 2 6 0 none none
      after_flows refl

members_count_bounds_example :
    (1 ≤ registrations 0 after_flows.events)
    × (registrations 0 after_flows.events ≤ 1 + removals 0 after_flows.events)
unfolding program
members_count_bounds_example =
    members_count_bounds memory cfg core_flows 0 devs refl (omega arith) (omega arith)

member_call_iff-Effect_example :
    (dispatch memory cfg (at_time 1) (signed 10) (Call.add_officer 0 7) after_flows
      ≡ (ok tt, with_officer))
    ↔ Effect memory cfg (at_time 1) (signed 10) (Call.add_officer 0 7) after_flows with_officer
member_call_iff-Effect_example =
    member_call_iff-Effect memory cfg (at_time 1) (signed 10) (Call.add_officer 0 7) after_flows
      with_officer
