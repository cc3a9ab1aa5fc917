-- ===== src/Badges/Tests.antt =====
-- Concrete flows of pallets/badges/src/lib.rs, and the theorems at concrete storages.
use contradots_techconnect_c.Base.{
  ◌↔◌, ℕ, ◌≡◌, ◌<◌, ◌⊎◌, inl, refl, true, false, none, some, List, [], ◌∷◌, arith, is_some,
}
use contradots_techconnect_c.Frame.{Env, ok, err, bad_origin, module_error}
use contradots_techconnect_c.Frame.Memory.{memory, root, signed, ensure_root, ensure_signed}
use contradots_techconnect_c.Extrinsics.{Extrinsic}
use contradots_techconnect_c.Badges
use contradots_techconnect_c.Badges.{
  Config, Storage, ClassInfo, BadgeInstance, Event, soulbound, empty_storage,
}
use contradots_techconnect_c.Badges.Calls.{Call, dispatch, run}
use contradots_techconnect_c.Badges.Effects.{Effect}
use contradots_techconnect_c.Badges.Refinement.{badge_call_iff-Effect, Effect-badge_call}
use contradots_techconnect_c.Badges.History.{failed_badge_call_changes_nothing}
use contradots_techconnect_c.Badges.Invariant.{IsValid, run-badges-IsValid}
use contradots_techconnect_c.Badges.Ownership.{
  Allowed, badge_change-Allowed, issue_badge_owner, fixed_badge_stays,
}
use contradots_techconnect_c.Badges.Creation.{unsigned_origin_creates_no_class, build-IsBelow}

program : Unit {0}
unfolding Badges.create_class Badges.issue_badge Badges.revoke_badge Badges.transfer_badge
    Badges.owner_of Badges.build dispatch run
program = tt

-- Any signer may create a class.
abbrev cfg : Config memory
cfg = record {
  class_creation_origin = λ o. is_some (ensure_signed o);
  max_classes = 4;
  max_instances_per_class = 8;
}

-- Only root may create a class.
abbrev root_cfg : Config memory
root_cfg = record cfg { class_creation_origin = ensure_root }

abbrev at_time : ℕ → Env
at_time t = record { millis = t; block_number = 1 }

abbrev by : ℕ → Call → Extrinsic memory Call
by who c = record { env = at_time 1; origin = signed who; call = c }

-- A class whose badges may be moved, a badge moved from 20 to 30, and a soulbound badge of 40.
abbrev flows : List (Extrinsic memory Call)
flows =
    by 10 (Call.create_class (7 ∷ []) none true false)
    ∷ by 10 (Call.issue_badge 0 20 (8 ∷ []) none none)
    ∷ by 20 (Call.transfer_badge 0 0 30)
    ∷ by 10 (Call.issue_badge 0 40 (9 ∷ []) none (some true))
    ∷ []

abbrev after_flows : Storage memory
after_flows = run memory cfg (empty_storage memory) flows

abbrev bound_badge : BadgeInstance
bound_badge = record {
  owner = 40;
  issued_at = 1;
  issuer = 10;
  uri_hash = 9 ∷ [];
  transferable = true;
  soulbound = true;
}

abbrev free_badge : BadgeInstance
free_badge = record {
  owner = 30;
  issued_at = 1;
  issuer = 10;
  uri_hash = 8 ∷ [];
  transferable = true;
  soulbound = false;
}

flows_test :
    (Badges.owner_of memory after_flows 0 0 ≡ some 30)
    × (Badges.owner_of memory after_flows 0 1 ≡ some 40)
    × (after_flows.class_instances 0 ≡ some (0 ∷ 1 ∷ []))
    × ((dispatch memory cfg (at_time 1) (signed 40) (Call.transfer_badge 0 1 50) after_flows).0
        ≡ err (module_error soulbound))
unfolding program
flows_test = (refl, refl, refl, refl)

unchanged_test :
    (dispatch memory cfg (at_time 1) (signed 40) (Call.transfer_badge 0 1 50) after_flows).1
    ≡ after_flows
unfolding program
unchanged_test =
    failed_badge_call_changes_nothing memory cfg (at_time 1) (signed 40)
      (Call.transfer_badge 0 1 50) after_flows (module_error soulbound) refl

abbrev moved : Storage memory
moved = record after_flows {
  badge_instances =
      memory.double_insert after_flows.badge_instances 0 0 (record free_badge { owner = 50 });
  events = Event.badge_transferred 0 0 30 50 ∷ after_flows.events;
}

accepted_test :
    dispatch memory cfg (at_time 1) (signed 30) (Call.transfer_badge 0 0 50) after_flows
    ≡ (ok tt, moved)
unfolding program
accepted_test =
    Effect-badge_call memory cfg (at_time 1) (signed 30) (Call.transfer_badge 0 0 50) after_flows
      moved
      (
        free_badge,
        record { found = refl; signed = refl; free = refl; movable = refl; after = refl },
      )

run-badges-IsValid_example : IsValid memory cfg after_flows
run-badges-IsValid_example = run-badges-IsValid memory cfg (omega arith) (omega arith) flows

badge_change-Allowed_example : Allowed memory cfg (some 30) (after_flows.classes 0) free_badge (
    (dispatch memory cfg
        (at_time 1)
        (signed 30)
        (Call.transfer_badge 0 0 50)
        after_flows).1.badge_instances
      0 0)
unfolding program
badge_change-Allowed_example =
    badge_change-Allowed memory cfg (at_time 1) (signed 30) (Call.transfer_badge 0 0 50) 0 0
      free_badge after_flows refl (omega arith) refl

issue_badge_owner_test :
    (Badges.owner_of memory
        (dispatch memory cfg
          (at_time 1)
          (signed 10)
          (Call.issue_badge 0 60 [] none none)
          after_flows).1
        0
        2
      ≡ some 60)
    × (◌≡◌ {A = ℕ} 0 0 × ◌≡◌ {A = ℕ} 1 2
        ⊎ ((dispatch memory cfg
                (at_time 1)
                (signed 10)
                (Call.issue_badge 0 60 [] none none)
                after_flows).1.badge_instances
              0 1
            ≡ after_flows.badge_instances 0 1))
unfolding program
issue_badge_owner_test =
    issue_badge_owner memory cfg (at_time 1) (signed 10) 0 60 [] none none 0 1 after_flows refl

-- The owner of the soulbound badge tries to give it away, and its issuer revokes it.
abbrev later : List (Extrinsic memory Call)
later = by 40 (Call.transfer_badge 0 1 50) ∷ by 10 (Call.revoke_badge 0 1) ∷ []

fixed_badge_stays_example :
    ((run memory cfg after_flows later).badge_instances 0 1 ≡ none)
    ⊎ ((run memory cfg after_flows later).badge_instances 0 1 ≡ some bound_badge)
unfolding program
fixed_badge_stays_example =
    fixed_badge_stays memory cfg (omega arith) (omega arith) later 0 1 bound_badge after_flows
      (inl refl) (run-badges-IsValid memory cfg (omega arith) (omega arith) flows) refl

only_root_unsigned : (o : memory.RuntimeOrigin) → ensure_root o ≡ true → ensure_signed o ≡ none
only_root_unsigned root h = refl
only_root_unsigned (signed who) h = ground arith

unsigned_origin_creates_no_class_test :
    dispatch memory root_cfg (at_time 1) root (Call.create_class [] none true true) after_flows
    ≡ (err bad_origin, after_flows)
unsigned_origin_creates_no_class_test =
    unsigned_origin_creates_no_class memory root_cfg (at_time 1) root [] none true true after_flows
      only_root_unsigned

abbrev given : ClassInfo
given = record {
  creator = 1;
  club = none;
  metadata_hash = [];
  default_transferable = true;
  default_soulbound = false;
  instances_count = 0;
}

build-IsBelow_test :
    3 < (Badges.build memory ((3, given) ∷ []) (empty_storage memory)).next_class_id
unfolding program
build-IsBelow_test =
    build-IsBelow memory ((3, given) ∷ []) (empty_storage memory) (omega arith, tt)
      (λ class c e. ground (arith, e)) 3 given refl

badge_call_iff-Effect_example :
    (dispatch memory cfg (at_time 1) (signed 30) (Call.transfer_badge 0 0 50) after_flows
      ≡ (ok tt, moved))
    ↔ Effect memory cfg (at_time 1) (signed 30) (Call.transfer_badge 0 0 50) after_flows moved
badge_call_iff-Effect_example =
    badge_call_iff-Effect memory cfg (at_time 1) (signed 30) (Call.transfer_badge 0 0 50)
      after_flows moved
