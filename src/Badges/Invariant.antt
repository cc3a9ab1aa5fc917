-- ===== src/Badges/Invariant.antt =====
-- What holds of the storage of the badges pallet after any history.
use contradots_techconnect_c.Base.{
  ℕ, ◌+◌, ◌≤◌, ◌<◌, ◌≡◌, Bool, Option, none, some, List, [], arith, min, u32_max, u64_max, refl,
}
use contradots_techconnect_c.Frame.{Frame, Env}
use contradots_techconnect_c.Extrinsics.{Extrinsic}
use contradots_techconnect_c.Badges.{
  Hash, Config, Storage, ClassInfo, BadgeInstance, empty_storage, unwrap_or,
}
use contradots_techconnect_c.Badges.Calls.{Call, run}
use contradots_techconnect_c.Badges.Effects.{Effect, CreatesClass, Issues, next_id, indexed}
use contradots_techconnect_c.Badges.History.{run_inv}
use contradots_techconnect_c.Badges.Index.{upto, indexed-upto}

module _ (F : Frame) (cfg : Config F) where
  -- A class was created before, counts the instances issued, which are within the limit, and
  -- lists the first 1024 of them; nothing is recorded for a class that was not created.
  abbrev pub ClassState : ℕ → ℕ → ℕ → Option (List ℕ) → Option ClassInfo → Type 0
  ClassState next class n index none = (n ≡ 0) × (index ≡ none)
  ClassState next class n index (some c) =
      (class < next)
      × (c.instances_count ≡ n)
      × (n ≤ cfg.max_instances_per_class)
      × (unwrap_or index [] ≡ upto (min n 1024))

  abbrev pub StateOf : Storage F → ℕ → Option ClassInfo → Type 0
  StateOf s class =
      ClassState s.next_class_id class (next_id F s class) (F.get s.class_instances class)

  abbrev pub IsIssued : Storage F → ℕ → ℕ → Option BadgeInstance → Type 0
  IsIssued s class id none = Unit
  IsIssued s class id (some b) = id < next_id F s class

  pub record IsValid (s : Storage F) : Type 0 where
    pub classes_valid : (class : ℕ) → StateOf s class (F.get s.classes class)
    pub instances_issued :
        (class id : ℕ) → IsIssued s class id (F.double_get s.badge_instances class id)

  module _ (classes_bounded : cfg.max_classes ≤ u32_max)
      (instances_bounded : cfg.max_instances_per_class ≤ u32_max) where
    create_class-StateOf :
        (o : F.RuntimeOrigin) (hash : Hash) (club : Option ℕ) (tr sb : Bool) (k : ℕ)
        (s s' : Storage F) (who : ℕ) (before : Option ClassInfo)
        → F.get s.classes k ≡ before
        → StateOf s k before
        → CreatesClass F cfg o hash club tr sb s s' who
        → StateOf s' k (F.get s'.classes k)
    create_class-StateOf o hash club tr sb k s s' who none e v h =
        rw (h.after, F.get-insert, e) (ground (arith, h.room))
    create_class-StateOf o hash club tr sb k s s' who (some c) e v h =
        rw (h.after, F.get-insert, e) (ground (arith, h.room))

    issue_badge-StateOf :
        (env : Env) (o : F.RuntimeOrigin) (class to : ℕ) (uri : Hash) (tr sb : Option Bool) (k : ℕ)
        (s s' : Storage F) (c : ClassInfo)
        → StateOf s k (F.get s.classes k)
        → Issues F cfg env o class to uri tr sb s s' c
        → StateOf s' k (F.get s'.classes k)
    issue_badge-StateOf env o class to uri tr sb k s s' c v h = rw h.after (
        ground (
          arith,
          F.get-insert s.classes class
              (record c { instances_count = min (c.instances_count + 1) u32_max }) k,
          F.get-insert s.next_instance_id class (min (next_id F s class + 1) u64_max) k,
          F.get-insert s.class_instances class
              (indexed (next_id F s class) (F.get s.class_instances class)) k,
          indexed-upto (next_id F s class) (F.get s.class_instances class),
          h.found,
          h.room,
        ))

    Effect-classes :
        (env : Env) (o : F.RuntimeOrigin) (call : Call) (k : ℕ) (s s' : Storage F)
        → IsValid s
        → Effect F cfg env o call s s'
        → StateOf s' k (F.get s'.classes k)
    Effect-classes env o (Call.create_class hash club tr sb) k s s' v (who, h) =
        create_class-StateOf o hash club tr sb k s s' who (F.get s.classes k) refl
          (v.classes_valid k) h
    Effect-classes env o (Call.issue_badge class to uri tr sb) k s s' v (c, h) =
        issue_badge-StateOf env o class to uri tr sb k s s' c (v.classes_valid k) h
    Effect-classes env o (Call.revoke_badge class id) k s s' v (c, b, h) =
        rw h.after (v.classes_valid k)
    Effect-classes env o (Call.transfer_badge class id to) k s s' v (b, h) =
        rw h.after (v.classes_valid k)

    Effect-instances :
        (env : Env) (o : F.RuntimeOrigin) (call : Call) (k i : ℕ) (s s' : Storage F)
        → IsValid s
        → Effect F cfg env o call s s'
        → IsIssued s' k i (F.double_get s'.badge_instances k i)
    Effect-instances env o (Call.create_class hash club tr sb) k i s s' v (who, h) =
        rw h.after (v.instances_issued k i)
    Effect-instances env o (Call.issue_badge class to uri tr sb) k i s s' v (c, h) =
        rw (h.after, F.double_get-double_insert)
          (ground (
            arith,
            F.get-insert s.next_instance_id class (min (next_id F s class + 1) u64_max) k,
            v.classes_valid class,
            v.instances_issued k i,
            h.found,
            h.room,
          ))
    Effect-instances env o (Call.revoke_badge class id) k i s s' v (c, b, h) =
        rw (h.after, F.double_get-double_remove) (ground (arith, v.instances_issued k i))
    Effect-instances env o (Call.transfer_badge class id to) k i s s' v (b, h) =
        rw (h.after, F.double_get-double_insert)
          (ground (arith, v.instances_issued k i, v.instances_issued class id, h.found))

    pub Effect-IsValid :
        (env : Env) (o : F.RuntimeOrigin) (call : Call) (s s' : Storage F)
        → IsValid s
        → Effect F cfg env o call s s'
        → IsValid s'
    Effect-IsValid env o call s s' v h = record {
      classes_valid = λ k. Effect-classes env o call k s s' v h;
      instances_issued = λ k i. Effect-instances env o call k i s s' v h;
    }

    empty-IsValid : IsValid (empty_storage F)
    empty-IsValid = record {
      classes_valid = λ k.
          ground (
            arith,
            F.get-empty {V = ℕ} k,
            F.get-empty {V = List ℕ} k,
            F.get-empty {V = ClassInfo} k,
          );
      instances_issued = λ k i. rw F.double_get-double_empty tt;
    }

    -- After any history that began with the empty storage, with limits that are `u32`: each class
    -- was created before; `instances_count` is the next instance identifier and within the
    -- limit; the index lists the first 1024 identifiers, in order; each instance was issued.
    pub run-badges-IsValid :
        (xs : List (Extrinsic F Call)) → IsValid (run F cfg (empty_storage F) xs)
    run-badges-IsValid xs =
        run_inv F cfg IsValid (λ x. Effect-IsValid x.env x.origin x.call) xs (empty_storage F)
          empty-IsValid
