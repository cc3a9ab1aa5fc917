-- ===== src/Badges/Effects.antt =====
-- The calls of pallets/badges/src/lib.rs as a specification: when a call is accepted, and the
-- storage that it leaves.
use contradots_techconnect_c.Base.{
  ℕ, ◌+◌, ◌<◌, ◌≡◌, Bool, true, false, Option, none, some, List, [], ◌∷◌, ◌++◌, length, ltb, min,
  u32_max, u64_max, if◌then◌else◌,
}
use contradots_techconnect_c.Frame.{Frame, Env, now_millis}
use contradots_techconnect_c.Badges.{
  Hash, Config, Storage, ClassInfo, BadgeInstance, Event, unwrap_or,
}
use contradots_techconnect_c.Badges.Calls.{Call}

-- The index of a class after an issue: the identifier is added while there is room.
abbrev pub indexed : ℕ → Option (List ℕ) → List ℕ
indexed id none = id ∷ []
indexed id (some v) = if ltb (length v) 1024 then v ++ id ∷ [] else v

-- The next instance identifier of a class.
abbrev pub next_id : (F : Frame) → Storage F → ℕ → ℕ
next_id F s class = unwrap_or (F.get s.next_instance_id class) 0

abbrev pub issued : ClassInfo → ℕ → ℕ → ℕ → Hash → Option Bool → Option Bool → BadgeInstance
issued c issuer to at uri transferable soulbound = record {
  owner = to;
  issued_at = at;
  issuer = issuer;
  uri_hash = uri;
  transferable = unwrap_or transferable c.default_transferable;
  soulbound = unwrap_or soulbound c.default_soulbound;
}

module _ (F : Frame) (cfg : Config F) where
  open F use {RuntimeOrigin, get, insert, double_get, double_insert, double_remove, ensure_signed}

  -- A signer whom the creation origin admits creates the next class, if there is room.
  pub record CreatesClass (o : RuntimeOrigin) (hash : Hash) (club : Option ℕ)
      (transferable soulbound : Bool) (s s' : Storage F) (who : ℕ) : Type 0 where
    pub allowed : cfg.class_creation_origin o ≡ true
    pub signed : ensure_signed o ≡ some who
    pub room : s.next_class_id < cfg.max_classes
    pub after : s' ≡ record s {
      next_class_id = min (s.next_class_id + 1) u32_max;
      classes = insert s.classes s.next_class_id (record {
        creator = who;
        club = club;
        metadata_hash = hash;
        default_transferable = transferable;
        default_soulbound = soulbound;
        instances_count = 0;
      });
      events = Event.class_created s.next_class_id who club ∷ s.events;
    }

  -- The creator of a class issues its next instance, if there is room.
  pub record Issues (env : Env) (o : RuntimeOrigin) (class to : ℕ) (uri : Hash)
      (transferable soulbound : Option Bool) (s s' : Storage F) (c : ClassInfo) : Type 0 where
    pub found : get s.classes class ≡ some c
    pub signed : ensure_signed o ≡ some c.creator
    pub room : next_id F s class < cfg.max_instances_per_class
    pub after : s' ≡ record s {
      next_instance_id = insert s.next_instance_id class (min (next_id F s class + 1) u64_max);
      classes =
          insert s.classes class
            (record c { instances_count = min (c.instances_count + 1) u32_max });
      badge_instances =
          double_insert s.badge_instances class
            (next_id F s class)
            (issued c c.creator to (now_millis env) uri transferable soulbound);
      class_instances =
          insert s.class_instances class
            (indexed (next_id F s class) (get s.class_instances class));
      events = Event.badge_issued class (next_id F s class) to ∷ s.events;
    }

  -- The creator of a class takes an instance away.
  pub record RevokesBadge (o : RuntimeOrigin) (class id : ℕ) (s s' : Storage F) (c : ClassInfo)
      (b : BadgeInstance) : Type 0 where
    pub found : get s.classes class ≡ some c
    pub signed : ensure_signed o ≡ some c.creator
    pub instance_found : double_get s.badge_instances class id ≡ some b
    pub after : s' ≡ record s {
      badge_instances = double_remove s.badge_instances class id;
      events = Event.badge_revoked class id ∷ s.events;
    }

  -- The owner gives away an instance that is transferable and not soulbound.
  pub record Transfers (o : RuntimeOrigin) (class id to : ℕ) (s s' : Storage F) (b : BadgeInstance)
      : Type 0 where
    pub found : double_get s.badge_instances class id ≡ some b
    pub signed : ensure_signed o ≡ some b.owner
    pub free : b.soulbound ≡ false
    pub movable : b.transferable ≡ true
    pub after : s' ≡ record s {
      badge_instances = double_insert s.badge_instances class id (record b { owner = to });
      events = Event.badge_transferred class id b.owner to ∷ s.events;
    }

  -- The call is accepted in `s`, and leaves `s'`.
  abbrev pub Effect : Env → RuntimeOrigin → Call → Storage F → Storage F → Type 0
  Effect env o (Call.create_class hash club transferable soulbound) s s' =
      (who : ℕ) × CreatesClass o hash club transferable soulbound s s' who
  Effect env o (Call.issue_badge class to uri transferable soulbound) s s' =
      (c : ClassInfo) × Issues env o class to uri transferable soulbound s s' c
  Effect env o (Call.revoke_badge class id) s s' =
      (c : ClassInfo) × (b : BadgeInstance) × RevokesBadge o class id s s' c b
  Effect env o (Call.transfer_badge class id to) s s' =
      (b : BadgeInstance) × Transfers o class id to s s' b
