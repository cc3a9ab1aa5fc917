-- ===== src/Badges/Creation.antt =====
-- The creation of classes in pallets/badges/src/lib.rs, by call and at genesis.
use contradots_techconnect_c.Base.{
  ℕ, ◌<◌, ◌≡◌, Bool, true, none, some, Option, List, [], ◌∷◌, arith, u32_max,
}
use contradots_techconnect_c.Frame.{Frame, Env, err, bad_origin}
use contradots_techconnect_c.Badges
use contradots_techconnect_c.Badges.{Hash, Config, Storage, ClassInfo, Error, build_class}
use contradots_techconnect_c.Badges.Calls.{Call, dispatch}

module _ (F : Frame) (cfg : Config F) where
  -- Where the creation origin admits only origins that no account signed, such as root, no class
  -- can be created: every `create_class` fails, since it also wants a signer.
  pub unsigned_origin_creates_no_class :
      (env : Env) (o : F.RuntimeOrigin) (hash : Hash) (club : Option ℕ) (tr sb : Bool)
      (s : Storage F)
      → ((o' : F.RuntimeOrigin) → cfg.class_creation_origin o' ≡ true → F.ensure_signed o' ≡ none)
      → dispatch F cfg env o (Call.create_class hash club tr sb) s ≡ (err bad_origin, s)
  unfolding dispatch Badges.create_class
  unsigned_origin_creates_no_class env o hash club tr sb s unsigned = ground (arith, unsigned o)

module _ (F : Frame) where
  -- Every class that there is has an identifier below the next one.
  abbrev IsBelow : Storage F → Type 0
  IsBelow s = (class : ℕ) (c : ClassInfo) → F.get s.classes class ≡ some c → class < s.next_class_id

  abbrev AllBelow : List (ℕ × ClassInfo) → Type 0
  AllBelow [] = Unit
  AllBelow ((class, info) ∷ rest) = (class < u32_max) × AllBelow rest

  build_class-IsBelow :
      (s : Storage F) (class : ℕ) (info : ClassInfo)
      → class < u32_max
      → IsBelow s
      → IsBelow (build_class F s class info)
  build_class-IsBelow s class info lt below k c e =
      ground (arith, F.get-insert s.classes class info k, below k c)

  -- Genesis leaves every class with an identifier below the next one, where it was so before and
  -- the identifiers given are below the end of `u32`.
  pub build-IsBelow :
      (infos : List (ℕ × ClassInfo)) (s : Storage F)
      → AllBelow infos
      → ((class : ℕ) (c : ClassInfo) → F.get s.classes class ≡ some c → class < s.next_class_id)
      → (k : ℕ) (c : ClassInfo) → F.get (Badges.build F infos s).classes k ≡ some c
      → k < (Badges.build F infos s).next_class_id
  unfolding Badges.build
  build-IsBelow [] s all below k c e = below k c e
  build-IsBelow ((class, info) ∷ rest) s all below k c e =
      build-IsBelow rest (build_class F s class info) all.1
        (build_class-IsBelow s class info all.0 below) k c e
