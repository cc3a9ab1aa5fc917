-- ===== src/Storage.antt =====
-- Storage maps as fields of a pallet's storage: reading, writing and the mutators of
-- frame_support's `StorageMap` (`get`, `insert`, `contains_key`, `mutate`, `try_mutate`).
use contradots_techconnect_c.Base.{ℕ, Bool, Option, none, some, is_some}
use contradots_techconnect_c.Frame.{Frame, ok, Action, ⊤, ◌>>=◌, gets, modify}

-- One map of a storage of type `S`.
pub record Item (F : Frame) (S V : Type 0) : Type 0 where
  pub read : S → F.StorageMap V
  pub write : S → F.StorageMap V → S

-- A closure's final value, written back: `None` removes the key.
abbrev pub put_back : (F : Frame) {V : Type 0} → F.StorageMap V → ℕ → Option V → F.StorageMap V
put_back F m k none = F.remove m k
put_back F m k (some v) = F.insert m k v

module _ {F : Frame} {S V E : Type 0} where
  abbrev pub get_item : Item F S V → ℕ → Action S E (Option V)
  get_item item k s = (ok (F.get (item.read s) k), s)

  abbrev pub contains_key : Item F S V → ℕ → Action S E Bool
  contains_key item k s = (ok (is_some (F.get (item.read s) k)), s)

  abbrev pub insert_item : Item F S V → ℕ → V → Action S E ⊤
  insert_item item k v s = (ok tt, item.write s (F.insert (item.read s) k v))

  abbrev pub put_item : Item F S V → ℕ → Option V → Action S E ⊤
  put_item item k v s = (ok tt, item.write s (put_back F (item.read s) k v))

  -- `try_mutate`, and `try_mutate_exists`: the closure's value is written only if it succeeds.
  abbrev pub try_mutate : Item F S V → ℕ → (Option V → Action S E (Option V)) → Action S E ⊤
  try_mutate item k f = do before ← get_item item k; after ← f before; put_item item k after

  -- `mutate`, with a closure that cannot fail.
  abbrev pub mutate : Item F S V → ℕ → (Option V → Option V) → Action S E ⊤
  mutate item k f = do before ← get_item item k; put_item item k (f before)

-- One double map of a storage.
pub record DoubleItem (F : Frame) (S V : Type 0) : Type 0 where
  pub read : S → F.StorageDoubleMap V
  pub write : S → F.StorageDoubleMap V → S

abbrev pub double_put_back :
    (F : Frame) {V : Type 0} → F.StorageDoubleMap V → ℕ → ℕ → Option V → F.StorageDoubleMap V
double_put_back F m k l none = F.double_remove m k l
double_put_back F m k l (some v) = F.double_insert m k l v

module _ {F : Frame} {S V E : Type 0} where
  abbrev pub double_insert_item : DoubleItem F S V → ℕ → ℕ → V → Action S E ⊤
  double_insert_item item k l v s = (ok tt, item.write s (F.double_insert (item.read s) k l v))

  -- `try_mutate` and `try_mutate_exists` of a `StorageDoubleMap`.
  abbrev pub double_try_mutate :
      DoubleItem F S V → ℕ → ℕ → (Option V → Action S E (Option V)) → Action S E ⊤
  double_try_mutate item k l f = do
    before ← gets (λ s. F.double_get (item.read s) k l)
    after ← f before
    modify (λ s. item.write s (double_put_back F (item.read s) k l after))
