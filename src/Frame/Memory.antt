-- ===== src/Frame/Memory.antt =====
-- An instance of the interface: maps as functions, and origins as root or a signature.
use contradots_techconnect_c.Base.{
  ℕ, refl, Bool, true, false, Option, none, some, [], ◌∷◌, ◌++◌, ltb, leb, ◌==◌, ◌&&◌,
  if◌then◌else◌, length,
}
use contradots_techconnect_c.Frame.{Frame}

pub data RawOrigin : Type 0 where
  root : RawOrigin
  signed : ℕ → RawOrigin

abbrev pub ensure_signed : RawOrigin → Option ℕ
ensure_signed root = none
ensure_signed (signed who) = some who

abbrev pub memory : Frame
memory = record {
  StorageMap = λ V. ℕ → Option V;
  empty = λ k. none;
  get = λ m k. m k;
  insert = λ m k v j. if k == j then some v else m j;
  remove = λ m k j. if k == j then none else m j;
  get-empty = λ k. refl;
  get-insert = λ m k v j. refl;
  get-remove = λ m k j. refl;
  StorageDoubleMap = λ V. ℕ → ℕ → Option V;
  double_empty = λ k l. none;
  double_get = λ m k l. m k l;
  double_insert = λ m k l v i j. if k == i && l == j then some v else m i j;
  double_remove = λ m k l i j. if k == i && l == j then none else m i j;
  double_get-double_empty = λ k l. refl;
  double_get-double_insert = λ m k l v i j. refl;
  double_get-double_remove = λ m k l i j. refl;
  try_from = λ bound xs. if leb (length xs) bound then some xs else none;
  try_push = λ bound xs a. if ltb (length xs) bound then some (xs ++ a ∷ []) else none;
  try_from_lem = λ bound xs. refl;
  try_push_lem = λ bound xs a. refl;
  RuntimeOrigin = RawOrigin;
  signed = signed;
  ensure_signed = ensure_signed;
  ensure_signed-signed = λ who. refl;
}

-- `EnsureRoot`, as an `EnsureOrigin`.
abbrev pub ensure_root : RawOrigin → Bool
ensure_root root = true
ensure_root (signed who) = false
