-- ===== src/Frame/Dispatch.antt =====
-- A dispatchable: the pallet's storage in, a result and the storage out. What was written before
-- an error stays written here; only the storage layer round an extrinsic rolls it back.
use contradots_techconnect_c.Base.{ℕ, ◌≡◌, Bool, true, false, Option, none, some, min, u64_max}

-- `DispatchError`: a refused origin, an address that `Lookup` does not know, or the pallet's own.
pub data DispatchError (E : Type 0) : Type 0 where
  bad_origin cannot_lookup : DispatchError E
  module_error : E → DispatchError E

pub data Result (E A : Type 0) : Type 0 where
  ok : A → Result E A
  err : DispatchError E → Result E A

abbrev pub ⊤ : Type 0
⊤ = Unit

abbrev pub Action : Type 0 → Type 0 → Type 0 → Type 0
Action S E A = S → Result E A × S

module _ {S E : Type 0} where
  infixl 5 ◌>>=◌ ◌>>◌
  abbrev pub ◌>>=◌ : {A B : Type 0} → Action S E A → (A → Action S E B) → Action S E B
  ◌>>=◌ m f s = let (r, s') = m s in elim r [ ok a ↦ f a s' | err e ↦ (err e, s') ]

  abbrev pub ◌>>◌ : {A B : Type 0} → Action S E A → Action S E B → Action S E B
  m >> k = m >>= λ _. k

  abbrev pub pure : {A : Type 0} → A → Action S E A
  pure a s = (ok a, s)

  abbrev pub gets : {A : Type 0} → (S → A) → Action S E A
  gets f s = (ok (f s), s)

  abbrev pub modify : (S → S) → Action S E ⊤
  modify f s = (ok tt, f s)

  -- `ensure!(test, error)`
  abbrev pub ensure : Bool → E → Action S E ⊤
  ensure true e s = (ok tt, s)
  ensure false e s = (err (module_error e), s)

  -- `value.ok_or(error)?`
  abbrev pub ok_or : {A : Type 0} → Option A → E → Action S E A
  ok_or none e s = (err (module_error e), s)
  ok_or (some a) e s = (ok a, s)

  -- `ensure_signed(origin)?`, on its result.
  abbrev pub signer : Option ℕ → Action S E ℕ
  signer none s = (err bad_origin, s)
  signer (some who) s = (ok who, s)

  -- `T::SomeOrigin::ensure_origin(origin)?`, on its result; the pallets use no success value.
  abbrev pub ensure_origin : Bool → Action S E ⊤
  ensure_origin true s = (ok tt, s)
  ensure_origin false s = (err bad_origin, s)

-- The outermost storage layer, an extrinsic's: after an error the storage is as it was before the
-- call. FRAME's limit on layers within layers does not concern it.
abbrev pub with_storage_layer : {S E A : Type 0} → Action S E A → Action S E A
with_storage_layer m s = let (r, s') = m s in elim r [ ok a ↦ (ok a, s') | err e ↦ (err e, s) ]

-- An action that fails has changed nothing.
abbrev pub IsAtomic : {S E A : Type 0} → Action S E A → S → Type 0
IsAtomic {E = E} m s = (e : DispatchError E) → (m s).0 ≡ err e → (m s).1 ≡ s

-- What a block gives to a call: `UnixTime::now()` in milliseconds, and the block's number.
pub record Env : Type 0 where
  pub millis : ℕ
  pub block_number : ℕ

-- `T::Time::now().as_millis().saturated_into::<u64>()`
abbrev pub now_millis : Env → ℕ
now_millis env = min env.millis u64_max
