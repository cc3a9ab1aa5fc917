-- ===== src/Node/Endowment.antt =====
-- `build_genesis` of node/src/chain_spec.rs: the balances that it makes of some accounts, and when
-- the accounts of seeds are different.
use Prim.Native.String.{String}
use text.Mathlib.Text.{◌==◌}
use text.Mathlib.TextEquality.{eq_iff}
use contradots_techconnect_c.Base.{
  ◌+◌, ◌*◌, ◌≤◌, ◌≡◌, refl, ap, Bool, true, false, some, List, [], ◌∷◌, arith, length, u128_max,
  contains, count, contains_iff-count, all, all-head, all-tail, Bool-cases, inl, inr, not, ◌&&◌,
  ◌||◌,
}
use contradots_techconnect_c.Node.Data.{AccountId, Balance, GenesisConfig}
use contradots_techconnect_c.Node.ChainSpec.{endow, initial_balance}

abbrev pub accounts : List (AccountId × Balance) → List AccountId
accounts [] = []
accounts ((a, b) ∷ xs) = a ∷ accounts xs

abbrev pub total : List (AccountId × Balance) → Balance
total [] = 0
total ((a, b) ∷ xs) = b + total xs

-- No account has less.
abbrev pub AtLeast : Balance → List (AccountId × Balance) → Type 0
AtLeast low [] = Unit
AtLeast low ((a, b) ∷ xs) = (low ≤ b) × AtLeast low xs

-- What pallet-balances asks of a genesis (no account twice, every balance at least the existential
-- deposit of 1), an issuance within its `u128`, and a sudo key with a balance.
pub record IsAccepted (g : GenesisConfig) (sudo : AccountId) : Type 0 where
  pub distinct : (a : AccountId) → count a (accounts g.balances) ≤ 1
  pub alive : AtLeast 1 g.balances
  pub issued : total g.balances ≤ u128_max
  pub sudo_key : g.sudo_key ≡ some sudo
  pub sudo_endowed : contains (accounts g.balances) sudo ≡ true

pub endow-accounts : (xs : List AccountId) → accounts (endow xs) ≡ xs
endow-accounts [] = refl
endow-accounts (x ∷ xs) = ap (λ ys. x ∷ ys) (endow-accounts xs)

pub endow-total : (xs : List AccountId) → total (endow xs) ≡ length xs * initial_balance
endow-total [] = refl
endow-total (x ∷ xs) = ground (arith, endow-total xs)

pub endow-AtLeast : (xs : List AccountId) → AtLeast 1 (endow xs)
endow-AtLeast [] = tt
endow-AtLeast (x ∷ xs) = (omega arith, endow-AtLeast xs)

abbrev pub contains_text : List String → String → Bool
contains_text [] t = false
contains_text (s ∷ xs) t = (s == t) || contains_text xs t

abbrev pub distinct_texts : List String → Bool
distinct_texts [] = true
distinct_texts (s ∷ xs) = not (contains_text xs s) && distinct_texts xs

abbrev pub dev_seeds : List String
dev_seeds = "Bob" ∷ "Charlie" ∷ "Dave" ∷ "Eve" ∷ "Ferdie" ∷ []

abbrev pub local_seeds : List String
local_seeds = "Bob" ∷ "Charlie" ∷ []

-- One of the seeds that the built-in specifications use.
abbrev pub is_seed : String → Bool
is_seed = contains_text ("Alice" ∷ dev_seeds)

module _ (f : String → AccountId)
    (injective : (s t : String) → is_seed s ≡ true → is_seed t ≡ true → f s ≡ f t → s ≡ t) where
  abbrev pub accounts_of : List String → List AccountId
  accounts_of [] = []
  accounts_of (s ∷ xs) = f s ∷ accounts_of xs

  fresh :
      (xs : List String) (t : String)
      → all is_seed (t ∷ xs) ≡ true
      → contains_text xs t ≡ false
      → contains (accounts_of xs) (f t) ≡ false
  fresh [] t seeds h = refl
  fresh (s ∷ xs) t seeds h =
      let t_seed = all-head is_seed t (s ∷ xs) seeds in
      let s_seed = all-head is_seed s xs (all-tail is_seed t (s ∷ xs) seeds) in
      let others = all-tail is_seed s xs (all-tail is_seed t (s ∷ xs) seeds) in
      let rest = fresh xs t (ground (arith, t_seed, others)) in
      ground (arith, h, eq_iff s t, injective s t s_seed t_seed, rest)

  pub distinct :
      (xs : List String)
      → all is_seed xs ≡ true
      → distinct_texts xs ≡ true
      → (a : AccountId) → count a (accounts_of xs) ≤ 1
  distinct [] seeds h a = omega arith
  distinct (s ∷ xs) seeds h a =
      let new : contains (accounts_of xs) (f s) ≡ false = fresh xs s seeds (ground (arith, h)) in
      let none_before = contains_iff-count (accounts_of xs) (f s) in
      let kept = distinct xs (all-tail is_seed s xs seeds) (ground (arith, h)) a in
      elim (Bool-cases (contains (f s ∷ []) a)) [
        | inl e ↦
            let is_a : f s ≡ a = ground (arith, e) in
            let same = ap (λ k. count k (accounts_of xs)) is_a in
            ground (arith, e, new, none_before, same)
        | inr e ↦ ground (arith, e, kept)
      ]
