-- ===== src/Rewards/Once.antt =====
-- pallets/rewards/src/lib.rs: an attestation is consumed by a claim.
use contradots_techconnect_c.Base.{
  ℕ, ◌+◌, ◌≤◌, Bool, false, Option, none, some, List, ◌==◌, count_if, leb, if◌then◌else◌, arith,
  u32_max,
}
use contradots_techconnect_c.Frame.{Frame, Env}
use contradots_techconnect_c.Extrinsics.{Extrinsic}
use contradots_techconnect_c.Rewards.{Config, Storage, Attestation, Event, empty_storage}
use contradots_techconnect_c.Rewards.Calls.{Call, run}
use contradots_techconnect_c.Rewards.Effects.{Effect}
use contradots_techconnect_c.Rewards.History.{run_inv}

-- The event of a claim with the attestation.
abbrev pub is_claim_with : ℕ → Event → Bool
is_claim_with id (Event.reward_claimed who rule a amount) = a == id
is_claim_with id e = false

-- The claims that an attestation still allows.
abbrev claims_left : Option Attestation → ℕ
claims_left none = 0
claims_left (some att) = if att.used then 0 else 1

module _ (F : Frame) (cfg : Config F) where
  -- The claims made with an identifier, still allowed and still to be created.
  abbrev chances : ℕ → Storage F → ℕ
  chances id s =
      count_if (is_claim_with id) s.events
      + (claims_left (F.get s.attestations id) + (if leb s.next_attestation_id id then 1 else 0))

  chances-Effect :
      cfg.max_attestations ≤ u32_max
      → (id : ℕ) (env : Env) (o : F.RuntimeOrigin) (c : Call) (s s' : Storage F)
      → Effect F cfg env o c s s'
      → chances id s ≤ 1
      → chances id s' ≤ 1
  chances-Effect small id env o (Call.create_rule ev am li cl md) s s' h i = ground (arith, h.after)
  chances-Effect small id env o (Call.create_attestation su ru ex md) s s' (who, rule, h) i =
      rw (h.after, F.get-insert) (ground (arith, h.room))
  chances-Effect small id env o (Call.claim_reward a) s s' (att, rule, h) i =
      rw (h.after, F.get-insert) (ground (arith, h.found, h.unused))
  chances-Effect small id env o (Call.award_manual to am re) s s' h i = ground (arith, h.after)
  chances-Effect small id env o (Call.revoke_attestation a) s s' (who, att, rule, h) i =
      rw (h.after, F.get-remove) (ground (arith, h.found))

  -- Where `MaxAttestations` is a `u32`, no history that begins with the empty storage claims twice
  -- with one attestation.
  pub attestation_claimed_once :
      cfg.max_attestations ≤ u32_max
      → (xs : List (Extrinsic F Call)) (id : ℕ)
      → count_if (is_claim_with id) (run F cfg (empty_storage F) xs).events ≤ 1
  attestation_claimed_once small xs id =
      let i =
        run_inv F cfg (λ s. chances id s ≤ 1)
          (λ x s s' p e. chances-Effect small id x.env x.origin x.call s s' e p) xs
          (empty_storage F) (rw F.get-empty (ground arith)) in
      ground (arith, i)
