-- ===== src/Rewards/Data.antt =====
-- pallets/rewards/src/lib.rs: the types, the configuration, the storage and its maps.
use contradots_techconnect_c.Base.{
  ℕ, ◌/◌, Bool, true, Option, none, some, List, [], ◌∷◌, ◌==◌, leb, min, u32_max, u64_max,
  saturating_add, if◌then◌else◌,
}
use contradots_techconnect_c.Frame.{
  Frame, Env, Action, ⊤, ◌>>=◌, ◌>>◌, pure, modify, ensure, now_millis,
}
use contradots_techconnect_c.Storage.{Item, DoubleItem}

abbrev pub AccountId : Type 0
AccountId = ℕ

abbrev pub RuleId : Type 0
RuleId = ℕ

abbrev pub AttestationId : Type 0
AttestationId = ℕ

abbrev pub ClubId : Type 0
ClubId = ℕ

abbrev pub RewardAmount : Type 0
RewardAmount = ℕ

abbrev pub Moment : Type 0
Moment = ℕ

abbrev pub Epoch : Type 0
Epoch = ℕ

-- A `Vec<u8>`, and a `[u8; 32]`.
abbrev pub Bytes : Type 0
Bytes = List ℕ

pub record RewardRule : Type 0 where
  pub event_type : Bytes
  pub amount : RewardAmount
  pub max_per_epoch : ℕ
  pub club : Option ClubId
  pub metadata : Option Bytes

pub record Attestation : Type 0 where
  pub subject : AccountId
  pub rule_id : RuleId
  pub attestor : AccountId
  pub created_at : Moment
  pub expires_at : Option Moment
  pub used : Bool
  pub metadata : Option Bytes

pub record ClaimCounter : Type 0 where
  pub epoch : Epoch
  pub count : ℕ

pub data Event : Type 0 where
  rule_created : RuleId → Event
  attestation_created : AttestationId → AccountId → RuleId → AccountId → Event
  attestation_revoked : AttestationId → Event
  reward_claimed : AccountId → RuleId → AttestationId → RewardAmount → Event
  reward_awarded : AccountId → RewardAmount → Option Bytes → Event

pub data Error : Type 0 where
  rule_not_found attestation_not_found attestation_expired attestation_used : Error
  not_authorized_attestor exceeds_limit transfer_failed invalid_input attestations_overflow : Error

pub record Config (F : Frame) : Type 0 where
  pub rule_creation_origin : F.RuntimeOrigin → Bool
  pub manual_award_origin : F.RuntimeOrigin → Bool
  pub epoch_length_in_blocks : ℕ
  pub max_attestations : ℕ

pub record Storage (F : Frame) : Type 0 where
  pub rules : F.StorageMap RewardRule
  pub next_rule_id : RuleId
  pub attestations : F.StorageMap Attestation
  pub next_attestation_id : AttestationId
  -- A `ValueQuery` map: an absent key reads as the default counter.
  pub claims_this_epoch : F.StorageDoubleMap ClaimCounter
  -- The events handed to frame_system, the latest first.
  pub events : List Event

-- `ClaimCounter::default()`, for an absent key.
abbrev pub counter_or_default : Option ClaimCounter → ClaimCounter
counter_or_default none = record { epoch = 0; count = 0 }
counter_or_default (some c) = c

-- A counter of another epoch starts again at 0.
abbrev pub reset_counter : Epoch → ClaimCounter → ClaimCounter
reset_counter current c = if c.epoch == current then c else record c { epoch = current; count = 0 }

-- The expiry test of a claim: an attestation without a date does not expire.
abbrev pub is_current : Env → Option Moment → Bool
is_current env none = true
is_current env (some exp) = leb (now_millis env) exp

-- Who may attest: anybody where the rule has a club, and the manual award origin elsewhere.
abbrev pub may_attest : Option ClubId → Bool → Bool
may_attest (some cid) manual = true
may_attest none manual = manual

-- Who may revoke: the attestor where the rule has a club, and the manual award origin elsewhere.
abbrev pub may_revoke : Option ClubId → Bool → AccountId → AccountId → Bool
may_revoke (some cid) manual attestor who = who == attestor
may_revoke none manual attestor who = manual

module _ (F : Frame) where
  abbrev pub Handler : Type 0
  Handler = Action (Storage F) Error ⊤

  abbrev pub rules : Item F (Storage F) RewardRule
  rules = record { read = λ s. s.rules; write = λ s m. record s { rules = m } }

  abbrev pub attestations : Item F (Storage F) Attestation
  attestations = record { read = λ s. s.attestations; write = λ s m. record s { attestations = m } }

  abbrev pub claims_this_epoch : DoubleItem F (Storage F) ClaimCounter
  claims_this_epoch = record {
    read = λ s. s.claims_this_epoch;
    write = λ s m. record s { claims_this_epoch = m };
  }

  abbrev pub deposit_event : Event → Handler
  deposit_event e = modify (λ s. record s { events = e ∷ s.events })

  -- The storage of a chain on which the pallet has not been called.
  abbrev pub empty_storage : Storage F
  empty_storage = record {
    rules = F.empty;
    next_rule_id = 0;
    attestations = F.empty;
    next_attestation_id = 0;
    claims_this_epoch = F.double_empty;
    events = [];
  }

  -- `Pallet::current_epoch`
  abbrev pub current_epoch : Config F → Env → Epoch
  current_epoch cfg env =
      if cfg.epoch_length_in_blocks == 0
      then 0
      else min env.block_number u64_max / cfg.epoch_length_in_blocks

  -- The closure of a claim on the counter: one more claim in the current epoch, up to the limit.
  abbrev pub count_claim :
      Epoch → RewardRule → Option ClaimCounter → Action (Storage F) Error (Option ClaimCounter)
  count_claim current rule before = do
    counter ← pure (reset_counter current (counter_or_default before))
    ensure (leb (saturating_add u32_max counter.count 1) rule.max_per_epoch) exceeds_limit
    pure (some (record counter { count = saturating_add u32_max counter.count 1 }))
