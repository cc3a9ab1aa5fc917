-- ===== src/ProposalRouter/Data.antt =====
-- pallets/proposal-router/src/lib.rs: the types, the configuration, the storage and its maps.
use contradots_techconnect_c.Base.{
  ℕ, zero, suc, ◌*◌, ◌/◌, Bool, true, false, Option, none, some, List, [], ◌∷◌, ◌==◌, leb, length,
  min, u32_max, saturating_add, if◌then◌else◌,
}
use contradots_techconnect_c.Frame.{Frame, Env, Action, ⊤, ◌>>=◌, ◌>>◌, pure, modify, ensure, ok_or}
use contradots_techconnect_c.Storage.{Item}

abbrev pub AccountId : Type 0
AccountId = ℕ

abbrev pub ProposalId : Type 0
ProposalId = ℕ

abbrev pub ClubId : Type 0
ClubId = ℕ

abbrev pub Votes : Type 0
Votes = ℕ

abbrev pub BlockNumber : Type 0
BlockNumber = ℕ

abbrev pub Bytes : Type 0
Bytes = List ℕ

pub data Scope : Type 0 where
  club : ClubId → Scope
  global : Scope

pub record Proposal : Type 0 where
  pub id : ProposalId
  pub proposer : AccountId
  pub scope : Scope
  pub call : Bytes
  pub metadata : Option Bytes
  pub start : BlockNumber
  pub end : BlockNumber
  pub yea : Votes
  pub nay : Votes
  pub executed : Bool
  pub voters : List AccountId
  pub quorum : Votes
  pub pass_threshold : ℕ
  pub proposal_club : Option ClubId

pub data Event : Type 0 where
  proposal_created : ProposalId → AccountId → Bool → Event
  voted : ProposalId → AccountId → Bool → Votes → Event
  proposal_executed : ProposalId → Event
  proposal_failed : ProposalId → Bytes → Event
  proposal_cancelled : ProposalId → Event

pub data Error : Type 0 where
  proposal_not_found voting_closed already_voted not_eligible_to_propose not_member : Error
  not_club_member not_authorized proposal_already_executed execution_failed : Error
  metadata_too_large voters_overflow club_index_overflow invalid_call_encoding : Error
  quorum_not_reached proposal_not_passed : Error

-- The pallet's storage, beside the storage of the rest of the runtime, which an executed call may
-- change.
pub record Storage (F : Frame) (Rest : Type 0) : Type 0 where
  pub next_proposal_id : ProposalId
  pub proposals : F.StorageMap Proposal
  pub club_proposals : F.StorageMap (List ProposalId)
  -- The events handed to frame_system, the latest first.
  pub events : List Event
  pub rest : Rest

-- What the dispatch of a call answers: `Ok`, or an error with its encoding.
pub data Outcome : Type 0 where
  done : Outcome
  failed : Bytes → Outcome

pub record Config (F : Frame) : Type 1 where
  pub max_metadata_len : ℕ
  pub max_voters_per_proposal : ℕ
  pub default_voting_period : BlockNumber
  pub default_quorum : Votes
  pub default_pass_threshold : ℕ
  pub router_admin_origin : F.RuntimeOrigin → Bool
  -- The last value of `BlockNumberFor<T>`.
  pub max_block_number : ℕ
  -- `into_account_truncating`, of a `PalletId`.
  pub into_account_truncating : Bytes → AccountId
  -- The rest of the runtime; `RuntimeCall` with its `Decode` and its `Dispatchable`, in a block.
  pub Rest : Type 0
  pub RuntimeCall : Type 0
  pub decode : Bytes → Option RuntimeCall
  pub dispatch_call :
      Env → RuntimeCall → F.RuntimeOrigin → Storage F Rest → Outcome × Storage F Rest

abbrev pub unwrap_or : {A : Type 0} → Option A → A → A
unwrap_or none a = a
unwrap_or (some b) a = b

-- `match scope { Scope::Club(cid) => Some(cid), _ => None }`
abbrev pub club_of : Scope → Option ClubId
club_of (club cid) = some cid
club_of global = none

-- `matches!(scope, Scope::Club(_))`
abbrev pub is_club : Scope → Bool
is_club (club cid) = true
is_club global = false

-- One more vote on a side.
abbrev pub count_vote : Bool → Proposal → Proposal
count_vote true p = record p { yea = saturating_add u32_max p.yea 1 }
count_vote false p = record p { nay = saturating_add u32_max p.nay 1 }

abbrev pub total_votes : Proposal → Votes
total_votes p = saturating_add u32_max p.yea p.nay

-- `yea.saturating_mul(10_000) / total_votes`, and 0 where nobody voted.
abbrev pub pass_percent_x100 : Proposal → ℕ
pass_percent_x100 p = if total_votes p == 0 then 0 else min (p.yea * 10000) u32_max / total_votes p

-- `pallet_id_from_bytes`: the first bytes, with zeros after them up to the length.
abbrev pub pad : ℕ → Bytes → Bytes
pad zero b = []
pad (suc n) [] = 0 ∷ pad n []
pad (suc n) (x ∷ b) = x ∷ pad n b

abbrev pub pallet_id_from_bytes : Bytes → Bytes
pallet_id_from_bytes = pad 8

-- `b"proposal_r"`
abbrev pub entropy : Bytes
entropy = 112 ∷ 114 ∷ 111 ∷ 112 ∷ 111 ∷ 115 ∷ 97 ∷ 108 ∷ 95 ∷ 114 ∷ []

module _ (F : Frame) (cfg : Config F) where
  abbrev pub World : Type 0
  World = Storage F cfg.Rest

  abbrev pub Handler : Type 0
  Handler = Action World Error ⊤

  abbrev pub proposals : Item F World Proposal
  proposals = record { read = λ s. s.proposals; write = λ s m. record s { proposals = m } }

  abbrev pub club_proposals : Item F World (List ProposalId)
  club_proposals = record {
    read = λ s. s.club_proposals;
    write = λ s m. record s { club_proposals = m };
  }

  abbrev pub deposit_event : Event → Handler
  deposit_event e = modify (λ s. record s { events = e ∷ s.events })

  abbrev pub pallet_account : AccountId
  pallet_account = cfg.into_account_truncating (pallet_id_from_bytes entropy)

  -- The metadata of a proposal, within the bound.
  abbrev pub bound_metadata : Option Bytes → Action World Error (Option Bytes)
  bound_metadata none = pure none
  bound_metadata (some md) = do
    ensure (leb (length md) cfg.max_metadata_len) metadata_too_large
    bounded ← ok_or (F.try_from cfg.max_metadata_len md) metadata_too_large
    pure (some bounded)

  -- The closure of the club's index: whether it succeeds, and the value it leaves.
  abbrev pub pushed :
      Option (List ProposalId) → Option (List ProposalId) → Bool × Option (List ProposalId)
  pushed before none = (false, before)
  pushed before (some v) = (true, some v)

  abbrev pub push_index : ProposalId → Option (List ProposalId) → Bool × Option (List ProposalId)
  push_index id none = pushed none (F.try_push 1024 [] id)
  push_index id (some v) = pushed (some v) (F.try_push 1024 v id)

  abbrev pub empty_storage : cfg.Rest → World
  empty_storage rest = record {
    next_proposal_id = 0;
    proposals = F.empty;
    club_proposals = F.empty;
    events = [];
    rest = rest;
  }
