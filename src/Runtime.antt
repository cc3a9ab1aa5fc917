-- ===== src/Runtime.antt =====
-- runtime/src/lib.rs: the constants of the runtime and the origins of its pallets. The runtime is
-- made of System, Timestamp, Balances, Sudo and MemberRegistry; the first four are FRAME's.
pub mod Bootstrap
pub mod Presets
pub mod Collators
mod Tests
use contradots_techconnect_c.Base.{ℕ}
use contradots_techconnect_c.Frame.Memory.{memory, ensure_root}
use contradots_techconnect_c.MemberRegistry.{Config}

abbrev pub existential_deposit : ℕ
existential_deposit = 1

abbrev pub parachain_id : ℕ
parachain_id = 2000

-- `impl pallet_member_registry::Config for Runtime`, with `EnsureRoot`.
abbrev pub member_registry_config : Config memory
member_registry_config = record { root_club_admin_origin = ensure_root }
