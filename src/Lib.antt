-- ===== src/Lib.antt =====
-- The pallets of a parachain for clubs, in Rust on FRAME: membership (pallets/member-registry),
-- badges (pallets/badges), rewards (pallets/rewards), proposals (pallets/proposal-router) and the
-- accounting of a token (pallets/tcc). Each pallet is one file of its own, src/lib.rs, and keeps
-- its storage to itself; the calls between pallets are commented out in the sources. The proposal
-- router dispatches stored calls of the runtime, over the storage of the whole chain. The runtime
-- (runtime) and the node that runs it (node) are modelled as far as their code is their own.
--
-- FRAME itself is not in the repository. Frame is the interface that every module takes as a
-- parameter: storage maps and bounded vectors with their read-after-write laws, and origins.
-- Frame/Dispatch is the monad of a dispatchable (the storage in, a result and the storage out; what
-- was written before an error stays until the storage layer rolls it back). Frame/Memory is an
-- instance of the interface, with which the tests evaluate. Storage has the maps' mutators, and
-- Extrinsics histories of calls, each with its origin and block, in storage layers.
--
-- For each pallet P, with the functions under their names in the source:
--   P/Data        types, configuration, storage items (the fields of Storage), events, errors
--   P             the dispatchables, the read functions, the genesis
--   P/Calls       the call enumeration, its dispatch, and histories
--   P/Effects     the specification: when each call is accepted, and the storage it leaves
--   P/Refinement  the code against the specification
--   P/History     how a property is kept over histories
--   P/Tests       concrete flows (for MemberRegistry those of its src/tests.rs), and the theorems at
--                 concrete storages
-- MemberRegistry (pallets/member-registry) also has Lists (the officers' list), Atomic, Membership,
-- Clubs, Counting and Invariant; Badges (pallets/badges) has Index, Invariant, Ownership and
-- Creation; Rewards (pallets/rewards) has Once, Limits, Invariant and Attest; ProposalRouter
-- (pallets/proposal-router) has Tally, Execution, Once, Voters and Voting; Tcc (pallets/tcc) has
-- Supply, which also holds its History.
--
-- Accounts, clubs, bytes and block numbers are natural numbers, and the saturating additions of
-- u32 and u64 are written out with their last values. A configuration is a record; its origins are
-- tests on RuntimeOrigin. The router's configuration holds the rest of the runtime: a type of its
-- storage, the decoding of calls and their dispatch. Every function is total, and
-- structurally recursive on data, so that no fuel is needed. Events are kept as a list in each pallet's storage, the latest first.
--
-- ProposalRouter/Nested closes the router's loop: the runtime's calls are the router's own and those
-- of other pallets, and an executed proposal may dispatch either. The dispatch itself is FRAME's, and
-- a parameter: the record Runtime takes it for each number of storage layers that are left (FRAME
-- nests at most 255, and answers with an error beyond), and says that the router's storage changes
-- only by accepted calls of the router, each in a layer of its own, which the relation Reaches lists
-- step by step. Nested/Histories has what all histories of runtime calls keep; Nested/Valid,
-- Nested/Once, Nested/Direct and Nested/Records are about such histories, and Nested/Cycles about
-- proposals that execute themselves or each other. Nested/Tests has a dispatch of that kind by recursion on the
-- layers, with pallets that dispatch calls on their own.
--
-- Runtime (runtime/src/lib.rs) has the constants of the runtime and the origin of the registry,
-- Runtime/Bootstrap what accounts can do there without root, and Runtime/Presets and
-- Runtime/Collators are runtime/src/genesis_config_presets.rs.
--
-- Node is the collator node (node/src): Node/ChainSpec (chain_spec.rs), Node/Cli (cli.rs and the
-- relay chain's part of command.rs), Node/Command (load_spec and run of command.rs) and Node/Service
-- (service.rs), with their data and monad in Node/Data. Substrate, Cumulus and Polkadot are the
-- record Substrate of Node/Library: each call that does something is logged, and answers with a
-- value, an error or the end of the process, as it likes, given the log. Node/Endowment,
-- Node/Genesis, Node/Defaults, Node/Consensus and Node/Subcommands are proofs, for which Node/Logs
-- and Node/Quiet say how the log grows.
--
-- Not modelled: weights; the encoding of storage keys and values; the length of the metadata hashes;
-- the currency of the rewards pallet, which no code moves; pallet-assets, whose calls in the tcc
-- pallet are commented out. Of the runtime, the configuration of FRAME, Cumulus and XCM pallets
-- (runtime/src/configs), the runtime APIs, weights and benchmarks; of the node, its JSON-RPC
-- extensions, and the handles and closures that its start only passes on.
pub mod Base
pub mod Frame
pub mod Storage
pub mod Extrinsics
pub mod MemberRegistry
pub mod Badges
pub mod Rewards
pub mod ProposalRouter
pub mod Tcc
pub mod Runtime
pub mod Node
