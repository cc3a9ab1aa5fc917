-- ===== src/Node.antt =====
-- The collator node (node/src): its chain specifications, its command line and its start-up, on
-- Substrate, Cumulus and Polkadot, which the repository does not contain. What the node calls in
-- them is the record `Substrate` of Node/Library; what a call answers may depend on all the calls
-- before it, which Node/Data keeps in a log.
pub mod Data
pub mod Library
pub mod ChainSpec
pub mod Service
pub mod Cli
pub mod Command
pub mod Logs
pub mod Quiet
pub mod Consensus
pub mod Subcommands
pub mod Endowment
pub mod Genesis
pub mod Defaults
mod Tests
