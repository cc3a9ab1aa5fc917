-- ===== src/Node/Cli.antt =====
-- node/src/cli.rs, and the implementation of `CliConfiguration` for `RelayChainCli` in
-- node/src/command.rs: the command lines of the node and of its relay chain.
use Prim.Native.String.{String, ◌++◌}
use text.Mathlib.Text.{◌==◌}
use contradots_techconnect_c.Base.{ℕ, Bool, Option, none, some, List, if◌then◌else◌}
use contradots_techconnect_c.Node.Data.{
  Extensions, Setting, Exit, Io, parsed_args, ◌>>=◌, pure, perform,
}
use contradots_techconnect_c.Node.Library.{Substrate}

abbrev pub relay_chain_of : Option Extensions → Option String
relay_chain_of none = none
relay_chain_of (some e) = some e.relay_chain

abbrev pub unwrap_or_default : Option String → String
unwrap_or_default none = ""
unwrap_or_default (some s) = s

abbrev pub or_else : {A : Type 0} → Option A → Option A → Option A
or_else none b = b
or_else (some a) b = some a

module _ (L : Substrate) where
  -- The commands of sc_cli, cumulus_client_cli and frame_benchmarking_cli are the library's.
  pub data BenchmarkCmd : Type 0 where
    pallet block storage machine : L.Cmd → BenchmarkCmd
    other : L.Cmd → BenchmarkCmd

  pub data Subcommand : Type 0 where
    build_spec check_block export_blocks export_state import_blocks revert : L.Cmd → Subcommand
    purge_chain export_genesis_head : L.Cmd → Subcommand
    -- With its `shared_params.chain`.
    export_genesis_wasm : L.Cmd → Option String → Subcommand
    benchmark : BenchmarkCmd → Subcommand

  pub record Cli : Type 0 where
    pub subcommand : Option Subcommand
    pub run : L.Cmd
    pub no_hardware_benchmarks : Bool
    pub relay_chain_args : List String

  pub record RelayChainCli : Type 0 where
    pub base : L.RunCmd
    pub chain_id : Option String
    pub base_path : Option L.PathBuf

  -- `RelayChainCli::new`
  unfoldable pub new : L.Config → List String → Io RelayChainCli
  new para_config args = do
    base ← perform parsed_args (L.parse_from args)
    pure (record {
      base = base;
      chain_id = relay_chain_of (L.try_get (L.chain_spec para_config));
      base_path = some (L.join (L.base_path para_config) "polkadot");
    })

  -- `CliConfiguration::chain_id`: the one given, and else the one of the chain specification.
  unfoldable pub chain_id : RelayChainCli → Bool → Io String
  chain_id cli is_dev = do
    given ← L.base_chain_id cli.base is_dev
    pure (if given == "" then unwrap_or_default cli.chain_id else given)

  -- `CliConfiguration::base_path`
  unfoldable pub base_path : RelayChainCli → Io (Option L.PathBuf)
  base_path cli = do given ← L.shared_base_path cli.base; pure (or_else given cli.base_path)

  -- The other methods of `CliConfiguration`; `init` is never called.
  unfoldable pub setting : RelayChainCli → (m : Setting) → Option L.Spec → Exit (L.Answered m)
  setting cli m spec = L.setting cli.base m spec

  -- What `SubstrateCli` prints, the same for the node and for its relay chain.
  pub record Description : Type 0 where
    pub impl_name : String
    pub impl_version : String
    pub description : String
    pub author : String
    pub support_url : String
    pub copyright_start_year : ℕ

  unfoldable pub description : Description
  description = record {
    impl_name = "Parachain Collator Template";
    impl_version = L.version;
    description =
        "Parachain Collator Template\n\nThe command-line arguments provided first will be passed to the parachain node, while the arguments provided after -- will be passed to the relay chain node.\n\n"
        ++ (L.executable_name ++ " <parachain-args> -- <relay-chain-args>");
    author = L.authors;
    support_url = "https://github.com/paritytech/polkadot-sdk/issues/new";
    copyright_start_year = 2020;
  }

  -- `load_spec` of the relay chain: that of the relay chain's own command line.
  unfoldable pub relay_chain_load_spec : String → Io L.Spec
  relay_chain_load_spec = L.relay_load_spec L.executable_name

-- `DefaultConfigurationValues`
abbrev pub p2p_listen_port : ℕ
p2p_listen_port = 30334

abbrev pub rpc_listen_port : ℕ
rpc_listen_port = 9945

abbrev pub prometheus_listen_port : ℕ
prometheus_listen_port = 9616
