-- ===== src/Node/Command.antt =====
-- node/src/command.rs: `load_spec`, and `run`, which starts the node or runs a subcommand.
use Prim.Native.String.{String, ◌++◌}
use text.Mathlib.Text.{◌==◌}
use contradots_techconnect_c.Base.{
  Bool, true, false, Option, none, some, List, ◌∷◌, ◌||◌, if◌then◌else◌,
}
use contradots_techconnect_c.Node.Data.{
  Builder, Error, input, returned, read_json_file, created_runner, created_configuration,
  gathered_hwbench, ran, ⊤, Io, Answer, ◌>>=◌, pure, perform, ok_or, fail, map_err,
}
use contradots_techconnect_c.Node.Library.{Substrate}
use contradots_techconnect_c.Node.ChainSpec.{development_chain_spec, local_chain_spec}
use contradots_techconnect_c.Node.Cli.{
  BenchmarkCmd, Subcommand, Cli, new, chain_id, base_path, relay_chain_load_spec, unwrap_or_default,
}
use contradots_techconnect_c.Node.Service.{new_partial, start_parachain_node}

module _ (L : Substrate) where
  -- A chain specification that is built in.
  abbrev pub built_in : Io Builder → Io L.Spec
  built_in spec = do b ← spec; pure (L.build b)

  unfoldable pub load_spec : String → Io L.Spec
  unfolding development_chain_spec local_chain_spec
  load_spec id =
      if id == "dev"
      then built_in (development_chain_spec L)
      else if id == "template-rococo"
      then built_in (local_chain_spec L)
      else if id == "" || id == "local"
      then built_in (local_chain_spec L)
      else perform (read_json_file id) (L.from_json_file id)

  unfoldable pub create_runner : L.Cmd → Io L.Config
  unfolding load_spec
  create_runner cmd = perform created_runner (L.create_runner load_spec cmd)

  abbrev pub run_command : String → Answer ⊤ → Io ⊤
  run_command name = perform (ran name)

  -- The configuration of the relay chain, from the node's and the arguments after `--`.
  abbrev pub relay_chain_argument_error : Error → Error
  relay_chain_argument_error err = input ("Relay chain argument error: " ++ L.display err)

  unfoldable pub relay_chain_config : L.Config → List String → Io L.Config
  unfolding new chain_id base_path relay_chain_load_spec
  relay_chain_config config relay_chain_args = do
    polkadot_cli ← new L config (L.executable_name ∷ relay_chain_args)
    map_err relay_chain_argument_error (
        perform created_configuration (
          L.create_configuration polkadot_cli.base (relay_chain_load_spec L)
            (chain_id L polkadot_cli) (base_path L polkadot_cli)))

  abbrev pub gather_at : Option L.PathBuf → Io (Option L.HwBench)
  gather_at none log = (returned none, log)
  gather_at (some path) log = (returned (some (L.gather_hwbench path log)), gathered_hwbench ∷ log)

  -- The benchmark of the hardware, unless it is disabled or the database has no path.
  abbrev pub gather_hwbench : Bool → Option L.PathBuf → Io (Option L.HwBench)
  gather_hwbench true path = pure none
  gather_hwbench false path = gather_at path

  -- `run_node_until_exit`, without a subcommand.
  unfoldable pub run_node : Cli L → L.Config → Io ⊤
  unfolding relay_chain_config start_parachain_node
  run_node cli config = do
    hwbench ← gather_hwbench cli.no_hardware_benchmarks (L.database_path config)
    extensions ←
        ok_or (L.try_get (L.chain_spec config)) "Could not find parachain ID in chain-spec."
    polkadot_config ← relay_chain_config config cli.relay_chain_args
    client ←
        start_parachain_node L config polkadot_config (L.collator_options cli.run)
          extensions.para_id hwbench
    pure tt

  abbrev pub benchmark_cmd : BenchmarkCmd L → L.Cmd
  benchmark_cmd (BenchmarkCmd.pallet cmd) = cmd
  benchmark_cmd (BenchmarkCmd.block cmd) = cmd
  benchmark_cmd (BenchmarkCmd.storage cmd) = cmd
  benchmark_cmd (BenchmarkCmd.machine cmd) = cmd
  benchmark_cmd (BenchmarkCmd.other cmd) = cmd

  -- `Subcommand::Benchmark`, without (`false`) and with the feature `runtime-benchmarks`.
  unfoldable pub run_benchmark : Bool → BenchmarkCmd L → L.Config → Io ⊤
  unfolding new_partial
  run_benchmark true (BenchmarkCmd.pallet cmd) config =
      run_command "benchmark pallet" (L.run_pallet_benchmark cmd (L.chain_spec config))
  run_benchmark false (BenchmarkCmd.pallet cmd) config =
      fail
        "Benchmarking wasn't enabled when building the node. You can enable it with `--features runtime-benchmarks`."
  run_benchmark features (BenchmarkCmd.block cmd) config = do
    partials ← new_partial L config
    run_command "benchmark block" (L.run_block_benchmark cmd partials.client)
  run_benchmark false (BenchmarkCmd.storage cmd) config =
      fail "Compile with --features=runtime-benchmarks to enable storage benchmarks."
  run_benchmark true (BenchmarkCmd.storage cmd) config = do
    partials ← new_partial L config
    run_command "benchmark storage"
        (L.run_storage_benchmark cmd config partials.client partials.backend)
  run_benchmark features (BenchmarkCmd.machine cmd) config =
      run_command "benchmark machine" (L.run_machine_benchmark cmd config)
  run_benchmark features (BenchmarkCmd.other cmd) config =
      fail "Benchmarking sub-command unsupported"

  unfoldable pub run_subcommand : Bool → Cli L → Subcommand L → Io ⊤
  unfolding load_spec create_runner relay_chain_config new_partial run_benchmark
  run_subcommand features cli (Subcommand.build_spec cmd) = do
    config ← create_runner cmd
    run_command "build-spec" (L.run_build_spec cmd (L.chain_spec config) config)
  run_subcommand features cli (Subcommand.check_block cmd) = do
    config ← create_runner cmd
    components ← new_partial L config
    run_command "check-block" (L.run_check_block cmd components.client components.import_queue)
  run_subcommand features cli (Subcommand.export_blocks cmd) = do
    config ← create_runner cmd
    components ← new_partial L config
    run_command "export-blocks" (L.run_export_blocks cmd components.client config)
  run_subcommand features cli (Subcommand.export_state cmd) = do
    config ← create_runner cmd
    components ← new_partial L config
    run_command "export-state" (L.run_export_state cmd components.client (L.chain_spec config))
  run_subcommand features cli (Subcommand.import_blocks cmd) = do
    config ← create_runner cmd
    components ← new_partial L config
    run_command "import-blocks" (L.run_import_blocks cmd components.client components.import_queue)
  run_subcommand features cli (Subcommand.revert cmd) = do
    config ← create_runner cmd
    components ← new_partial L config
    run_command "revert" (L.run_revert cmd components.client components.backend)
  run_subcommand features cli (Subcommand.purge_chain cmd) = do
    config ← create_runner cmd
    polkadot_config ← relay_chain_config config cli.relay_chain_args
    run_command "purge-chain" (L.run_purge_chain cmd config polkadot_config)
  run_subcommand features cli (Subcommand.export_genesis_head cmd) = do
    config ← create_runner cmd
    partials ← new_partial L config
    run_command "export-genesis-head" (L.run_export_genesis_head cmd partials.client)
  run_subcommand features cli (Subcommand.export_genesis_wasm cmd chain) = do
    config ← create_runner cmd
    spec ← load_spec (unwrap_or_default chain)
    run_command "export-genesis-wasm" (L.run_export_genesis_wasm cmd spec)
  run_subcommand features cli (Subcommand.benchmark cmd) = do
    config ← create_runner (benchmark_cmd cmd)
    run_benchmark features cmd config

  unfoldable pub run_parsed : Bool → Cli L → Option (Subcommand L) → Io ⊤
  unfolding create_runner run_node run_subcommand
  run_parsed features cli none = do
    config ← create_runner (L.normalize cli.run)
    run_node cli config
  run_parsed features cli (some subcommand) = run_subcommand features cli subcommand

  -- `run`, on the parsed command line.
  unfoldable pub run : Bool → Cli L → Io ⊤
  unfolding run_parsed
  run features cli = run_parsed features cli cli.subcommand
