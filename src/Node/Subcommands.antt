-- ===== src/Node/Subcommands.antt =====
-- `run` of node/src/command.rs: the subcommands, and a chain specification without a parachain.
use Prim.Native.String.{String}
use text.Mathlib.Text.{◌==◌}
use contradots_techconnect_c.Base.{
  ℕ, ◌≡◌, refl, Bool, true, false, none, List, [], ◌∷◌, if◌then◌else◌, ◌||◌,
}
use contradots_techconnect_c.Node.Data.{
  Builder, input, Exit, failed, Step, read_json_file, created_runner, ran, ⊤, Io, ◌>>=◌, perform,
}
use contradots_techconnect_c.Node.Library.{Substrate}
use contradots_techconnect_c.Node.ChainSpec.{
  get_account_id_from_seed, build_genesis, development_chain_spec, local_chain_spec,
}
use contradots_techconnect_c.Node.Cli.{BenchmarkCmd, Subcommand, Cli, unwrap_or_default}
use contradots_techconnect_c.Node.Service.{Service, new_partial}
use contradots_techconnect_c.Node.Command.{
  load_spec, create_runner, run_command, run_node, run_benchmark, run_subcommand, built_in,
}
use contradots_techconnect_c.Node.Logs.{
  para_id_of, NoParachain, Keeps, pure-Keeps, perform-Keeps, expect-Keeps, bind-Keeps,
}
use contradots_techconnect_c.Node.Quiet.{new_partial-Keeps}
use contradots_techconnect_c.Node.Consensus.{relay_chain_config-Keeps}

module _ (L : Substrate) (P : List Step → Type 0)
    (ordinary : (step : Step)
      → para_id_of step ≡ none
      → (log : List Step) → P log
      → P (step ∷ log)) where
  if-Keeps :
      {A : Type 0} (b : Bool) (m m' : Io A) → Keeps P m → Keeps P m' → Keeps P (if b then m else m')
  if-Keeps true m m' k k' = k
  if-Keeps false m m' k k' = k'

  account-Keeps : (seed : String) → Keeps P (get_account_id_from_seed L seed)
  unfolding get_account_id_from_seed
  account-Keeps seed = bind-Keeps P (expect-Keeps P _) λ pair. pure-Keeps P _

  genesis-Keeps : (endowed : List ℕ) (sudo : ℕ) → Keeps P (build_genesis L endowed sudo)
  unfolding build_genesis
  genesis-Keeps endowed sudo = bind-Keeps P (expect-Keeps P _) λ code. pure-Keeps P _

  development-Keeps : Keeps P (development_chain_spec L)
  unfolding development_chain_spec
  development-Keeps = bind-Keeps P (account-Keeps "Alice") λ a.
      bind-Keeps P (account-Keeps "Bob") λ b. bind-Keeps P (account-Keeps "Charlie") λ c.
        bind-Keeps P (account-Keeps "Dave") λ d. bind-Keeps P (account-Keeps "Eve") λ e.
          bind-Keeps P (account-Keeps "Ferdie") λ f.
            bind-Keeps P (expect-Keeps P _) λ code.
              bind-Keeps P (genesis-Keeps (a ∷ b ∷ c ∷ d ∷ e ∷ f ∷ []) a) λ g. pure-Keeps P _

  local-Keeps : Keeps P (local_chain_spec L)
  unfolding local_chain_spec
  local-Keeps = bind-Keeps P (account-Keeps "Alice") λ a. bind-Keeps P (account-Keeps "Bob") λ b.
      bind-Keeps P (account-Keeps "Charlie") λ c.
        bind-Keeps P (expect-Keeps P _)
          λ code. bind-Keeps P (genesis-Keeps (a ∷ b ∷ c ∷ []) a) λ g. pure-Keeps P _

  built_in-Keeps : (m : Io Builder) → Keeps P m → Keeps P (built_in L m)
  built_in-Keeps m k = bind-Keeps P k λ b. pure-Keeps P _

  load_spec-Keeps : (id : String) → Keeps P (load_spec L id)
  unfolding load_spec
  load_spec-Keeps id =
      let file = perform (read_json_file id) (L.from_json_file id) in
      let local = built_in L (local_chain_spec L) in
      let local_or_file = if id == "" || id == "local" then local else file in
      let default_or_file = if id == "template-rococo" then local else local_or_file in
      let local-Kept = built_in-Keeps (local_chain_spec L) local-Keeps in
      if-Keeps (id == "dev") (built_in L (development_chain_spec L)) default_or_file
        (built_in-Keeps (development_chain_spec L) development-Keeps)
        (if-Keeps (id == "template-rococo") local local_or_file local-Kept (
          if-Keeps (id == "" || id == "local") local file local-Kept
            (perform-Keeps P _ _ (ordinary (read_json_file id) refl))))

  create_runner-Keeps : (cmd : L.Cmd) → Keeps P (create_runner L cmd)
  unfolding create_runner
  create_runner-Keeps cmd = perform-Keeps P _ _ (ordinary created_runner refl)

  run_command-Keeps :
      (name : String) (answer : List Step → Exit ⊤) → Keeps P (run_command L name answer)
  run_command-Keeps name answer = perform-Keeps P _ _ (ordinary (ran name) refl)

  -- A command on the parts of a service.
  chain_command-Keeps :
      (cmd : L.Cmd) (f : L.Config → Service L → Io ⊤)
      → ((config : L.Config) (parts : Service L) → Keeps P (f config parts))
      → Keeps P (create_runner L cmd >>= λ config. new_partial L config >>= f config)
  chain_command-Keeps cmd f k =
      bind-Keeps P (create_runner-Keeps cmd)
        λ config. bind-Keeps P (new_partial-Keeps L P ordinary config) λ parts. k config parts

  run_benchmark-Keeps :
      (features : Bool) (cmd : BenchmarkCmd L) (config : L.Config)
      → Keeps P (run_benchmark L features cmd config)
  unfolding run_benchmark
  run_benchmark-Keeps true (BenchmarkCmd.pallet cmd) config = run_command-Keeps _ _
  run_benchmark-Keeps false (BenchmarkCmd.pallet cmd) config = record { kept = λ log p. p }
  run_benchmark-Keeps features (BenchmarkCmd.block cmd) config =
      bind-Keeps P (new_partial-Keeps L P ordinary config) λ partials. run_command-Keeps _ _
  run_benchmark-Keeps false (BenchmarkCmd.storage cmd) config = record { kept = λ log p. p }
  run_benchmark-Keeps true (BenchmarkCmd.storage cmd) config =
      bind-Keeps P (new_partial-Keeps L P ordinary config) λ partials. run_command-Keeps _ _
  run_benchmark-Keeps features (BenchmarkCmd.machine cmd) config = run_command-Keeps _ _
  run_benchmark-Keeps features (BenchmarkCmd.other cmd) config = record { kept = λ log p. p }

  run_subcommand-Keeps :
      (features : Bool) (cli : Cli L) (sub : Subcommand L)
      → Keeps P (run_subcommand L features cli sub)
  unfolding run_subcommand
  run_subcommand-Keeps features cli (Subcommand.build_spec cmd) =
      bind-Keeps P (create_runner-Keeps cmd) λ config. run_command-Keeps _ _
  run_subcommand-Keeps features cli (Subcommand.check_block cmd) =
      chain_command-Keeps cmd _ λ config parts. run_command-Keeps _ _
  run_subcommand-Keeps features cli (Subcommand.export_blocks cmd) =
      chain_command-Keeps cmd _ λ config parts. run_command-Keeps _ _
  run_subcommand-Keeps features cli (Subcommand.export_state cmd) =
      chain_command-Keeps cmd _ λ config parts. run_command-Keeps _ _
  run_subcommand-Keeps features cli (Subcommand.import_blocks cmd) =
      chain_command-Keeps cmd _ λ config parts. run_command-Keeps _ _
  run_subcommand-Keeps features cli (Subcommand.revert cmd) =
      chain_command-Keeps cmd _ λ config parts. run_command-Keeps _ _
  run_subcommand-Keeps features cli (Subcommand.purge_chain cmd) =
      bind-Keeps P (create_runner-Keeps cmd) λ config.
        bind-Keeps P (relay_chain_config-Keeps L P ordinary config cli.relay_chain_args)
          λ polkadot. run_command-Keeps _ _
  run_subcommand-Keeps features cli (Subcommand.export_genesis_head cmd) =
      chain_command-Keeps cmd _ λ config parts. run_command-Keeps _ _
  run_subcommand-Keeps features cli (Subcommand.export_genesis_wasm cmd chain) =
      bind-Keeps P (create_runner-Keeps cmd) λ config.
        bind-Keeps P (load_spec-Keeps (unwrap_or_default chain)) λ spec. run_command-Keeps _ _
  run_subcommand-Keeps features cli (Subcommand.benchmark cmd) =
      bind-Keeps P (create_runner-Keeps _) λ config. run_benchmark-Keeps features cmd config

module _ (L : Substrate) where
  -- No subcommand joins a network, starts the relay chain's tasks or produces blocks, with the
  -- benchmarks compiled in or without, and whether it succeeds or not.
  pub subcommand_starts_no_node :
      (features : Bool) (cli : Cli L) (sub : Subcommand L) (log : List Step)
      → NoParachain log
      → NoParachain (run_subcommand L features cli sub log).1
  subcommand_starts_no_node features cli sub =
      (run_subcommand-Keeps L NoParachain (λ step h log q. (h, q)) features cli sub).kept

  -- With a chain specification without extensions, a node that benchmarks no hardware fails for want
  -- of a parachain, after the command line and without another call.
  pub no_parachain_no_node :
      (cli : Cli L) (config : L.Config) (log : List Step)
      → L.try_get (L.chain_spec config) ≡ none
      → cli.no_hardware_benchmarks ≡ true
      → run_node L cli config log
        ≡ (failed (input "Could not find parachain ID in chain-spec."), log)
  unfolding run_node ◌>>=◌
  no_parachain_no_node cli config log missing disabled = rw (disabled, missing) refl
