-- ===== src/Node/Tests.antt =====
-- A Substrate in which every call returns, and the theorems about the node at concrete command
-- lines.
use Prim.Native.String.{String, ◌++◌}
use text.Mathlib.Text.{◌==◌}
use text.Mathlib.TextEquality.{eq_iff}
use contradots_techconnect_c.Base.{
  ℕ, zero, suc, ◌+◌, ◌≡◌, refl, sym, ap, subst, ◌∙◌, ◌||◌, inl, inr, ◌⊎◌, Bool-cases, Bool, true,
  false, Option, none, some, List, [], ◌∷◌, arith, if◌then◌else◌,
}
use contradots_techconnect_c.Node.Data.{
  AccountId, Extensions, Builder, development, local, input, returned, failed, read_json_file, ⊤,
  Answer, ◌>>=◌,
}
use contradots_techconnect_c.Node.Library.{Substrate}
use contradots_techconnect_c.Node.ChainSpec.{
  get_account_id_from_seed, build_genesis, development_chain_spec, local_chain_spec,
}
use contradots_techconnect_c.Node.Service.{
  new_partial, report_hardware, start_offchain_workers, start_consensus, start_parachain_node,
}
use contradots_techconnect_c.Node.Cli.{
  Cli, Subcommand, RelayChainCli, new, chain_id, base_path, setting, description,
  relay_chain_load_spec,
}
use contradots_techconnect_c.Node.Command.{
  load_spec, create_runner, relay_chain_config, run_node, run_benchmark, run_subcommand, run_parsed,
  run,
}
use contradots_techconnect_c.Node.Logs.{AllOf, NoParachain, auras, one_if}
use contradots_techconnect_c.Node.Endowment.{is_seed}
use contradots_techconnect_c.Node.Genesis.{IsOfRuntime, built_in_specs_accepted}
use contradots_techconnect_c.Node.Defaults.{
  is_built_in, LoadsOwn, load_spec_cases, relay_chain_defaults,
}
use contradots_techconnect_c.Node.Consensus.{produces_blocks_as_authority, joins_parachain_of_spec}
use contradots_techconnect_c.Node.Subcommands.{subcommand_starts_no_node, no_parachain_no_node}

-- A configuration: the specification, if it has extensions, and the role.
record NodeConfig : Type 0 where
  spec : Option Builder
  authority : Bool

abbrev extensions_of : Option Builder → Option Extensions
extensions_of none = none
extensions_of (some b) = some b.extensions

-- The accounts of the development seeds.
abbrev number_of : String → AccountId
number_of s =
    if s == "Alice"
    then 1
    else if s == "Bob"
    then 2
    else if s == "Charlie"
    then 3
    else if s == "Dave"
    then 4
    else if s == "Eve"
    then 5
    else 6

-- A path of derivation without its junction.
abbrev strip : String → String
strip String.[] = ""
strip (String.◌∷◌ c String.[]) = ""
strip (String.◌∷◌ c (String.◌∷◌ d s)) = s

-- A path without a name after its junction gives no key.
abbrev from_string : String → Option String
from_string s = if s == "//" then none else some s

abbrev returns : {A : Type 0} → A → Answer A
returns a log = returned a

abbrev development_file : Builder
development_file = record {
  code = 1 ∷ [];
  extensions = record { relay_chain = "rococo"; para_id = 3000 };
  name = "File";
  id = "file";
  chain_type = local;
  genesis_config = record { code = 1 ∷ []; minimum_period = 0; balances = []; sudo_key = none };
  protocol_id = none;
  properties = [];
}

abbrev substrate : Substrate
substrate = record {
  Pair = String;
  PublicKey = String;
  MultiSigner = String;
  from_string = from_string;
  public = strip;
  into_signer = λ s. s;
  into_account = number_of;
  wasm_binary = some (1 ∷ []);
  Spec = Option Builder;
  build = λ b. some b;
  try_get = extensions_of;
  try_get-build = λ b. refl;
  from_json_file = λ path. returns (some development_file);
  PathBuf = String;
  join = λ p q. p ++ ("/" ++ q);
  display = λ e. "error";
  Config = NodeConfig;
  chain_spec = λ c. c.spec;
  base_path = λ c. "/data";
  database_path = λ c. some "/data/db";
  is_authority = λ c. c.authority;
  offchain_worker_enabled = λ c. true;
  default_heap_pages = λ c. none;
  Endpoints = ⊤;
  telemetry_endpoints = λ c. some tt;
  is_empty = λ e. false;
  WasmMethod = ⊤;
  wasm_method = λ c. tt;
  max_runtime_instances = λ c. 8;
  runtime_cache_size = λ c. 2;
  RunCmd = List String;
  executable_name = "node";
  parse_from = λ args. returns args;
  base_chain_id = λ c is_dev log. (returned "", log);
  shared_base_path = λ c log. (returned none, log);
  Answered = λ m. ⊤;
  setting = λ c m spec. returned tt;
  version = "0.1.0";
  authors = "authors";
  relay_load_spec = λ name id log. (returned none, log);
  Cmd = ⊤;
  prepare_node_config = λ c. c;
  TelemetryWorker = ⊤;
  Telemetry = ⊤;
  WorkerHandle = ⊤;
  new_telemetry_worker = λ n. returns tt;
  worker_handle = λ w. w;
  new_telemetry = λ h e. e;
  Client = ⊤;
  Backend = ⊤;
  Keystore = ⊤;
  TransactionPool = ⊤;
  BlockImport = ⊤;
  ImportQueue = ⊤;
  new_full_parts = λ c t e r. returns (tt, tt, tt);
  transaction_pool = λ c a f. tt;
  block_import = λ c b. tt;
  verifying_import_queue = λ c b f t. tt;
  CollatorOptions = ⊤;
  HwBench = ⊤;
  CollatorPair = ⊤;
  RelayChainInterface = ⊤;
  OverseerHandle = ⊤;
  Network = ⊤;
  build_relay_chain_interface = λ p c w o h. returns (tt, some tt);
  build_network = λ c l p i r q. returns tt;
  new_offchain_workers = λ l k b p n v. returns tt;
  spawn_tasks = λ c l p k b n. returns tt;
  check_hardware = λ h s. true;
  overseer_handle = λ r. returns tt;
  start_relay_chain_tasks = λ l i r d q s o n. returns tt;
  collator_options = λ c. tt;
  normalize = λ c. c;
  gather_hwbench = λ p log. tt;
  create_runner = λ load c. returns (record { spec = some development_file; authority = true });
  create_configuration = λ c load id path. returns (record { spec = none; authority = false });
  run_build_spec = λ c s f. returns tt;
  run_check_block = λ c l q. returns tt;
  run_export_blocks = λ c l f. returns tt;
  run_export_state = λ c l s. returns tt;
  run_import_blocks = λ c l q. returns tt;
  run_revert = λ c l b. returns tt;
  run_purge_chain = λ c f p. returns tt;
  run_export_genesis_head = λ c l. returns tt;
  run_export_genesis_wasm = λ c s. returns tt;
  run_pallet_benchmark = λ c s. returns tt;
  run_block_benchmark = λ c l. returns tt;
  run_storage_benchmark = λ c f l b. returns tt;
  run_machine_benchmark = λ c f. returns tt;
}

program : Unit {0}
unfolding ◌>>=◌ get_account_id_from_seed build_genesis development_chain_spec local_chain_spec
    new_partial report_hardware start_offchain_workers start_consensus start_parachain_node new
    chain_id base_path setting description relay_chain_load_spec load_spec create_runner
    relay_chain_config run_node run_benchmark run_subcommand run_parsed run
program = tt

abbrev collator : NodeConfig
collator = record { spec = some development_file; authority = true }

abbrev command_line : Cli substrate
command_line = record {
  subcommand = none;
  run = tt;
  no_hardware_benchmarks = true;
  relay_chain_args = [];
}

abbrev name_of : ℕ → String
name_of zero = "Ferdie"
name_of (suc zero) = "Alice"
name_of (suc (suc zero)) = "Bob"
name_of (suc (suc (suc zero))) = "Charlie"
name_of (suc (suc (suc (suc zero)))) = "Dave"
name_of (suc (suc (suc (suc (suc zero))))) = "Eve"
name_of (suc (suc (suc (suc (suc (suc n)))))) = "Ferdie"

abbrev IsNamed : String → Type 0
IsNamed s = name_of (number_of (strip ("//" ++ s))) ≡ s

-- The name itself, or one of the others.
seed_step :
    (name s : String) (others : Bool)
    → IsNamed name
    → ((name == s) || others) ≡ true
    → (others ≡ true → IsNamed s)
    → IsNamed s
seed_step name s others named h rest = elim (Bool-cases (name == s)) [
  | inl e ↦ subst IsNamed ((eq_iff name s).0 e) named
  | inr e ↦ rest (ground (arith, h, e))
]

number_of-IsNamed : (s : String) → is_seed s ≡ true → IsNamed s
number_of-IsNamed s h = seed_step "Alice" s _ refl h λ h1. seed_step "Bob" s _ refl h1 λ h2.
    seed_step "Charlie" s _ refl h2 λ h3.
      seed_step "Dave" s _ refl h3 λ h4.
        seed_step "Eve" s _ refl h4 λ h5. seed_step "Ferdie" s false refl h5 λ h6. ground arith

number_of-injective :
    (s t : String)
    → is_seed s ≡ true
    → is_seed t ≡ true
    → number_of (strip ("//" ++ s)) ≡ number_of (strip ("//" ++ t))
    → s ≡ t
number_of-injective s t hs ht h =
    sym (number_of-IsNamed s hs) ∙ (ap name_of h ∙ number_of-IsNamed t ht)

description_test :
    (description substrate).description
    ≡ "Parachain Collator Template\n\nThe command-line arguments provided first will be passed to the parachain node, while the arguments provided after -- will be passed to the relay chain node.\n\nnode <parachain-args> -- <relay-chain-args>"
unfolding program
description_test = refl

run_test : (run substrate false command_line []).0 ≡ returned tt
unfolding program
run_test = refl

produces_blocks_as_authority_example :
    auras (run_node substrate command_line collator []).1 ≡ auras [] + one_if true
unfolding program
produces_blocks_as_authority_example =
    produces_blocks_as_authority substrate command_line collator [] refl

joins_parachain_of_spec_example : AllOf 3000 (run_node substrate command_line collator []).1
joins_parachain_of_spec_example =
    joins_parachain_of_spec substrate command_line collator development_file.extensions refl [] tt

from_string-name_of : (n : ℕ) → from_string ("//" ++ name_of n) ≡ some ("//" ++ name_of n)
from_string-name_of zero = refl
from_string-name_of (suc zero) = refl
from_string-name_of (suc (suc zero)) = refl
from_string-name_of (suc (suc (suc zero))) = refl
from_string-name_of (suc (suc (suc (suc zero)))) = refl
from_string-name_of (suc (suc (suc (suc (suc zero))))) = refl
from_string-name_of (suc (suc (suc (suc (suc (suc n)))))) = refl

from_string-is_seed : (s : String) → is_seed s ≡ true → from_string ("//" ++ s) ≡ some ("//" ++ s)
from_string-is_seed s known =
    subst (λ t. from_string ("//" ++ t) ≡ some ("//" ++ t)) (number_of-IsNamed s known)
      (from_string-name_of (number_of (strip ("//" ++ s))))

built_in_specs_accepted_example :
    ((b : Builder) × (development_chain_spec substrate [] ≡ (returned b, []))
      × IsOfRuntime b "dev" development 6 1)
    × ((b : Builder) × (local_chain_spec substrate [] ≡ (returned b, []))
        × IsOfRuntime b "local_testnet" local 3 1)
built_in_specs_accepted_example =
    built_in_specs_accepted substrate (λ s. "//" ++ s) from_string-is_seed number_of-injective
      (1 ∷ []) refl []

load_spec_cases_example :
    ((is_built_in "chain.json" ≡ true) × LoadsOwn substrate "chain.json" [] 1)
    ⊎ ((is_built_in "chain.json" ≡ false)
        × (load_spec substrate "chain.json" []
            ≡ (returned (some development_file), read_json_file "chain.json" ∷ [])))
load_spec_cases_example =
    load_spec_cases substrate (λ s. "//" ++ s) from_string-is_seed number_of-injective (1 ∷ []) refl
      "chain.json" []

-- Without arguments for the relay chain.
abbrev relay_chain_cli : RelayChainCli substrate
relay_chain_cli = record { base = []; chain_id = some "rococo"; base_path = some "/data/polkadot" }

relay_chain_defaults_example :
    (chain_id substrate relay_chain_cli false [] ≡ (returned "rococo", []))
    × (base_path substrate relay_chain_cli [] ≡ (returned (some "/data/polkadot"), []))
unfolding program
relay_chain_defaults_example =
    relay_chain_defaults substrate collator [] development_file.extensions relay_chain_cli [] _ refl
      refl false "" none [] [] [] [] refl refl

subcommand_starts_no_node_example :
    NoParachain (run_subcommand substrate false command_line (Subcommand.purge_chain tt) []).1
subcommand_starts_no_node_example =
    subcommand_starts_no_node substrate false command_line (Subcommand.purge_chain tt) [] tt

no_parachain_no_node_test :
    run_node substrate command_line (record { spec = none; authority = true }) []
    ≡ (failed (input "Could not find parachain ID in chain-spec."), [])
no_parachain_no_node_test =
    no_parachain_no_node substrate command_line (record { spec = none; authority = true }) [] refl
      refl
