-- ===== src/Node/Library.antt =====
-- What the node (node/src) uses of Substrate, Cumulus and Polkadot, which the repository does not
-- contain. Every call that does something answers as it likes, given all the calls before it.
use Prim.Native.String.{String}
use contradots_techconnect_c.Base.{ℕ, ◌≡◌, Bool, Option, some, List}
use contradots_techconnect_c.Node.Data.{
  AccountId, ParaId, Extensions, Builder, Executor, DaRecoveryProfile, Error, Exit, Step, Setting,
  Answer, Io, ⊤,
}

pub record Substrate : Type 1 where
  -- sr25519 keys, `MultiSigner` and its account; the compiled runtime.
  pub Pair : Type 0
  pub PublicKey : Type 0
  pub MultiSigner : Type 0
  pub from_string : String → Option Pair
  pub public : Pair → PublicKey
  pub into_signer : PublicKey → MultiSigner
  pub into_account : MultiSigner → AccountId
  pub wasm_binary : Option (List ℕ)
  -- A chain specification, its `Extensions`, and `config.network`, which a command is given.
  pub Spec : Type 0
  pub build : Builder → Spec
  pub try_get : Spec → Option Extensions
  pub try_get-build : (b : Builder) → try_get (build b) ≡ some b.extensions
  pub from_json_file : String → Answer Spec
  pub PathBuf : Type 0
  pub join : PathBuf → String → PathBuf
  pub display : Error → String
  -- `sc_service::Configuration`, as far as it is read.
  pub Config : Type 0
  pub chain_spec : Config → Spec
  pub base_path : Config → PathBuf
  pub database_path : Config → Option PathBuf
  pub is_authority : Config → Bool
  pub offchain_worker_enabled : Config → Bool
  pub default_heap_pages : Config → Option ℕ
  pub Endpoints : Type 0
  pub telemetry_endpoints : Config → Option Endpoints
  pub is_empty : Endpoints → Bool
  -- The relay chain's command line, by clap.
  pub RunCmd : Type 0
  pub executable_name : String
  pub parse_from : List String → Answer RunCmd
  pub base_chain_id : RunCmd → Bool → Io String
  pub shared_base_path : RunCmd → Io (Option PathBuf)
  -- What a method of `CliConfiguration` answers; a specification is given to some.
  pub Answered : Setting → Type 0
  pub setting : RunCmd → (m : Setting) → Option Spec → Exit (Answered m)
  pub version : String
  pub authors : String
  pub relay_load_spec : String → String → Io Spec
  -- A command of `sc_cli`, `cumulus_client_cli` or `frame_benchmarking_cli`.
  pub Cmd : Type 0
  pub WasmMethod : Type 0
  pub wasm_method : Config → WasmMethod
  pub max_runtime_instances : Config → ℕ
  pub runtime_cache_size : Config → ℕ
  -- The service: `sc_service`, `sc_telemetry`, `sc_transaction_pool`, and Cumulus.
  pub prepare_node_config : Config → Config
  pub TelemetryWorker : Type 0
  pub Telemetry : Type 0
  pub WorkerHandle : Type 0
  pub new_telemetry_worker : ℕ → Answer TelemetryWorker
  pub worker_handle : TelemetryWorker → WorkerHandle
  pub new_telemetry : WorkerHandle → Endpoints → Telemetry
  pub Client : Type 0
  pub Backend : Type 0
  pub Keystore : Type 0
  pub TransactionPool : Type 0
  pub BlockImport : Type 0
  pub ImportQueue : Type 0
  pub new_full_parts :
      Config → Option Telemetry → Executor WasmMethod → Bool → Answer (Client × Backend × Keystore)
  pub transaction_pool : Client → Bool → Config → TransactionPool
  pub block_import : Client → Backend → BlockImport
  pub verifying_import_queue : Client → BlockImport → Config → Option Telemetry → ImportQueue
  pub CollatorOptions : Type 0
  pub HwBench : Type 0
  pub CollatorPair : Type 0
  pub RelayChainInterface : Type 0
  pub OverseerHandle : Type 0
  pub Network : Type 0
  pub build_relay_chain_interface :
      Config
      → Config
      → Option WorkerHandle
      → CollatorOptions
      → Option HwBench
      → Answer (RelayChainInterface × Option CollatorPair)
  pub build_network :
      Config
      → Client
      → TransactionPool
      → ParaId
      → RelayChainInterface
      → ImportQueue
      → Answer Network
  pub new_offchain_workers :
      Client → Keystore → Backend → TransactionPool → Network → Bool → Answer ⊤
  pub spawn_tasks : Config → Client → TransactionPool → Keystore → Backend → Network → Answer ⊤
  pub check_hardware : HwBench → Bool → Bool
  pub overseer_handle : RelayChainInterface → Answer OverseerHandle
  pub start_relay_chain_tasks :
      Client
      → ParaId
      → RelayChainInterface
      → DaRecoveryProfile
      → ImportQueue
      → ℕ
      → OverseerHandle
      → Network
      → Answer ⊤
  pub collator_options : Cmd → CollatorOptions
  pub normalize : Cmd → Cmd
  pub gather_hwbench : PathBuf → List Step → HwBench
  -- `create_runner`, with the node's `load_spec`; `create_configuration`, with the relay chain's
  -- arguments, `load_spec`, `chain_id` and `base_path`.
  pub create_runner : (String → Io Spec) → Cmd → Answer Config
  pub create_configuration :
      RunCmd → (String → Io Spec) → (Bool → Io String) → Io (Option PathBuf) → Answer Config
  -- The commands' own `run`.
  pub run_build_spec : Cmd → Spec → Config → Answer ⊤
  pub run_check_block : Cmd → Client → ImportQueue → Answer ⊤
  pub run_export_blocks : Cmd → Client → Config → Answer ⊤
  pub run_export_state : Cmd → Client → Spec → Answer ⊤
  pub run_import_blocks : Cmd → Client → ImportQueue → Answer ⊤
  pub run_revert : Cmd → Client → Backend → Answer ⊤
  pub run_purge_chain : Cmd → Config → Config → Answer ⊤
  pub run_export_genesis_head : Cmd → Client → Answer ⊤
  pub run_export_genesis_wasm : Cmd → Spec → Answer ⊤
  pub run_pallet_benchmark : Cmd → Spec → Answer ⊤
  pub run_block_benchmark : Cmd → Client → Answer ⊤
  pub run_storage_benchmark : Cmd → Config → Client → Backend → Answer ⊤
  pub run_machine_benchmark : Cmd → Config → Answer ⊤
