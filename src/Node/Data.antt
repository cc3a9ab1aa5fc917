-- ===== src/Node/Data.antt =====
-- node/src/chain_spec.rs and node/src/cli.rs: the data of the node, the calls that it makes into
-- Substrate, Cumulus and Polkadot, and the monad of its start-up.
use Prim.Native.String.{String}
use contradots_techconnect_c.Base.{ℕ, Bool, true, false, Option, none, some, List, ◌∷◌}

abbrev pub AccountId : Type 0
AccountId = ℕ

abbrev pub Balance : Type 0
Balance = ℕ

abbrev pub ParaId : Type 0
ParaId = ℕ

pub record Extensions : Type 0 where
  pub relay_chain : String
  pub para_id : ParaId

-- The methods of `CliConfiguration` that the relay chain's command line passes on, with the
-- arguments that decide their answers.
pub data Setting : Type 0 where
  shared_params import_params network_params keystore_params : Setting
  rpc_addr prometheus_config : ℕ → Setting
  role transaction_pool rpc_cors : Bool → Setting
  trie_cache_maximum_size rpc_methods rpc_max_connections default_heap_pages : Setting
  force_authoring disable_grandpa max_runtime_instances announce_block : Setting
  telemetry_endpoints node_name : Setting

-- `sc_service::ChainType`, as far as it is used.
pub data ChainType : Type 0 where
  development local : ChainType

-- A property of a chain specification.
pub data Value : Type 0 where
  text : String → Value
  number : ℕ → Value

-- `runtime::GenesisConfig`, with the fields of its parts.
pub record GenesisConfig : Type 0 where
  pub code : List ℕ
  pub minimum_period : ℕ
  pub balances : List (AccountId × Balance)
  pub sudo_key : Option AccountId

-- `HeapAllocStrategy`, as far as it is used.
pub data HeapAllocStrategy : Type 0 where
  default_strategy : HeapAllocStrategy
  static_strategy : ℕ → HeapAllocStrategy

-- The options of the executor's builder.
pub record Executor (WasmMethod : Type 0) : Type 0 where
  pub wasm_method : WasmMethod
  pub onchain_heap_alloc_strategy : HeapAllocStrategy
  pub offchain_heap_alloc_strategy : HeapAllocStrategy
  pub max_runtime_instances : ℕ
  pub runtime_cache_size : ℕ

pub data DaRecoveryProfile : Type 0 where
  collator full_node : DaRecoveryProfile

-- What a `ChainSpec::builder(…)` was given before `build()`.
pub record Builder : Type 0 where
  pub code : List ℕ
  pub extensions : Extensions
  pub name : String
  pub id : String
  pub chain_type : ChainType
  pub genesis_config : GenesisConfig
  pub protocol_id : Option String
  pub properties : List (String × Value)

-- `sc_cli::Error` and `sc_service::Error`: a text of the node, or an error of a library, also
-- wrapped by the node.
pub data Error : Type 0 where
  input : String → Error
  library : String → Error
  application : Error → Error

-- A function of the node returns, fails, or ends the process (`expect`, or clap's exit).
pub data Exit (A : Type 0) : Type 0 where
  returned : A → Exit A
  failed : Error → Exit A
  stopped : Exit A

-- The calls that the node makes and that do something.
pub data Step : Type 0 where
  read_json_file : String → Step
  parsed_args created_runner created_configuration : Step
  started_telemetry_worker opened_database built_import_queue : Step
  built_relay_chain_interface started_offchain_workers spawned_tasks asked_overseer : Step
  built_network started_relay_chain_tasks spawned_aura : ParaId → Step
  spawned : String → Step
  warned_about_hardware gathered_hwbench : Step
  -- A subcommand's own `run`.
  ran : String → Step

abbrev pub ⊤ : Type 0
⊤ = Unit

-- The calls made before, the latest first, go in, and those made since come out with the result.
abbrev pub Io : Type 0 → Type 0
Io A = List Step → Exit A × List Step

-- The answer of a library to a call may depend on everything that was done before.
abbrev pub Answer : Type 0 → Type 0
Answer A = List Step → Exit A

-- What follows an action, on how it ended.
abbrev pub continue : {A B : Type 0} → (A → Io B) → Exit A → Io B
continue f (returned a) log = f a log
continue f (failed e) log = (failed e, log)
continue f stopped log = (stopped, log)

infixl 5 ◌>>=◌ ◌>>◌
unfoldable pub ◌>>=◌ : {A B : Type 0} → Io A → (A → Io B) → Io B
◌>>=◌ m f log = continue f (m log).0 (m log).1

abbrev pub ◌>>◌ : {A B : Type 0} → Io A → Io B → Io B
m >> k = m >>= λ _. k

abbrev pub pure : {A : Type 0} → A → Io A
pure a log = (returned a, log)

-- A call into a library.
abbrev pub perform : {A : Type 0} → Step → Answer A → Io A
perform step answer log = (answer log, step ∷ log)

-- A call that only starts something.
abbrev pub record_step : Step → Io ⊤
record_step step log = (returned tt, step ∷ log)

-- `option.expect(…)`
abbrev pub expect : {A : Type 0} → Option A → Io A
expect none log = (stopped, log)
expect (some a) log = (returned a, log)

-- `option.ok_or(text)?`
abbrev pub ok_or : {A : Type 0} → Option A → String → Io A
ok_or none message log = (failed (input message), log)
ok_or (some a) message log = (returned a, log)

abbrev pub fail : {A : Type 0} → String → Io A
fail message log = (failed (input message), log)

-- `result.map_err(f)`
abbrev pub map_exit : {A : Type 0} → (Error → Error) → Exit A → Exit A
map_exit f (returned a) = returned a
map_exit f (failed e) = failed (f e)
map_exit f stopped = stopped

abbrev pub map_err : {A : Type 0} → (Error → Error) → Io A → Io A
map_err f m log = (map_exit f (m log).0, (m log).1)

abbrev pub when_true : Bool → Io ⊤ → Io ⊤
when_true true m = m
when_true false m = pure tt
