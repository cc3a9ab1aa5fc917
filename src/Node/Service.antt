-- ===== src/Node/Service.antt =====
-- node/src/service.rs: the parts of the service, and the start of the node in its order.
use contradots_techconnect_c.Base.{
  ℕ, Bool, true, false, not, ◌&&◌, Option, none, some, if◌then◌else◌,
}
use contradots_techconnect_c.Node.Data.{
  ParaId, HeapAllocStrategy, default_strategy, static_strategy, Executor, collator, full_node,
  application, started_telemetry_worker, opened_database, built_import_queue,
  built_relay_chain_interface, started_offchain_workers, spawned_tasks, asked_overseer,
  built_network, started_relay_chain_tasks, spawned_aura, spawned, warned_about_hardware, ⊤, Io,
  ◌>>=◌, ◌>>◌, pure, perform, record_step, expect, map_err, when_true,
}
use contradots_techconnect_c.Node.Library.{Substrate}

-- `map_or(DEFAULT_HEAP_ALLOC_STRATEGY, |h| HeapAllocStrategy::Static { extra_pages: h })`
abbrev pub heap_pages : Option ℕ → HeapAllocStrategy
heap_pages none = default_strategy
heap_pages (some h) = static_strategy h

-- `Duration::from_secs(6)`
abbrev pub relay_chain_slot_duration : ℕ
relay_chain_slot_duration = 6

module _ (L : Substrate) where
  -- `Service`, the `PartialComponents` that commands and the node are built from.
  pub record Service : Type 0 where
    pub client : L.Client
    pub backend : L.Backend
    pub keystore : L.Keystore
    pub transaction_pool : L.TransactionPool
    pub import_queue : L.ImportQueue
    pub block_import : L.BlockImport
    pub telemetry : Option L.Telemetry
    pub telemetry_worker_handle : Option L.WorkerHandle

  -- The telemetry, where there are endpoints (`filter(|x| !x.is_empty())`).
  abbrev pub start_worker : Bool → L.Endpoints → Io (Option (L.TelemetryWorker × L.Telemetry))
  start_worker true endpoints = pure none
  start_worker false endpoints = do
    worker ← perform started_telemetry_worker (L.new_telemetry_worker 16)
    pure (some (worker, L.new_telemetry (L.worker_handle worker) endpoints))

  abbrev pub start_telemetry : Option L.Endpoints → Io (Option (L.TelemetryWorker × L.Telemetry))
  start_telemetry none = pure none
  start_telemetry (some endpoints) = start_worker (L.is_empty endpoints) endpoints

  abbrev pub telemetry_of : Option (L.TelemetryWorker × L.Telemetry) → Option L.Telemetry
  telemetry_of none = none
  telemetry_of (some (worker, telemetry)) = some telemetry

  abbrev pub worker_handle_of : Option (L.TelemetryWorker × L.Telemetry) → Option L.WorkerHandle
  worker_handle_of none = none
  worker_handle_of (some (worker, telemetry)) = some (L.worker_handle worker)

  abbrev pub spawn_telemetry : Option (L.TelemetryWorker × L.Telemetry) → Io ⊤
  spawn_telemetry none = pure tt
  spawn_telemetry (some t) = record_step (spawned "telemetry")

  abbrev pub executor : L.Config → Executor L.WasmMethod
  executor config = record {
    wasm_method = L.wasm_method config;
    onchain_heap_alloc_strategy = heap_pages (L.default_heap_pages config);
    offchain_heap_alloc_strategy = heap_pages (L.default_heap_pages config);
    max_runtime_instances = L.max_runtime_instances config;
    runtime_cache_size = L.runtime_cache_size config;
  }

  unfoldable pub new_partial : L.Config → Io Service
  new_partial config = do
    telemetry ← start_telemetry (L.telemetry_endpoints config)
    parts ←
        perform opened_database
          (L.new_full_parts config (telemetry_of telemetry) (executor config) true)
    spawn_telemetry telemetry
    record_step built_import_queue
    pure (record {
      client = parts.0;
      backend = parts.1;
      keystore = parts.2;
      transaction_pool = L.transaction_pool parts.0 (L.is_authority config) config;
      import_queue =
          L.verifying_import_queue parts.0 (L.block_import parts.0 parts.1) config
            (telemetry_of telemetry);
      block_import = L.block_import parts.0 parts.1;
      telemetry = telemetry_of telemetry;
      telemetry_worker_handle = worker_handle_of telemetry;
    })

  -- The check of the benchmark of the hardware, if there is one.
  abbrev pub spawn_hwbench_telemetry : Option L.Telemetry → Io ⊤
  spawn_hwbench_telemetry none = pure tt
  spawn_hwbench_telemetry (some telemetry) = record_step (spawned "telemetry_hwbench")

  unfoldable pub report_hardware : Option L.HwBench → Bool → Option L.Telemetry → Io ⊤
  report_hardware none validator telemetry = pure tt
  report_hardware (some hwbench) validator telemetry = do
    when_true (not (L.check_hardware hwbench false) && validator)
        (record_step warned_about_hardware)
    spawn_hwbench_telemetry telemetry

  unfoldable pub start_offchain_workers : L.Config → Service → L.Network → Io ⊤
  start_offchain_workers config params network = when_true (L.offchain_worker_enabled config) (do
    perform started_offchain_workers (
        L.new_offchain_workers params.client params.keystore params.backend params.transaction_pool
          network (L.is_authority config))
    record_step (spawned "offchain-workers-runner"))

  -- `AuraParams`, but for the closures and the services of the task manager.
  pub record AuraParams : Type 0 where
    pub block_import : L.BlockImport
    pub para_client : L.Client
    pub para_backend : L.Backend
    pub relay_client : L.RelayChainInterface
    pub keystore : L.Keystore
    pub collator_key : L.CollatorPair
    pub para_id : ParaId
    pub overseer_handle : L.OverseerHandle
    pub relay_chain_slot_duration : ℕ
    -- In milliseconds.
    pub authoring_duration : ℕ
    pub reinitialize : Bool

  -- `aura::run`, in a task of its own.
  abbrev pub spawn_aura : AuraParams → Io ⊤
  spawn_aura params = record_step (spawned_aura params.para_id)

  unfoldable pub start_consensus :
      Service → L.RelayChainInterface → ParaId → L.CollatorPair → L.OverseerHandle → Io ⊤
  start_consensus params relay_chain_interface para_id collator_key overseer_handle =
      spawn_aura (record {
        block_import = params.block_import;
        para_client = params.client;
        para_backend = params.backend;
        relay_client = relay_chain_interface;
        keystore = params.keystore;
        collator_key = collator_key;
        para_id = para_id;
        overseer_handle = overseer_handle;
        relay_chain_slot_duration = relay_chain_slot_duration;
        authoring_duration = 2000;
        reinitialize = false;
      })

  unfoldable pub start_parachain_node :
      L.Config → L.Config → L.CollatorOptions → ParaId → Option L.HwBench → Io L.Client
  unfolding new_partial report_hardware start_offchain_workers start_consensus
  start_parachain_node unprepared polkadot_config options para_id hwbench =
      let config = L.prepare_node_config unprepared in
      let validator = L.is_authority config in
      do
        params ← new_partial config
        relay ← map_err application (
            perform built_relay_chain_interface (
              L.build_relay_chain_interface polkadot_config config params.telemetry_worker_handle
                options hwbench))
        network ← perform (built_network para_id) (
            L.build_network config params.client params.transaction_pool para_id relay.0
              params.import_queue)
        start_offchain_workers config params network
        perform spawned_tasks (
            L.spawn_tasks config params.client params.transaction_pool params.keystore
              params.backend network)
        report_hardware hwbench validator params.telemetry
        overseer ← map_err application (perform asked_overseer (L.overseer_handle relay.0))
        perform (started_relay_chain_tasks para_id) (
            L.start_relay_chain_tasks params.client para_id relay.0
              (if validator then collator else full_node) params.import_queue
              relay_chain_slot_duration overseer network)
        when_true validator
            (do key ← expect relay.1; start_consensus params relay.0 para_id key overseer)
        pure params.client
