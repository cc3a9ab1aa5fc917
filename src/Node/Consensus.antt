-- ===== src/Node/Consensus.antt =====
-- node/src/service.rs and `run` of node/src/command.rs: which parachain the node is a part of, and
-- when it produces blocks.
use Prim.Native.String.{String}
use contradots_techconnect_c.Base.{
  ℕ, ◌+◌, ◌≡◌, refl, Bool, true, false, Option, none, some, List, ◌∷◌, arith,
}
use contradots_techconnect_c.Node.Data.{
  ParaId, Extensions, returned, Step, built_relay_chain_interface, spawned_tasks, asked_overseer,
  built_network, started_relay_chain_tasks, spawned_aura, gathered_hwbench, parsed_args,
  created_configuration, read_json_file, created_runner, started_telemetry_worker, opened_database,
  built_import_queue, started_offchain_workers, spawned, warned_about_hardware, ran, Io, ◌>>=◌,
  expect, when_true,
}
use contradots_techconnect_c.Node.Library.{Substrate}
use contradots_techconnect_c.Node.Service.{Service, start_consensus, start_parachain_node}
use contradots_techconnect_c.Node.Cli.{Cli, new}
use contradots_techconnect_c.Node.Command.{relay_chain_config, gather_hwbench, run_node}
use contradots_techconnect_c.Node.Logs.{
  para_id_of, AllOf, one_if, is_aura, auras, Keeps, Starts, pure-Keeps, perform-Keeps,
  map_err-Keeps, expect-Keeps, record_step-Keeps, when_true-Keeps, bind-Keeps, some-Keeps,
  quiet_first, quiet_rest, pure-Starts, Keeps-Starts, perform-Starts, map_err-Starts, ok_or-Keeps,
}
use contradots_techconnect_c.Node.Quiet.{
  new_partial-Keeps, report_hardware-Keeps, start_offchain_workers-Keeps,
}

not_of_parachain-not_aura : (step : Step) → para_id_of step ≡ none → is_aura step ≡ false
not_of_parachain-not_aura (spawned_aura id) h = ground arith
not_of_parachain-not_aura (built_network id) h = refl
not_of_parachain-not_aura (started_relay_chain_tasks id) h = refl
not_of_parachain-not_aura (read_json_file id) h = refl
not_of_parachain-not_aura parsed_args h = refl
not_of_parachain-not_aura created_runner h = refl
not_of_parachain-not_aura created_configuration h = refl
not_of_parachain-not_aura started_telemetry_worker h = refl
not_of_parachain-not_aura opened_database h = refl
not_of_parachain-not_aura built_import_queue h = refl
not_of_parachain-not_aura built_relay_chain_interface h = refl
not_of_parachain-not_aura started_offchain_workers h = refl
not_of_parachain-not_aura spawned_tasks h = refl
not_of_parachain-not_aura asked_overseer h = refl
not_of_parachain-not_aura (spawned name) h = refl
not_of_parachain-not_aura warned_about_hardware h = refl
not_of_parachain-not_aura gathered_hwbench h = refl
not_of_parachain-not_aura (ran name) h = refl

pub ordinary_auras :
    (n : ℕ) (step : Step)
    → para_id_of step ≡ none
    → (log : List Step) → auras log ≡ n
    → auras (step ∷ log) ≡ n
ordinary_auras n step h log e = rw (not_of_parachain-not_aura step h) (omega (arith, e))

pub ordinary_AllOf :
    (id : ParaId) (step : Step)
    → para_id_of step ≡ none
    → (log : List Step) → AllOf id log
    → AllOf id (step ∷ log)
ordinary_AllOf id step h log all = (rw h tt, all)

module _ (L : Substrate) where
  start_parachain_node-AllOf :
      (config polkadot_config : L.Config) (options : L.CollatorOptions) (id : ParaId)
      (hwbench : Option L.HwBench)
      → Keeps (AllOf id) (start_parachain_node L config polkadot_config options id hwbench)
  unfolding start_parachain_node start_consensus
  start_parachain_node-AllOf config polkadot_config options id hwbench =
      let P = AllOf id in
      let ordinary = ordinary_AllOf id in
      bind-Keeps P (new_partial-Keeps L P ordinary _) λ params.
        bind-Keeps P
          (map_err-Keeps P _ _ (perform-Keeps P _ _ (ordinary built_relay_chain_interface refl)))
          λ relay. bind-Keeps P (perform-Keeps P _ _ (λ log all. (refl, all))) λ network.
            bind-Keeps P (start_offchain_workers-Keeps L P ordinary _ params network) λ u.
              bind-Keeps P (perform-Keeps P _ _ (ordinary spawned_tasks refl)) λ u.
                bind-Keeps P (report_hardware-Keeps L P ordinary hwbench _ params.telemetry) λ u.
                  bind-Keeps P
                    (map_err-Keeps P _ _ (perform-Keeps P _ _ (ordinary asked_overseer refl)))
                    λ overseer. bind-Keeps P (perform-Keeps P _ _ (λ log all. (refl, all))) λ u.
                      bind-Keeps P
                        (when_true-Keeps P _ _ (
                          bind-Keeps P (expect-Keeps P relay.1)
                            λ key. record_step-Keeps P _ (λ log all. (refl, all))))
                        λ u. pure-Keeps P _

  start_consensus-Starts :
      (validator : Bool) (params : Service L) (relay : L.RelayChainInterface)
      (key : Option L.CollatorPair) (id : ParaId) (overseer : L.OverseerHandle)
      → Starts
          (one_if validator)
          (when_true validator (expect key >>= λ k. start_consensus L params relay id k overseer))
  unfolding start_consensus
  start_consensus-Starts false params relay key id overseer = pure-Starts tt
  start_consensus-Starts true params relay key id overseer =
      quiet_first 1 (Keeps-Starts _ (λ n. expect-Keeps (λ log. auras log ≡ n) key))
        λ k. record { started = λ log u h. omega arith }

  quiet-Starts :
      {A : Type 0} {m : Io A}
      → ((P : List Step → Type 0)
          → ((step : Step) → para_id_of step ≡ none → (log : List Step) → P log → P (step ∷ log))
          → Keeps P m)
      → Starts 0 m
  quiet-Starts {A} {m} k = Keeps-Starts m (λ n. k (λ log. auras log ≡ n) (ordinary_auras n))

  start_parachain_node-Starts :
      (config polkadot_config : L.Config) (options : L.CollatorOptions) (id : ParaId)
      (hwbench : Option L.HwBench)
      → Starts
          (one_if (L.is_authority (L.prepare_node_config config)))
          (start_parachain_node L config polkadot_config options id hwbench)
  unfolding start_parachain_node
  start_parachain_node-Starts config polkadot_config options id hwbench =
      let k = one_if (L.is_authority (L.prepare_node_config config)) in
      quiet_first k (quiet-Starts (λ P o. new_partial-Keeps L P o _)) λ params.
        quiet_first k (map_err-Starts 0 _ _ (perform-Starts built_relay_chain_interface _)) λ relay.
          quiet_first k (perform-Starts (built_network id) _) λ network.
            quiet_first k
              (quiet-Starts (λ P o. start_offchain_workers-Keeps L P o _ params network))
              λ u. quiet_first k (perform-Starts spawned_tasks _) λ u.
                quiet_first k
                  (quiet-Starts (λ P o. report_hardware-Keeps L P o hwbench _ params.telemetry))
                  λ u.
                    quiet_first k (map_err-Starts 0 _ _ (perform-Starts asked_overseer _))
                      λ overseer.
                        quiet_first k (perform-Starts (started_relay_chain_tasks id) _) λ u.
                          quiet_rest k (start_consensus-Starts _ params relay.0 relay.1 id overseer)
                            λ u. pure-Starts _

module _ (L : Substrate) (P : List Step → Type 0)
    (ordinary : (step : Step)
      → para_id_of step ≡ none
      → (log : List Step) → P log
      → P (step ∷ log)) where
  gather_hwbench-Keeps :
      (disabled : Bool) (path : Option L.PathBuf) → Keeps P (gather_hwbench L disabled path)
  gather_hwbench-Keeps true path = pure-Keeps P none
  gather_hwbench-Keeps false none = record { kept = λ log p. p }
  gather_hwbench-Keeps false (some path) = record { kept = ordinary gathered_hwbench refl }

  pub relay_chain_config-Keeps :
      (config : L.Config) (args : List String) → Keeps P (relay_chain_config L config args)
  unfolding relay_chain_config new
  relay_chain_config-Keeps config args =
      bind-Keeps P
        (bind-Keeps P (perform-Keeps P _ _ (ordinary parsed_args refl)) λ base. pure-Keeps P _)
        λ cli. map_err-Keeps P _ _ (perform-Keeps P _ _ (ordinary created_configuration refl))

module _ (L : Substrate) where
  -- A node that starts has started block production once where its configuration, as Cumulus
  -- prepares it, is that of an authority, and else not.
  pub produces_blocks_as_authority :
      (cli : Cli L) (config : L.Config) (log : List Step)
      → (run_node L cli config log).0 ≡ returned tt
      → auras (run_node L cli config log).1
        ≡ auras log + one_if (L.is_authority (L.prepare_node_config config))
  unfolding run_node
  produces_blocks_as_authority cli config log h =
      let k = one_if (L.is_authority (L.prepare_node_config config)) in
      (quiet_first k (quiet-Starts L (λ P o. gather_hwbench-Keeps L P o _ _)) λ hwbench.
          quiet_first k (quiet-Starts L (λ P o. ok_or-Keeps P _ _)) λ extensions.
            quiet_first k
              (quiet-Starts L (λ P o. relay_chain_config-Keeps L P o config cli.relay_chain_args))
              λ polkadot_config.
                quiet_rest k (start_parachain_node-Starts L config polkadot_config _ _ hwbench)
                  λ client. pure-Starts tt).started
        log tt h

  -- Where the extensions of the chain specification name a parachain, every network, relay chain
  -- task and block production that is started, whether the start succeeds or not, is of that one.
  pub joins_parachain_of_spec :
      (cli : Cli L) (config : L.Config) (e : Extensions)
      → L.try_get (L.chain_spec config) ≡ some e
      → (log : List Step) → AllOf e.para_id log
      → AllOf e.para_id (run_node L cli config log).1
  unfolding run_node
  joins_parachain_of_spec cli config e found =
      let P = AllOf e.para_id in
      let ordinary = ordinary_AllOf e.para_id in
      (bind-Keeps P (gather_hwbench-Keeps L P ordinary cli.no_hardware_benchmarks _) λ hwbench.
        some-Keeps P _ (L.try_get (L.chain_spec config)) _ e found (
          bind-Keeps P (relay_chain_config-Keeps L P ordinary config cli.relay_chain_args)
            λ polkadot_config.
              bind-Keeps P (start_parachain_node-AllOf L config polkadot_config _ e.para_id hwbench)
                λ client. pure-Keeps P tt)).kept
