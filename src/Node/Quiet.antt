-- ===== src/Node/Quiet.antt =====
-- What the parts of node/src add to the log, but for the three calls that make the node a part of a
-- parachain.
use contradots_techconnect_c.Base.{◌≡◌, refl, Bool, true, false, Option, none, some, List, ◌∷◌}
use contradots_techconnect_c.Node.Data.{
  Step, started_telemetry_worker, opened_database, built_import_queue, started_offchain_workers,
  spawned, warned_about_hardware,
}
use contradots_techconnect_c.Node.Library.{Substrate}
use contradots_techconnect_c.Node.Service.{
  Service, start_worker, start_telemetry, spawn_telemetry, new_partial, report_hardware,
  start_offchain_workers, spawn_hwbench_telemetry,
}
use contradots_techconnect_c.Node.Logs.{
  para_id_of, Keeps, pure-Keeps, perform-Keeps, record_step-Keeps, when_true-Keeps, bind-Keeps,
}

-- A predicate on logs that the calls which concern no parachain keep.
module _ (L : Substrate) (P : List Step → Type 0)
    (ordinary : (step : Step)
      → para_id_of step ≡ none
      → (log : List Step) → P log
      → P (step ∷ log)) where
  start_worker-Keeps : (empty : Bool) (e : L.Endpoints) → Keeps P (start_worker L empty e)
  start_worker-Keeps true e = pure-Keeps P none
  start_worker-Keeps false e =
      bind-Keeps P (perform-Keeps P _ _ (ordinary started_telemetry_worker refl))
        λ w. pure-Keeps P _

  start_telemetry-Keeps : (e : Option L.Endpoints) → Keeps P (start_telemetry L e)
  start_telemetry-Keeps none = pure-Keeps P none
  start_telemetry-Keeps (some e) = start_worker-Keeps (L.is_empty e) e

  spawn_telemetry-Keeps :
      (t : Option (L.TelemetryWorker × L.Telemetry)) → Keeps P (spawn_telemetry L t)
  spawn_telemetry-Keeps none = pure-Keeps P tt
  spawn_telemetry-Keeps (some t) = record_step-Keeps P _ (ordinary (spawned "telemetry") refl)

  pub new_partial-Keeps : (config : L.Config) → Keeps P (new_partial L config)
  unfolding new_partial
  new_partial-Keeps config =
      bind-Keeps P (start_telemetry-Keeps (L.telemetry_endpoints config)) λ t.
        bind-Keeps P (perform-Keeps P _ _ (ordinary opened_database refl)) λ parts.
          bind-Keeps P (spawn_telemetry-Keeps t) λ u.
            bind-Keeps P (record_step-Keeps P _ (ordinary built_import_queue refl))
              λ v. pure-Keeps P _

  spawn_hwbench_telemetry-Keeps : (t : Option L.Telemetry) → Keeps P (spawn_hwbench_telemetry L t)
  spawn_hwbench_telemetry-Keeps none = pure-Keeps P tt
  spawn_hwbench_telemetry-Keeps (some t) =
      record_step-Keeps P _ (ordinary (spawned "telemetry_hwbench") refl)

  pub report_hardware-Keeps :
      (b : Option L.HwBench) (validator : Bool) (t : Option L.Telemetry)
      → Keeps P (report_hardware L b validator t)
  unfolding report_hardware
  report_hardware-Keeps none validator t = pure-Keeps P tt
  report_hardware-Keeps (some b) validator t =
      bind-Keeps P
        (when_true-Keeps P _ _ (record_step-Keeps P _ (ordinary warned_about_hardware refl)))
        λ u. spawn_hwbench_telemetry-Keeps t

  pub start_offchain_workers-Keeps :
      (config : L.Config) (params : Service L) (network : L.Network)
      → Keeps P (start_offchain_workers L config params network)
  unfolding start_offchain_workers
  start_offchain_workers-Keeps config params network = when_true-Keeps P _ _ (
      bind-Keeps P (perform-Keeps P _ _ (ordinary started_offchain_workers refl))
        λ u. record_step-Keeps P _ (ordinary (spawned "offchain-workers-runner") refl))
