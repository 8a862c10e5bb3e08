-- ===== src/System/Calls.antt =====
-- The calls of the controller on other services, in the order made (newest first), and the answers,
-- each of which may depend on every call made before. The interface of operator/internal/cloud/
-- provider.go is `Provider`, that of operator/internal/backend/backend.go is `JobBackend`.
use praktikum.Prelude.{ℕ, ℤ, String, Bool, Option, List}
use praktikum.Api.{
  BackendType, Phase, DistributedTraining, DistributedTrainingStatus, JobResults, HistorySpec,
  HistoryEntry,
}
use praktikum.Runtime.{Error, Result, Runtime}
use praktikum.System.Objects.{Manifest}

pub record NodePoolConfig : Type 0 where
  pub machine_type : String
  pub node_count : ℤ
  pub accelerator_type : String
  pub accelerator_count : ℤ
  pub labels : List (String × String)
  pub disk_size_gb : ℤ
  pub node_service_account : String

pub data EventType : Type 0 where
  normal warning : EventType

-- The gauges of operator/internal/controller/metrics.go; `metric` is labelled with the metric's
-- name.
pub data Gauge : Type 0 where
  training_seconds provisioning_seconds collection_seconds cost_usd_actual nodes_provisioned : Gauge
  solver_alpha solver_nodes_selected solver_estimated_time solver_estimated_cost : Gauge
  objective_target_time objective_max_cost : Gauge
  metric : String → Gauge

-- A write carries whether it was accepted.
pub data Call (rt : Runtime) : Type 0 where
  read_clock get_job read_cost_map : Call rt
  patch_status patch_metadata : Bool → Call rt
  create_node_pool : String → NodePoolConfig → Call rt
  delete_node_pool : String → Call rt
  poll_operation : String → Call rt
  list_nodes : String → Call rt
  list_history : String → String → Call rt
  create_history : String → HistorySpec rt.Quantity → Call rt
  delete_history : String → Call rt
  apply_manifest : Manifest → Call rt
  get_phase get_start_time get_end_time : String → Call rt
  collect_results : Call rt
  event : EventType → String → String → Call rt
  phase_transition : Phase → Call rt
  gauge : Gauge → rt.Float → Call rt

abbrev pub Trace : Runtime → Type 0
Trace rt = List (Call rt)

-- A listed node: the type and the status of each of its conditions.
abbrev pub Node : Type 0
Node = List (String × String)

module _ (rt : Runtime) where
  pub record Provider : Type 0 where
    pub provider_name : String
    pub node_pool_label_key : String
    pub create : Trace rt → String → NodePoolConfig → Result String
    pub delete : Trace rt → String → Result String
    pub is_operation_done : Trace rt → String → Result Bool

  pub record JobBackend : Type 0 where
    pub generate_manifest : DistributedTraining → Result Manifest
    pub backend_job_name : DistributedTraining → String
    pub phase_of : Trace rt → String → String → Result (String × String)
    pub start_time_of : Trace rt → String → String → Result ℕ
    pub end_time_of : Trace rt → String → String → Result ℕ
    pub results_of : Trace rt → DistributedTraining → Result JobResults

  -- The Kubernetes API server and the clock. `none` answers a write that is accepted.
  pub record Cluster : Type 0 where
    pub now : Trace rt → ℕ
    pub status_patch : Trace rt → DistributedTrainingStatus → Option Error
    pub metadata_patch : Trace rt → Option Error
    pub nodes_with_label : Trace rt → String → String → Result (List Node)
    pub cost_map : Trace rt → Result (List (String × String))
    pub history : Trace rt → String → String → Result (List (HistoryEntry rt.Quantity))
    pub create_entry : Trace rt → HistorySpec rt.Quantity → Option Error
    pub delete_entry : Trace rt → String → Option Error
    pub marshal : Manifest → Option Error
    pub apply : Trace rt → Manifest → Option Error

  -- The fields of DistributedTrainingReconciler; `Backends` is a map from the key.
  pub record Reconciler : Type 0 where
    pub cluster : Cluster
    pub cloud : Provider
    pub backends : BackendType → Option JobBackend
    pub default_cpu_machine_type : String
    pub default_gpu_machine_type : String
    pub default_disk_size_gb : ℤ
    pub default_calibration_nodes : ℤ
    pub node_service_account : String
