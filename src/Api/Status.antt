-- ===== src/Api/Status.antt =====
-- The status of a DistributedTraining, the object itself and the history entry:
-- operator/api/v1/distributedtraining_types.go from line 493, and
-- distributedtraininghistory_types.go. A time is the number of nanoseconds since Go's zero time,
-- which is 0.
use praktikum.Prelude.{ℕ, ℤ, zero_ℤ, String, Bool, Option, none, List, []}
use praktikum.Api.Spec.{BackendType, Phase, DistributedTrainingSpec}

pub record JobResults : Type 0 where
  pub training_time : String
  pub provisioning_time : String
  pub collection_time : String
  pub estimated_cost_usd : String
  pub metrics : List (String × String)

-- `&JobResults{}`
abbrev pub no_results : JobResults
no_results = record {
  training_time = "";
  provisioning_time = "";
  collection_time = "";
  estimated_cost_usd = "";
  metrics = [];
}

pub record ResolvedTopology : Type 0 where
  pub nodes : ℤ
  pub master_replicas : ℤ
  pub worker_replicas : ℤ
  pub estimated_time : String
  pub estimated_cost : String

-- `ResolvedTopology{}`
abbrev pub no_topology : ResolvedTopology
no_topology = record {
  nodes = zero_ℤ;
  master_replicas = zero_ℤ;
  worker_replicas = zero_ℤ;
  estimated_time = "";
  estimated_cost = "";
}

-- `conditions` is never read or written by the operator and is left out.
pub record DistributedTrainingStatus : Type 0 where
  pub phase : Phase
  pub message : String
  pub start_time : Option ℕ
  pub provisioning_start_time : Option ℕ
  pub training_start_time : Option ℕ
  pub finish_time : Option ℕ
  pub job_name : String
  pub node_pool_size : ℤ
  pub results : Option JobResults
  pub gke_operation_id : String
  pub resolved_topology : ResolvedTopology

abbrev pub no_status : DistributedTrainingStatus
no_status = record {
  phase = Phase.unset;
  message = "";
  start_time = none;
  provisioning_start_time = none;
  training_start_time = none;
  finish_time = none;
  job_name = "";
  node_pool_size = zero_ℤ;
  results = none;
  gke_operation_id = "";
  resolved_topology = no_topology;
}

-- Of the object's metadata, what the operator reads: `deleted` is a non-zero deletion timestamp.
pub record DistributedTraining : Type 0 where
  pub name : String
  pub namespace : String
  pub uid : String
  pub deleted : Bool
  pub finalizers : List String
  pub spec : DistributedTrainingSpec
  pub status : DistributedTrainingStatus

-- `Q` is the type of resource.Quantity.
pub record HistorySpec (Q : Type 0) : Type 0 where
  pub backend : BackendType
  pub machine_type : String
  pub config_hash : String
  pub nodes : ℤ
  pub throughput : Q
  pub training_seconds : Q
  pub total_work : Q
  pub provisioning_seconds : Q
  pub actual_cost_usd : String

-- A listed DistributedTrainingHistory: its name, its creation time, and the spec.
pub record HistoryEntry (Q : Type 0) : Type 0 where
  pub name : String
  pub created : ℕ
  pub spec : HistorySpec Q
