-- ===== src/Controller/Metrics.antt =====
-- operator/internal/controller/metrics.go: the series that a gauge sets, which is the name of the
-- metric and its labels with their values.
pub mod Distinct
use praktikum.Prelude.{String, List, [], ◌∷◌, ◌<>◌}
use praktikum.Api.{Phase, DistributedTraining}
use praktikum.System.{
  Gauge, training_seconds, provisioning_seconds, collection_seconds, cost_usd_actual,
  nodes_provisioned, solver_alpha, solver_nodes_selected, solver_estimated_time,
  solver_estimated_cost, objective_target_time, objective_max_cost, metric,
}
use praktikum.Controller.Defaults.{phase_text}

pub record Series : Type 0 where
  pub name : String
  pub labels : List (String × String)

abbrev job_labels : DistributedTraining → List (String × String) → List (String × String)
job_labels job more = ("namespace", job.namespace) ∷ ("dj_name", job.name) ∷ more

abbrev of_job : String → DistributedTraining → Series
of_job name job = record { name = "distributedtraining_" <> name; labels = job_labels job [] }

unfoldable pub series : DistributedTraining → Gauge → Series
series job training_seconds = of_job "training_seconds" job
series job provisioning_seconds = of_job "provisioning_seconds" job
series job collection_seconds = of_job "collection_seconds" job
series job cost_usd_actual = of_job "cost_usd_actual" job
series job nodes_provisioned = of_job "nodes_provisioned" job
series job solver_estimated_time = of_job "solver_estimated_time_seconds" job
series job solver_estimated_cost = of_job "solver_estimated_cost_usd" job
series job solver_nodes_selected = of_job "solver_nodes_selected" job
series job solver_alpha = of_job "solver_alpha" job
series job (metric s) = record {
  name = "distributedtraining_training_metric";
  labels = job_labels job (("metric", s) ∷ []);
}
series job objective_target_time = of_job "objective_target_time_seconds" job
series job objective_max_cost = of_job "objective_max_cost_usd" job

-- phaseTransitionsTotal
unfoldable pub transition_series : DistributedTraining → Phase → Series
transition_series job phase = record {
  name = "distributedtraining_phase_transitions_total";
  labels = job_labels job (("phase", phase_text phase) ∷ []);
}
