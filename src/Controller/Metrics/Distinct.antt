-- ===== src/Controller/Metrics/Distinct.antt =====
-- The series of different gauges are different.
use praktikum.Prelude.{
  String, Option, some, List, [], ◌∷◌, ◌≡◌, refl, lookup, get_or, str_eq, if◌then◌else◌,
}
use praktikum.Api.{DistributedTraining}
use praktikum.System.{
  Gauge, training_seconds, provisioning_seconds, collection_seconds, cost_usd_actual,
  nodes_provisioned, solver_alpha, solver_nodes_selected, solver_estimated_time,
  solver_estimated_cost, objective_target_time, objective_max_cost, metric,
}
use praktikum.Controller.Metrics.{Series, series}

plain_gauges : List (String × Gauge)
plain_gauges =
    ("distributedtraining_training_seconds", training_seconds)
    ∷ ("distributedtraining_provisioning_seconds", provisioning_seconds)
    ∷ ("distributedtraining_collection_seconds", collection_seconds)
    ∷ ("distributedtraining_cost_usd_actual", cost_usd_actual)
    ∷ ("distributedtraining_nodes_provisioned", nodes_provisioned)
    ∷ ("distributedtraining_solver_estimated_time_seconds", solver_estimated_time)
    ∷ ("distributedtraining_solver_estimated_cost_usd", solver_estimated_cost)
    ∷ ("distributedtraining_solver_nodes_selected", solver_nodes_selected)
    ∷ ("distributedtraining_solver_alpha", solver_alpha)
    ∷ ("distributedtraining_objective_target_time_seconds", objective_target_time)
    ∷ ("distributedtraining_objective_max_cost_usd", objective_max_cost)
    ∷ []

-- The gauge behind a series, read off its name, or off the label `metric` for the metrics of a job.
pub gauge_of : Series → Option Gauge
unfolding plain_gauges
gauge_of s =
    if str_eq s.name "distributedtraining_training_metric"
    then some (metric (get_or (lookup "metric" s.labels) ""))
    else lookup s.name plain_gauges

-- The name and the labels of a series determine the gauge that sets it.
pub gauge_of-series : (job : DistributedTraining) (g : Gauge) → gauge_of (series job g) ≡ some g
unfolding gauge_of series plain_gauges lookup
gauge_of-series job training_seconds = refl
gauge_of-series job provisioning_seconds = refl
gauge_of-series job collection_seconds = refl
gauge_of-series job cost_usd_actual = refl
gauge_of-series job nodes_provisioned = refl
gauge_of-series job solver_estimated_time = refl
gauge_of-series job solver_estimated_cost = refl
gauge_of-series job solver_nodes_selected = refl
gauge_of-series job solver_alpha = refl
gauge_of-series job (metric s) = refl
gauge_of-series job objective_target_time = refl
gauge_of-series job objective_max_cost = refl
