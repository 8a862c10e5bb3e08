-- ===== src/History/Throughput.antt =====
-- extractThroughput and nodeCountForHistory of operator/internal/controller/history.go.
pub mod Collected
use praktikum.Prelude.{
  ℤ, zero_ℤ, one_ℤ, String, Option, none, some, is_empty, lookup, if◌then◌else◌, ◌<>◌, List,
}
use praktikum.Runtime.{Runtime, Result, ok, err, errorf, wrap}
use praktikum.Api.{BackendType, PytorchSpec, JobResults, DistributedTraining}
use praktikum.Controller.Defaults.{effective_backend, backend_text}
use praktikum.Solver.Formulas.{nought}

-- The metric of the total work, and that of the backend's own throughput.
abbrev pub total_key : BackendType → Option String
total_key BackendType.pytorch = some "totalSamples"
total_key BackendType.spark = some "recordsProcessed"
total_key _ = none

abbrev pub throughput_key : BackendType → Option String
throughput_key BackendType.pytorch = some "samplesPerSecond"
throughput_key BackendType.spark = some "throughputRecordsPerSec"
throughput_key _ = none

module _ (rt : Runtime) where
  -- val, ok := m[key]; ok && val != ""
  abbrev pub metric_text : List (String × String) → String → Option String
  metric_text metrics key = elim (lookup key metrics) [
    | none ↦ none
    | some val ↦ if is_empty val then none else some val
  ]

  positive_total : Option String → Option rt.Float
  positive_total none = none
  positive_total (some val) = elim (rt.parse_float val) [
    | ok total ↦ if rt.lt (nought rt) total then some total else none
    | err _ ↦ none
  ]

  -- The preferred path: a positive total, over a positive time.
  effective_throughput : Option String → List (String × String) → rt.Float → Option rt.Float
  unfolding positive_total
  effective_throughput none metrics tk = none
  effective_throughput (some key) metrics tk =
      if rt.lt (nought rt) tk
      then (elim (positive_total (metric_text metrics key)) [
        | none ↦ none
        | some total ↦ some (rt.div total tk)
      ])
      else none

  reported_throughput : BackendType → Option String → List (String × String) → Result rt.Float
  reported_throughput backend none metrics = err (
      errorf (
        "unsupported backend "
        <> (rt.quote (backend_text backend) <> " for throughput extraction")))
  reported_throughput backend (some key) metrics = elim (metric_text metrics key) [
    | none ↦ err (errorf ("metric " <> (rt.quote key <> " not found")))
    | some val ↦ elim (rt.parse_float val) [
      | ok f ↦ ok f
      | err e ↦ err (wrap ("parsing " <> (rt.quote key <> ("=" <> rt.quote val))) e)
    ]
  ]

  -- The results of the caller are never nil; a nil map of metrics reads as an empty one.
  unfoldable pub extract_throughput : BackendType → JobResults → rt.Float → Result rt.Float
  unfolding effective_throughput reported_throughput
  extract_throughput backend results tk =
      elim (effective_throughput (total_key backend) results.metrics tk) [
        | some p ↦ ok p
        | none ↦ reported_throughput backend (throughput_key backend) results.metrics
      ]

explicit_node_count : BackendType → Option PytorchSpec → ℤ → ℤ
explicit_node_count BackendType.pytorch (some _) nodes = nodes
explicit_node_count BackendType.pytorch none nodes = one_ℤ
explicit_node_count BackendType.spark _ nodes = nodes
explicit_node_count _ _ nodes = zero_ℤ

unfoldable pub node_count_for_history : DistributedTraining → ℤ
unfolding explicit_node_count
node_count_for_history job = elim job.spec.objective [
  | some _ ↦ job.status.resolved_topology.nodes
  | none ↦
      explicit_node_count (effective_backend job.spec.backend) job.spec.pytorch_spec
        job.spec.topology.nodes
]
