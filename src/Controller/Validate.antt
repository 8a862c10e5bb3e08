-- ===== src/Controller/Validate.antt =====
-- validateSpec of operator/internal/controller/phases.go.
pub mod Exact
use praktikum.Prelude.{
  ℤ, pos, one_ℤ, two_ℤ, zero_ℤ, ltb_ℤ, String, Bool, ◌&&◌, Option, none, some, is_none, is_empty,
  if◌then◌else◌, ◌<>◌, ◌≡◌, ◌⊎◌, ◌↔◌, ◌≢◌, arith, ◌≤ℤ◌, true, false,
}
use praktikum.Runtime.{Runtime, Error, errorf}
use praktikum.Api.{
  BackendType, PytorchSpec, ObjectiveSpec, DistributedTraining, DistributedTrainingSpec,
}
use praktikum.Controller.Defaults.{effective_backend, is_spark}

-- The objective's checks.
validate_objective : Option ObjectiveSpec → BackendType → ℤ → Option Error
validate_objective none backend nodes = none
validate_objective (some obj) backend nodes =
    if is_empty obj.target_time && is_empty obj.max_cost
    then some (errorf "spec.objective requires at least one of targetTime or maxCost")
    else if ltb_ℤ obj.max_nodes two_ℤ
    then some (errorf "spec.objective.maxNodes must be ≥ 2")
    else if is_spark backend && ltb_ℤ zero_ℤ nodes
    then some (
        errorf
          "spec.objective and spec.topology.nodes are mutually exclusive — in objective mode the operator determines the topology")
    else none

validate_pytorch : Option PytorchSpec → Option Error
validate_pytorch none = some (errorf "spec.pytorchSpec is required when backend is pytorch")
validate_pytorch (some ps) =
    if is_empty ps.image then some (errorf "spec.pytorchSpec.image must not be empty") else none

-- The `switch backend`.
validate_backend : (String → String) → BackendType → DistributedTrainingSpec → Option Error
unfolding validate_pytorch
validate_backend quote BackendType.pytorch spec = validate_pytorch spec.pytorch_spec
validate_backend quote BackendType.spark spec =
    if is_none spec.spark_spec
    then some (errorf "spec.sparkSpec is required when backend is spark")
    else if is_none spec.objective && ltb_ℤ spec.topology.nodes one_ℤ
    then some (errorf "spec.topology.nodes must be ≥ 1 for spark backend")
    else none
validate_backend quote BackendType.job spec = none
validate_backend quote BackendType.unset spec = some (errorf ("unknown backend " <> quote ""))
validate_backend quote (BackendType.other s) spec = some (errorf ("unknown backend " <> quote s))

-- `quote` is `%q`.
unfoldable pub validate_spec : (String → String) → DistributedTraining → Option Error
unfolding validate_objective validate_backend
validate_spec quote job =
    let backend = effective_backend job.spec.backend in
    elim (validate_objective job.spec.objective backend job.spec.topology.nodes) [
      | some e ↦ some e
      | none ↦ validate_backend quote backend job.spec
    ]
