-- ===== src/Solver/Run.antt =====
-- runSolver of operator/internal/controller/solver.go.
pub mod Keeps
pub mod Bounds
pub mod Goes
use praktikum.Prelude.{
  ℤ, one_ℤ, int32_sub, String, Bool, true, false, not, Option, none, some, List, [], ◌∷◌, map,
  is_empty, show_int, if◌then◌else◌, ◌<>◌,
}
use praktikum.Runtime.{on_result, Runtime, Result, ok, err, with_context}
use praktikum.Api.{DistributedTraining, ObjectiveSpec, ResolvedTopology, HistorySpec, HistoryEntry}
use praktikum.System.{
  World, Handler, ◌>>=◌, ◌>>◌, pure, ask, emit, record_event, Reconciler, normal, warning, gauge,
  list_history, solver_alpha, objective_target_time, objective_max_cost,
}
use praktikum.Controller.Defaults.{effective_machine_type}
use praktikum.Controller.Costs.{get_machine_cost}
use praktikum.History.Hash.{compute_config_hash}
use praktikum.Solver.Formulas.{ModelParams, is_flat_cost, parse_duration_seconds}
use praktikum.Solver.Estimate.{estimate_model}
use praktikum.Solver.Branches.{
  Solving, solve_time_only, solve_time_only_with_cost, solve_cost_only, solve_both,
}

module _ {rt : Runtime} (r : Reconciler rt) where
  unfoldable pub calibration_topology : ResolvedTopology
  calibration_topology = record {
    nodes = r.default_calibration_nodes;
    master_replicas = one_ℤ;
    worker_replicas = int32_sub r.default_calibration_nodes one_ℤ;
    estimated_time = "unknown (calibration run)";
    estimated_cost = "";
  }

  abbrev specs : Result (List (HistoryEntry rt.Quantity)) → Result (List (HistorySpec rt.Quantity))
  specs (ok items) = ok (map (λ i. i.spec) items)
  specs (err e) = err e

  unfoldable pub load_history :
      String → String → Handler (World rt) (Result (List (HistorySpec rt.Quantity)))
  load_history namespace config_hash = do
    items ←
        ask (list_history namespace config_hash)
          (λ trace. r.cluster.history trace namespace config_hash)
    pure (specs items)

  -- The objective's constraints as gauges.
  pub objective_gauges : ObjectiveSpec → Handler (World rt) (Unit {0})
  objective_gauges obj = do
    if is_empty obj.target_time
        then pure tt
        else on_result (parse_duration_seconds rt obj.target_time)
            (λ secs. emit (gauge objective_target_time secs)) (λ e. pure tt)
    if is_empty obj.max_cost
        then pure tt
        else on_result (rt.parse_float obj.max_cost) (λ cost. emit (gauge objective_max_cost cost))
            (λ e. pure tt)

  -- The rate is not known: the calibration topology, or the time-only path.
  solve_without_cost : DistributedTraining → ObjectiveSpec → ModelParams rt → Solving rt
  solve_without_cost job obj mp =
      let machine = rt.quote (effective_machine_type r job) in
      if is_empty obj.target_time
      then (do
        record_event warning "SolverFallback" (
            "machine type "
            <> (machine
                <> " not in cost ConfigMap, cannot evaluate maxCost — falling back to calibration"))
        pure (ok calibration_topology))
      else do
        record_event warning "SolverWarning" (
            "machine type "
            <> (machine
                <> " not in cost ConfigMap — cost constraint skipped, using time-only path"))
        solve_time_only rt job obj mp obj.max_nodes

  -- The `switch` on which constraints are given.
  solve_with_cost : DistributedTraining → ObjectiveSpec → ModelParams rt → rt.Float → Solving rt
  solve_with_cost job obj mp ch =
      let flat = is_flat_cost rt mp ch obj.max_nodes in
      if not (is_empty obj.target_time)
      then if is_empty obj.max_cost
        then solve_time_only_with_cost rt job obj mp ch obj.max_nodes true
        else solve_both rt job obj mp ch flat obj.max_nodes
      else if is_empty obj.max_cost
      then solve_both rt job obj mp ch flat obj.max_nodes
      else solve_cost_only rt job obj mp ch flat obj.max_nodes

  -- A failed read of the rate counts as an unknown rate.
  dispatch :
      DistributedTraining → ObjectiveSpec → ModelParams rt → Result (Option rt.Float) → Solving rt
  unfolding solve_without_cost solve_with_cost
  dispatch job obj mp (ok (some ch)) = solve_with_cost job obj mp ch
  dispatch job obj mp (ok none) = solve_without_cost job obj mp
  dispatch job obj mp (err e) = solve_without_cost job obj mp

  solve_from : DistributedTraining → ObjectiveSpec → List (HistorySpec rt.Quantity) → Solving rt
  unfolding objective_gauges dispatch
  solve_from job obj [] = do
    record_event normal "Calibration" (
        "No history found — running calibration topology (n="
        <> (show_int r.default_calibration_nodes <> "). Objective will be applied from next run."))
    pure (ok calibration_topology)
  solve_from job obj (e ∷ es) = do
    objective_gauges obj
    let mp = estimate_model rt (e ∷ es)
    emit (gauge solver_alpha mp.alpha)
    rate ← get_machine_cost r (effective_machine_type r job)
    dispatch job obj mp rate

  unfoldable pub run_solver : DistributedTraining → ObjectiveSpec → Solving rt
  unfolding solve_from
  run_solver job obj = do
    history ← load_history job.namespace (compute_config_hash rt.sha256_hex job)
    on_result (with_context "loading history" history) (λ entries. solve_from job obj entries)
        (λ e. pure (err e))
