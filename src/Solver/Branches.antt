-- ===== src/Solver/Branches.antt =====
-- The solver's branches and buildTopology in operator/internal/controller/solver.go. A branch
-- records its warnings and sets gauges, and returns a topology or an error.
pub mod Keeps
pub mod Bounds
pub mod Goes
use praktikum.Prelude.{
  ℕ, ℤ, pos, zero_ℤ, one_ℤ, two_ℤ, int32_sub, String, Bool, true, false, ◌&&◌, show_int,
  if◌then◌else◌, ◌<>◌,
}
use praktikum.Runtime.{on_result, Runtime, Error, Result, ok, err, with_context}
use praktikum.Api.{DistributedTraining, ObjectiveSpec, ResolvedTopology}
use praktikum.System.{
  World, Handler, ◌>>=◌, ◌>>◌, pure, emit, record_event, warning, gauge, solver_nodes_selected,
  solver_estimated_time, solver_estimated_cost,
}
use praktikum.Controller.Defaults.{effective_backend, is_pytorch}
use praktikum.Solver.Formulas.{
  ModelParams, nought, half_max, pred_t, pred_cost, parse_duration_seconds, format_seconds,
}
use praktikum.Solver.Search.{binary_search_min_n, binary_search_max_n}

module _ (rt : Runtime) where
  abbrev pub Solving : Type 0
  Solving = Handler (World rt) (Result ResolvedTopology)

  -- The assembled topology, and the gauges that buildTopology sets besides.
  unfoldable pub topology :
      DistributedTraining → ℤ → ModelParams rt → rt.Float → Bool → ResolvedTopology
  topology job n mp ch ch_known =
      let split = is_pytorch (effective_backend job.spec.backend) in
      record {
        nodes = n;
        master_replicas = if split then one_ℤ else zero_ℤ;
        worker_replicas = if split then int32_sub n one_ℤ else zero_ℤ;
        estimated_time = format_seconds rt (pred_t rt n mp);
        estimated_cost =
            if ch_known && rt.lt (nought rt) ch
            then rt.format_fixed 4 (pred_cost rt n mp ch)
            else "";
      }

  topology_gauges : ℤ → ModelParams rt → rt.Float → Bool → Handler (World rt) (Unit {0})
  topology_gauges n mp ch ch_known = do
    emit (gauge solver_nodes_selected (rt.of_int n))
    if rt.lt (pred_t rt n mp) (half_max rt)
        then emit (gauge solver_estimated_time (pred_t rt n mp))
        else pure tt
    if ch_known && rt.lt (nought rt) ch
        then emit (gauge solver_estimated_cost (pred_cost rt n mp ch))
        else pure tt

  unfoldable pub build_topology :
      DistributedTraining → ℤ → ModelParams rt → rt.Float → Bool → Solving
  unfolding topology_gauges
  build_topology job n mp ch ch_known = do
    topology_gauges n mp ch ch_known
    pure (ok (topology job n mp ch ch_known))

  abbrev warn : String → Handler (World rt) (Unit {0})
  warn message = record_event warning "SolverWarning" message

  warn_unreachable : String → ℤ → Bool → String → Handler (World rt) (Unit {0})
  warn_unreachable target max_nodes above suffix =
      if above
      then warn (
          "targetTime "
          <> (target <> (" unreachable at maxNodes=" <> (show_int max_nodes <> suffix))))
      else pure tt

  unfoldable pub solve_time_only_with_cost :
      DistributedTraining → ObjectiveSpec → ModelParams rt → rt.Float → ℤ → Bool → Solving
  unfolding warn_unreachable
  solve_time_only_with_cost job obj mp ch max_nodes ch_known =
      on_result (with_context "parsing targetTime" (parse_duration_seconds rt obj.target_time))
        (λ t_target.
          let n_time = binary_search_min_n rt two_ℤ max_nodes t_target mp in
          do
            warn_unreachable obj.target_time max_nodes (rt.lt t_target (pred_t rt n_time mp))
                " — using maxNodes"
            build_topology job n_time mp ch ch_known)
        (λ e. pure (err e))

  -- solveTimeOnly has the text of solveTimeOnlyWithCost, with no rate known.
  unfoldable pub solve_time_only :
      DistributedTraining → ObjectiveSpec → ModelParams rt → ℤ → Solving
  unfolding solve_time_only_with_cost
  solve_time_only job obj mp max_nodes =
      solve_time_only_with_cost job obj mp (nought rt) max_nodes false

  -- nBudget of solveCostOnly, with its warning.
  choose_for_budget : ModelParams rt → rt.Float → Bool → ℤ → rt.Float → Handler (World rt) ℤ
  choose_for_budget mp ch flat max_nodes b_max =
      if flat
      then if rt.le (pred_cost rt two_ℤ mp ch) b_max
        then pure max_nodes
        else (do warn "budget too small for any topology — using n=2"; pure two_ℤ)
      else if rt.lt b_max (pred_cost rt two_ℤ mp ch)
      then (do warn "maxCost too low for minimum topology (n=2) — using n=2"; pure two_ℤ)
      else pure (binary_search_max_n rt two_ℤ max_nodes b_max mp ch)

  unfoldable pub solve_cost_only :
      DistributedTraining → ObjectiveSpec → ModelParams rt → rt.Float → Bool → ℤ → Solving
  unfolding choose_for_budget
  solve_cost_only job obj mp ch flat max_nodes =
      on_result (with_context "parsing maxCost" (rt.parse_float obj.max_cost))
        (λ b_max. do
          n_budget ← choose_for_budget mp ch flat max_nodes b_max
          build_topology job n_budget mp ch true)
        (λ e. pure (err e))

  abbrev relax_message : ℤ → ModelParams rt → String
  relax_message n mp =
      "targetTime unreachable within maxCost — using "
      <> (show_int n
          <> (" nodes (estimated time "
              <> (format_seconds rt (pred_t rt n mp)
                  <> "). Increase maxCost or relax targetTime.")))

  -- solveBoth once both constraints are parsed.
  solve_parsed :
      DistributedTraining
      → ObjectiveSpec
      → ModelParams rt
      → rt.Float
      → Bool
      → ℤ
      → rt.Float
      → rt.Float
      → Solving
  unfolding warn_unreachable
  solve_parsed job obj mp ch flat max_nodes t_target b_max =
      let n_time = binary_search_min_n rt two_ℤ max_nodes t_target mp in
      let too_dear = rt.lt b_max (pred_cost rt two_ℤ mp ch) in
      do
        warn_unreachable obj.target_time max_nodes (rt.lt t_target (pred_t rt n_time mp)) ""
        if rt.le (pred_cost rt n_time mp ch) b_max
            then build_topology job n_time mp ch true
            else if flat && too_dear
            then (do
              warn "budget too low for any topology — using n=2"
              build_topology job two_ℤ mp ch true)
            else if too_dear
            then (do
              warn "budget too low for minimum topology — using n=2"
              build_topology job two_ℤ mp ch true)
            else let n_budget = binary_search_max_n rt two_ℤ max_nodes b_max mp ch in
              do warn (relax_message n_budget mp); build_topology job n_budget mp ch true

  unfoldable pub solve_both :
      DistributedTraining → ObjectiveSpec → ModelParams rt → rt.Float → Bool → ℤ → Solving
  unfolding solve_parsed
  solve_both job obj mp ch flat max_nodes =
      on_result (with_context "parsing targetTime" (parse_duration_seconds rt obj.target_time))
        (λ t_target.
          on_result (with_context "parsing maxCost" (rt.parse_float obj.max_cost))
            (λ b_max. solve_parsed job obj mp ch flat max_nodes t_target b_max) (λ e. pure (err e)))
        (λ e. pure (err e))
