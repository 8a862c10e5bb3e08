-- ===== src/Solver/Run/Keeps.antt =====
-- runSolver touches neither the stored status nor a node pool.
use praktikum.Prelude.{String, Option, none, some, List, [], ◌∷◌}
use praktikum.Runtime.{Runtime, Result, ok, err}
use praktikum.Api.{DistributedTraining, ObjectiveSpec, DistributedTrainingStatus, HistorySpec}
use praktikum.System.{Trace, Reconciler}
use praktikum.System.Keeps.{Keeps, Inv, Quiet, keeps_rules}
use praktikum.Controller.Costs.{get_machine_cost}
use praktikum.Solver.Formulas.{ModelParams}
use praktikum.Solver.Branches.{solve_time_only}
use praktikum.Solver.Branches.Keeps.{
  Keeps-solve_time_only_with_cost, Keeps-solve_cost_only, Keeps-solve_both,
}
use praktikum.Solver.Run.{
  load_history, objective_gauges, solve_without_cost, solve_with_cost, dispatch, solve_from,
  run_solver,
}

module _ {rt : Runtime} {S : DistributedTrainingStatus → Type 0} {T : Trace rt → Type 0}
    (q : Quiet T) (r : Reconciler rt) where
  pub Keeps-get_machine_cost : (machine : String) → Keeps (Inv S T) (get_machine_cost r machine)
  unfolding get_machine_cost
  Keeps-get_machine_cost machine = search (keeps_rules, q.step)

  Keeps-load_history : (namespace hash : String) → Keeps (Inv S T) (load_history r namespace hash)
  unfolding load_history
  Keeps-load_history namespace hash = search (keeps_rules, q.step)

  Keeps-objective_gauges : (obj : ObjectiveSpec) → Keeps (Inv S T) (objective_gauges r obj)
  unfolding objective_gauges
  Keeps-objective_gauges obj = search (keeps_rules, q.step) depth 7

  module _ (job : DistributedTraining) (obj : ObjectiveSpec) (mp : ModelParams rt) where
    Keeps-solve_without_cost : Keeps (Inv S T) (solve_without_cost r job obj mp)
    unfolding solve_without_cost solve_time_only
    Keeps-solve_without_cost =
        search (keeps_rules, q.step, Keeps-solve_time_only_with_cost q) depth 7

    Keeps-solve_with_cost : (ch : rt.Float) → Keeps (Inv S T) (solve_with_cost r job obj mp ch)
    unfolding solve_with_cost
    Keeps-solve_with_cost ch = search (
      keeps_rules,
      Keeps-solve_time_only_with_cost q,
      Keeps-solve_cost_only q,
      Keeps-solve_both q,
    )

    Keeps-dispatch :
        (rate : Result (Option rt.Float)) → Keeps (Inv S T) (dispatch r job obj mp rate)
    unfolding dispatch
    Keeps-dispatch (ok (some ch)) = Keeps-solve_with_cost ch
    Keeps-dispatch (ok none) = Keeps-solve_without_cost
    Keeps-dispatch (err e) = Keeps-solve_without_cost

  Keeps-solve_from :
      (job : DistributedTraining) (obj : ObjectiveSpec) (es : List (HistorySpec rt.Quantity))
      → Keeps (Inv S T) (solve_from r job obj es)
  unfolding solve_from
  Keeps-solve_from job obj [] = search (keeps_rules, q.step)
  Keeps-solve_from job obj (e ∷ es) =
      search (keeps_rules, q.step, Keeps-objective_gauges, Keeps-get_machine_cost, Keeps-dispatch)
        depth 8

  pub Keeps-run_solver :
      (job : DistributedTraining) (obj : ObjectiveSpec) → Keeps (Inv S T) (run_solver r job obj)
  unfolding run_solver
  Keeps-run_solver job obj = search (keeps_rules, Keeps-load_history, Keeps-solve_from)
