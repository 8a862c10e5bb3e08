-- ===== src/Solver/Run/Goes.antt =====
-- runSolver always goes on with an answer, whatever the objective's limits are.
use praktikum.Prelude.{String, Option, some, none, List, [], ◌∷◌}
use praktikum.Runtime.{Runtime, Result, ok, err}
use praktikum.Api.{DistributedTraining, ObjectiveSpec, HistorySpec}
use praktikum.System.{Reconciler}
use praktikum.System.Answers.{GoesOn, answers_rules}
use praktikum.Controller.Costs.{get_machine_cost}
use praktikum.Solver.Formulas.{ModelParams}
use praktikum.Solver.Branches.Goes.{
  solve_time_only-GoesOn, solve_time_only_with_cost-GoesOn, solve_cost_only-GoesOn,
  solve_both-GoesOn,
}
use praktikum.Solver.Run.{
  load_history, objective_gauges, solve_without_cost, solve_with_cost, dispatch, solve_from,
  run_solver,
}

module _ {rt : Runtime} (r : Reconciler rt) where
  pub get_machine_cost-GoesOn : (machine : String) → GoesOn (get_machine_cost r machine)
  unfolding get_machine_cost
  get_machine_cost-GoesOn machine = search (answers_rules)

  pub objective_gauges-GoesOn : (obj : ObjectiveSpec) → GoesOn (objective_gauges r obj)
  unfolding objective_gauges
  objective_gauges-GoesOn obj = search (answers_rules) depth 8

  pub load_history-GoesOn : (n c : String) → GoesOn (load_history r n c)
  unfolding load_history
  load_history-GoesOn n c = search (answers_rules)

  module _ (job : DistributedTraining) (obj : ObjectiveSpec) where
    solve_without_cost-GoesOn : (mp : ModelParams rt) → GoesOn (solve_without_cost r job obj mp)
    unfolding solve_without_cost
    solve_without_cost-GoesOn mp = search (answers_rules, solve_time_only-GoesOn) depth 7

    solve_with_cost-GoesOn :
        (mp : ModelParams rt) (ch : rt.Float) → GoesOn (solve_with_cost r job obj mp ch)
    unfolding solve_with_cost
    solve_with_cost-GoesOn mp ch =
        search
          (
            answers_rules, solve_time_only_with_cost-GoesOn, solve_cost_only-GoesOn,
            solve_both-GoesOn,
          )
          depth 8

    dispatch-GoesOn :
        (mp : ModelParams rt) (x : Result (Option rt.Float)) → GoesOn (dispatch r job obj mp x)
    unfolding dispatch
    dispatch-GoesOn mp (ok (some ch)) = solve_with_cost-GoesOn mp ch
    dispatch-GoesOn mp (ok none) = solve_without_cost-GoesOn mp
    dispatch-GoesOn mp (err e) = solve_without_cost-GoesOn mp

    solve_from-GoesOn :
        (entries : List (HistorySpec rt.Quantity)) → GoesOn (solve_from r job obj entries)
    unfolding solve_from
    solve_from-GoesOn [] = search (answers_rules) depth 7
    solve_from-GoesOn (e ∷ es) =
        search (answers_rules, objective_gauges-GoesOn, get_machine_cost-GoesOn, dispatch-GoesOn)
          depth 8

    pub run_solver-GoesOn : GoesOn (run_solver r job obj)
    unfolding run_solver
    run_solver-GoesOn = search (answers_rules, load_history-GoesOn, solve_from-GoesOn) depth 8
