-- ===== src/Solver/Run/Bounds.antt =====
-- Which topologies the solver may answer with.
use praktikum.Prelude.{
  ℕ, ◌≤◌, ◌<◌, ◌≡◌, ◌⊎◌, inl, inr, ℤ, pos, String, Bool, true, Option, none, some, List, [], ◌∷◌,
}
use praktikum.Runtime.{Runtime, Result, ok, err}
use praktikum.Api.{DistributedTraining, ObjectiveSpec, ResolvedTopology, HistorySpec}
use praktikum.System.{World, Reconciler, Handler, next}
use praktikum.System.Answers.{Answers, GoesOn, Answers-weaken, Answers-value, answers_rules}
use praktikum.Controller.Costs.{get_machine_cost}
use praktikum.Solver.Formulas.{ModelParams}
use praktikum.Solver.Branches.{
  solve_time_only, solve_time_only_with_cost, solve_cost_only, solve_both,
}
use praktikum.Solver.Branches.Bounds.{
  IsSolved, Solved, solve_time_only-Solved, solve_time_only_with_cost-Solved,
  solve_cost_only-Solved, solve_both-Solved,
}
use praktikum.Solver.Run.{
  calibration_topology, load_history, objective_gauges, solve_without_cost, solve_with_cost,
  dispatch, solve_from, run_solver,
}

module _ {rt : Runtime} (r : Reconciler rt) where
  get_machine_cost-GoesOn : (machine : String) → GoesOn (get_machine_cost r machine)
  unfolding get_machine_cost
  get_machine_cost-GoesOn machine = search (answers_rules)

  objective_gauges-GoesOn : (obj : ObjectiveSpec) → GoesOn (objective_gauges r obj)
  unfolding objective_gauges
  objective_gauges-GoesOn obj = search (answers_rules) depth 8

  load_history-GoesOn : (n c : String) → GoesOn (load_history r n c)
  unfolding load_history
  load_history-GoesOn n c = search (answers_rules)

module _ {rt : Runtime} (r : Reconciler rt) (job : DistributedTraining) (obj : ObjectiveSpec)
    (h : ℕ) (limit : obj.max_nodes ≡ pos h) (two : 2 ≤ h) (small : h < 1073741824) where
  -- An answer is an error, the calibration topology or a solved one.
  abbrev pub Fits : Result ResolvedTopology → Type 0
  Fits (ok t) = (t ≡ calibration_topology r) ⊎ IsSolved job h t
  Fits (err e) = Unit {0}

  Solved-Fits : (x : Result ResolvedTopology) → Solved job h x → Fits x
  Solved-Fits (ok t) s = inr s
  Solved-Fits (err e) s = tt

  Answers-Solved :
      {m : Handler (World rt) (Result ResolvedTopology)} → Answers (Solved job h) m → Answers Fits m
  Answers-Solved p = Answers-weaken Solved-Fits p

  -- The branches at a limit that is known to be `h`.
  module _ (mp : ModelParams rt) (n : ℤ) (e : n ≡ pos h) where
    time_only-Fits : Answers Fits (solve_time_only rt job obj mp n)
    time_only-Fits = rw e (Answers-Solved (solve_time_only-Solved rt job obj mp h two small))

    time_only_with_cost-Fits :
        (ch : rt.Float) → Answers Fits (solve_time_only_with_cost rt job obj mp ch n true)
    time_only_with_cost-Fits ch =
        rw e (Answers-Solved (solve_time_only_with_cost-Solved rt job obj mp ch h two small true))

    cost_only-Fits :
        (ch : rt.Float) (flat : Bool) → Answers Fits (solve_cost_only rt job obj mp ch flat n)
    cost_only-Fits ch flat =
        rw e (Answers-Solved (solve_cost_only-Solved rt job obj mp ch h two small flat))

    both-Fits : (ch : rt.Float) (flat : Bool) → Answers Fits (solve_both rt job obj mp ch flat n)
    both-Fits ch flat = rw e (Answers-Solved (solve_both-Solved rt job obj mp ch h two small flat))

  solve_without_cost-Fits : (mp : ModelParams rt) → Answers Fits (solve_without_cost r job obj mp)
  unfolding solve_without_cost
  solve_without_cost-Fits mp =
      search (answers_rules, inl, limit, time_only-Fits mp obj.max_nodes) depth 7

  solve_with_cost-Fits :
      (mp : ModelParams rt) (ch : rt.Float) → Answers Fits (solve_with_cost r job obj mp ch)
  unfolding solve_with_cost
  solve_with_cost-Fits mp ch =
      search
        (
          answers_rules,
          time_only_with_cost-Fits mp obj.max_nodes limit,
          both-Fits mp obj.max_nodes limit,
          cost_only-Fits mp obj.max_nodes limit,
        )
        depth 8

  dispatch-Fits :
      (mp : ModelParams rt) (x : Result (Option rt.Float)) → Answers Fits (dispatch r job obj mp x)
  unfolding dispatch
  dispatch-Fits mp (ok (some ch)) = solve_with_cost-Fits mp ch
  dispatch-Fits mp (ok none) = solve_without_cost-Fits mp
  dispatch-Fits mp (err e) = solve_without_cost-Fits mp

  solve_from-Fits :
      (entries : List (HistorySpec rt.Quantity)) → Answers Fits (solve_from r job obj entries)
  unfolding solve_from
  solve_from-Fits [] = search (answers_rules, inl) depth 7
  solve_from-Fits (e ∷ es) =
      search (answers_rules, objective_gauges-GoesOn r, get_machine_cost-GoesOn r, dispatch-Fits)
        depth 8

  pub run_solver-Fits : Answers Fits (run_solver r job obj)
  unfolding run_solver
  run_solver-Fits = search (answers_rules, load_history-GoesOn r, solve_from-Fits) depth 8

  -- Let the objective's maxNodes be from 2 to below 2 ^ 30. In every world runSolver goes on with
  -- an answer, and if this is a topology, it is the calibration topology or one with a node count
  -- from 2 to maxNodes in which, for the PyTorch backend, there is one master and the master and
  -- the workers add up to the node count.
  pub run_solver-answers :
      (w : World rt)
      → (x : Result ResolvedTopology) × ((run_solver r job obj w).0 ≡ next x) × Fits x
  run_solver-answers w = Answers-value run_solver-Fits w
