-- ===== src/Solver/Branches/Goes.antt =====
-- The solver's branches always go on with an answer.
use praktikum.Prelude.{ℤ, String, Bool}
use praktikum.Runtime.{Runtime}
use praktikum.Api.{DistributedTraining, ObjectiveSpec}
use praktikum.System.Answers.{GoesOn, answers_rules}
use praktikum.Solver.Formulas.{ModelParams}
use praktikum.Solver.Branches.{
  topology_gauges, build_topology, warn_unreachable, solve_time_only, solve_time_only_with_cost,
  choose_for_budget, solve_cost_only, solve_parsed, solve_both,
}

module _ {rt : Runtime} (job : DistributedTraining) (obj : ObjectiveSpec) (mp : ModelParams rt)
    (ch : rt.Float) where
  topology_gauges-GoesOn : (n : ℤ) (known : Bool) → GoesOn (topology_gauges rt n mp ch known)
  unfolding topology_gauges
  topology_gauges-GoesOn n known = search (answers_rules) depth 8

  build_topology-GoesOn : (n : ℤ) (known : Bool) → GoesOn (build_topology rt job n mp ch known)
  unfolding build_topology
  build_topology-GoesOn n known = search (answers_rules, topology_gauges-GoesOn)

  warn_unreachable-GoesOn :
      (t : String) (n : ℤ) (above : Bool) (suffix : String)
      → GoesOn (warn_unreachable rt t n above suffix)
  unfolding warn_unreachable
  warn_unreachable-GoesOn t n above suffix = search (answers_rules)

  pub solve_time_only_with_cost-GoesOn :
      (n : ℤ) (known : Bool) → GoesOn (solve_time_only_with_cost rt job obj mp ch n known)
  unfolding solve_time_only_with_cost
  solve_time_only_with_cost-GoesOn n known =
      search (answers_rules, build_topology-GoesOn, warn_unreachable-GoesOn)

  choose_for_budget-GoesOn :
      (flat : Bool) (n : ℤ) (b : rt.Float) → GoesOn (choose_for_budget rt mp ch flat n b)
  unfolding choose_for_budget
  choose_for_budget-GoesOn flat n b = search (answers_rules) depth 7

  pub solve_cost_only-GoesOn :
      (flat : Bool) (n : ℤ) → GoesOn (solve_cost_only rt job obj mp ch flat n)
  unfolding solve_cost_only
  solve_cost_only-GoesOn flat n =
      search (answers_rules, build_topology-GoesOn, choose_for_budget-GoesOn)

  solve_parsed-GoesOn :
      (flat : Bool) (n : ℤ) (t b : rt.Float) → GoesOn (solve_parsed rt job obj mp ch flat n t b)
  unfolding solve_parsed
  solve_parsed-GoesOn flat n t b =
      search (answers_rules, build_topology-GoesOn, warn_unreachable-GoesOn) depth 9

  pub solve_both-GoesOn : (flat : Bool) (n : ℤ) → GoesOn (solve_both rt job obj mp ch flat n)
  unfolding solve_both
  solve_both-GoesOn flat n = search (answers_rules, solve_parsed-GoesOn)

module _ {rt : Runtime} (job : DistributedTraining) (obj : ObjectiveSpec)
    (mp : ModelParams rt) where
  pub solve_time_only-GoesOn : (n : ℤ) → GoesOn (solve_time_only rt job obj mp n)
  unfolding solve_time_only
  solve_time_only-GoesOn n = solve_time_only_with_cost-GoesOn job obj mp _ n _
