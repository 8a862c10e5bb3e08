-- ===== src/Solver/Branches/Keeps.antt =====
-- The solver's branches touch neither the stored status nor a node pool.
use praktikum.Prelude.{ℤ, String, Bool}
use praktikum.Runtime.{Runtime}
use praktikum.Api.{DistributedTraining, ObjectiveSpec, DistributedTrainingStatus}
use praktikum.System.{Trace}
use praktikum.System.Keeps.{Keeps, Inv, Quiet, keeps_rules}
use praktikum.Solver.Formulas.{ModelParams}
use praktikum.Solver.Branches.{
  topology_gauges, build_topology, warn_unreachable, solve_time_only_with_cost, choose_for_budget,
  solve_cost_only, solve_parsed, solve_both,
}

module _ {rt : Runtime} {S : DistributedTrainingStatus → Type 0} {T : Trace rt → Type 0}
    (q : Quiet T) (job : DistributedTraining) (obj : ObjectiveSpec) (mp : ModelParams rt)
    (ch : rt.Float) where
  Keeps-topology_gauges :
      (n : ℤ) (known : Bool) → Keeps (Inv S T) (topology_gauges rt n mp ch known)
  unfolding topology_gauges
  Keeps-topology_gauges n known = search (keeps_rules, q.step) depth 8

  Keeps-build_topology :
      (n : ℤ) (known : Bool) → Keeps (Inv S T) (build_topology rt job n mp ch known)
  unfolding build_topology
  Keeps-build_topology n known = search (keeps_rules, Keeps-topology_gauges)

  Keeps-warn_unreachable :
      (t : String) (n : ℤ) (above : Bool) (suffix : String)
      → Keeps (Inv S T) (warn_unreachable rt t n above suffix)
  unfolding warn_unreachable
  Keeps-warn_unreachable t n above suffix = search (keeps_rules, q.step)

  pub Keeps-solve_time_only_with_cost :
      (n : ℤ) (known : Bool) → Keeps (Inv S T) (solve_time_only_with_cost rt job obj mp ch n known)
  unfolding solve_time_only_with_cost
  Keeps-solve_time_only_with_cost n known =
      search (keeps_rules, Keeps-build_topology, Keeps-warn_unreachable)

  Keeps-choose_for_budget :
      (flat : Bool) (n : ℤ) (b : rt.Float) → Keeps (Inv S T) (choose_for_budget rt mp ch flat n b)
  unfolding choose_for_budget
  Keeps-choose_for_budget flat n b = search (keeps_rules, q.step) depth 7

  pub Keeps-solve_cost_only :
      (flat : Bool) (n : ℤ) → Keeps (Inv S T) (solve_cost_only rt job obj mp ch flat n)
  unfolding solve_cost_only
  Keeps-solve_cost_only flat n = search (keeps_rules, Keeps-build_topology, Keeps-choose_for_budget)

  Keeps-solve_parsed :
      (flat : Bool) (n : ℤ) (t b : rt.Float)
      → Keeps (Inv S T) (solve_parsed rt job obj mp ch flat n t b)
  unfolding solve_parsed
  Keeps-solve_parsed flat n t b =
      search (keeps_rules, q.step, Keeps-build_topology, Keeps-warn_unreachable) depth 9

  pub Keeps-solve_both :
      (flat : Bool) (n : ℤ) → Keeps (Inv S T) (solve_both rt job obj mp ch flat n)
  unfolding solve_both
  Keeps-solve_both flat n = search (keeps_rules, Keeps-solve_parsed)
