-- ===== src/Controller/Pending/Wakes.antt =====
-- A pass of reconcilePending asks to be called again, unless it has failed the job.
use praktikum.Prelude.{ℕ, Option, none, some, true, false}
use praktikum.Runtime.{Runtime, Result, ok, err}
use praktikum.Api.{DistributedTraining, ObjectiveSpec, ResolvedTopology}
use praktikum.System.{Reconciler}
use praktikum.System.Wakes.{Wakes, Wakes-GoesOn, wakes_rules}
use praktikum.Solver.Run.{run_solver}
use praktikum.Solver.Run.Goes.{run_solver-GoesOn}
use praktikum.Controller.Transitions.Wakes.{Wakes-set_phase, Wakes-set_failed}
use praktikum.Controller.Pending.{
  warn_resume, set_start_time, use_topology, resolve_topology, accept_spec, reconcile_pending,
}

module _ {rt : Runtime} (r : Reconciler rt) where
  Wakes-warn_resume : (job : DistributedTraining) → Wakes false (warn_resume r job)
  unfolding warn_resume
  Wakes-warn_resume job = search (wakes_rules)

  Wakes-set_start_time : (t : Option ℕ) → Wakes false (set_start_time r t)
  unfolding set_start_time
  Wakes-set_start_time (some t) = search (wakes_rules)
  Wakes-set_start_time none = search (wakes_rules) depth 7

  Wakes-use_topology : (x : Result ResolvedTopology) → Wakes false (use_topology r x)
  unfolding use_topology
  Wakes-use_topology (err e) = Wakes-set_failed r _ _
  Wakes-use_topology (ok t) = search (wakes_rules)

  Wakes-run_solver :
      (job : DistributedTraining) (obj : ObjectiveSpec) → Wakes false (run_solver r job obj)
  Wakes-run_solver job obj = Wakes-GoesOn _ (run_solver-GoesOn r job obj)

  Wakes-resolve_topology :
      (job : DistributedTraining) (o : Option ObjectiveSpec)
      → Wakes false (resolve_topology r job o)
  unfolding resolve_topology
  Wakes-resolve_topology job none = search (wakes_rules)
  Wakes-resolve_topology job (some o) =
      search (wakes_rules, Wakes-run_solver, Wakes-use_topology) depth 7

  Wakes-accept_spec : (job : DistributedTraining) → Wakes true (accept_spec r job)
  unfolding accept_spec
  Wakes-accept_spec job =
      search
        (
          wakes_rules, Wakes-warn_resume, Wakes-set_start_time, Wakes-resolve_topology,
          Wakes-set_phase,
        )
        depth 9

  pub Wakes-reconcile_pending : Wakes true (reconcile_pending r)
  unfolding reconcile_pending
  Wakes-reconcile_pending = search (wakes_rules, Wakes-accept_spec, Wakes-set_failed) depth 7
