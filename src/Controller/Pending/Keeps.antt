-- ===== src/Controller/Pending/Keeps.antt =====
-- What reconcilePending keeps.
use praktikum.Prelude.{ℕ, Option, none, some}
use praktikum.Runtime.{Runtime, Result, ok, err}
use praktikum.Api.{
  Phase, DistributedTraining, ObjectiveSpec, DistributedTrainingStatus, ResolvedTopology,
}
use praktikum.System.{Trace, Reconciler}
use praktikum.System.Keeps.{Keeps, Inv, Quiet, keeps_rules}
use praktikum.Solver.Run.Keeps.{Keeps-run_solver}
use praktikum.Controller.Transitions.Keeps.{Accepts, Keeps-set_phase, Keeps-set_failed}
use praktikum.Controller.Pending.{
  warn_resume, set_start_time, use_topology, resolve_topology, accept_spec, reconcile_pending,
}

-- A status property that holds after each change that the handler makes.
pub record Allows (S : DistributedTrainingStatus → Type 0) : Type 0 where
  pub to_failed : Accepts S Phase.failed
  pub to_provisioning : Accepts S Phase.provisioning
  pub starts : (s : DistributedTrainingStatus) (t : ℕ) → S s → S (record s { start_time = some t })
  pub resolves :
      (s : DistributedTrainingStatus) (t : ResolvedTopology)
      → S s
      → S (record s { resolved_topology = t })

module _ {rt : Runtime} {S : DistributedTrainingStatus → Type 0} {T : Trace rt → Type 0}
    (q : Quiet T) (a : Allows S) (r : Reconciler rt) where
  Keeps-warn_resume : (job : DistributedTraining) → Keeps (Inv S T) (warn_resume r job)
  unfolding warn_resume
  Keeps-warn_resume job = search (keeps_rules, q.step)

  Keeps-set_start_time : (o : Option ℕ) → Keeps (Inv S T) (set_start_time r o)
  unfolding set_start_time
  Keeps-set_start_time none = search (keeps_rules, q, q.step, a.starts)
  Keeps-set_start_time (some t) = search (keeps_rules)

  Keeps-use_topology : (x : Result ResolvedTopology) → Keeps (Inv S T) (use_topology r x)
  unfolding use_topology
  Keeps-use_topology (ok t) = search (keeps_rules, q, a.resolves)
  Keeps-use_topology (err e) = search (Keeps-set_failed q r, a.to_failed)

  Keeps-resolve_topology :
      (job : DistributedTraining) (o : Option ObjectiveSpec)
      → Keeps (Inv S T) (resolve_topology r job o)
  unfolding resolve_topology
  Keeps-resolve_topology job none = search (keeps_rules)
  Keeps-resolve_topology job (some obj) =
      search (keeps_rules, Keeps-run_solver q r, Keeps-use_topology)

  Keeps-accept_spec : (job : DistributedTraining) → Keeps (Inv S T) (accept_spec r job)
  unfolding accept_spec
  Keeps-accept_spec job =
      search
        (
          keeps_rules,
          Keeps-warn_resume,
          Keeps-set_start_time,
          Keeps-resolve_topology,
          Keeps-set_phase q r,
          a.to_provisioning,
        )
        depth 8

  pub Keeps-reconcile_pending : Keeps (Inv S T) (reconcile_pending r)
  unfolding reconcile_pending
  Keeps-reconcile_pending =
      search (keeps_rules, Keeps-accept_spec, Keeps-set_failed q r, a.to_failed)
