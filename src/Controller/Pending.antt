-- ===== src/Controller/Pending.antt =====
-- reconcilePending of operator/internal/controller/phases.go.
pub mod Keeps
pub mod Ends
pub mod Solved
pub mod Wakes
use praktikum.Prelude.{
  on_option, ℕ, ℤ, zero_ℤ, eq_ℤ, String, Bool, ◌||◌, Option, none, some, is_empty, if◌then◌else◌,
}
use praktikum.Runtime.{Runtime, Result, ok, err}
use praktikum.Api.{Phase, DistributedTraining, ObjectiveSpec, ResolvedTopology}
use praktikum.System.{
  World, Handler, ◌>>=◌, ◌>>◌, pure, current, must, now, change_status, record_event, Reconciler,
  warning,
}
use praktikum.Controller.Defaults.{effective_backend, is_pytorch}
use praktikum.Controller.Validate.{validate_spec}
use praktikum.Controller.Transitions.{set_phase, set_failed}
use praktikum.Solver.Run.{run_solver}

module _ {rt : Runtime} (r : Reconciler rt) where
  pub warn_resume : DistributedTraining → Handler (World rt) (Unit {0})
  warn_resume job =
      if is_empty job.spec.resume_from_checkpoint || is_pytorch (effective_backend job.spec.backend)
      then pure tt
      else record_event warning "InvalidField"
          "spec.resumeFromCheckpoint is only supported for the pytorch backend and will be ignored"

  pub set_start_time : Option ℕ → Handler (World rt) (Unit {0})
  set_start_time (some _) = pure tt
  set_start_time none = do
    time ← now r
    reply ← change_status r (λ s. record s { start_time = some time })
    must "setting StartTime" reply

  use_topology : Result ResolvedTopology → Handler (World rt) (Unit {0})
  use_topology (err e) = set_failed r "topology solver failed" (some e)
  use_topology (ok topology) = do
    reply ← change_status r (λ s. record s { resolved_topology = topology })
    must "writing ResolvedTopology" reply

  -- Objective mode: the topology is solved once.
  resolve_topology : DistributedTraining → Option ObjectiveSpec → Handler (World rt) (Unit {0})
  unfolding use_topology
  resolve_topology job none = pure tt
  resolve_topology job (some obj) =
      if eq_ℤ job.status.resolved_topology.nodes zero_ℤ
      then (do topology ← run_solver r job obj; use_topology topology)
      else pure tt

  accept_spec : DistributedTraining → Handler (World rt) (Unit {0})
  unfolding warn_resume set_start_time resolve_topology
  accept_spec job = do
    warn_resume job
    set_start_time job.status.start_time
    resolve_topology job job.spec.objective
    set_phase r Phase.provisioning "spec validated, requesting node pool creation"

  unfoldable pub reconcile_pending : Handler (World rt) (Unit {0})
  unfolding accept_spec
  reconcile_pending = do
    job ← current
    on_option (validate_spec rt.quote job) (accept_spec job)
        (λ e. set_failed r "invalid spec" (some e))
