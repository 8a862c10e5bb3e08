-- ===== src/Controller/Reconcile.antt =====
-- Reconcile of operator/internal/controller/distributedtraining_controller.go: one pass over the
-- object that the API server stores. Whether the Get finds the object is part of the request.
use praktikum.Prelude.{true, not, Option, none, some, [], ◌∷◌, ◌++◌, if◌then◌else◌}
use praktikum.Runtime.{Runtime, Error, wrap}
use praktikum.Api.{Phase}
use praktikum.System.{
  World, Handler, Flow, next, returned, Outcome, ◌>>=◌, ◌>>◌, give, current, must, finished,
  fail_with, Reconciler, get_job,
}
use praktikum.Controller.Transitions.{set_phase}
use praktikum.Controller.Pending.{reconcile_pending}
use praktikum.Controller.Provisioning.{reconcile_provisioning}
use praktikum.Controller.Ready.{reconcile_ready}
use praktikum.Controller.Running.{reconcile_running}
use praktikum.Controller.Collecting.{reconcile_collecting}
use praktikum.Controller.Succeeded.{reconcile_succeeded}
use praktikum.Controller.Delete.{finalizer_name, contains, change_finalizers, reconcile_delete}

-- return ctrl.Result{Requeue: true}, nil
abbrev pub again_now : Outcome
again_now = record { requeue = true; requeue_after = 0; error = none }

abbrev pub outcome_of : Flow (Unit {0}) → Outcome
outcome_of (next _) = finished
outcome_of (returned o) = o

module _ {rt : Runtime} (r : Reconciler rt) where
  -- The `switch job.Status.Phase`.
  unfoldable pub handle_phase : Phase → Handler (World rt) (Unit {0})
  handle_phase Phase.unset = reconcile_pending r
  handle_phase Phase.pending = reconcile_pending r
  handle_phase Phase.provisioning = reconcile_provisioning r
  handle_phase Phase.ready = reconcile_ready r
  handle_phase Phase.running = reconcile_running r
  handle_phase Phase.collecting = reconcile_collecting r
  handle_phase Phase.succeeded = reconcile_succeeded r
  handle_phase Phase.failed = give finished
  handle_phase (Phase.other s) = set_phase r Phase.pending "unknown phase, resetting"

  unfoldable pub register_finalizer : Handler (World rt) (Unit {0})
  register_finalizer = do
    reply ← change_finalizers r (λ fs. fs ++ finalizer_name ∷ [])
    must "adding finalizer" reply
    give again_now

  unfoldable pub reconcile_job : Handler (World rt) (Unit {0})
  unfolding register_finalizer
  reconcile_job = do
    job ← current
    if job.deleted
        then reconcile_delete r
        else if not (contains finalizer_name job.finalizers)
        then register_finalizer
        else handle_phase job.status.phase

  -- The pass begins with the stored object in memory.
  abbrev pub fetched : World rt → World rt
  fetched w = record w { job = w.stored; trace = get_job ∷ w.trace }

  -- `found` is the error of the Get.
  unfoldable pub reconcile : Option Error → World rt → Outcome × World rt
  reconcile none w = let (flow, w') = reconcile_job (fetched w) in (outcome_of flow, w')
  reconcile (some e) w = (
    if e.is_not_found then finished else fail_with (wrap "fetching DistributedTraining" e),
    record w { trace = get_job ∷ w.trace },
  )
