-- ===== src/Controller/Succeeded.antt =====
-- reconcileSucceeded of operator/internal/controller/phases.go.
pub mod Keeps
pub mod Wakes
use praktikum.Prelude.{String, Bool, true, false, if◌then◌else◌, is_empty}
use praktikum.Runtime.{Runtime, Result, ok, err}
use praktikum.System.{
  World, Handler, ◌>>=◌, ◌>>◌, give, ask, current, must, change_status, finished, again_after,
  Reconciler, poll_operation,
}
use praktikum.Controller.Transitions.{requeue_after}

module _ {rt : Runtime} (r : Reconciler rt) where
  confirm_deletion : Result Bool → Handler (World rt) (Unit {0})
  confirm_deletion (err _) = give (again_after requeue_after)
  confirm_deletion (ok false) = give (again_after requeue_after)
  confirm_deletion (ok true) = do
    reply ← change_status r (λ s. record s { gke_operation_id = "" })
    must "clearing GKEOperationID" reply
    give finished

  unfoldable pub reconcile_succeeded : Handler (World rt) (Unit {0})
  unfolding confirm_deletion
  reconcile_succeeded = do
    job ← current
    if is_empty job.status.gke_operation_id then give finished else (do
      let operation = job.status.gke_operation_id
      done ← ask (poll_operation operation) (λ trace. r.cloud.is_operation_done trace operation)
      confirm_deletion done)
