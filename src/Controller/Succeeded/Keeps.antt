-- ===== src/Controller/Succeeded/Keeps.antt =====
-- What reconcileSucceeded keeps.
use praktikum.Prelude.{Bool, true, false}
use praktikum.Runtime.{Runtime, Result, ok, err}
use praktikum.Api.{DistributedTrainingStatus}
use praktikum.System.{Trace, Reconciler}
use praktikum.System.Keeps.{Keeps, Inv, Quiet, keeps_rules}
use praktikum.Controller.Succeeded.{confirm_deletion, reconcile_succeeded}

module _ {rt : Runtime} {S : DistributedTrainingStatus → Type 0} {T : Trace rt → Type 0}
    (q : Quiet T)
    (clears : (s : DistributedTrainingStatus) → S s → S (record s { gke_operation_id = "" }))
    (r : Reconciler rt) where
  Keeps-confirm_deletion : (x : Result Bool) → Keeps (Inv S T) (confirm_deletion r x)
  unfolding confirm_deletion
  Keeps-confirm_deletion (ok true) = search (keeps_rules, q, clears) depth 7
  Keeps-confirm_deletion (ok false) = search (keeps_rules)
  Keeps-confirm_deletion (err e) = search (keeps_rules)

  pub Keeps-reconcile_succeeded : Keeps (Inv S T) (reconcile_succeeded r)
  unfolding reconcile_succeeded
  Keeps-reconcile_succeeded = search (keeps_rules, q.step, Keeps-confirm_deletion) depth 7
