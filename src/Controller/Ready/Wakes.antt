-- ===== src/Controller/Ready/Wakes.antt =====
-- A pass of reconcileReady asks to be called again, unless it has failed the job.
use praktikum.Prelude.{String, Option, none, some, true, false}
use praktikum.Runtime.{Runtime, Error, Result, ok, err}
use praktikum.Api.{DistributedTraining}
use praktikum.System.{Reconciler, JobBackend, Manifest}
use praktikum.System.Wakes.{Wakes, wakes_rules}
use praktikum.Controller.Transitions.Wakes.{Wakes-set_phase, Wakes-set_failed}
use praktikum.Controller.Ready.{apply_job, record_job, submit, generate, reconcile_ready}

module _ {rt : Runtime} (r : Reconciler rt) where
  Wakes-apply_job : (job : DistributedTraining) (m : Manifest) → Wakes false (apply_job r job m)
  unfolding apply_job
  Wakes-apply_job job m = search (wakes_rules)

  Wakes-record_job :
      (job : DistributedTraining) (name : String) (o : Option Error)
      → Wakes true (record_job r job name o)
  unfolding record_job
  Wakes-record_job job name (some e) = search (wakes_rules, Wakes-set_failed)
  Wakes-record_job job name none = search (wakes_rules, Wakes-set_phase) depth 8

  Wakes-submit : (job : DistributedTraining) (x : Result Manifest) → Wakes true (submit r job x)
  unfolding submit
  Wakes-submit job (err e) = Wakes-set_failed r _ _
  Wakes-submit job (ok m) = search (wakes_rules, Wakes-apply_job, Wakes-record_job)

  Wakes-generate : (x : Result (JobBackend rt)) → Wakes true (generate r x)
  unfolding generate
  Wakes-generate (err e) = Wakes-set_failed r _ _
  Wakes-generate (ok b) = search (wakes_rules, Wakes-submit) depth 7

  pub Wakes-reconcile_ready : Wakes true (reconcile_ready r)
  unfolding reconcile_ready
  Wakes-reconcile_ready = search (wakes_rules, Wakes-generate)
