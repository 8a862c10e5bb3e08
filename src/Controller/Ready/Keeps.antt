-- ===== src/Controller/Ready/Keeps.antt =====
-- What reconcileReady keeps.
use praktikum.Prelude.{String, Option, none, some}
use praktikum.Runtime.{Runtime, Error, Result, ok, err}
use praktikum.Api.{Phase, DistributedTraining, DistributedTrainingStatus}
use praktikum.System.{Trace, Reconciler, JobBackend, Manifest}
use praktikum.System.Keeps.{Keeps, Inv, Quiet, keeps_rules}
use praktikum.Controller.Transitions.Keeps.{Accepts, Keeps-set_phase, Keeps-set_failed}
use praktikum.Controller.Ready.{apply_job, record_job, submit, generate, reconcile_ready}

-- A status property that holds after each change that the handler makes.
pub record Allows (S : DistributedTrainingStatus → Type 0) : Type 0 where
  pub to_failed : Accepts S Phase.failed
  pub to_running : Accepts S Phase.running
  pub names :
      (s : DistributedTrainingStatus) (name : String) → S s → S (record s { job_name = name })

module _ {rt : Runtime} {S : DistributedTrainingStatus → Type 0} {T : Trace rt → Type 0}
    (q : Quiet T) (a : Allows S) (r : Reconciler rt) where
  Keeps-apply_job :
      (job : DistributedTraining) (obj : Manifest) → Keeps (Inv S T) (apply_job r job obj)
  unfolding apply_job
  Keeps-apply_job job obj = search (keeps_rules, q.step)

  Keeps-record_job :
      (job : DistributedTraining) (name : String) (o : Option Error)
      → Keeps (Inv S T) (record_job r job name o)
  unfolding record_job
  Keeps-record_job job name none =
      search (keeps_rules, q, a.names, Keeps-set_phase q r, a.to_running) depth 7
  Keeps-record_job job name (some e) = search (keeps_rules, Keeps-set_failed q r, a.to_failed)

  Keeps-submit :
      (job : DistributedTraining) (x : Result Manifest) → Keeps (Inv S T) (submit r job x)
  unfolding submit
  Keeps-submit job (ok obj) = search (keeps_rules, Keeps-apply_job, Keeps-record_job)
  Keeps-submit job (err e) = search (Keeps-set_failed q r, a.to_failed)

  Keeps-generate : (x : Result (JobBackend rt)) → Keeps (Inv S T) (generate r x)
  unfolding generate
  Keeps-generate (ok b) = search (keeps_rules, Keeps-submit)
  Keeps-generate (err e) = search (Keeps-set_failed q r, a.to_failed)

  pub Keeps-reconcile_ready : Keeps (Inv S T) (reconcile_ready r)
  unfolding reconcile_ready
  Keeps-reconcile_ready = search (keeps_rules, Keeps-generate)
