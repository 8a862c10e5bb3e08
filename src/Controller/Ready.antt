-- ===== src/Controller/Ready.antt =====
-- reconcileReady and applyJob of operator/internal/controller/phases.go.
pub mod Keeps
pub mod Ends
pub mod Wakes
pub mod PoolName
pub mod Unsupported
use praktikum.Prelude.{
  on_option, String, Bool, true, false, Option, none, some, is_empty, if◌then◌else◌, ◌<>◌,
}
use praktikum.Runtime.{Runtime, Error, Result, ok, err, wrap}
use praktikum.Api.{Phase, DistributedTraining}
use praktikum.System.{
  World, Handler, ◌>>=◌, ◌>>◌, pure, give, ask, current, must_not, change_status, change_memory,
  fail_with, Reconciler, JobBackend, Manifest, OwnerReference, apply_manifest,
}
use praktikum.Controller.Defaults.{backend_text, node_pool_name, get_backend}
use praktikum.Controller.Transitions.{set_phase, set_failed}

abbrev pub owner_of : DistributedTraining → OwnerReference
owner_of job = record {
  api_version = "training.distributedtraining.io/v1";
  kind = "DistributedTraining";
  name = job.name;
  uid = job.uid;
  controller = true;
  block_owner_deletion = true;
}

-- if hardware.nodePoolName == "" { … = nodePoolName(job) }, in memory only
unfoldable pub with_pool_name : DistributedTraining → DistributedTraining
with_pool_name job =
    if is_empty job.spec.hardware.node_pool_name
    then record job {
      spec = record job.spec {
        hardware = record job.spec.hardware { node_pool_name = node_pool_name job };
      };
    }
    else job

module _ {rt : Runtime} (r : Reconciler rt) where
  unfoldable pub apply_job : DistributedTraining → Manifest → Handler (World rt) (Option Error)
  apply_job job obj =
      let owned = record obj { owner = some (owner_of job) } in
      on_option (r.cluster.marshal owned)
        (ask (apply_manifest owned) (λ trace. r.cluster.apply trace owned))
        (λ e. pure (some (wrap "marshalling job manifest" e)))

  record_job : DistributedTraining → String → Option Error → Handler (World rt) (Unit {0})
  record_job job name (some e) =
      if e.is_invalid
      then set_failed r "invalid job manifest" (some e)
      else give (fail_with (wrap "failed to apply job manifest" e))
  record_job job name none = do
    reply ← change_status r (λ s. record s { job_name = name })
    must_not reply
    set_phase r Phase.running (backend_text job.spec.backend <> (" job " <> (name <> " created")))

  submit : DistributedTraining → Result Manifest → Handler (World rt) (Unit {0})
  unfolding record_job
  submit job (err e) = set_failed r "failed to build job manifest" (some e)
  submit job (ok obj) = do reply ← apply_job job obj; record_job job obj.name reply

  generate : Result (JobBackend rt) → Handler (World rt) (Unit {0})
  unfolding submit
  generate (err e) = set_failed r "unsupported backend" (some e)
  generate (ok b) = do
    change_memory with_pool_name
    job ← current
    submit job (b.generate_manifest job)

  unfoldable pub reconcile_ready : Handler (World rt) (Unit {0})
  unfolding generate
  reconcile_ready = do job ← current; generate (get_backend r job)
