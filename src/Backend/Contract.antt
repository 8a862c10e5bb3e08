-- ===== src/Backend/Contract.antt =====
-- What the controller expects of a job backend, besides the types of `JobBackend`.
use praktikum.Prelude.{String, some, ◌≡◌, ◌⊎◌, lookup}
use praktikum.Runtime.{Runtime, ok}
use praktikum.Api.{DistributedTraining}
use praktikum.System.{JobBackend, Manifest, Trace}

-- The phases that reconcileRunning tells apart.
abbrev pub IsPhase : String → Type 0
IsPhase s = (s ≡ "Succeeded") ⊎ (s ≡ "Failed") ⊎ (s ≡ "Running")

abbrev pub job_label : String
job_label = "training.distributedtraining.io/job"

-- The manifest has the name given, and the job's namespace and label.
abbrev pub Describes : DistributedTraining → String → Manifest → Type 0
Describes job name m =
    (m.name ≡ name) × (m.namespace ≡ job.namespace) × (lookup job_label m.labels ≡ some job.name)

-- A manifest describes its job under the name by which the backend is asked for it later, and a
-- phase that is reported is one of the three.
pub record IsBackend {rt : Runtime} (b : JobBackend rt) : Type 0 where
  pub describes :
      (job : DistributedTraining) (m : Manifest)
      → b.generate_manifest job ≡ ok m
      → Describes job (b.backend_job_name job) m
  pub reports :
      (trace : Trace rt) (namespace name : String) (p : String × String)
      → b.phase_of trace namespace name ≡ ok p
      → IsPhase p.0
