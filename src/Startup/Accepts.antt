-- ===== src/Startup/Accepts.antt =====
-- What becomes of the specs that validateSpec accepts, with the backends that are registered.
use mathlib.Core.Path.{subst}
use praktikum.Prelude.{true, false, Option, none, some, ◌≡◌, refl, sym, ap, ◌<>◌, ◌∙◌}
use praktikum.Runtime.{Runtime, ok, err, errorf}
use praktikum.Api.{BackendType, PytorchSpec, SparkSpec, ObjectiveSpec, DistributedTraining}
use praktikum.System.{World, Reconciler, JobBackend, Manifest}
use praktikum.Backend.Reads.{Reads}
use praktikum.Backend.Pytorch.Manifest.Describes as PytorchManifest
use praktikum.Backend.Spark.Manifest.Describes as SparkManifest
use praktikum.Controller.Defaults.{effective_backend, is_job, get_backend, backend_text}
use praktikum.Controller.Ready.{with_pool_name, reconcile_ready}
use praktikum.Controller.Defaults.Registered.{get_backend-found, get_backend-missing}
use praktikum.Controller.Ready.Unsupported.{reconcile_ready-unsupported}
use praktikum.Controller.Ready.PoolName.{with_pool_name-keeps}
use praktikum.Controller.Transitions.{set_failed}
use praktikum.Controller.Validate.{validate_spec}
use praktikum.Controller.Validate.Exact.{
  ObjectiveAllows, PytorchAllows, SparkAllows, BackendAllows, validate_spec-exact,
}
use praktikum.Startup.{pytorch_backend, spark_backend, backends}

module _ {rt : Runtime} (reads : Reads rt) (job : DistributedTraining) where
  abbrev pub Generates : JobBackend rt → Type 0
  Generates b = (m : Manifest) × (b.generate_manifest (with_pool_name job) ≡ ok m)

  pytorch-Generates :
      (p : Option PytorchSpec)
      → job.spec.pytorch_spec ≡ p
      → PytorchAllows p
      → Generates (pytorch_backend reads)
  pytorch-Generates none e a = elim a [ ]
  pytorch-Generates (some ps) e a =
      PytorchManifest.generate_manifest-total (with_pool_name job) ps
        ((with_pool_name-keeps job).0 ∙ e)

  spark-Generates :
      (s : Option SparkSpec) (o : Option ObjectiveSpec)
      → job.spec.spark_spec ≡ s
      → SparkAllows s o job.spec.topology.nodes
      → Generates (spark_backend reads)
  spark-Generates none o e a = elim a [ ]
  spark-Generates (some s) o e a =
      SparkManifest.generate_manifest-total (with_pool_name job) s
        ((with_pool_name-keeps job).1 ∙ e)

  backend-Generates :
      (t : BackendType)
      → BackendAllows t job.spec
      → is_job t ≡ false
      → (b : JobBackend rt) × (backends reads t ≡ some b) × Generates b
  unfolding backends
  backend-Generates BackendType.pytorch a j =
      (pytorch_backend reads, refl, pytorch-Generates job.spec.pytorch_spec refl a)
  backend-Generates BackendType.spark a j =
      (spark_backend reads, refl, spark-Generates job.spec.spark_spec job.spec.objective refl a)
  backend-Generates BackendType.job a j = cc
  backend-Generates BackendType.unset a j = elim a [ ]
  backend-Generates (BackendType.other s) a j = elim a [ ]

module _ {rt : Runtime} (reads : Reads rt) (r : Reconciler rt)
    (registered : (t : BackendType) → r.backends t ≡ backends reads t) where
  -- With the registered backends, a job that validateSpec accepts and whose backend is not `job`
  -- has a backend, and the manifest that reconcileReady asks it for is generated without an error.
  pub validate_spec-Generates :
      (job : DistributedTraining)
      → validate_spec rt.quote job ≡ none
      → is_job (effective_backend job.spec.backend) ≡ false
      → (b : JobBackend rt) × (get_backend r job ≡ ok b) × Generates reads job b
  validate_spec-Generates job v j =
      let valid = (validate_spec-exact rt.quote job).0 v in
      let (b, found, m) =
        backend-Generates reads job (effective_backend job.spec.backend) valid.1 j in
      (b, get_backend-found r job b (registered (effective_backend job.spec.backend) ∙ found), m)

  is_job-path : (t : BackendType) → is_job t ≡ true → t ≡ BackendType.job
  is_job-path BackendType.job e = refl
  is_job-path BackendType.pytorch e = cc
  is_job-path BackendType.spark e = cc
  is_job-path BackendType.unset e = cc
  is_job-path (BackendType.other s) e = cc

  -- With the registered backends, a job of the backend `job` without an objective passes
  -- validateSpec, and reconcileReady then ends as setFailed does with the reason `unsupported
  -- backend`.
  pub job_backend-fails :
      (w : World rt)
      → is_job (effective_backend w.job.spec.backend) ≡ true
      → w.job.spec.objective ≡ none
      → (validate_spec rt.quote w.job ≡ none)
        × (reconcile_ready r w
            ≡ set_failed r "unsupported backend"
                (some (errorf ("no backend registered for " <> rt.quote "job")))
                w)
  unfolding backends
  job_backend-fails w j o =
      let t = is_job-path (effective_backend w.job.spec.backend) j in
      (
        (validate_spec-exact rt.quote w.job).1 (
          subst
              (λ x.
                ObjectiveAllows x (effective_backend w.job.spec.backend) w.job.spec.topology.nodes)
              (sym o) tt,
          subst (λ x. BackendAllows x w.job.spec) (sym t) tt,
        ),
        reconcile_ready-unsupported r w (errorf ("no backend registered for " <> rt.quote "job")) (
            get_backend-missing r w.job
              (registered (effective_backend w.job.spec.backend) ∙ ap (backends reads) t)
            ∙ ap (λ x. err (errorf ("no backend registered for " <> rt.quote (backend_text x)))) t),
      )
