-- ===== src/Controller/Defaults/Registered.antt =====
-- getBackend, by what is registered under the job's backend.
use praktikum.Prelude.{none, some, ◌≡◌, refl, ◌<>◌}
use praktikum.Runtime.{Runtime, ok, err, errorf}
use praktikum.Api.{DistributedTraining}
use praktikum.System.{Reconciler, JobBackend}
use praktikum.Controller.Defaults.{get_backend, effective_backend, backend_text}

module _ {rt : Runtime} (r : Reconciler rt) (job : DistributedTraining) where
  pub get_backend-found :
      (b : JobBackend rt)
      → r.backends (effective_backend job.spec.backend) ≡ some b
      → get_backend r job ≡ ok b
  unfolding get_backend
  get_backend-found b e = rw (e, get_backend) refl

  pub get_backend-missing :
      r.backends (effective_backend job.spec.backend) ≡ none
      → get_backend r job
        ≡ err (
            errorf (
              "no backend registered for "
              <> rt.quote (backend_text (effective_backend job.spec.backend))))
  unfolding get_backend
  get_backend-missing e = rw (e, get_backend) refl
