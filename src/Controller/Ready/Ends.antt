-- ===== src/Controller/Ready/Ends.antt =====
-- reconcileReady comes to an end: the job runs or is rejected.
use praktikum.Prelude.{String, true, Option, none, some, ◌≡◌, ◌⊎◌, inl, inr}
use praktikum.Runtime.{Runtime, Error, Result, ok, err}
use praktikum.Api.{Phase, DistributedTraining, DistributedTrainingStatus}
use praktikum.System.{Reconciler, JobBackend, Manifest, Trace}
use praktikum.System.Answers.{Answers}
use praktikum.System.Accepts.{
  AcceptsPatches, change_status-IsAccepted, must_not-GoesOn, current-GoesOn, change_memory-GoesOn,
}
use praktikum.System.Ends.{Ends, Ends-bind, Ends-known, MayEnd-GoesOn, Answers-ask}
use praktikum.Controller.Defaults.{get_backend}
use praktikum.Controller.Transitions.Ends.{set_phase-Ends, set_failed-Ends}
use praktikum.Controller.Ready.{apply_job, record_job, submit, generate, reconcile_ready, owner_of}

abbrev pub IsSubmitted : DistributedTrainingStatus → Type 0
IsSubmitted s = (s.phase ≡ Phase.running) ⊎ (s.phase ≡ Phase.failed)

-- An answer to the apply: accepted, or refused for good as invalid.
abbrev pub IsFinal : Option Error → Type 0
IsFinal none = Unit {0}
IsFinal (some e) = e.is_invalid ≡ true

-- Each manifest can be written as JSON, and the API server answers each apply for good.
pub record Applies {rt : Runtime} (r : Reconciler rt) : Type 0 where
  pub marshals : (m : Manifest) → r.cluster.marshal m ≡ none
  pub applies : (t : Trace rt) (m : Manifest) → IsFinal (r.cluster.apply t m)

module _ {rt : Runtime} (r : Reconciler rt) (accepts : AcceptsPatches r) (applies : Applies r) where
  apply_job-IsFinal :
      (job : DistributedTraining) (m : Manifest) → Answers IsFinal (apply_job r job m)
  unfolding apply_job
  apply_job-IsFinal job m =
      rw (applies.marshals (record m { owner = some (owner_of job) }))
        (Answers-ask _ _ (λ t. applies.applies t _))

  record_job-Ends :
      (job : DistributedTraining) (name : String) (o : Option Error)
      → IsFinal o
      → Ends IsSubmitted (record_job r job name o)
  unfolding record_job
  record_job-Ends job name (some e) h = rw h (set_failed-Ends r accepts _ _ (λ s h. inr h))
  record_job-Ends job name none h =
      Ends-known _ _ (change_status-IsAccepted r accepts _) (λ reply e.
        Ends-bind _ _ (MayEnd-GoesOn _ (must_not-GoesOn reply e))
          (λ u. set_phase-Ends r accepts _ _ (λ s h. inl h)))

  submit-Ends :
      (job : DistributedTraining) (x : Result Manifest) → Ends IsSubmitted (submit r job x)
  unfolding submit
  submit-Ends job (err e) = set_failed-Ends r accepts _ _ (λ s h. inr h)
  submit-Ends job (ok m) = Ends-known _ _ (apply_job-IsFinal job m) (record_job-Ends job m.name)

  generate-Ends : (x : Result (JobBackend rt)) → Ends IsSubmitted (generate r x)
  unfolding generate
  generate-Ends (err e) = set_failed-Ends r accepts _ _ (λ s h. inr h)
  generate-Ends (ok b) = Ends-bind _ _ (MayEnd-GoesOn _ (change_memory-GoesOn _)) (λ u.
      Ends-bind _ _ (MayEnd-GoesOn _ current-GoesOn)
        (λ job. submit-Ends job (b.generate_manifest job)))

  pub reconcile_ready-Ends : Ends IsSubmitted (reconcile_ready r)
  unfolding reconcile_ready
  reconcile_ready-Ends =
      Ends-bind _ _ (MayEnd-GoesOn _ current-GoesOn) (λ job. generate-Ends (get_backend r job))
