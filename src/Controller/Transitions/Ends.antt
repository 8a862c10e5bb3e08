-- ===== src/Controller/Transitions/Ends.antt =====
-- setPhase and setFailed store their phase when the patch is accepted.
use praktikum.Prelude.{String, Option, ◌≡◌, refl}
use praktikum.Runtime.{Runtime, Error}
use praktikum.Api.{Phase, DistributedTrainingStatus}
use praktikum.System.{Reconciler, ◌>>=◌}
use praktikum.System.Accepts.{AcceptsPatches}
use praktikum.System.Ends.{Ends}
use praktikum.Controller.Transitions.{set_phase, set_failed}

module _ {rt : Runtime} (r : Reconciler rt) (accepts : AcceptsPatches r)
    {Q : DistributedTrainingStatus → Type 0} where
  pub set_phase-Ends :
      (p : Phase) (message : String)
      → ((s : DistributedTrainingStatus) → s.phase ≡ p → Q s)
      → Ends Q (set_phase r p message)
  unfolding set_phase ◌>>=◌
  set_phase-Ends p message q = record {
    at = λ w.
        rw (accepts.patches w.trace (record w.job.status { phase = p; message = message }))
          (q (record w.stored.status { phase = p; message = message }) refl);
  }

  pub set_failed-Ends :
      (reason : String) (cause : Option Error)
      → ((s : DistributedTrainingStatus) → s.phase ≡ Phase.failed → Q s)
      → Ends Q (set_failed r reason cause)
  unfolding set_failed ◌>>=◌
  set_failed-Ends reason cause q = record { at = λ w. simp (accepts.patches) (q _ refl) }
