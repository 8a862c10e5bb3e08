-- ===== src/Controller/Running/Ends.antt =====
-- reconcileRunning comes to an end once the backend reports that the job has.
use praktikum.Prelude.{ℕ, String, Option, none, some, ◌≡◌, ◌⊎◌, inl, inr, refl}
use praktikum.Runtime.{Runtime, Result, ok, err}
use praktikum.Api.{Phase, DistributedTraining, DistributedTrainingStatus}
use praktikum.System.{World, Reconciler, JobBackend, Trace, ◌>>=◌}
use praktikum.System.Answers.{GoesOn, answers_rules}
use praktikum.System.Accepts.{AcceptsPatches, change_status-GoesOn}
use praktikum.System.Ends.{Ends, Ends-bind, Ends-known, MayEnd-GoesOn, Answers-ask}
use praktikum.Controller.Defaults.{get_backend}
use praktikum.Controller.Transitions.Ends.{set_phase-Ends, set_failed-Ends}
use praktikum.Controller.Running.{
  store_start, set_training_start, act_on_phase, follow_phase, poll, reconcile_running,
}

abbrev pub IsOver : DistributedTrainingStatus → Type 0
IsOver s = (s.phase ≡ Phase.collecting) ⊎ (s.phase ≡ Phase.failed)

abbrev pub SaysOver : Result (String × String) → Type 0
SaysOver (ok (phase, message)) = (phase ≡ "Succeeded") ⊎ (phase ≡ "Failed")
SaysOver (err e) = ⊥

-- The backend that the job runs on reports that it has succeeded or failed.
abbrev pub ReportsOver : {rt : Runtime} → Result (JobBackend rt) → Type 0
ReportsOver {rt = rt} x =
    (b : JobBackend rt) → x ≡ ok b → (t : Trace rt) (n j : String) → SaysOver (b.phase_of t n j)

module _ {rt : Runtime} (r : Reconciler rt) (accepts : AcceptsPatches r) where
  store_start-GoesOn : (x : Result ℕ) → GoesOn (store_start r x)
  unfolding store_start
  store_start-GoesOn (err e) = search (answers_rules)
  store_start-GoesOn (ok time) = search (answers_rules, change_status-GoesOn r accepts)

  set_training_start-GoesOn :
      (job : DistributedTraining) (b : JobBackend rt) (o : Option ℕ)
      → GoesOn (set_training_start r job b o)
  unfolding set_training_start
  set_training_start-GoesOn job b (some t) = search (answers_rules)
  set_training_start-GoesOn job b none = search (answers_rules, store_start-GoesOn)

  act_on_phase-Ends :
      (phase message : String)
      → (phase ≡ "Succeeded") ⊎ (phase ≡ "Failed")
      → Ends IsOver (act_on_phase r (phase, message))
  unfolding act_on_phase
  act_on_phase-Ends phase message (inl e) = rw e (set_phase-Ends r accepts _ _ (λ s h. inl h))
  act_on_phase-Ends phase message (inr e) = rw e (set_failed-Ends r accepts _ _ (λ s h. inr h))

  follow_phase-Ends :
      (job : DistributedTraining) (b : JobBackend rt) (x : Result (String × String))
      → SaysOver x
      → Ends IsOver (follow_phase r job b x)
  unfolding follow_phase
  follow_phase-Ends job b (ok (phase, message)) h =
      Ends-bind _ _ (MayEnd-GoesOn _ (set_training_start-GoesOn job b _))
        (λ u. act_on_phase-Ends phase message h)
  follow_phase-Ends job b (err e) h = elim h [ ]

  poll-Ends :
      (job : DistributedTraining) (x : Result (JobBackend rt))
      → ReportsOver x
      → Ends IsOver (poll r job x)
  unfolding poll
  poll-Ends job (err e) h = set_failed-Ends r accepts _ _ (λ s h. inr h)
  poll-Ends job (ok b) h =
      Ends-known _ _ (Answers-ask _ _ (λ t. h b refl t _ _)) (follow_phase-Ends job b)

  pub reconcile_running-ends :
      (w : World rt)
      → ReportsOver (get_backend r w.job)
      → IsOver (reconcile_running r w).1.stored.status
  unfolding reconcile_running ◌>>=◌
  reconcile_running-ends w h = (poll-Ends w.job (get_backend r w.job) h).at w
