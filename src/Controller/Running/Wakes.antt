-- ===== src/Controller/Running/Wakes.antt =====
-- A pass of reconcileRunning asks to be called again, unless it has failed the job.
use praktikum.Prelude.{ℕ, String, Option, none, some, true, false}
use praktikum.Runtime.{Runtime, Result, ok, err}
use praktikum.Api.{DistributedTraining}
use praktikum.System.{Reconciler, JobBackend}
use praktikum.System.Wakes.{Wakes, Wakes-again_after, wakes_rules}
use praktikum.Controller.Transitions.Wakes.{later, Wakes-set_phase, Wakes-set_failed}
use praktikum.Controller.Ready.Wakes.{Wakes-reconcile_ready}
use praktikum.Controller.Running.{
  restart, job_missing, store_start, set_training_start, act_on_phase, follow_phase, poll,
  reconcile_running,
}

module _ {rt : Runtime} (r : Reconciler rt) where
  Wakes-restart : (job : DistributedTraining) → Wakes true (restart r job)
  unfolding restart
  Wakes-restart job = search (wakes_rules, Wakes-reconcile_ready) depth 8

  Wakes-job_missing : (job : DistributedTraining) → Wakes true (job_missing r job)
  unfolding job_missing
  Wakes-job_missing job = search (wakes_rules, Wakes-restart, Wakes-set_failed)

  Wakes-store_start : (x : Result ℕ) → Wakes false (store_start r x)
  unfolding store_start
  Wakes-store_start (err e) = search (wakes_rules)
  Wakes-store_start (ok t) = search (wakes_rules)

  Wakes-set_training_start :
      (job : DistributedTraining) (b : JobBackend rt) (o : Option ℕ)
      → Wakes false (set_training_start r job b o)
  unfolding set_training_start
  Wakes-set_training_start job b (some t) = search (wakes_rules)
  Wakes-set_training_start job b none = search (wakes_rules, Wakes-store_start)

  Wakes-act_on_phase : (x : String × String) → Wakes true (act_on_phase r x)
  unfolding act_on_phase
  Wakes-act_on_phase (phase, message) =
      search (wakes_rules, Wakes-set_phase, Wakes-set_failed, Wakes-again_after, later)

  Wakes-follow_phase :
      (job : DistributedTraining) (b : JobBackend rt) (x : Result (String × String))
      → Wakes true (follow_phase r job b x)
  unfolding follow_phase
  Wakes-follow_phase job b (err e) = search (wakes_rules, Wakes-job_missing)
  Wakes-follow_phase job b (ok x) =
      search (wakes_rules, Wakes-set_training_start, Wakes-act_on_phase)

  Wakes-poll : (job : DistributedTraining) (x : Result (JobBackend rt)) → Wakes true (poll r job x)
  unfolding poll
  Wakes-poll job (err e) = Wakes-set_failed r _ _
  Wakes-poll job (ok b) = search (wakes_rules, Wakes-follow_phase)

  pub Wakes-reconcile_running : Wakes true (reconcile_running r)
  unfolding reconcile_running
  Wakes-reconcile_running = search (wakes_rules, Wakes-poll)
