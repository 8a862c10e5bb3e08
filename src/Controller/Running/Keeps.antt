-- ===== src/Controller/Running/Keeps.antt =====
-- What reconcileRunning keeps.
use praktikum.Prelude.{ℕ, String, Option, none, some}
use praktikum.Runtime.{Runtime, Result, ok, err}
use praktikum.Api.{Phase, DistributedTraining, DistributedTrainingStatus}
use praktikum.System.{Trace, Reconciler, JobBackend}
use praktikum.System.Keeps.{Keeps, Inv, Quiet, Keeps-bind, keeps_rules}
use praktikum.Controller.Transitions.Keeps.{Accepts, Keeps-set_phase, Keeps-set_failed}
use praktikum.Controller.Ready.Keeps as ReadyKeeps
use praktikum.Controller.Running.{
  restart, job_missing, store_start, set_training_start, act_on_phase, follow_phase, poll,
  reconcile_running,
}

-- A status property that holds after each change that the handler makes, those of a restart
-- included.
pub record Allows (S : DistributedTrainingStatus → Type 0) : Type 0 where
  pub restarts : ReadyKeeps.Allows S
  pub to_collecting : Accepts S Phase.collecting
  pub starts :
      (s : DistributedTrainingStatus) (o : Option ℕ)
      → S s
      → S (record s { training_start_time = o })

module _ {rt : Runtime} {S : DistributedTrainingStatus → Type 0} {T : Trace rt → Type 0}
    (q : Quiet T) (a : Allows S) (r : Reconciler rt) where
  Keeps-restart : (job : DistributedTraining) → Keeps (Inv S T) (restart r job)
  unfolding restart
  Keeps-restart job = Keeps-bind _ _ (search (keeps_rules, q.step)) (λ _.
      Keeps-bind _ _ (search (keeps_rules, q, a.starts)) (λ reply.
        Keeps-bind _ _ (search (keeps_rules))
          (λ _. ReadyKeeps.Keeps-reconcile_ready q a.restarts r)))

  Keeps-job_missing : (job : DistributedTraining) → Keeps (Inv S T) (job_missing r job)
  unfolding job_missing
  Keeps-job_missing job =
      search (keeps_rules, Keeps-restart, Keeps-set_failed q r, a.restarts.to_failed)

  Keeps-store_start : (x : Result ℕ) → Keeps (Inv S T) (store_start r x)
  unfolding store_start
  Keeps-store_start (ok t) = search (keeps_rules, q, a.starts) depth 7
  Keeps-store_start (err e) = search (keeps_rules)

  Keeps-set_training_start :
      (job : DistributedTraining) (b : JobBackend rt) (o : Option ℕ)
      → Keeps (Inv S T) (set_training_start r job b o)
  unfolding set_training_start
  Keeps-set_training_start job b none = search (keeps_rules, q.step, Keeps-store_start)
  Keeps-set_training_start job b (some t) = search (keeps_rules)

  Keeps-act_on_phase : (x : String × String) → Keeps (Inv S T) (act_on_phase r x)
  unfolding act_on_phase
  Keeps-act_on_phase (phase, message) = search (
    keeps_rules,
    Keeps-set_phase q r,
    a.to_collecting,
    Keeps-set_failed q r,
    a.restarts.to_failed,
  )

  Keeps-follow_phase :
      (job : DistributedTraining) (b : JobBackend rt) (x : Result (String × String))
      → Keeps (Inv S T) (follow_phase r job b x)
  unfolding follow_phase
  Keeps-follow_phase job b (ok x) =
      search (keeps_rules, Keeps-set_training_start, Keeps-act_on_phase)
  Keeps-follow_phase job b (err e) = search (keeps_rules, Keeps-job_missing)

  Keeps-poll :
      (job : DistributedTraining) (x : Result (JobBackend rt)) → Keeps (Inv S T) (poll r job x)
  unfolding poll
  Keeps-poll job (ok b) = search (keeps_rules, q.step, Keeps-follow_phase)
  Keeps-poll job (err e) = search (Keeps-set_failed q r, a.restarts.to_failed)

  pub Keeps-reconcile_running : Keeps (Inv S T) (reconcile_running r)
  unfolding reconcile_running
  Keeps-reconcile_running = search (keeps_rules, Keeps-poll)
