-- ===== src/Controller/Running.antt =====
-- reconcileRunning of operator/internal/controller/phases.go.
pub mod Keeps
pub mod Ends
pub mod Wakes
use praktikum.Prelude.{ℕ, ◌==◌, String, Bool, Option, none, some, str_eq, if◌then◌else◌, ◌<>◌}
use praktikum.Runtime.{Runtime, Error, Result, ok, err, wrap}
use praktikum.Api.{Phase, DistributedTraining}
use praktikum.System.{
  World, Handler, ◌>>=◌, ◌>>◌, pure, give, ask, current, must, change_status, record_event,
  again_after, fail_with, Reconciler, JobBackend, warning, get_phase, get_start_time,
}
use praktikum.Controller.Defaults.{get_backend}
use praktikum.Controller.Transitions.{requeue_after, set_phase, set_failed}
use praktikum.Controller.Ready.{reconcile_ready}

module _ {rt : Runtime} (r : Reconciler rt) where
  -- The backend's job was deleted by someone else.
  restart : DistributedTraining → Handler (World rt) (Unit {0})
  restart job = do
    record_event warning "JobMissing" (
        "backend job "
        <> (rt.quote job.status.job_name <> " not found — recreating per restartPolicy=OnFailure"))
    reply ← change_status r (λ s. record s { training_start_time = none })
    must "resetting TrainingStartTime for restart" reply
    reconcile_ready r

  job_missing : DistributedTraining → Handler (World rt) (Unit {0})
  unfolding restart
  job_missing job =
      if str_eq job.spec.restart_policy "OnFailure"
      then restart job
      else set_failed r
          ("backend job "
            <> (rt.quote job.status.job_name
                <> " was deleted externally (set restartPolicy=OnFailure to auto-recreate)"))
          none

  -- A zero time means that the backend has none yet; a refused patch is only logged.
  store_start : Result ℕ → Handler (World rt) (Unit {0})
  store_start (err e) = pure tt
  store_start (ok time) =
      if time == 0
      then pure tt
      else (do change_status r (λ s. record s { training_start_time = some time }); pure tt)

  set_training_start :
      DistributedTraining → JobBackend rt → Option ℕ → Handler (World rt) (Unit {0})
  unfolding store_start
  set_training_start job b (some _) = pure tt
  set_training_start job b none = do
    start ←
        ask (get_start_time job.status.job_name)
          (λ trace. b.start_time_of trace job.namespace job.status.job_name)
    store_start start

  act_on_phase : String × String → Handler (World rt) (Unit {0})
  act_on_phase (phase, message) =
      if str_eq phase "Succeeded"
      then set_phase r Phase.collecting "job completed — collecting results"
      else if str_eq phase "Failed"
      then set_failed r ("job failed: " <> message) none
      else give (again_after requeue_after)

  follow_phase :
      DistributedTraining → JobBackend rt → Result (String × String) → Handler (World rt) (Unit {0})
  unfolding job_missing set_training_start act_on_phase
  follow_phase job b (err e) =
      if e.is_not_found then job_missing job else give (fail_with (wrap "getting job phase" e))
  follow_phase job b (ok reported) = do
    set_training_start job b job.status.training_start_time
    act_on_phase reported

  poll : DistributedTraining → Result (JobBackend rt) → Handler (World rt) (Unit {0})
  unfolding follow_phase
  poll job (err e) = set_failed r "unsupported backend" (some e)
  poll job (ok b) = do
    reported ←
        ask (get_phase job.status.job_name)
          (λ trace. b.phase_of trace job.namespace job.status.job_name)
    follow_phase job b reported

  unfoldable pub reconcile_running : Handler (World rt) (Unit {0})
  unfolding poll
  reconcile_running = do job ← current; poll job (get_backend r job)
