-- ===== src/Controller/Transitions.antt =====
-- setPhase and setFailed of operator/internal/controller/distributedtraining_controller.go.
pub mod Keeps
pub mod Ends
pub mod Wakes
use praktikum.Prelude.{ℕ, String, Option, none, some, ◌<>◌}
use praktikum.Runtime.{Runtime, Error}
use praktikum.Api.{Phase}
use praktikum.System.{
  World, Handler, Outcome, ◌>>=◌, ◌>>◌, give, emit, must, record_event, change_status, finished,
  again_after, Reconciler, normal, warning, phase_transition,
}
use praktikum.Controller.Defaults.{phase_text}

-- requeueAfter, in seconds
abbrev pub requeue_after : ℕ
requeue_after = 20

-- `reason`, or `reason: cause`
abbrev pub failure_message : String → Option Error → String
failure_message reason none = reason
failure_message reason (some cause) = reason <> (": " <> cause.message)

module _ {rt : Runtime} where
  unfoldable pub set_phase : Reconciler rt → Phase → String → Handler (World rt) (Unit {0})
  set_phase r phase message = do
    reply ← change_status r (λ s. record s { phase = phase; message = message })
    must ("patching status phase=" <> phase_text phase) reply
    emit (phase_transition phase)
    record_event normal (phase_text phase) message
    give (again_after requeue_after)

  unfoldable pub set_failed : Reconciler rt → String → Option Error → Handler (World rt) (Unit {0})
  set_failed r reason cause = do
    let msg = failure_message reason cause
    record_event warning "Failed" msg
    reply ← change_status r (λ s. record s { phase = Phase.failed; message = msg })
    must "patching Failed status" reply
    give finished
