-- ===== src/Controller/Transitions/Keeps.antt =====
-- What setPhase and setFailed keep.
use praktikum.Prelude.{String, Option}
use praktikum.Runtime.{Runtime, Error}
use praktikum.Api.{Phase, DistributedTrainingStatus}
use praktikum.System.{Reconciler, Trace}
use praktikum.System.Keeps.{Keeps, Inv, Quiet, keeps_rules}
use praktikum.Controller.Transitions.{set_phase, set_failed}

-- A status property that holds after a change of the phase and the message.
abbrev pub Accepts : (DistributedTrainingStatus → Type 0) → Phase → Type 0
Accepts S p =
    (s : DistributedTrainingStatus) (m : String) → S s → S (record s { phase = p; message = m })

module _ {rt : Runtime} {S : DistributedTrainingStatus → Type 0} {T : Trace rt → Type 0}
    (q : Quiet T) (r : Reconciler rt) where
  pub Keeps-set_phase :
      (p : Phase) (message : String) → Accepts S p → Keeps (Inv S T) (set_phase r p message)
  unfolding set_phase
  Keeps-set_phase p message k = search (keeps_rules, q.step, q, k) depth 8

  pub Keeps-set_failed :
      (reason : String) (cause : Option Error)
      → Accepts S Phase.failed
      → Keeps (Inv S T) (set_failed r reason cause)
  unfolding set_failed
  Keeps-set_failed reason cause k = search (keeps_rules, q.step, q, k)
