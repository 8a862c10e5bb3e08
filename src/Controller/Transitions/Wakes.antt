-- ===== src/Controller/Transitions/Wakes.antt =====
-- setPhase asks to be called again, and setFailed does so unless it has failed the job.
use praktikum.Prelude.{◌≤◌, String, Option, none, some, ◌∷◌, inl, inr, refl, Bool, arith}
use praktikum.Runtime.{Runtime, Error}
use praktikum.Api.{Phase}
use praktikum.System.{World, Reconciler, ◌>>=◌, give, must, finished, settle, event, warning}
use praktikum.System.Wakes.{Wakes, OnFlow, Wakes-again_after, wakes_rules}
use praktikum.Controller.Transitions.{requeue_after, set_phase, set_failed, failure_message}

pub later : 1 ≤ requeue_after
later = omega arith

module _ {rt : Runtime} where
  -- What follows the patch, by its reply.
  awake-failed :
      (ends : Bool) (msg : String) (reply : Option Error) (w : World rt)
      → OnFlow {A = Unit {0}} ends (
          (must "patching Failed status" reply >>= λ u. give finished)
            (settle (λ s. record s { phase = Phase.failed; message = msg }) reply w))
  unfolding ◌>>=◌
  awake-failed ends msg none w = inr refl
  awake-failed ends msg (some e) w = inl (inr (inr (_, refl)))

module _ {rt : Runtime} (r : Reconciler rt) {ends : Bool} where
  pub Wakes-set_phase : (p : Phase) (message : String) → Wakes ends (set_phase r p message)
  unfolding set_phase
  Wakes-set_phase p message = search (wakes_rules, Wakes-again_after, later) depth 9

  pub Wakes-set_failed :
      (reason : String) (cause : Option Error) → Wakes ends (set_failed r reason cause)
  unfolding set_failed ◌>>=◌
  Wakes-set_failed reason cause = record {
    at = λ w.
        awake-failed ends (failure_message reason cause)
          (r.cluster.status_patch (event warning "Failed" (failure_message reason cause) ∷ w.trace)
            (record w.job.status { phase = Phase.failed; message = failure_message reason cause }))
          (record w { trace = event warning "Failed" (failure_message reason cause) ∷ w.trace });
  }
