-- ===== src/Controller/Succeeded/Wakes.antt =====
-- A pass of reconcileSucceeded asks to be called again, unless no deletion is left in flight.
use praktikum.Prelude.{
  ◌≡◌, ◌⊎◌, inl, inr, refl, Bool, true, false, Option, none, some, is_empty, if◌then◌else◌, ◌∷◌,
  String,
}
use praktikum.Runtime.{Runtime, Error, Result, ok, err}
use praktikum.Api.{Phase}
use praktikum.System.{
  World, Reconciler, Trace, Flow, next, returned, ◌>>=◌, ask, settle, must, give, finished,
  poll_operation,
}
use praktikum.System.Wakes.{AsksAgain}
use praktikum.Controller.Transitions.Wakes.{later}
use praktikum.Controller.Succeeded.{confirm_deletion, reconcile_succeeded}

module _ {rt : Runtime} where
  -- The pass returns, and it asks for another one or leaves the phase with no operation stored.
  abbrev pub Settles : Phase → Flow (Unit {0}) × World rt → Type 0
  Settles p (next a, w) = ⊥
  Settles p (returned o, w) =
      AsksAgain o
      ⊎ ((w.stored.status.phase ≡ p) × (is_empty w.stored.status.gke_operation_id ≡ true))

  cleared-Settles :
      (reply : Option Error) (w : World rt)
      → Settles w.stored.status.phase (
          (must "clearing GKEOperationID" reply >>= λ u. give finished)
            (settle (λ s. record s { gke_operation_id = "" }) reply w))
  unfolding ◌>>=◌
  cleared-Settles none w = inr (refl, refl)
  cleared-Settles (some e) w = inl (inr (inr (_, refl)))

  confirm_deletion-Settles :
      (r : Reconciler rt) (x : Result Bool) (w : World rt)
      → Settles w.stored.status.phase (confirm_deletion r x w)
  unfolding confirm_deletion ◌>>=◌
  confirm_deletion-Settles r (err e) w = inl (inr (inl later))
  confirm_deletion-Settles r (ok false) w = inl (inr (inl later))
  confirm_deletion-Settles r (ok true) w =
      cleared-Settles
        (r.cluster.status_patch w.trace (record w.job.status { gke_operation_id = "" })) w

  chosen-Settles :
      (idle : Bool) (r : Reconciler rt) (operation : String) (answer : Trace rt → Result Bool)
      (w : World rt)
      → is_empty w.stored.status.gke_operation_id ≡ idle
      → Settles w.stored.status.phase (
          (if idle
              then give finished
              else (ask (poll_operation operation) answer >>= λ x. confirm_deletion r x))
            w)
  unfolding ◌>>=◌
  chosen-Settles true r operation answer w e = inr (refl, e)
  chosen-Settles false r operation answer w e =
      confirm_deletion-Settles r (answer w.trace)
        (record w { trace = poll_operation operation ∷ w.trace })

  pub reconcile_succeeded-Settles :
      (r : Reconciler rt) (w : World rt)
      → is_empty w.stored.status.gke_operation_id ≡ is_empty w.job.status.gke_operation_id
      → Settles w.stored.status.phase (reconcile_succeeded r w)
  unfolding reconcile_succeeded ◌>>=◌
  reconcile_succeeded-Settles r w e =
      chosen-Settles (is_empty w.job.status.gke_operation_id) r w.job.status.gke_operation_id
        (λ t. r.cloud.is_operation_done t w.job.status.gke_operation_id) w e
