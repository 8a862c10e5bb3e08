-- ===== src/Controller/Awake.antt =====
-- No job is forgotten: the controller hears of changes of a spec alone, not of its own patches of a
-- status, so a pass that has not brought the job to its end has to ask for the next one.
use praktikum.Prelude.{
  Bool, true, false, not, none, ◌≡◌, ◌⊎◌, ◌∙◌, List, String, inl, inr, refl, is_empty,
  if◌then◌else◌,
}
use praktikum.Runtime.{Runtime}
use praktikum.Api.{Phase, DistributedTrainingStatus}
use praktikum.System.{World, Handler, Reconciler, Flow, next, returned, Outcome, ◌>>=◌, give}
use praktikum.System.Wakes.{Wakes, OnFlow, AsksAgain, Wakes-give, wakes_rules}
use praktikum.Controller.Transitions.Wakes.{Wakes-set_phase}
use praktikum.Controller.Pending.Wakes.{Wakes-reconcile_pending}
use praktikum.Controller.Provisioning.Wakes.{Wakes-reconcile_provisioning}
use praktikum.Controller.Ready.Wakes.{Wakes-reconcile_ready}
use praktikum.Controller.Running.Wakes.{Wakes-reconcile_running}
use praktikum.Controller.Collecting.Wakes.{Wakes-reconcile_collecting}
use praktikum.Controller.Succeeded.{reconcile_succeeded}
use praktikum.Controller.Succeeded.Wakes.{Settles, reconcile_succeeded-Settles}
use praktikum.Controller.Reconcile.{
  handle_phase, register_finalizer, reconcile_job, reconcile, fetched, outcome_of, again_now,
}
use praktikum.Controller.Delete.{contains, finalizer_name, change_finalizers, reconcile_delete}

-- The job has failed, or has succeeded with no deletion of its pool in flight.
abbrev pub IsAtEnd : DistributedTrainingStatus → Type 0
IsAtEnd s =
    (s.phase ≡ Phase.failed) ⊎ ((s.phase ≡ Phase.succeeded) × (is_empty s.gke_operation_id ≡ true))

abbrev pub IsAttended : Outcome → DistributedTrainingStatus → Type 0
IsAttended o s = AsksAgain o ⊎ IsAtEnd s

module _ {rt : Runtime} where
  abbrev Attended : Flow (Unit {0}) × World rt → Type 0
  Attended (f, w) = IsAttended (outcome_of f) w.stored.status

  awake-Attended : (x : Flow (Unit {0}) × World rt) → OnFlow true x → Attended x
  awake-Attended (next a, w) e = cc
  awake-Attended (returned o, w) (inl a) = inl a
  awake-Attended (returned o, w) (inr f) = inr (inl f)

  Settles-Attended :
      (x : Flow (Unit {0}) × World rt) (p : Phase) → p ≡ Phase.succeeded → Settles p x → Attended x
  Settles-Attended (next a, w) p e s = elim s [ ]
  Settles-Attended (returned o, w) p e (inl a) = inl a
  Settles-Attended (returned o, w) p e (inr (same, none_left)) = inr (inr (same ∙ e, none_left))

module _ {rt : Runtime} (r : Reconciler rt) (w : World rt) where
  by-Attended : {m : Handler (World rt) (Unit {0})} → Wakes true m → Attended (m (fetched r w))
  by-Attended {m = m} h = awake-Attended (m (fetched r w)) (h.at (fetched r w))

  handle_phase-Attended :
      (p : Phase) → w.stored.status.phase ≡ p → Attended (handle_phase r p (fetched r w))
  unfolding handle_phase give
  handle_phase-Attended Phase.unset e = by-Attended (Wakes-reconcile_pending r)
  handle_phase-Attended Phase.pending e = by-Attended (Wakes-reconcile_pending r)
  handle_phase-Attended Phase.provisioning e = by-Attended (Wakes-reconcile_provisioning r)
  handle_phase-Attended Phase.ready e = by-Attended (Wakes-reconcile_ready r)
  handle_phase-Attended Phase.running e = by-Attended (Wakes-reconcile_running r)
  handle_phase-Attended Phase.collecting e = by-Attended (Wakes-reconcile_collecting r)
  handle_phase-Attended Phase.succeeded e =
      Settles-Attended (reconcile_succeeded r (fetched r w)) w.stored.status.phase e
        (reconcile_succeeded-Settles r (fetched r w) refl)
  handle_phase-Attended Phase.failed e = inr (inl e)
  handle_phase-Attended (Phase.other s) e = by-Attended (Wakes-set_phase r _ _)

  Wakes-change_finalizers : (f : List String → List String) → Wakes false (change_finalizers r f)
  unfolding change_finalizers
  Wakes-change_finalizers f = record { at = λ v. refl }

  Wakes-register_finalizer : Wakes true (register_finalizer r)
  unfolding register_finalizer
  Wakes-register_finalizer =
      search (wakes_rules, Wakes-change_finalizers, Wakes-give again_now (inl refl)) depth 7

  live-Attended :
      (missing : Bool)
      → Attended (
          (if missing then register_finalizer r else handle_phase r w.stored.status.phase)
            (fetched r w))
  live-Attended true = by-Attended Wakes-register_finalizer
  live-Attended false = handle_phase-Attended w.stored.status.phase refl

  pass-Attended :
      (deleted missing : Bool)
      → deleted ≡ false
      → Attended (
          (if deleted
              then reconcile_delete r
              else if missing
              then register_finalizer r
              else handle_phase r w.stored.status.phase)
            (fetched r w))
  pass-Attended false missing e = live-Attended missing
  pass-Attended true missing e = cc

  -- A pass over an object that is found and is not being deleted asks to be called again, at once,
  -- after a time or with an error, or else the stored phase is Failed, or it is Succeeded and no
  -- deletion of the node pool is in flight.
  pub reconcile-IsAttended :
      w.stored.deleted ≡ false
      → IsAttended (reconcile r none w).0 (reconcile r none w).1.stored.status
  unfolding reconcile reconcile_job ◌>>=◌
  reconcile-IsAttended live =
      pass-Attended w.stored.deleted (not (contains finalizer_name w.stored.finalizers)) live
