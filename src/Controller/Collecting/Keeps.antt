-- ===== src/Controller/Collecting/Keeps.antt =====
-- What reconcileCollecting keeps.
pub mod Once
use praktikum.Prelude.{ℕ, ℤ, zero_ℤ, String, Option, none, some, List, [], ◌∷◌}
use praktikum.Runtime.{Runtime, Result, ok, err}
use praktikum.Api.{Phase, DistributedTraining, DistributedTrainingStatus, JobResults}
use praktikum.System.{Trace, Reconciler, JobBackend, Gauge, delete_node_pool}
use praktikum.System.Keeps.{Keeps, Inv, Quiet, Keeps-bind, keeps_rules}
use praktikum.Solver.Run.Keeps.{Keeps-get_machine_cost}
use praktikum.History.Write.Keeps.{Keeps-write_history_entry}
use praktikum.Controller.Transitions.Keeps.{Accepts, Keeps-set_phase}
use praktikum.Controller.Collecting.{
  end_time, training_time, store_deletion, start_deletion, collect, cost_results, duration_gauge,
  float_gauge, metric_gauges, result_gauges, timed_results, store_results, reconcile_collecting,
  finish_collection,
}

-- A status property that holds after each change that the handler makes.
pub record Allows (S : DistributedTrainingStatus → Type 0) : Type 0 where
  pub to_succeeded : Accepts S Phase.succeeded
  pub deletes :
      (s : DistributedTrainingStatus) (id : String) → S s → S (record s { gke_operation_id = id })
  pub stores :
      (s : DistributedTrainingStatus) (x : JobResults) (t : ℕ)
      → S s
      → S (record s { results = some x; finish_time = some t; node_pool_size = zero_ℤ })

module _ {rt : Runtime} {S : DistributedTrainingStatus → Type 0} {T : Trace rt → Type 0}
    (q : Quiet T) (a : Allows S) (r : Reconciler rt) where
  Keeps-end_time :
      (job : DistributedTraining) (b : Option (JobBackend rt)) (t : ℕ)
      → Keeps (Inv S T) (end_time r job b t)
  unfolding end_time
  Keeps-end_time job none t = search (keeps_rules)
  Keeps-end_time job (some b) t = search (keeps_rules, q.step)

  Keeps-training_time :
      (job : DistributedTraining) (b : Option (JobBackend rt)) (o : Option ℕ)
      → Keeps (Inv S T) (training_time r job b o)
  unfolding training_time
  Keeps-training_time job b none = search (keeps_rules)
  Keeps-training_time job b (some t) = search (keeps_rules, q.step, Keeps-end_time)

  Keeps-store_deletion : (x : Result String) → Keeps (Inv S T) (store_deletion r x)
  unfolding store_deletion
  Keeps-store_deletion (ok id) = search (keeps_rules, q, a.deletes)
  Keeps-store_deletion (err e) = search (keeps_rules)

  Keeps-collect :
      (job : DistributedTraining) (b : Option (JobBackend rt)) → Keeps (Inv S T) (collect r job b)
  unfolding collect
  Keeps-collect job none = search (keeps_rules)
  Keeps-collect job (some b) = search (keeps_rules, q.step)

  Keeps-cost_results :
      (machine : String) (n : ℤ) (x : JobResults) (rate : Result (Option rt.Float))
      → Keeps (Inv S T) (cost_results r machine n x rate)
  unfolding cost_results
  Keeps-cost_results machine n x (ok none) = search (keeps_rules, q.step)
  Keeps-cost_results machine n x (ok (some ch)) = search (keeps_rules)
  Keeps-cost_results machine n x (err e) = search (keeps_rules)

  Keeps-duration_gauge : (g : Gauge) (s : String) → Keeps (Inv S T) (duration_gauge r g s)
  unfolding duration_gauge
  Keeps-duration_gauge g s = search (keeps_rules, q.step)

  Keeps-float_gauge : (g : Gauge) (s : String) → Keeps (Inv S T) (float_gauge r g s)
  unfolding float_gauge
  Keeps-float_gauge g s = search (keeps_rules, q.step)

  Keeps-metric_gauges : (m : List (String × String)) → Keeps (Inv S T) (metric_gauges r m)
  unfolding metric_gauges
  Keeps-metric_gauges [] = search (keeps_rules)
  Keeps-metric_gauges ((k, v) ∷ m) =
      Keeps-bind _ _ (Keeps-float_gauge _ v) (λ _. Keeps-metric_gauges m)

  Keeps-result_gauges : (n : ℤ) (x : JobResults) → Keeps (Inv S T) (result_gauges r n x)
  unfolding result_gauges
  Keeps-result_gauges n x =
      search (keeps_rules, q.step, Keeps-duration_gauge, Keeps-float_gauge, Keeps-metric_gauges)
        depth 11

  Keeps-timed_results :
      (job : DistributedTraining) (b : Option (JobBackend rt)) (s : String)
      → Keeps (Inv S T) (timed_results r job b s)
  unfolding timed_results
  Keeps-timed_results job b s = search (keeps_rules, q.step, Keeps-collect) depth 9

  Keeps-store_results : (x : JobResults) → Keeps (Inv S T) (store_results r x)
  unfolding store_results
  Keeps-store_results x = search (keeps_rules, q, q.step, a.stores) depth 8

  Keeps-finish_collection :
      (job : DistributedTraining) (b : Option (JobBackend rt)) (trained : String)
      → Keeps (Inv S T) (finish_collection r job b trained)
  unfolding finish_collection
  Keeps-finish_collection job b trained =
      search
        (
          keeps_rules,
          Keeps-timed_results,
          Keeps-get_machine_cost q r,
          Keeps-cost_results,
          Keeps-result_gauges,
          Keeps-write_history_entry q r,
          Keeps-store_results,
          Keeps-set_phase q r,
          a.to_succeeded,
        )
        depth 16

module _ {rt : Runtime} {S : DistributedTrainingStatus → Type 0} {T : Trace rt → Type 0}
    (q : Quiet T) (deletes : (pool : String) (t : Trace rt) → T t → T (delete_node_pool pool ∷ t))
    (a : Allows S) (r : Reconciler rt) where
  Keeps-start_deletion : (job : DistributedTraining) → Keeps (Inv S T) (start_deletion r job)
  unfolding start_deletion
  Keeps-start_deletion job = search (keeps_rules, deletes, Keeps-store_deletion q a r)

  pub Keeps-reconcile_collecting : Keeps (Inv S T) (reconcile_collecting r)
  unfolding reconcile_collecting
  Keeps-reconcile_collecting =
      search
        (
          keeps_rules,
          Keeps-training_time q a r,
          Keeps-start_deletion,
          Keeps-finish_collection q a r,
        )
        depth 9
