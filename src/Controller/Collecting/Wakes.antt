-- ===== src/Controller/Collecting/Wakes.antt =====
-- A pass of reconcileCollecting asks to be called again.
use praktikum.Prelude.{String, Option, true, false}
use praktikum.Runtime.{Runtime, Result, ok, err}
use praktikum.Api.{DistributedTraining, JobResults}
use praktikum.System.{Reconciler, JobBackend}
use praktikum.System.Wakes.{Wakes, Wakes-GoesOn, Wakes-bind, wakes_rules}
use praktikum.Solver.Run.Goes.{get_machine_cost-GoesOn}
use praktikum.History.Write.Goes.{write_history_entry-GoesOn}
use praktikum.Controller.Transitions.Wakes.{Wakes-set_phase}
use praktikum.Controller.Collecting.Ends.{
  training_time-GoesOn, timed_results-GoesOn, cost_results-GoesOn, result_gauges-GoesOn,
}
use praktikum.Controller.Collecting.{
  store_deletion, start_deletion, store_results, finish_collection, reconcile_collecting,
}

module _ {rt : Runtime} (r : Reconciler rt) where
  Wakes-store_deletion : (x : Result String) → Wakes false (store_deletion r x)
  unfolding store_deletion
  Wakes-store_deletion (ok id) = search (wakes_rules)
  Wakes-store_deletion (err e) = search (wakes_rules)

  Wakes-start_deletion : (job : DistributedTraining) → Wakes false (start_deletion r job)
  unfolding start_deletion
  Wakes-start_deletion job = search (wakes_rules, Wakes-store_deletion)

  Wakes-store_results : (x : JobResults) → Wakes false (store_results r x)
  unfolding store_results
  Wakes-store_results x = search (wakes_rules) depth 7

  Wakes-finish_collection :
      (job : DistributedTraining) (b : Option (JobBackend rt)) (trained : String)
      → Wakes true (finish_collection r job b trained)
  unfolding finish_collection
  Wakes-finish_collection job b trained =
      Wakes-bind _ _ (Wakes-GoesOn _ (timed_results-GoesOn r job b trained)) (λ timed.
        Wakes-bind _ _ (Wakes-GoesOn _ (get_machine_cost-GoesOn r _)) (λ rate.
          Wakes-bind _ _ (Wakes-GoesOn _ (cost_results-GoesOn r _ _ _ rate)) (λ x.
            Wakes-bind _ _ (Wakes-GoesOn _ (result_gauges-GoesOn r _ x)) (λ u.
              Wakes-bind _ _ (Wakes-GoesOn _ (write_history_entry-GoesOn r job x))
                (λ u. Wakes-bind _ _ (Wakes-store_results x) (λ u. Wakes-set_phase r _ _))))))

  pub Wakes-reconcile_collecting : Wakes true (reconcile_collecting r)
  unfolding reconcile_collecting
  Wakes-reconcile_collecting =
      search
        (
          wakes_rules, Wakes-GoesOn, training_time-GoesOn, Wakes-start_deletion,
          Wakes-finish_collection,
        )
        depth 9
