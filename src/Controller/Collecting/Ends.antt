-- ===== src/Controller/Collecting/Ends.antt =====
-- reconcileCollecting comes to its end in Succeeded, whatever becomes of the single results.
use praktikum.Prelude.{ℕ, ℤ, String, Option, none, some, List, [], ◌∷◌, ◌≡◌}
use praktikum.Runtime.{Runtime, Result, ok, err}
use praktikum.Api.{Phase, DistributedTraining, DistributedTrainingStatus, JobResults}
use praktikum.System.{Reconciler, JobBackend, Gauge}
use praktikum.System.Answers.{GoesOn, Answers-then, answers_rules}
use praktikum.System.Accepts.{
  AcceptsPatches, change_status-GoesOn, patch_not-GoesOn, current-GoesOn,
}
use praktikum.System.Ends.{Ends, Ends-bind, MayEnd-GoesOn}
use praktikum.Solver.Run.Goes.{get_machine_cost-GoesOn}
use praktikum.History.Write.Goes.{write_history_entry-GoesOn}
use praktikum.Controller.Transitions.Ends.{set_phase-Ends}
use praktikum.Controller.Collecting.{
  end_time, training_time, store_deletion, start_deletion, collect, cost_results, duration_gauge,
  float_gauge, metric_gauges, result_gauges, timed_results, store_results, reconcile_collecting,
  finish_collection,
}

abbrev pub IsSucceeded : DistributedTrainingStatus → Type 0
IsSucceeded s = s.phase ≡ Phase.succeeded

module _ {rt : Runtime} (r : Reconciler rt) where
  end_time-GoesOn :
      (job : DistributedTraining) (b : Option (JobBackend rt)) (t : ℕ) → GoesOn (end_time r job b t)
  unfolding end_time
  end_time-GoesOn job none t = search (answers_rules)
  end_time-GoesOn job (some b) t = search (answers_rules)

  pub training_time-GoesOn :
      (job : DistributedTraining) (b : Option (JobBackend rt)) (o : Option ℕ)
      → GoesOn (training_time r job b o)
  unfolding training_time
  training_time-GoesOn job b none = search (answers_rules)
  training_time-GoesOn job b (some t) = search (answers_rules, end_time-GoesOn)

  collect-GoesOn :
      (job : DistributedTraining) (b : Option (JobBackend rt)) → GoesOn (collect r job b)
  unfolding collect
  collect-GoesOn job none = search (answers_rules)
  collect-GoesOn job (some b) = search (answers_rules)

  pub cost_results-GoesOn :
      (machine : String) (n : ℤ) (x : JobResults) (rate : Result (Option rt.Float))
      → GoesOn (cost_results r machine n x rate)
  unfolding cost_results
  cost_results-GoesOn machine n x (ok none) = search (answers_rules)
  cost_results-GoesOn machine n x (ok (some ch)) = search (answers_rules)
  cost_results-GoesOn machine n x (err e) = search (answers_rules)

  duration_gauge-GoesOn : (g : Gauge) (s : String) → GoesOn (duration_gauge r g s)
  unfolding duration_gauge
  duration_gauge-GoesOn g s = search (answers_rules)

  float_gauge-GoesOn : (g : Gauge) (s : String) → GoesOn (float_gauge r g s)
  unfolding float_gauge
  float_gauge-GoesOn g s = search (answers_rules)

  metric_gauges-GoesOn : (m : List (String × String)) → GoesOn (metric_gauges r m)
  unfolding metric_gauges
  metric_gauges-GoesOn [] = search (answers_rules)
  metric_gauges-GoesOn ((k, v) ∷ m) =
      Answers-then _ _ (float_gauge-GoesOn _ v) (λ _. metric_gauges-GoesOn m)

  pub result_gauges-GoesOn : (n : ℤ) (x : JobResults) → GoesOn (result_gauges r n x)
  unfolding result_gauges
  result_gauges-GoesOn n x =
      search (answers_rules, duration_gauge-GoesOn, float_gauge-GoesOn, metric_gauges-GoesOn) depth
        11

  pub timed_results-GoesOn :
      (job : DistributedTraining) (b : Option (JobBackend rt)) (s : String)
      → GoesOn (timed_results r job b s)
  unfolding timed_results
  timed_results-GoesOn job b s = search (answers_rules, collect-GoesOn) depth 9

module _ {rt : Runtime} (r : Reconciler rt) (accepts : AcceptsPatches r) where
  store_results-GoesOn : (x : JobResults) → GoesOn (store_results r x)
  unfolding store_results
  store_results-GoesOn x =
      Answers-then _ _ (search (answers_rules)) (λ time. patch_not-GoesOn r accepts _)

  store_deletion-GoesOn : (x : Result String) → GoesOn (store_deletion r x)
  unfolding store_deletion
  store_deletion-GoesOn (ok id) = search (answers_rules, change_status-GoesOn r accepts)
  store_deletion-GoesOn (err e) = search (answers_rules)

  start_deletion-GoesOn : (job : DistributedTraining) → GoesOn (start_deletion r job)
  unfolding start_deletion
  start_deletion-GoesOn job = search (answers_rules, store_deletion-GoesOn)

  finish_collection-Ends :
      (job : DistributedTraining) (b : Option (JobBackend rt)) (trained : String)
      → Ends IsSucceeded (finish_collection r job b trained)
  unfolding finish_collection
  finish_collection-Ends job b trained =
      Ends-bind _ _ (MayEnd-GoesOn _ (timed_results-GoesOn r job b trained)) (λ timed.
        Ends-bind _ _ (MayEnd-GoesOn _ (get_machine_cost-GoesOn r _)) (λ rate.
          Ends-bind _ _ (MayEnd-GoesOn _ (cost_results-GoesOn r _ _ _ rate)) (λ x.
            Ends-bind _ _ (MayEnd-GoesOn _ (result_gauges-GoesOn r _ x)) (λ u.
              Ends-bind _ _ (MayEnd-GoesOn _ (write_history_entry-GoesOn r job x)) (λ u.
                Ends-bind _ _ (MayEnd-GoesOn _ (store_results-GoesOn x))
                  (λ u. set_phase-Ends r accepts _ _ (λ s h. h)))))))

  pub reconcile_collecting-Ends : Ends IsSucceeded (reconcile_collecting r)
  unfolding reconcile_collecting
  reconcile_collecting-Ends = Ends-bind _ _ (MayEnd-GoesOn _ current-GoesOn) (λ job.
      Ends-bind _ _ (MayEnd-GoesOn _ (training_time-GoesOn r job _ job.status.training_start_time))
        (λ trained.
          Ends-bind _ _ (MayEnd-GoesOn _ (start_deletion-GoesOn job))
            (λ u. finish_collection-Ends job _ trained)))
