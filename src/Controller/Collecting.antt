-- ===== src/Controller/Collecting.antt =====
-- reconcileCollecting of operator/internal/controller/phases.go. A Go map is walked in the order of
-- its association list; the order of the metrics' gauges is the only trace of it.
pub mod Keeps
pub mod Ends
pub mod Wakes
use praktikum.Prelude.{
  ℕ, ◌==◌, ℤ, pos, zero_ℤ, ◌-ℤ◌, ltb_ℤ, String, Bool, ◌&&◌, Option, none, some, List, [], ◌∷◌,
  is_empty, is_none, if◌then◌else◌, ◌<>◌, length, show_int,
}
use praktikum.Runtime.{on_result, Runtime, Error, Result, ok, err}
use praktikum.Api.{Phase, DistributedTraining, JobResults, no_results}
use praktikum.System.{
  World, Handler, ◌>>=◌, ◌>>◌, pure, ask, emit, current, must_not, now, change_status, record_event,
  Reconciler, JobBackend, warning, delete_node_pool, get_end_time, collect_results, gauge,
  training_seconds, provisioning_seconds, collection_seconds, cost_usd_actual, nodes_provisioned,
  metric, Gauge,
}
use praktikum.Controller.Defaults.{node_pool_name, get_backend, effective_machine_type}
use praktikum.Controller.Costs.{get_machine_cost}
use praktikum.Controller.Transitions.{set_phase}
use praktikum.Solver.Formulas.{nought, round_second}
use praktikum.History.Write.{write_history_entry}

abbrev backend_or_nil {ℓ} : {A : Type ℓ} → Result A → Option A
backend_or_nil (ok b) = some b
backend_or_nil (err _) = none

-- `duration < 0` counts as 0.
abbrev pub elapsed : ℕ → ℕ → ℤ
elapsed finish start = let d = pos finish -ℤ pos start in if ltb_ℤ d zero_ℤ then zero_ℤ else d

-- ProvisioningTime is kept from the Provisioning phase, unless the backend gave one.
abbrev pub keep_provisioning_time : Option JobResults → JobResults → JobResults
keep_provisioning_time none results = results
keep_provisioning_time (some old) results =
    if is_empty results.provisioning_time
    then record results { provisioning_time = old.provisioning_time }
    else results

module _ {rt : Runtime} (r : Reconciler rt) where
  end_time : DistributedTraining → Option (JobBackend rt) → ℕ → Handler (World rt) ℕ
  end_time job none fallback = pure fallback
  end_time job (some b) fallback = do
    reported ←
        ask (get_end_time job.status.job_name)
          (λ trace. b.end_time_of trace job.namespace job.status.job_name)
    on_result reported (λ t. if t == 0 then pure fallback else pure t) (λ e. pure fallback)

  pub training_time :
      DistributedTraining → Option (JobBackend rt) → Option ℕ → Handler (World rt) String
  unfolding end_time
  training_time job b none = pure ""
  training_time job b (some start) = do
    time ← now r
    finish ← end_time job b time
    pure (rt.duration_text (round_second (elapsed finish start)))

  -- A failed deletion, and a refused patch, are only logged.
  store_deletion : Result String → Handler (World rt) (Unit {0})
  store_deletion (err _) = pure tt
  store_deletion (ok id) = do change_status r (λ s. record s { gke_operation_id = id }); pure tt

  start_deletion : DistributedTraining → Handler (World rt) (Unit {0})
  unfolding store_deletion
  start_deletion job = do
    let pool = node_pool_name job
    started ← ask (delete_node_pool pool) (λ trace. r.cloud.delete trace pool)
    store_deletion started

  -- The backend's results, or empty ones.
  collect : DistributedTraining → Option (JobBackend rt) → Handler (World rt) JobResults
  collect job none = pure no_results
  collect job (some b) = do
    collected ← ask collect_results (λ trace. b.results_of trace job)
    on_result collected (λ results. pure results) (λ e. pure no_results)

  -- The seconds that a duration's text stands for; 0 if it is empty or does not parse.
  seconds_of : String → rt.Float
  seconds_of s =
      if is_empty s
      then nought rt
      else on_result (rt.parse_duration s) (λ d. rt.seconds d) (λ e. nought rt)

  -- Cost = nodes × rate × (provisioning + training) / 3600
  unfoldable pub actual_cost : ℤ → rt.Float → JobResults → rt.Float
  unfolding seconds_of
  actual_cost nodes ch results =
      rt.div
        (rt.mul (rt.mul (rt.of_int nodes) ch)
          (rt.add (seconds_of results.provisioning_time) (seconds_of results.training_time)))
        (rt.of_int (pos 3600))

  pub cost_results :
      String → ℤ → JobResults → Result (Option rt.Float) → Handler (World rt) JobResults
  unfolding actual_cost
  cost_results machine nodes results (err _) = pure results
  cost_results machine nodes results (ok none) = do
    record_event warning "CostSkipped" (
        "machine type "
        <> (rt.quote machine <> " not in cost ConfigMap — estimatedCostUSD not recorded"))
    pure results
  cost_results machine nodes results (ok (some ch)) =
      pure
        (record results { estimated_cost_usd = rt.format_fixed 4 (actual_cost nodes ch results) })

  duration_gauge : Gauge → String → Handler (World rt) (Unit {0})
  duration_gauge g text =
      on_result (rt.parse_duration text) (λ d. emit (gauge g (rt.seconds d))) (λ e. pure tt)

  float_gauge : Gauge → String → Handler (World rt) (Unit {0})
  float_gauge g text = on_result (rt.parse_float text) (λ f. emit (gauge g f)) (λ e. pure tt)

  metric_gauges : List (String × String) → Handler (World rt) (Unit {0})
  unfolding float_gauge
  metric_gauges [] = pure tt
  metric_gauges ((k, v) ∷ m) = do float_gauge (metric k) v; metric_gauges m

  pub result_gauges : ℤ → JobResults → Handler (World rt) (Unit {0})
  unfolding duration_gauge float_gauge metric_gauges
  result_gauges nodes results = do
    duration_gauge training_seconds results.training_time
    duration_gauge provisioning_seconds results.provisioning_time
    duration_gauge collection_seconds results.collection_time
    if is_empty results.estimated_cost_usd
        then pure tt
        else float_gauge cost_usd_actual results.estimated_cost_usd
    emit (gauge nodes_provisioned (rt.of_int nodes))
    metric_gauges results.metrics

  -- The results with their three times.
  pub timed_results :
      DistributedTraining → Option (JobBackend rt) → String → Handler (World rt) JobResults
  unfolding collect
  timed_results job b trained = do
    began ← now r
    collected ← collect job b
    ended ← now r
    pure (record (keep_provisioning_time job.status.results collected) {
      training_time = trained;
      collection_time = rt.duration_text (round_second (pos ended -ℤ pos began));
    })

  store_results : JobResults → Handler (World rt) (Unit {0})
  store_results results = do
    time ← now r
    reply ←
        change_status r (λ s. record s {
          results = some results;
          finish_time = some time;
          node_pool_size = zero_ℤ;
        })
    must_not reply

  -- What follows the start of the deletion.
  finish_collection :
      DistributedTraining → Option (JobBackend rt) → String → Handler (World rt) (Unit {0})
  unfolding timed_results cost_results result_gauges store_results
  finish_collection job b trained = do
    timed ← timed_results job b trained
    let machine = effective_machine_type r job
    rate ← get_machine_cost r machine
    results ← cost_results machine job.status.node_pool_size timed rate
    result_gauges job.status.node_pool_size results
    write_history_entry r job results
    store_results results
    set_phase r Phase.succeeded
        ("job complete — " <> (show_int (pos (length results.metrics)) <> " metrics collected"))

  unfoldable pub reconcile_collecting : Handler (World rt) (Unit {0})
  unfolding training_time start_deletion finish_collection
  reconcile_collecting = do
    job ← current
    let b = backend_or_nil (get_backend r job)
    trained ← training_time job b job.status.training_start_time
    start_deletion job
    finish_collection job b trained
