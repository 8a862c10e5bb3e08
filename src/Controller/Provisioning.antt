-- ===== src/Controller/Provisioning.antt =====
-- reconcileProvisioning and countReadyNodesInPool of operator/internal/controller/phases.go.
pub mod Keeps
pub mod Ends
pub mod Wakes
pub mod Abandons
use praktikum.Prelude.{
  ℕ, ◌+◌, ℤ, pos, zero_ℤ, eq_ℤ, ltb_ℤ, ◌-ℤ◌, to_int32, String, Bool, ◌&&◌, Option, none, some, List,
  [], ◌∷◌, is_empty, get_or, show_int, str_eq, if◌then◌else◌, ◌<>◌, true, false,
}
use praktikum.Runtime.{Runtime, Error, Result, ok, err, wrap}
use praktikum.Api.{Phase, DistributedTraining, ObjectiveSpec, JobResults, no_results}
use praktikum.System.{
  World, Handler, ◌>>=◌, ◌>>◌, pure, give, ask, emit, current, must, must_not, now, change_status,
  again_after, fail_with, Outcome, Reconciler, NodePoolConfig, Node, create_node_pool,
  delete_node_pool, poll_operation, list_nodes,
}
use praktikum.Controller.Defaults.{node_pool_name, node_pool_config}
use praktikum.Controller.Transitions.{requeue_after, set_phase, set_failed}
use praktikum.Solver.Formulas.{round_second}

-- The conditions of a node that say `Ready` is `True`.
pub count_ready_conditions : Node → ℕ
count_ready_conditions [] = 0
count_ready_conditions ((type, status) ∷ cs) =
    (if str_eq type "Ready" && str_eq status "True" then 1 else 0) + count_ready_conditions cs

unfoldable pub count_ready : List Node → ℕ
unfolding count_ready_conditions
count_ready [] = 0
count_ready (n ∷ ns) = count_ready_conditions n + count_ready ns

-- if job.Status.Results == nil { … = &JobResults{} }; job.Status.Results.ProvisioningTime = d
abbrev pub with_provisioning_time : String → Option JobResults → Option JobResults
with_provisioning_time d results =
    some (record (get_or results no_results) { provisioning_time = d })

module _ {rt : Runtime} (r : Reconciler rt) where
  -- In objective mode the node count is the solver's; without one the pass fails.
  unfoldable pub pool_size : Option ObjectiveSpec → ℤ → ℤ → Handler (World rt) ℤ
  pool_size none resolved requested = pure requested
  pool_size (some _) resolved requested =
      if eq_ℤ resolved zero_ℤ
      then (do
        set_failed r "ResolvedTopology not set before Provisioning — solver bug" none
        pure resolved)
      else pure resolved

  set_provisioning_start : Option ℕ → Handler (World rt) (Unit {0})
  set_provisioning_start (some _) = pure tt
  set_provisioning_start none = do
    time ← now r
    reply ← change_status r (λ s. record s { provisioning_start_time = some time })
    must "setting ProvisioningStartTime" reply

  store_operation : Result String → Handler (World rt) (Unit {0})
  store_operation (err e) = set_failed r "node pool creation failed" (some e)
  store_operation (ok id) = do
    reply ← change_status r (λ s. record s { gke_operation_id = id })
    give (record { requeue = false; requeue_after = requeue_after; error = reply })

  -- No operation is in flight: start the creation and store its id.
  start_creation : String → NodePoolConfig → Handler (World rt) (Unit {0})
  unfolding store_operation
  start_creation pool cfg = do
    started ← ask (create_node_pool pool cfg) (λ trace. r.cloud.create trace pool cfg)
    store_operation started

  -- The creation failed: delete what there is of the pool, whatever comes of it.
  abandon_pool : String → Error → Handler (World rt) (Unit {0})
  abandon_pool pool e = do
    emit (delete_node_pool pool)
    set_failed r "node pool creation operation failed" (some e)

  finish_pool : String → ℕ → Handler (World rt) (Unit {0})
  finish_pool pool ready = do
    time ← now r
    job ← current
    let started = get_or job.status.provisioning_start_time 0
    let d = rt.duration_text (round_second (pos time -ℤ pos started))
    reply ← change_status r (λ s. record s {
      gke_operation_id = "";
      node_pool_size = to_int32 (pos ready);
      results = with_provisioning_time d s.results;
    })
    must_not reply
    set_phase r Phase.ready
        ("node pool " <> (pool <> (" has " <> (show_int (pos ready) <> " ready nodes"))))

  check_nodes : String → ℤ → Result (List Node) → Handler (World rt) (Unit {0})
  unfolding finish_pool
  check_nodes pool desired (err e) = give (fail_with (wrap "counting ready nodes" e))
  check_nodes pool desired (ok nodes) =
      if ltb_ℤ (pos (count_ready nodes)) desired
      then (do
        change_status r (λ s. record s { node_pool_size = to_int32 (pos (count_ready nodes)) })
        give (again_after requeue_after))
      else finish_pool pool (count_ready nodes)

  -- An operation is in flight: wait for it, then for the nodes.
  poll_creation : String → ℤ → Result Bool → Handler (World rt) (Unit {0})
  unfolding abandon_pool check_nodes
  poll_creation pool desired (err e) = abandon_pool pool e
  poll_creation pool desired (ok false) = give (again_after requeue_after)
  poll_creation pool desired (ok true) = do
    nodes ←
        ask (list_nodes pool)
          (λ trace. r.cluster.nodes_with_label trace r.cloud.node_pool_label_key pool)
    check_nodes pool desired nodes

  unfoldable pub reconcile_provisioning : Handler (World rt) (Unit {0})
  unfolding pool_size set_provisioning_start start_creation poll_creation
  reconcile_provisioning = do
    job ← current
    let pool = node_pool_name job
    let cfg = node_pool_config r job
    size ← pool_size job.spec.objective job.status.resolved_topology.nodes cfg.node_count
    set_provisioning_start job.status.provisioning_start_time
    if is_empty job.status.gke_operation_id
        then start_creation pool (record cfg { node_count = size })
        else (do
          let operation = job.status.gke_operation_id
          done ← ask (poll_operation operation) (λ trace. r.cloud.is_operation_done trace operation)
          poll_creation pool size done)
