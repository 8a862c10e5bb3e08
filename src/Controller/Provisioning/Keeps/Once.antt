-- ===== src/Controller/Provisioning/Keeps/Once.antt =====
-- reconcileProvisioning starts no second creation.
use praktikum.Prelude.{ℤ, false, ◌≡◌, refl, is_empty}
use praktikum.Runtime.{Runtime}
use praktikum.Api.{DistributedTrainingStatus}
use praktikum.System.{World, Handler, Reconciler, ◌>>=◌, ◌>>◌, ask, poll_operation}
use praktikum.System.Keeps.{Keeps, Inv, Quiet, Keeps-bind, Keeps-ask}
use praktikum.Controller.Defaults.{node_pool_name, node_pool_config}
use praktikum.Controller.Pools.{creations, creations-Quiet}
use praktikum.Controller.Provisioning.{
  pool_size, set_provisioning_start, poll_creation, reconcile_provisioning,
}
use praktikum.Controller.Provisioning.Keeps.{
  Allows, Keeps-pool_size, Keeps-set_provisioning_start, Keeps-poll_creation,
}

AnyStatus : DistributedTrainingStatus → Type 0
AnyStatus s = Unit {0}

anything : Allows AnyStatus
unfolding AnyStatus
anything = record {
  to_failed = λ _ _ _. tt;
  to_ready = λ _ _ _. tt;
  starts = λ _ _ _. tt;
  stores_operation = λ _ _ _. tt;
  counts = λ _ _ _. tt;
  finishes = λ _ _ _ _. tt;
}

module _ {rt : Runtime} (r : Reconciler rt) where
  -- If the object in memory has an operation in flight, a pass of reconcileProvisioning asks for no
  -- node pool.
  pub reconcile_provisioning-once :
      (w : World rt)
      → is_empty w.job.status.gke_operation_id ≡ false
      → creations (reconcile_provisioning r w).1.trace ≡ creations w.trace
  unfolding reconcile_provisioning ◌>>=◌ AnyStatus creations
  reconcile_provisioning-once w e = rw e ((kept.at w (record { status = tt; calls = refl })).calls)
    where
      quiet : Quiet {rt = rt} (λ t. creations t ≡ creations w.trace)
      quiet = creations-Quiet (creations w.trace)

      poll : ℤ → Handler (World rt) (Unit {0})
      poll size =
          ask (poll_operation w.job.status.gke_operation_id)
            (λ trace. r.cloud.is_operation_done trace w.job.status.gke_operation_id)
          >>= poll_creation r (node_pool_name w.job) size

      kept : Keeps (Inv {rt = rt} AnyStatus (λ t. creations t ≡ creations w.trace)) (
          pool_size r w.job.spec.objective w.job.status.resolved_topology.nodes
            (node_pool_config r w.job).node_count
          >>= λ size. set_provisioning_start r w.job.status.provisioning_start_time >> poll size)
      kept =
          Keeps-bind _ _
            (Keeps-pool_size quiet (λ _ _ h. h) anything r w.job.spec.objective
              w.job.status.resolved_topology.nodes (node_pool_config r w.job).node_count)
            (λ size.
              Keeps-bind _ _
                (Keeps-set_provisioning_start quiet (λ _ _ h. h) anything r
                  w.job.status.provisioning_start_time)
                (λ _.
                  Keeps-bind _ _
                    (Keeps-ask _ _ (quiet.step (poll_operation w.job.status.gke_operation_id) refl))
                    (Keeps-poll_creation quiet (λ _ _ h. h) anything r (node_pool_name w.job)
                      size)))
