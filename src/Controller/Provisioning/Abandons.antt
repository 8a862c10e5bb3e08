-- ===== src/Controller/Provisioning/Abandons.antt =====
-- An operation that cannot be polled.
use praktikum.Prelude.{ℕ, false, none, some, ◌≡◌, refl, is_empty, ◌∷◌}
use praktikum.Runtime.{Runtime, Error, err}
use praktikum.System.{World, Reconciler, ◌>>=◌, poll_operation, delete_node_pool}
use praktikum.Controller.Defaults.{node_pool_name}
use praktikum.Controller.Provisioning.{
  reconcile_provisioning, pool_size, set_provisioning_start, poll_creation, abandon_pool,
}
use praktikum.Controller.Transitions.{set_failed}

module _ {rt : Runtime} (r : Reconciler rt) where
  pub reconcile_provisioning-abandons :
      (w : World rt) (t : ℕ) (e : Error)
      → w.job.spec.objective ≡ none
      → w.job.status.provisioning_start_time ≡ some t
      → is_empty w.job.status.gke_operation_id ≡ false
      → r.cloud.is_operation_done w.trace w.job.status.gke_operation_id ≡ err e
      → reconcile_provisioning r w
        ≡ set_failed r "node pool creation operation failed" (some e) (record w {
          trace =
              delete_node_pool (node_pool_name w.job)
              ∷ poll_operation w.job.status.gke_operation_id
              ∷ w.trace;
        })
  unfolding reconcile_provisioning pool_size set_provisioning_start poll_creation abandon_pool ◌>>=◌
  reconcile_provisioning-abandons w t e o s i d = simp (o, s, i, d) refl
