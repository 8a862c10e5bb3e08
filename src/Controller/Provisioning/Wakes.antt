-- ===== src/Controller/Provisioning/Wakes.antt =====
-- A pass of reconcileProvisioning asks to be called again, unless it has failed the job.
use praktikum.Prelude.{ℕ, ℤ, Bool, String, List, Option, none, some, true, false, inr, inl}
use praktikum.Runtime.{Runtime, Error, Result, ok, err}
use praktikum.Api.{ObjectiveSpec}
use praktikum.System.{Reconciler, Node, NodePoolConfig}
use praktikum.System.Wakes.{Wakes, Wakes-give, Wakes-again_after, wakes_rules}
use praktikum.Controller.Transitions.Wakes.{later, Wakes-set_phase, Wakes-set_failed}
use praktikum.Controller.Provisioning.{
  pool_size, set_provisioning_start, store_operation, start_creation, abandon_pool, finish_pool,
  check_nodes, poll_creation, reconcile_provisioning,
}

module _ {rt : Runtime} (r : Reconciler rt) where
  Wakes-pool_size : (o : Option ObjectiveSpec) (m n : ℤ) → Wakes false (pool_size r o m n)
  unfolding pool_size
  Wakes-pool_size none m n = search (wakes_rules)
  Wakes-pool_size (some o) m n = search (wakes_rules, Wakes-set_failed)

  Wakes-set_provisioning_start : (t : Option ℕ) → Wakes false (set_provisioning_start r t)
  unfolding set_provisioning_start
  Wakes-set_provisioning_start (some t) = search (wakes_rules)
  Wakes-set_provisioning_start none = search (wakes_rules) depth 7

  Wakes-store_operation : (x : Result String) → Wakes true (store_operation r x)
  unfolding store_operation
  Wakes-store_operation (err e) = Wakes-set_failed r _ _
  Wakes-store_operation (ok id) = search (wakes_rules, Wakes-give, inl, inr, later)

  Wakes-start_creation :
      (pool : String) (cfg : NodePoolConfig) → Wakes true (start_creation r pool cfg)
  unfolding start_creation
  Wakes-start_creation pool cfg = search (wakes_rules, Wakes-store_operation)

  Wakes-abandon_pool : (pool : String) (e : Error) → Wakes true (abandon_pool r pool e)
  unfolding abandon_pool
  Wakes-abandon_pool pool e = search (wakes_rules, Wakes-set_failed)

  Wakes-finish_pool : (pool : String) (n : ℕ) → Wakes true (finish_pool r pool n)
  unfolding finish_pool
  Wakes-finish_pool pool n = search (wakes_rules, Wakes-set_phase) depth 12

  Wakes-check_nodes :
      (pool : String) (n : ℤ) (x : Result (List Node)) → Wakes true (check_nodes r pool n x)
  unfolding check_nodes
  Wakes-check_nodes pool n (err e) = search (wakes_rules)
  Wakes-check_nodes pool n (ok nodes) =
      search (wakes_rules, Wakes-again_after, later, Wakes-finish_pool) depth 7

  Wakes-poll_creation :
      (pool : String) (n : ℤ) (x : Result Bool) → Wakes true (poll_creation r pool n x)
  unfolding poll_creation
  Wakes-poll_creation pool n (err e) = Wakes-abandon_pool pool e
  Wakes-poll_creation pool n (ok false) = search (wakes_rules, Wakes-again_after, later)
  Wakes-poll_creation pool n (ok true) = search (wakes_rules, Wakes-check_nodes)

  pub Wakes-reconcile_provisioning : Wakes true (reconcile_provisioning r)
  unfolding reconcile_provisioning
  Wakes-reconcile_provisioning =
      search
        (
          wakes_rules, Wakes-pool_size, Wakes-set_provisioning_start, Wakes-start_creation,
          Wakes-poll_creation,
        )
        depth 12
