-- ===== src/Controller/Provisioning/Keeps.antt =====
-- What reconcileProvisioning keeps.
pub mod Once
use praktikum.Prelude.{ℕ, ℤ, String, Bool, true, false, Option, none, some, List, ◌∷◌}
use praktikum.Runtime.{Runtime, Error, Result, ok, err}
use praktikum.Api.{Phase, ObjectiveSpec, DistributedTrainingStatus}
use praktikum.System.{Reconciler, Trace, Node, NodePoolConfig, create_node_pool, delete_node_pool}
use praktikum.System.Keeps.{Keeps, Inv, Quiet, keeps_rules}
use praktikum.Controller.Transitions.Keeps.{Accepts, Keeps-set_phase, Keeps-set_failed}
use praktikum.Controller.Provisioning.{
  pool_size, set_provisioning_start, store_operation, start_creation, abandon_pool, finish_pool,
  check_nodes, poll_creation, reconcile_provisioning, with_provisioning_time,
}

-- A status property that holds after each change that the handler makes.
pub record Allows (S : DistributedTrainingStatus → Type 0) : Type 0 where
  pub to_failed : Accepts S Phase.failed
  pub to_ready : Accepts S Phase.ready
  pub starts :
      (s : DistributedTrainingStatus) (t : ℕ)
      → S s
      → S (record s { provisioning_start_time = some t })
  pub stores_operation :
      (s : DistributedTrainingStatus) (id : String) → S s → S (record s { gke_operation_id = id })
  pub counts : (s : DistributedTrainingStatus) (n : ℤ) → S s → S (record s { node_pool_size = n })
  pub finishes :
      (s : DistributedTrainingStatus) (n : ℤ) (d : String)
      → S s
      → S (record s {
        gke_operation_id = "";
        node_pool_size = n;
        results = with_provisioning_time d s.results;
      })

module _ {rt : Runtime} {S : DistributedTrainingStatus → Type 0} {T : Trace rt → Type 0}
    (q : Quiet T) (deletes : (pool : String) (t : Trace rt) → T t → T (delete_node_pool pool ∷ t))
    (a : Allows S) (r : Reconciler rt) where
  Keeps-pool_size : (o : Option ObjectiveSpec) (n m : ℤ) → Keeps (Inv S T) (pool_size r o n m)
  unfolding pool_size
  Keeps-pool_size none n m = search (keeps_rules)
  Keeps-pool_size (some o) n m = search (keeps_rules, Keeps-set_failed q r, a.to_failed)

  Keeps-set_provisioning_start : (o : Option ℕ) → Keeps (Inv S T) (set_provisioning_start r o)
  unfolding set_provisioning_start
  Keeps-set_provisioning_start none = search (keeps_rules, q, q.step, a.starts)
  Keeps-set_provisioning_start (some t) = search (keeps_rules)

  Keeps-store_operation : (x : Result String) → Keeps (Inv S T) (store_operation r x)
  unfolding store_operation
  Keeps-store_operation (ok id) = search (keeps_rules, q, a.stores_operation)
  Keeps-store_operation (err e) = search (Keeps-set_failed q r, a.to_failed)

  Keeps-abandon_pool : (pool : String) (e : Error) → Keeps (Inv S T) (abandon_pool r pool e)
  unfolding abandon_pool
  Keeps-abandon_pool pool e = search (keeps_rules, deletes, Keeps-set_failed q r, a.to_failed)

  Keeps-finish_pool : (pool : String) (n : ℕ) → Keeps (Inv S T) (finish_pool r pool n)
  unfolding finish_pool
  Keeps-finish_pool pool n =
      search (keeps_rules, q, q.step, a.finishes, Keeps-set_phase q r, a.to_ready) depth 7

  Keeps-check_nodes :
      (pool : String) (n : ℤ) (x : Result (List Node)) → Keeps (Inv S T) (check_nodes r pool n x)
  unfolding check_nodes
  Keeps-check_nodes pool n (ok nodes) = search (keeps_rules, q, a.counts, Keeps-finish_pool)
  Keeps-check_nodes pool n (err e) = search (keeps_rules)

  Keeps-poll_creation :
      (pool : String) (n : ℤ) (x : Result Bool) → Keeps (Inv S T) (poll_creation r pool n x)
  unfolding poll_creation
  Keeps-poll_creation pool n (ok true) = search (keeps_rules, q.step, Keeps-check_nodes)
  Keeps-poll_creation pool n (ok false) = search (keeps_rules)
  Keeps-poll_creation pool n (err e) = Keeps-abandon_pool pool e

module _ {rt : Runtime} {S : DistributedTrainingStatus → Type 0} {T : Trace rt → Type 0}
    (q : Quiet T)
    (creates : (pool : String) (cfg : NodePoolConfig) (t : Trace rt)
      → T t
      → T (create_node_pool pool cfg ∷ t))
    (deletes : (pool : String) (t : Trace rt) → T t → T (delete_node_pool pool ∷ t)) (a : Allows S)
    (r : Reconciler rt) where
  Keeps-start_creation :
      (pool : String) (cfg : NodePoolConfig) → Keeps (Inv S T) (start_creation r pool cfg)
  unfolding start_creation
  Keeps-start_creation pool cfg = search (keeps_rules, creates, Keeps-store_operation q deletes a r)

  pub Keeps-reconcile_provisioning : Keeps (Inv S T) (reconcile_provisioning r)
  unfolding reconcile_provisioning
  Keeps-reconcile_provisioning =
      search
        (
          keeps_rules,
          q.step,
          Keeps-pool_size q deletes a r,
          Keeps-set_provisioning_start q deletes a r,
          Keeps-start_creation,
          Keeps-poll_creation q deletes a r,
        )
        depth 8
