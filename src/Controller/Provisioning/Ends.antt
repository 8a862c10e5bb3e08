-- ===== src/Controller/Provisioning/Ends.antt =====
-- What a pass of reconcileProvisioning comes to, with an operation in flight and without one.
use praktikum.Prelude.{
  ℕ, ℤ, pos, zero_ℤ, eq_ℤ, ltb_ℤ, String, Bool, true, false, Option, none, some, List, is_empty,
  ◌≡◌, ◌⊎◌, inl, inr, if◌then◌else◌,
}
use praktikum.Runtime.{Runtime, Error, Result, ok, err}
use praktikum.Api.{Phase, DistributedTraining, DistributedTrainingStatus, ObjectiveSpec}
use praktikum.System.{World, Handler, Reconciler, NodePoolConfig, Node, Trace, ◌>>=◌, pure}
use praktikum.System.Answers.{Answers-pure, answers_rules}
use praktikum.System.Accepts.{
  AcceptsPatches, MayEnd-patch, change_status-IsAccepted, must_not-GoesOn, current-GoesOn,
}
use praktikum.System.Ends.{
  Ends, MayEnd, Ends-bind, Ends-known, Ends-answer, MayEnd-bind, MayEnd-GoesOn, MayEnd-Ends,
  Answers-ask, Ends-then, Ends-else,
}
use praktikum.Controller.Defaults.{node_pool_config, node_pool_name}
use praktikum.Controller.Transitions.{set_failed}
use praktikum.Controller.Transitions.Ends.{set_phase-Ends, set_failed-Ends}
use praktikum.Controller.Provisioning.{
  count_ready, pool_size, set_provisioning_start, store_operation, start_creation, abandon_pool,
  finish_pool, check_nodes, poll_creation, reconcile_provisioning,
}

-- The creation has begun, or the job has failed.
abbrev pub IsBegun : DistributedTrainingStatus → Type 0
IsBegun s = (is_empty s.gke_operation_id ≡ false) ⊎ (s.phase ≡ Phase.failed)

-- The pool is ready, or the job has failed.
abbrev pub IsProvided : DistributedTrainingStatus → Type 0
IsProvided s = (s.phase ≡ Phase.ready) ⊎ (s.phase ≡ Phase.failed)

-- The node count that the pool is created with.
abbrev pub desired_nodes : Option ObjectiveSpec → ℤ → ℤ → ℤ
desired_nodes none resolved requested = requested
desired_nodes (some _) resolved requested = resolved

abbrev pub IsOperation : Result String → Type 0
IsOperation (ok id) = is_empty id ≡ false
IsOperation (err e) = Unit {0}

abbrev pub IsDone : Result Bool → Type 0
IsDone (ok b) = b ≡ true
IsDone (err e) = Unit {0}

abbrev pub HasReady : ℤ → Result (List Node) → Type 0
HasReady desired (ok nodes) = ltb_ℤ (pos (count_ready nodes)) desired ≡ false
HasReady desired (err e) = ⊥

-- The cloud names the operation that creates a pool, and each operation is over: done or failed.
pub record Provides {rt : Runtime} (r : Reconciler rt) : Type 0 where
  pub creates :
      (t : Trace rt) (pool : String) (cfg : NodePoolConfig)
      → IsOperation (r.cloud.create t pool cfg)
  pub over : (t : Trace rt) (id : String) → IsDone (r.cloud.is_operation_done t id)

-- The nodes of the job's pool are ready, as many as it wants.
abbrev pub NodesReady : {rt : Runtime} → Reconciler rt → DistributedTraining → Type 0
NodesReady {rt = rt} r job =
    (t : Trace rt)
    → HasReady
        (desired_nodes job.spec.objective job.status.resolved_topology.nodes
          (node_pool_config r job).node_count)
        (r.cluster.nodes_with_label t r.cloud.node_pool_label_key (node_pool_name job))

module _ {rt : Runtime} (r : Reconciler rt) (accepts : AcceptsPatches r) where
  resolved-Ends :
      {Q : DistributedTrainingStatus → Type 0} (missing : Bool) (message : String) (resolved : ℤ)
      (k : ℤ → Handler (World rt) (Unit {0}))
      → ((s : DistributedTrainingStatus) → s.phase ≡ Phase.failed → Q s)
      → Ends Q (k resolved)
      → Ends Q (
          (if missing then (set_failed r message none >>= λ u. pure resolved) else pure resolved)
          >>= k)
  resolved-Ends true message resolved k f q =
      Ends-answer _ resolved k (MayEnd-Ends _ (set_failed-Ends r accepts _ _ f)) q
  resolved-Ends false message resolved k f q = Ends-known _ _ (Answers-pure resolved q) (λ a q. q)

  -- A job whose topology is missing fails; otherwise the desired count is known.
  pool_size-Ends :
      {Q : DistributedTrainingStatus → Type 0} (o : Option ObjectiveSpec) (resolved requested : ℤ)
      (k : ℤ → Handler (World rt) (Unit {0}))
      → ((s : DistributedTrainingStatus) → s.phase ≡ Phase.failed → Q s)
      → Ends Q (k (desired_nodes o resolved requested))
      → Ends Q (pool_size r o resolved requested >>= k)
  unfolding pool_size
  pool_size-Ends none resolved requested k f q =
      Ends-known _ _ (Answers-pure requested q) (λ a q. q)
  pool_size-Ends (some o) resolved requested k f q =
      resolved-Ends (eq_ℤ resolved zero_ℤ) _ resolved k f q

  set_provisioning_start-MayEnd :
      {Q : DistributedTrainingStatus → Type 0} (o : Option ℕ)
      → MayEnd Q (set_provisioning_start r o)
  unfolding set_provisioning_start
  set_provisioning_start-MayEnd (some t) = MayEnd-GoesOn _ (search (answers_rules))
  set_provisioning_start-MayEnd none =
      MayEnd-bind _ _ (MayEnd-GoesOn _ (search (answers_rules)))
        (λ time. MayEnd-patch r accepts _ _)

  store_operation-Ends : (x : Result String) → IsOperation x → Ends IsBegun (store_operation r x)
  unfolding store_operation ◌>>=◌
  store_operation-Ends (err e) h = set_failed-Ends r accepts _ _ (λ s p. inr p)
  store_operation-Ends (ok id) h = record { at = λ w. simp (accepts.patches) (inl h) }

  finish_pool-Ends : (pool : String) (ready : ℕ) → Ends IsProvided (finish_pool r pool ready)
  unfolding finish_pool
  finish_pool-Ends pool ready = Ends-bind _ _ (MayEnd-GoesOn _ (search (answers_rules))) (λ time.
      Ends-bind _ _ (MayEnd-GoesOn _ current-GoesOn) (λ job.
        Ends-known _ _ (change_status-IsAccepted r accepts _) (λ reply e.
          Ends-bind _ _ (MayEnd-GoesOn _ (must_not-GoesOn reply e))
            (λ u. set_phase-Ends r accepts _ _ (λ s h. inl h)))))

  check_nodes-Ends :
      (pool : String) (desired : ℤ) (x : Result (List Node))
      → HasReady desired x
      → Ends IsProvided (check_nodes r pool desired x)
  unfolding check_nodes
  check_nodes-Ends pool desired (ok nodes) h = rw h (finish_pool-Ends pool (count_ready nodes))
  check_nodes-Ends pool desired (err e) h = elim h [ ]

  abandon_pool-Ends : (pool : String) (e : Error) → Ends IsProvided (abandon_pool r pool e)
  unfolding abandon_pool
  abandon_pool-Ends pool e =
      Ends-bind _ _ (MayEnd-GoesOn _ (search (answers_rules)))
        (λ u. set_failed-Ends r accepts _ _ (λ s h. inr h))

  poll_creation-Ends :
      (pool : String) (desired : ℤ) (x : Result Bool)
      → IsDone x
      → ((t : Trace rt)
          → HasReady desired (r.cluster.nodes_with_label t r.cloud.node_pool_label_key pool))
      → Ends IsProvided (poll_creation r pool desired x)
  unfolding poll_creation
  poll_creation-Ends pool desired (err e) d h = abandon_pool-Ends pool e
  poll_creation-Ends pool desired (ok true) d h =
      Ends-known _ _ (Answers-ask _ _ h) (check_nodes-Ends pool desired)
  poll_creation-Ends pool desired (ok false) d h = cc

module _ {rt : Runtime} (r : Reconciler rt) (accepts : AcceptsPatches r)
    (provides : Provides r) where
  start_creation-Ends :
      (pool : String) (cfg : NodePoolConfig) → Ends IsBegun (start_creation r pool cfg)
  unfolding start_creation
  start_creation-Ends pool cfg =
      Ends-known _ _ (Answers-ask _ _ (λ t. provides.creates t pool cfg))
        (store_operation-Ends r accepts)

  pub reconcile_provisioning-begins :
      (w : World rt)
      → is_empty w.job.status.gke_operation_id ≡ true
      → IsBegun (reconcile_provisioning r w).1.stored.status
  unfolding reconcile_provisioning ◌>>=◌
  reconcile_provisioning-begins w e =
      (pool_size-Ends r accepts w.job.spec.objective w.job.status.resolved_topology.nodes
          (node_pool_config r w.job).node_count _ (λ s h. inr h)
          (Ends-bind _ _
            (set_provisioning_start-MayEnd r accepts w.job.status.provisioning_start_time)
            (λ u. Ends-then _ _ e (start_creation-Ends _ _)))).at
        w

  pub reconcile_provisioning-provides :
      (w : World rt)
      → is_empty w.job.status.gke_operation_id ≡ false
      → NodesReady r w.job
      → IsProvided (reconcile_provisioning r w).1.stored.status
  unfolding reconcile_provisioning ◌>>=◌
  reconcile_provisioning-provides w e nodes =
      (pool_size-Ends r accepts w.job.spec.objective w.job.status.resolved_topology.nodes
          (node_pool_config r w.job).node_count _ (λ s h. inr h)
          (Ends-bind _ _
            (set_provisioning_start-MayEnd r accepts w.job.status.provisioning_start_time)
            (λ u. Ends-else _ _ e (
              Ends-known _ _ (Answers-ask _ _ (λ t. provides.over t w.job.status.gke_operation_id))
                (λ x d. poll_creation-Ends r accepts _ _ x d nodes))))).at
        w

abbrev pub IsFailed : DistributedTrainingStatus → Type 0
IsFailed s = s.phase ≡ Phase.failed

abbrev pub IsPollError : Result Bool → Type 0
IsPollError (ok b) = ⊥
IsPollError (err e) = Unit {0}

module _ {rt : Runtime} (r : Reconciler rt) (accepts : AcceptsPatches r) where
  poll_creation-fails :
      (pool : String) (desired : ℤ) (x : Result Bool)
      → IsPollError x
      → Ends IsFailed (poll_creation r pool desired x)
  unfolding poll_creation abandon_pool
  poll_creation-fails pool desired (err e) h =
      Ends-bind _ _ (MayEnd-GoesOn _ (search (answers_rules)))
        (λ u. set_failed-Ends r accepts _ _ (λ s f. f))
  poll_creation-fails pool desired (ok b) h = elim h [ ]

  pub reconcile_provisioning-fails :
      (w : World rt)
      → is_empty w.job.status.gke_operation_id ≡ false
      → ((t : Trace rt) → IsPollError (r.cloud.is_operation_done t w.job.status.gke_operation_id))
      → IsFailed (reconcile_provisioning r w).1.stored.status
  unfolding reconcile_provisioning ◌>>=◌
  reconcile_provisioning-fails w e errors =
      (pool_size-Ends r accepts w.job.spec.objective w.job.status.resolved_topology.nodes
          (node_pool_config r w.job).node_count _ (λ s h. h)
          (Ends-bind _ _
            (set_provisioning_start-MayEnd r accepts w.job.status.provisioning_start_time)
            (λ u.
              Ends-else _ _ e
                (Ends-known _ _ (Answers-ask _ _ errors) (poll_creation-fails _ _))))).at
        w
