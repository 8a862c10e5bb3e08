-- ===== src/Startup/Sizes.antt =====
-- Objective mode: the node count that the solver answered with, in the pool and in the manifests.
use mathlib.Core.Path.{subst}
use praktikum.Prelude.{
  ℕ, ◌≤◌, ◌<◌, pos, inl, inr, ℤ, ◌+ℤ◌, one_ℤ, zero_ℤ, eq_ℤ, int32_sub, true, false, none, some, ◌≡◌,
  refl, sym, ap, ◌∙◌, arith,
}
use praktikum.Runtime.{Runtime, Result, ok, err}
use praktikum.Api.{PytorchSpec, ObjectiveSpec, DistributedTraining, ResolvedTopology}
use praktikum.System.{Reconciler, World, Flow, next, returned, pure}
use praktikum.Controller.Defaults.{is_pytorch, effective_backend, node_pool_config}
use praktikum.Controller.Provisioning.{pool_size}
use praktikum.Backend.Pytorch.Manifest.{replica_split}
use praktikum.Backend.Spark.Manifest as SparkManifest
use praktikum.Solver.Branches.Bounds.{IsSolved, InRange, workers-exact}
use praktikum.Solver.Run.{calibration_topology, run_solver}
use praktikum.Solver.Run.Bounds.{Fits, run_solver-answers}

one_first : (w : ℤ) → one_ℤ +ℤ w ≡ w +ℤ one_ℤ
one_first w = ground arith

InRange-nonzero : (h : ℕ) (n : ℤ) → InRange h n → eq_ℤ n zero_ℤ ≡ false
InRange-nonzero h n (k, e, p, q) = rw e (ground arith)

module _ {rt : Runtime} (r : Reconciler rt) (job : DistributedTraining) (o : ObjectiveSpec)
    (objective : job.spec.objective ≡ some o) (h : ℕ)
    (solved : IsSolved job h job.status.resolved_topology) where
  pool_size-solved :
      (requested : ℤ) (w : World rt)
      → (pool_size r job.spec.objective job.status.resolved_topology.nodes requested w).0
        ≡ next job.status.resolved_topology.nodes
  unfolding pool_size pure
  pool_size-solved requested w =
      rw objective (rw (InRange-nonzero h job.status.resolved_topology.nodes solved.nodes) refl)

  split-solved :
      (ps : PytorchSpec)
      → is_pytorch (effective_backend job.spec.backend) ≡ true
      → (replica_split ps job).0 +ℤ (replica_split ps job).1 ≡ job.status.resolved_topology.nodes
  unfolding replica_split
  split-solved ps b =
      let (master, worker) = solved.replicas b in
      rw objective (rw master (one_first job.status.resolved_topology.worker_replicas ∙ worker))

  executors-solved :
      (SparkManifest.resolve_topology job).executor_instances ≡ job.status.resolved_topology.nodes
  unfolding SparkManifest.resolve_topology
  executors-solved =
      rw objective (rw (InRange-nonzero h job.status.resolved_topology.nodes solved.nodes) refl)

  -- Provisioning goes on with as many nodes as the manifest has masters and workers.
  pool_size-split :
      (ps : PytorchSpec) (requested : ℤ) (w : World rt)
      → is_pytorch (effective_backend job.spec.backend) ≡ true
      → (pool_size r job.spec.objective job.status.resolved_topology.nodes requested w).0
        ≡ next ((replica_split ps job).0 +ℤ (replica_split ps job).1)
  pool_size-split ps requested w b =
      pool_size-solved requested w ∙ ap next (sym (split-solved ps b))

  -- For a job in objective mode, with a topology that the solver answered with for it, Provisioning
  -- goes on with as many nodes as the Spark manifest asks for executors.
  pub solved_topology-executors :
      (requested : ℤ) (w : World rt)
      → (pool_size r job.spec.objective job.status.resolved_topology.nodes requested w).0
        ≡ next (SparkManifest.resolve_topology job).executor_instances
  solved_topology-executors requested w =
      pool_size-solved requested w ∙ ap next (sym executors-solved)

-- For a job without an objective the Spark manifest asks for as many executors as the pool is
-- created with nodes, also where the spec leaves the node count at 0.
pub explicit_topology-executors :
    {rt : Runtime} (r : Reconciler rt) (job : DistributedTraining)
    → job.spec.objective ≡ none
    → (SparkManifest.resolve_topology job).executor_instances ≡ (node_pool_config r job).node_count
unfolding SparkManifest.resolve_topology node_pool_config
explicit_topology-executors r job o = rw o refl

-- The job once the topology is stored.
abbrev pub with_topology : ResolvedTopology → DistributedTraining → DistributedTraining
with_topology t job = record job { status = record job.status { resolved_topology = t } }

-- The size of the pool, and the replicas of the manifest, of a job with the topology `t`.
abbrev pub IsFilled : {rt : Runtime} → Reconciler rt → PytorchSpec → DistributedTraining → Type 0
IsFilled {rt = rt} r ps job =
    (requested : ℤ) (w : World rt)
    → (pool_size r job.spec.objective job.status.resolved_topology.nodes requested w).0
      ≡ next ((replica_split ps job).0 +ℤ (replica_split ps job).1)

module _ {rt : Runtime} (r : Reconciler rt) (job : DistributedTraining) (obj : ObjectiveSpec)
    (ps : PytorchSpec) (objective : job.spec.objective ≡ some obj) where
  nonzero : (c : ℕ) → 1 ≤ c → eq_ℤ (pos c) zero_ℤ ≡ false
  nonzero c low = ground arith

  calibration-pool :
      (c : ℕ) (requested : ℤ) (w : World rt)
      → r.default_calibration_nodes ≡ pos c
      → 1 ≤ c
      → (pool_size r job.spec.objective (calibration_topology r).nodes requested w).0
        ≡ next (calibration_topology r).nodes
  unfolding pool_size pure calibration_topology
  calibration-pool c requested w e low =
      let count : eq_ℤ r.default_calibration_nodes zero_ℤ ≡ false = rw e (nonzero c low) in
      rw objective (rw count refl)

  calibration-split :
      (c : ℕ)
      → r.default_calibration_nodes ≡ pos c
      → 1 ≤ c
      → c < 2147483648
      → (replica_split ps (with_topology (calibration_topology r) job)).0
          +ℤ (replica_split ps (with_topology (calibration_topology r) job)).1
        ≡ (calibration_topology r).nodes
  unfolding replica_split calibration_topology
  calibration-split c e low high =
      let sum : int32_sub r.default_calibration_nodes one_ℤ +ℤ one_ℤ ≡ r.default_calibration_nodes =
        ap (λ n. int32_sub n one_ℤ +ℤ one_ℤ) e ∙ workers-exact c low high ∙ sym e in
      rw objective (one_first (int32_sub r.default_calibration_nodes one_ℤ) ∙ sum)

  calibration-IsFilled :
      (c : ℕ)
      → r.default_calibration_nodes ≡ pos c
      → 1 ≤ c
      → c < 2147483648
      → IsFilled r ps (with_topology (calibration_topology r) job)
  calibration-IsFilled c e low high requested w =
      calibration-pool c requested w e low ∙ ap next (sym (calibration-split c e low high))

  module _ (h : ℕ) (limit : obj.max_nodes ≡ pos h) (two : 2 ≤ h) (small : h < 1073741824)
      (b : is_pytorch (effective_backend job.spec.backend) ≡ true) (c : ℕ)
      (calibration : r.default_calibration_nodes ≡ pos c) (low : 1 ≤ c)
      (high : c < 2147483648) where
    Fits-IsFilled :
        (t : ResolvedTopology)
        → Fits r job obj h limit two small (ok t)
        → IsFilled r ps (with_topology t job)
    Fits-IsFilled t (inl e) =
        subst (λ t. IsFilled r ps (with_topology t job)) (sym e)
          (calibration-IsFilled c calibration low high)
    Fits-IsFilled t (inr s) = λ requested w.
        pool_size-split r (with_topology t job) obj objective h
          (record { nodes = s.nodes; replicas = s.replicas }) ps requested w b

    -- An answer of the solver that is a topology fills the pool.
    abbrev Filled : Flow (Result ResolvedTopology) → Type 0
    Filled (next (ok t)) = IsFilled r ps (with_topology t job)
    Filled (next (err e)) = Unit {0}
    Filled (returned o) = Unit {0}

    Fits-Filled :
        (x : Result ResolvedTopology) → Fits r job obj h limit two small x → Filled (next x)
    Fits-Filled (ok t) fits = Fits-IsFilled t fits
    Fits-Filled (err e) fits = tt

    -- Let a PyTorch job have an objective whose maxNodes is from 2 to below 2 ^ 30, and let the
    -- default calibration node count be positive, as an int32. Whatever topology runSolver answers
    -- with, in whatever world: once it is stored, Provisioning goes on with exactly as many nodes as
    -- the manifest has masters and workers together, also for a calibration run on one node.
    pub run_solver-IsFilled :
        (w : World rt) (t : ResolvedTopology)
        → (run_solver r job obj w).0 ≡ next (ok t)
        → IsFilled r ps (with_topology t job)
    run_solver-IsFilled w t e =
        let (x, answers, fits) = run_solver-answers r job obj h limit two small w in
        subst Filled (sym answers ∙ e) (Fits-Filled x fits)
