-- ===== src/Backend/Pytorch/Manifest/Replicas.antt =====
-- The replicas of the manifest against the nodes of the pool.
use praktikum.Prelude.{ℕ, ◌≤◌, ◌≡◌, ◌⊎◌, pos, ◌+ℤ◌, none, arith}
use praktikum.Runtime.{Runtime}
use praktikum.Api.{PytorchSpec, DistributedTraining}
use praktikum.System.{Reconciler}
use praktikum.Controller.Defaults.{node_pool_config}
use praktikum.Backend.Pytorch.Manifest.{split_of, replica_split}

module _ {rt : Runtime} (r : Reconciler rt) (job : DistributedTraining) (ps : PytorchSpec) where
  -- Without an objective, with a number of masters that is at most 1 or at most the node count of
  -- the spec, the masters and the workers of the manifest are together as many as the nodes that
  -- the pool is created with.
  pub replica_split-explicit :
      (m n : ℕ)
      → job.spec.objective ≡ none
      → ps.master_replicas ≡ pos m
      → job.spec.topology.nodes ≡ pos n
      → (m ≤ 1) ⊎ (m ≤ n)
      → (replica_split ps job).0 +ℤ (replica_split ps job).1 ≡ (node_pool_config r job).node_count
  unfolding replica_split split_of node_pool_config
  replica_split-explicit m n o e f g = rw o (rw e (rw f (ground arith)))
