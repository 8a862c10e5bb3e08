-- ===== src/Controller/Defaults/Machines.antt =====
-- The machine type that a node pool is created with, and the accelerators that come with it.
use praktikum.Prelude.{◌≡◌, arith}
use praktikum.Runtime.{Runtime}
use praktikum.Api.{DistributedTraining}
use praktikum.System.{Reconciler}
use praktikum.Controller.Defaults.{node_pool_config, effective_machine_type}

module _ {rt : Runtime} (r : Reconciler rt) (job : DistributedTraining) where
  -- The node pool is created with the machine type that costs are looked up and history is written
  -- for.
  pub node_pool_config-machine :
      (node_pool_config r job).machine_type ≡ effective_machine_type r job
  unfolding node_pool_config effective_machine_type
  node_pool_config-machine = ground arith
