-- ===== src/Controller.antt =====
-- The controller: operator/internal/controller.
pub mod Defaults
pub mod Validate
pub mod Costs
pub mod Transitions
pub mod Pending
pub mod Provisioning
pub mod Ready
pub mod Running
pub mod Collecting
pub mod Metrics
pub mod Succeeded
pub mod Delete
pub mod Reconcile
pub mod Lifecycle
pub mod Pools
pub mod Runs
pub mod Progress
pub mod Awake
