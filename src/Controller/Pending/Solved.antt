-- ===== src/Controller/Pending/Solved.antt =====
-- In objective mode reconcilePending stores a topology that the solver has answered with.
use praktikum.Prelude.{ℕ, ◌≤◌, ◌<◌, pos, ◌≡◌, ◌⊎◌}
use praktikum.Runtime.{Runtime, ok}
use praktikum.Api.{Phase, DistributedTraining, DistributedTrainingStatus, ObjectiveSpec}
use praktikum.System.{Reconciler}
use praktikum.System.Accepts.{AcceptsPatches}
use praktikum.System.Ends.{Ends}
use praktikum.Solver.Run.Bounds.{Fits}

module _ {rt : Runtime} (r : Reconciler rt) (accepts : AcceptsPatches r) (job : DistributedTraining)
    (obj : ObjectiveSpec) (h : ℕ) (limit : obj.max_nodes ≡ pos h) (two : 2 ≤ h)
    (small : h < 1073741824) where
  -- The job has failed, or it goes on with a topology of the solver.
  abbrev pub IsResolved : DistributedTrainingStatus → Type 0
  IsResolved s =
      (s.phase ≡ Phase.failed)
      ⊎ ((s.phase ≡ Phase.provisioning) × Fits r job obj h limit two small (ok s.resolved_topology))
