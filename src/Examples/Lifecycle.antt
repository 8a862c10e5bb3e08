-- ===== src/Examples/Lifecycle.antt =====
-- Runs of passes on the small cluster.
use praktikum.Prelude.{◌≡◌, ◌≤◌, refl, false, Option, none, some, List, [], ◌∷◌, arith}
use praktikum.Runtime.{Error, err, Code}
use praktikum.Api.{Phase}
use praktikum.System.{World, Reconciler, returned, finished, ◌>>=◌}
use praktikum.Controller.Delete.{contains, finalizer_name, reconcile_delete}
use praktikum.Controller.Delete.Safety.{reconcile_delete-holds, reconcile_delete-releases}
use praktikum.Controller.Runs.{rank, passes, passes-rank, passes-final}
use praktikum.Controller.Reconcile.{reconcile, reconcile_job, handle_phase}
use praktikum.Controller.Lifecycle.{Edge, reconcile-Edge}
use praktikum.Controller.Pools.{creations, deletions, reconcile-creations, reconcile-deletions}
use praktikum.Prelude.{lookup, show_int}
use praktikum.Solver.Formulas.{round_second}
use praktikum.History.Write.{write_history_entry}
use praktikum.Controller.Costs.{get_machine_cost}
use praktikum.Controller.Defaults.{node_pool_config, get_backend}
use praktikum.Controller.Validate.{validate_spec}
use praktikum.Controller.Transitions.{set_phase}
use praktikum.Controller.Pending.{reconcile_pending}
use praktikum.Controller.Provisioning.{reconcile_provisioning, count_ready, pool_size}
use praktikum.Controller.Ready.{reconcile_ready, apply_job}
use praktikum.Controller.Running.{reconcile_running}
use praktikum.Controller.Collecting.{reconcile_collecting}
use praktikum.Controller.Provisioning.Keeps.Once.{reconcile_provisioning-once}
use praktikum.Controller.Collecting.Keeps.Once.{reconcile_collecting-deletes}
use praktikum.Examples.Samples.{small_runtime, small_reconciler, world_in, job_in, deleted_in}

reconcile-Edge_example :
    Edge Phase.pending
      (reconcile small_reconciler none (world_in Phase.pending)).1.stored.status.phase
reconcile-Edge_example = reconcile-Edge small_reconciler none (world_in Phase.pending)

reconcile-creations_example :
    creations (reconcile small_reconciler none (world_in Phase.collecting)).1.trace
    ≡ creations (world_in Phase.collecting).trace
reconcile-creations_example =
    reconcile-creations small_reconciler none (world_in Phase.collecting) refl

reconcile-deletions_example :
    deletions (reconcile small_reconciler none (world_in Phase.running)).1.trace
    ≡ deletions (world_in Phase.running).trace
reconcile-deletions_example =
    reconcile-deletions small_reconciler none (world_in Phase.running) refl refl

abbrev two_passes : List (Reconciler small_runtime × Option Error)
two_passes = (small_reconciler, none) ∷ (small_reconciler, none) ∷ []

passes-rank_example :
    rank Phase.pending ≤ rank (passes two_passes (world_in Phase.pending)).stored.status.phase
passes-rank_example = passes-rank two_passes (world_in Phase.pending)

passes-final_example :
    (passes two_passes (world_in Phase.failed)).stored.status.phase ≡ Phase.failed
passes-final_example = passes-final two_passes (world_in Phase.failed) (omega arith)

-- The cloud says that the pool is still in use.
abbrev busy_error : Error
busy_error = record {
  message = "operation in progress";
  is_not_found = false;
  is_invalid = false;
  code = Code.failed_precondition;
}

abbrev busy_reconciler : Reconciler small_runtime
busy_reconciler = record small_reconciler {
  cloud = record small_reconciler.cloud { delete = λ t p. err busy_error };
}

reconcile_delete-holds_example :
    (reconcile_delete busy_reconciler (deleted_in Phase.running)).1.stored
    ≡ (deleted_in Phase.running).stored
reconcile_delete-holds_example =
    reconcile_delete-holds busy_reconciler (deleted_in Phase.running) refl refl

reconcile_delete-releases_example :
    ((reconcile_delete small_reconciler (deleted_in Phase.running)).0 ≡ returned finished)
    × (contains finalizer_name
          (reconcile_delete small_reconciler (deleted_in Phase.running)).1.stored.finalizers
        ≡ false)
reconcile_delete-releases_example =
    reconcile_delete-releases small_reconciler (deleted_in Phase.running) refl (λ t. refl)

-- Six passes take a new job from the empty phase to Succeeded: accepted, the creation started, the
-- nodes counted, the job applied, its end seen, and the results collected.
abbrev six_passes : List (Reconciler small_runtime × Option Error)
six_passes =
    (small_reconciler, none)
    ∷ (small_reconciler, none)
    ∷ (small_reconciler, none)
    ∷ (small_reconciler, none)
    ∷ (small_reconciler, none)
    ∷ (small_reconciler, none)
    ∷ []

six_passes_run : (passes six_passes (world_in Phase.unset)).stored.status.phase ≡ Phase.succeeded
unfolding passes reconcile reconcile_job ◌>>=◌ handle_phase reconcile_pending validate_spec
    set_phase reconcile_provisioning count_ready node_pool_config reconcile_ready get_backend
    apply_job reconcile_running reconcile_collecting get_machine_cost lookup show_int round_second
    write_history_entry
six_passes_run = refl

-- A job whose node pool is being created.
abbrev creating : World small_runtime
creating =
    let job = record (job_in Phase.provisioning) {
      status = record (job_in Phase.provisioning).status { gke_operation_id = "create-1" };
    } in
    record { job = job; stored = job; trace = [] }

reconcile_provisioning-once_example :
    creations (reconcile_provisioning small_reconciler creating).1.trace ≡ 0
unfolding creations
reconcile_provisioning-once_example = reconcile_provisioning-once small_reconciler creating refl

reconcile_collecting-deletes_example :
    deletions (reconcile_collecting small_reconciler (world_in Phase.collecting)).1.trace ≡ 1
unfolding deletions
reconcile_collecting-deletes_example =
    reconcile_collecting-deletes small_reconciler (world_in Phase.collecting)

-- An API server that refuses to store Ready.
abbrev unless_ready : Phase → Option Error
unless_ready Phase.ready = some busy_error
unless_ready p = none

abbrev refusing_reconciler : Reconciler small_runtime
refusing_reconciler = record small_reconciler {
  cluster = record small_reconciler.cluster { status_patch = λ t s. unless_ready s.phase };
}

-- The operation's id is gone by then, so the next pass asks to create the pool once more.
second_creation :
    creations (passes ((refusing_reconciler, none) ∷ (small_reconciler, none) ∷ []) creating).trace
    ≡ 1
unfolding creations passes reconcile reconcile_job ◌>>=◌ handle_phase reconcile_provisioning
    count_ready node_pool_config set_phase pool_size show_int round_second
second_creation = refl
