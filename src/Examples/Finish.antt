-- ===== src/Examples/Finish.antt =====
-- A run of passes from the first phase to the last.
use praktikum.Prelude.{
  some, ◌≡◌, ◌⊎◌, inl, refl, sym, false, true, Option, none, List, [], ◌∷◌, arith,
}
use praktikum.Runtime.{Error, ok}
use praktikum.Api.{Phase}
use praktikum.System.{World, Reconciler, JobBackend, ◌>>=◌}
use praktikum.Controller.Defaults.{get_backend, node_pool_config}
use praktikum.Controller.Delete.{contains, finalizer_name}
use praktikum.Controller.Provisioning.{count_ready, reconcile_provisioning, pool_size}
use praktikum.Controller.Provisioning.Ends.{NodesReady}
use praktikum.Controller.Running.Ends.{ReportsOver}
use praktikum.System.Accepts.{AcceptsPatches}
use praktikum.Controller.Pending.{reconcile_pending}
use praktikum.Controller.Transitions.{set_phase}
use praktikum.Controller.Validate.{validate_spec}
use praktikum.Controller.Ready.{reconcile_ready, apply_job}
use praktikum.Controller.Running.{reconcile_running}
use praktikum.Controller.Collecting.{reconcile_collecting}
use praktikum.Controller.Reconcile.{reconcile, reconcile_job, handle_phase}
use praktikum.Controller.Runs.{passes}
use praktikum.Controller.Awake.{IsAttended, reconcile-IsAttended}
use praktikum.Controller.Progress.{Serves}
use praktikum.Controller.Progress.Finish.{Served, passes-finish}
use praktikum.Examples.Samples.{
  small_runtime, small_reconciler, done_backend, job_in, world_in, small_objective,
}

abbrev six_passes : List (Reconciler small_runtime × Option Error)
six_passes =
    (small_reconciler, none)
    ∷ (small_reconciler, none)
    ∷ (small_reconciler, none)
    ∷ (small_reconciler, none)
    ∷ (small_reconciler, none)
    ∷ (small_reconciler, none)
    ∷ []

-- The backend that a lookup has found.
found : (b c : JobBackend small_runtime) → ok b ≡ ok c → b ≡ c
found b c e = cc

done_backend-ReportsOver : ReportsOver (ok done_backend)
done_backend-ReportsOver b e t n j = rw (sym (found done_backend b e)) (inl refl)

small-AcceptsPatches : AcceptsPatches small_reconciler
small-AcceptsPatches = record { patches = λ t s. refl }

small-Serves :
    (w : World small_runtime)
    → w.stored.deleted ≡ false
    → contains finalizer_name w.stored.finalizers ≡ true
    → NodesReady small_reconciler w.stored
    → get_backend small_reconciler w.stored ≡ ok done_backend
    → Serves small_reconciler w
small-Serves w live finalizer nodes backend = record {
  live = live;
  finalizer = finalizer;
  accepts = small-AcceptsPatches;
  applies = record { marshals = λ m. refl; applies = λ t m. tt };
  provides = record { creates = λ t p c. refl; over = λ t o. refl };
  nodes = λ e. nodes;
  reports = λ e. rw backend done_backend-ReportsOver;
}

abbrev after : World small_runtime → World small_runtime
after w = (reconcile small_reconciler none w).1

six_passes-Served : Served six_passes (world_in Phase.pending)
unfolding reconcile reconcile_job handle_phase reconcile_pending validate_spec set_phase
    reconcile_provisioning pool_size count_ready node_pool_config reconcile_ready get_backend
    apply_job reconcile_running reconcile_collecting ◌>>=◌
six_passes-Served =
    let start = world_in Phase.pending in
    (
      refl,
      small-Serves start refl refl (λ t. refl) refl,
      (
        refl,
        small-Serves (after start) refl refl (λ t. refl) refl,
        (
          refl,
          small-Serves (after (after start)) refl refl (λ t. refl) refl,
          (
            refl,
            small-Serves (after (after (after start))) refl refl (λ t. refl) refl,
            (
              refl,
              small-Serves (after (after (after (after start)))) refl refl (λ t. refl) refl,
              (
                refl,
                small-Serves (after (after (after (after (after start))))) refl refl (λ t. refl)
                    refl,
                tt,
              ),
            ),
          ),
        ),
      ),
    )

passes-finish_example :
    ((passes six_passes (world_in Phase.pending)).stored.status.phase ≡ Phase.succeeded)
    ⊎ ((passes six_passes (world_in Phase.pending)).stored.status.phase ≡ Phase.failed)
passes-finish_example =
    passes-finish six_passes (world_in Phase.pending) six_passes-Served (omega arith)

reconcile-IsAttended_example :
    IsAttended
      (reconcile small_reconciler none (world_in Phase.running)).0
      (reconcile small_reconciler none (world_in Phase.running)).1.stored.status
reconcile-IsAttended_example = reconcile-IsAttended small_reconciler (world_in Phase.running) refl

-- A new job in objective mode.
abbrev objective_world : World small_runtime
objective_world =
    let job = record (job_in Phase.pending) {
      spec = record (job_in Phase.pending).spec { objective = some small_objective };
    } in
    record { job = job; stored = job; trace = [] }
