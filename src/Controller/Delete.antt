-- ===== src/Controller/Delete.antt =====
-- The finalizer and reconcileDelete of
-- operator/internal/controller/distributedtraining_controller.go.
pub mod Keeps
pub mod Safety
use praktikum.Prelude.{
  String, Bool, true, false, ◌||◌, Option, none, some, List, [], ◌∷◌, ◌++◌, str_eq, if◌then◌else◌,
}
use praktikum.Runtime.{Runtime, Error, Result, ok, err, Code}
use praktikum.Api.{Phase, DistributedTraining}
use praktikum.System.{
  World, Handler, Outcome, next, ◌>>=◌, ◌>>◌, pure, give, ask, current, must, finished, again_after,
  fail_with, Reconciler, delete_node_pool, patch_metadata,
}
use praktikum.Controller.Defaults.{node_pool_name}

abbrev pub finalizer_name : String
finalizer_name = "training.distributedtraining.io/cleanup"

abbrev pub contains : String → List String → Bool
contains s [] = false
contains s (x ∷ xs) = str_eq x s || contains s xs

abbrev pub without : String → List String → List String
without s [] = []
without s (x ∷ xs) = if str_eq x s then without s xs else x ∷ without s xs

abbrev pub is_succeeded : Phase → Bool
is_succeeded Phase.succeeded = true
is_succeeded _ = false

abbrev set_finalizers : (List String → List String) → DistributedTraining → DistributedTraining
set_finalizers f job = record job { finalizers = f job.finalizers }

module _ {rt : Runtime} (r : Reconciler rt) where
  settle : (List String → List String) → Option Error → World rt → World rt
  settle f none w = record {
    job = set_finalizers f w.job;
    stored = set_finalizers f w.stored;
    trace = patch_metadata true ∷ w.trace;
  }
  settle f (some e) w = record {
    job = set_finalizers f w.job;
    stored = w.stored;
    trace = patch_metadata false ∷ w.trace;
  }

  -- r.Patch(ctx, job, patch) after a change of the finalizers
  unfoldable pub change_finalizers : (List String → List String) → Handler (World rt) (Option Error)
  unfolding settle
  change_finalizers f w =
      let reply = r.cluster.metadata_patch w.trace in (next reply, settle f reply w)

  release : Handler (World rt) (Unit {0})
  release = do
    reply ← change_finalizers (without finalizer_name)
    must "removing finalizer" reply
    give finished

  -- The `switch status.Code(err)`.
  after_refusal : Error → Code → Handler (World rt) (Unit {0})
  unfolding release
  after_refusal e Code.not_found = release
  after_refusal e Code.failed_precondition = give (again_after 30)
  after_refusal e Code.other = give (fail_with e)

  after_delete : Result String → Handler (World rt) (Unit {0})
  unfolding release after_refusal
  after_delete (ok _) = release
  after_delete (err e) = after_refusal e e.code

  unfoldable pub reconcile_delete : Handler (World rt) (Unit {0})
  unfolding release after_delete
  reconcile_delete = do
    job ← current
    if is_succeeded job.status.phase then release else (do
      let pool = node_pool_name job
      deleted ← ask (delete_node_pool pool) (λ trace. r.cloud.delete trace pool)
      after_delete deleted)
