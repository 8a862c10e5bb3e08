-- ===== src/Controller/Delete/Keeps.antt =====
-- What the finalizer's changes and reconcileDelete keep.
use praktikum.Prelude.{String, Option, none, some, List, ◌∷◌, true, false, refl}
use praktikum.Runtime.{Runtime, Error, Result, ok, err, Code}
use praktikum.Api.{DistributedTrainingStatus}
use praktikum.System.{Trace, Reconciler, delete_node_pool}
use praktikum.System.Keeps.{Keeps, Inv, Quiet, keeps_rules}
use praktikum.Controller.Delete.{
  change_finalizers, settle, release, after_refusal, after_delete, reconcile_delete,
}
use praktikum.System.{World, patch_metadata}

module _ {rt : Runtime} {S : DistributedTrainingStatus → Type 0} {T : Trace rt → Type 0}
    (q : Quiet T) (r : Reconciler rt) where
  settle-Inv :
      (f : List String → List String) (o : Option Error) (w : World rt)
      → Inv S T w
      → Inv S T (settle r f o w)
  unfolding settle
  settle-Inv f none w h = record {
    status = h.status;
    calls = q.step (patch_metadata true) refl w.trace h.calls;
  }
  settle-Inv f (some e) w h = record {
    status = h.status;
    calls = q.step (patch_metadata false) refl w.trace h.calls;
  }

  pub Keeps-change_finalizers :
      (f : List String → List String) → Keeps (Inv S T) (change_finalizers r f)
  unfolding change_finalizers
  Keeps-change_finalizers f = record {
    at = λ w h. settle-Inv f (r.cluster.metadata_patch w.trace) w h;
  }

  Keeps-release : Keeps (Inv S T) (release r)
  unfolding release
  Keeps-release = search (keeps_rules, Keeps-change_finalizers)

  Keeps-after_refusal : (e : Error) (c : Code) → Keeps (Inv S T) (after_refusal r e c)
  unfolding after_refusal
  Keeps-after_refusal e Code.not_found = Keeps-release
  Keeps-after_refusal e Code.failed_precondition = search (keeps_rules)
  Keeps-after_refusal e Code.other = search (keeps_rules)

  Keeps-after_delete : (x : Result String) → Keeps (Inv S T) (after_delete r x)
  unfolding after_delete
  Keeps-after_delete (ok id) = Keeps-release
  Keeps-after_delete (err e) = Keeps-after_refusal e e.code

  pub Keeps-reconcile_delete :
      ((pool : String) (t : Trace rt) → T t → T (delete_node_pool pool ∷ t))
      → Keeps (Inv S T) (reconcile_delete r)
  unfolding reconcile_delete
  Keeps-reconcile_delete deletes =
      search (keeps_rules, deletes, Keeps-release, Keeps-after_delete) depth 8
