-- ===== src/Controller/Delete/Safety.antt =====
-- When reconcileDelete lets the object go, and when it holds it back.
use praktikum.Prelude.{
  String, Bool, true, false, ◌||◌, none, List, [], ◌∷◌, ◌≡◌, refl, str_eq, if◌then◌else◌,
  Bool-cases, inl, inr,
}
use praktikum.Runtime.{Runtime, Error, Result, ok, err, Code}
use praktikum.System.{
  World, Reconciler, Trace, Flow, returned, ◌>>=◌, finished, again_after, fail_with,
}
use praktikum.Controller.Defaults.{node_pool_name}
use praktikum.Controller.Delete.{
  finalizer_name, contains, without, release, after_refusal, after_delete, is_succeeded,
  change_finalizers, reconcile_delete,
}

-- The cloud's answer to DeleteNodePool says that the pool is going or gone.
abbrev is_not_found : Code → Bool
is_not_found Code.not_found = true
is_not_found _ = false

abbrev pub pool_gone : Result String → Bool
pool_gone (ok _) = true
pool_gone (err e) = is_not_found e.code

abbrev is_busy : Code → Bool
is_busy Code.failed_precondition = true
is_busy _ = false

pub contains-without : (s : String) (xs : List String) → contains s (without s xs) ≡ false
contains-without s [] = refl
contains-without s (x ∷ xs) = step (contains-without s xs) (str_eq x s) refl
  where
    step :
        contains s (without s xs) ≡ false
        → (b : Bool) → str_eq x s ≡ b
        → contains s (if b then without s xs else x ∷ without s xs) ≡ false
    step ih true e = ih
    step ih false e = rw e ih

module _ {rt : Runtime} (r : Reconciler rt) where
  abbrev answer : World rt → Result String
  answer w = r.cloud.delete w.trace (node_pool_name w.job)

  refusal-holds :
      (e : Error) (c : Code)
      → is_not_found c ≡ false
      → (w : World rt) → (after_refusal r e c w).1.stored ≡ w.stored
  unfolding after_refusal ◌>>=◌
  refusal-holds e Code.not_found n w = cc
  refusal-holds e Code.failed_precondition n w = refl
  refusal-holds e Code.other n w = refl

  answer-holds :
      (x : Result String)
      → pool_gone x ≡ false
      → (w : World rt) → (after_delete r x w).1.stored ≡ w.stored
  unfolding after_delete ◌>>=◌
  answer-holds (ok _) g w = cc
  answer-holds (err e) g w = refusal-holds e e.code g w

  refusal-retries :
      (e : Error) (c : Code)
      → is_not_found c ≡ false
      → (w : World rt)
      → (after_refusal r e c w).0 ≡ returned (if is_busy c then again_after 30 else fail_with e)
  unfolding after_refusal ◌>>=◌
  refusal-retries e Code.not_found n w = cc
  refusal-retries e Code.failed_precondition n w = refl
  refusal-retries e Code.other n w = refl

  abbrev Released : Flow (Unit {0}) × World rt → Type 0
  Released m = (m.0 ≡ returned finished) × (contains finalizer_name m.1.stored.finalizers ≡ false)

  release-releases :
      ((t : Trace rt) → r.cluster.metadata_patch t ≡ none) → (w : World rt) → Released (release r w)
  unfolding release change_finalizers ◌>>=◌
  release-releases accepts w =
      rw (accepts w.trace) (refl, contains-without finalizer_name w.stored.finalizers)

  refusal-releases :
      ((t : Trace rt) → r.cluster.metadata_patch t ≡ none)
      → (e : Error) (c : Code) → is_not_found c ≡ true
      → (w : World rt) → Released (after_refusal r e c w)
  unfolding after_refusal ◌>>=◌
  refusal-releases accepts e Code.not_found n w = release-releases accepts w
  refusal-releases accepts e Code.failed_precondition n w = cc
  refusal-releases accepts e Code.other n w = cc

  answer-releases :
      ((t : Trace rt) → r.cluster.metadata_patch t ≡ none)
      → (x : Result String) → pool_gone x ≡ true
      → (w : World rt) → Released (after_delete r x w)
  unfolding after_delete ◌>>=◌
  answer-releases accepts (ok _) g w = release-releases accepts w
  answer-releases accepts (err e) g w = refusal-releases accepts e e.code g w

  -- If the job has not succeeded and the cloud does not confirm that its node pool is going or
  -- gone, a pass of reconcileDelete leaves the stored object, and so its finalizer, as it was.
  pub reconcile_delete-holds :
      (w : World rt)
      → is_succeeded w.job.status.phase ≡ false
      → pool_gone (answer w) ≡ false
      → (reconcile_delete r w).1.stored ≡ w.stored
  unfolding reconcile_delete ◌>>=◌
  reconcile_delete-holds w e g = rw e (answer-holds (answer w) g _)

  -- If the job has succeeded, or the cloud confirms that its node pool is going or gone, and the
  -- API server accepts the patch, a pass of reconcileDelete ends without an error and no finalizer
  -- of the operator is left on the stored object.
  pub reconcile_delete-releases :
      (w : World rt)
      → is_succeeded w.job.status.phase || pool_gone (answer w) ≡ true
      → ((t : Trace rt) → r.cluster.metadata_patch t ≡ none)
      → ((reconcile_delete r w).0 ≡ returned finished)
        × (contains finalizer_name (reconcile_delete r w).1.stored.finalizers ≡ false)
  unfolding reconcile_delete change_finalizers ◌>>=◌
  reconcile_delete-releases w e accepts = elim (Bool-cases (is_succeeded w.job.status.phase)) [
    | inl e1 ↦ rw e1 (release-releases accepts w)
    | inr e0 ↦ rw e0 (answer-releases accepts (answer w) (rw e0 at e) _)
  ]

  -- If the job has not succeeded and the cloud answers that the pool is busy, the pass asks for
  -- another one after 30 seconds and reports no error; on any other refusal but `not found` it
  -- reports the cloud's error.
  pub reconcile_delete-retries :
      (w : World rt) (refusal : Error)
      → is_succeeded w.job.status.phase ≡ false
      → answer w ≡ err refusal
      → is_not_found refusal.code ≡ false
      → (reconcile_delete r w).0
        ≡ returned (if is_busy refusal.code then again_after 30 else fail_with refusal)
  unfolding reconcile_delete ◌>>=◌
  reconcile_delete-retries w refusal e g n = rw (e, g) (refusal-retries refusal refusal.code n _)
