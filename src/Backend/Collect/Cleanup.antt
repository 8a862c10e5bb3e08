-- ===== src/Backend/Collect/Cleanup.antt =====
-- FromPVCFile asks to delete its reader pod.
use praktikum.Prelude.{
  ℕ, ◌+◌, ◌++◌, ◌∙◌, arith, ◌<>◌, String, Option, none, some, List, [], ◌∷◌, ◌≡◌, refl, ◌⊎◌, inl,
  inr, str_eq, eq_refl, if◌then◌else◌,
}
use praktikum.Runtime.{Runtime, Error, Result, ok, err, with_context}
use praktikum.System.{Trace}
use praktikum.Backend.Reads.{Reads, PodCall, create_pod, delete_pod, exec_cat}
use praktikum.Backend.Collect.{from_pvc_file, created, run_reader, checked, reader_name, reader_pod}

-- How often the calls ask to create, and to delete, a pod of this name.
pub creations : String → List PodCall → ℕ
creations name [] = 0
creations name (create_pod p ∷ calls) = (if str_eq p name then 1 else 0) + creations name calls
creations name (delete_pod p ∷ calls) = creations name calls
creations name (exec_cat p ∷ calls) = creations name calls

pub deletions : String → List PodCall → ℕ
deletions name [] = 0
deletions name (create_pod p ∷ calls) = deletions name calls
deletions name (delete_pod p ∷ calls) = (if str_eq p name then 1 else 0) + deletions name calls
deletions name (exec_cat p ∷ calls) = deletions name calls

-- Of the calls, newest first, the last one asks to delete the pod, and no other one does; one asks
-- to create it.
abbrev pub AsksToDelete : String → List PodCall → Type 0
AsksToDelete pod calls =
    (earlier : List PodCall) × (calls ≡ delete_pod pod ∷ earlier)
    × (creations pod earlier ≡ 1)
    × (deletions pod earlier ≡ 0)

-- The creation is the only call, and its refusal the reply.
abbrev pub Refused : String → List PodCall × Result String → Type 0
Refused pod (calls, reply) = (calls ≡ create_pod pod ∷ []) × ((e : Error) × (reply ≡ err e))

creations-append :
    (pod : String) (calls more : List PodCall)
    → creations pod (calls ++ more) ≡ creations pod calls + creations pod more
unfolding creations
creations-append pod [] more = omega arith
creations-append pod (create_pod p ∷ calls) more = omega (arith, creations-append pod calls more)
creations-append pod (delete_pod p ∷ calls) more = creations-append pod calls more
creations-append pod (exec_cat p ∷ calls) more = creations-append pod calls more

deletions-append :
    (pod : String) (calls more : List PodCall)
    → deletions pod (calls ++ more) ≡ deletions pod calls + deletions pod more
unfolding deletions
deletions-append pod [] more = omega arith
deletions-append pod (create_pod p ∷ calls) more = deletions-append pod calls more
deletions-append pod (delete_pod p ∷ calls) more = omega (arith, deletions-append pod calls more)
deletions-append pod (exec_cat p ∷ calls) more = deletions-append pod calls more

-- Calls of run_reader neither create nor delete.
abbrev Idle : String → List PodCall → Type 0
Idle pod calls = (creations pod calls ≡ 0) × (deletions pod calls ≡ 0)

-- Whether each of the three steps before the command fails or not.
steps-Idle :
    {A B C : Type 0} (pod : String) (x : Result A) (y : Result B) (z : Result C)
    (reply : Result String)
    → Idle pod
        (elim x as (λ _. List PodCall × Result String) [
          | err e ↦ ([], err e)
          | ok _ ↦ elim y as (λ _. List PodCall × Result String) [
            | err e ↦ ([], err e)
            | ok _ ↦ elim z as (λ _. List PodCall × Result String) [
              | err e ↦ ([], err e)
              | ok _ ↦ (exec_cat pod ∷ [], reply)
            ]
          ]
        ]).0
unfolding creations deletions
steps-Idle pod (err e) y z reply = (refl, refl)
steps-Idle pod (ok a) (err e) z reply = (refl, refl)
steps-Idle pod (ok a) (ok b) (err e) reply = (refl, refl)
steps-Idle pod (ok a) (ok b) (ok c) reply = (refl, refl)

module _ {rt : Runtime} (reads : Reads rt) (trace : Trace rt) where
  run_reader-Idle : (pod path : String) → Idle pod (run_reader reads trace pod path).0
  unfolding run_reader creations deletions
  run_reader-Idle pod path =
      steps-Idle pod
        (checked reads "waiting for reader pod to be Running" (reads.await_reader trace pod))
        (with_context "getting kubeconfig for exec" (reads.new_config trace))
        (checked reads "creating exec" (reads.new_executor trace pod))
        (with_context ("exec cat " <> path) (reads.exec_reader trace pod ("/mnt/pvc/" <> path)))

  created-AsksToDelete :
      (pod path : String) (o : Option Error)
      → ((o ≡ none) × AsksToDelete pod (created reads trace pod path o).0)
        ⊎ Refused pod (created reads trace pod path o)
  unfolding created creations deletions
  created-AsksToDelete pod path none =
      let (no_creation, no_deletion) = run_reader-Idle pod path in
      inl (
        refl,
        (
          (run_reader reads trace pod path).0 ++ create_pod pod ∷ [],
          refl,
          creations-append pod (run_reader reads trace pod path).0 (create_pod pod ∷ [])
              ∙ rw (no_creation, eq_refl pod) refl,
          deletions-append pod (run_reader reads trace pod path).0 (create_pod pod ∷ [])
              ∙ rw no_deletion refl,
        ),
      )
  created-AsksToDelete pod path (some e) = inr (refl, (_, refl))

  -- FromPVCFile either has its reader pod created, by one call, and then it asks once to delete this
  -- pod, as its last call, whatever failed in between; or the creation is refused, and then it
  -- makes no other call and returns an error. The answer to the deletion is not looked at, as in
  -- the code, so the pod stays where the API server refuses it.
  pub from_pvc_file-AsksToDelete :
      (namespace pvc path : String)
      → ((reads.create_reader trace (reader_pod (reader_name reads trace) namespace pvc) ≡ none)
          × AsksToDelete (reader_name reads trace) (from_pvc_file reads trace namespace pvc path).0)
        ⊎ Refused (reader_name reads trace) (from_pvc_file reads trace namespace pvc path)
  unfolding from_pvc_file
  from_pvc_file-AsksToDelete namespace pvc path =
      created-AsksToDelete (reader_name reads trace) path
        (reads.create_reader trace (reader_pod (reader_name reads trace) namespace pvc))
