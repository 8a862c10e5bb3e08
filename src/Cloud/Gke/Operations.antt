-- ===== src/Cloud/Gke/Operations.antt =====
-- The names and the states of the operations of the GKE provider.
use mathlib.Core.Path.{subst}
use text.Mathlib.Text.{starts_with}
use text.Mathlib.TextPositions.{starts_with-append}
use praktikum.Prelude.{
  String, true, Option, none, some, ◌≡◌, refl, sym, ◌↔◌, Bool-cases, inl, inr, ◌<>◌,
}
use praktikum.Runtime.{Runtime, Error, Result, ok, err, wrap, ◌>>=◌, with_context, ok-injective}
use praktikum.System.{Trace}
use praktikum.Cloud.Gke.{
  GkeClient, GkeCluster, Operation, OperationStatus, operation_name, operation_result,
  is_operation_done,
}

full_name-fixed :
    (p : GkeCluster) (rest : String) → operation_name p ("projects/" <> rest) ≡ "projects/" <> rest
unfolding operation_name
full_name-fixed p rest = rw (starts_with-append "projects/" rest) refl

-- A name that is already full is left.
operation_name-idempotent :
    (p : GkeCluster) (id : String) → operation_name p (operation_name p id) ≡ operation_name p id
unfolding operation_name
operation_name-idempotent p id = elim (Bool-cases (starts_with id "projects/")) [
  | inl e ↦ rw e (rw e refl)
  | inr e ↦
      rw e
        (full_name-fixed p (p.project <> ("/locations/" <> (p.location <> ("/operations/" <> id)))))
]

-- The operation has ended without an error.
abbrev pub HasSucceeded : Operation → Type 0
HasSucceeded op = (op.status ≡ OperationStatus.done) × (op.error ≡ none)

polled_true :
    (s : OperationStatus) (x : Option String)
    → (operation_result (record { status = s; error = x }) ≡ ok true)
      ↔ ((s ≡ OperationStatus.done) × (x ≡ none))
unfolding operation_result
polled_true OperationStatus.done none = (λ e. (refl, refl), λ u. refl)
polled_true OperationStatus.done (some m) = (λ e. cc, λ u. cc)
polled_true OperationStatus.aborting x = (λ e. cc, λ u. cc)
polled_true OperationStatus.other x = (λ e. cc, λ u. cc)

module _ {rt : Runtime} (p : GkeCluster) (client : GkeClient rt) where
  bound_true :
      (x : Result Operation) (prefix : String)
      → ((with_context prefix x >>= operation_result) ≡ ok true)
        ↔ ((op : Operation) × (x ≡ ok op) × HasSucceeded op)
  bound_true (ok op) prefix = (
    λ e. (op, refl, (polled_true op.status op.error).0 e),
    λ (o, e, u).
        subst (λ x. operation_result x ≡ ok true) (sym (ok-injective e))
          ((polled_true o.status o.error).1 u),
  )
  bound_true (err e) prefix = (λ f. cc, λ (op, g, u). cc)

  -- An operation is reported as done exactly if the container API answers for its full name with an
  -- operation whose status is done and that has no error.
  pub is_operation_done-exact :
      (trace : Trace rt) (id : String)
      → (is_operation_done p client trace id ≡ ok true) ↔ (
          (op : Operation) × (client.get_operation trace (operation_name p id) ≡ ok op)
          × HasSucceeded op)
  unfolding is_operation_done
  is_operation_done-exact trace id =
      bound_true (client.get_operation trace (operation_name p id))
        ("polling operation " <> rt.quote id)

  pub is_operation_done-error :
      (trace : Trace rt) (id : String) (e : Error)
      → client.get_operation trace (operation_name p id) ≡ err e
      → is_operation_done p client trace id ≡ err (wrap ("polling operation " <> rt.quote id) e)
  unfolding is_operation_done
  is_operation_done-error trace id e h = simp (h) refl
