-- ===== src/Controller/Ready/PoolName.antt =====
-- The pool name that reconcileReady writes into the object before the manifest is generated.
use praktikum.Prelude.{
  String, false, ◌≡◌, refl, ap, ◌∙◌, is_empty, Bool-cases, inl, inr, if◌then◌else◌, ltb, ◌<>◌, true,
  Bool,
}
use Prim.Native.String.{len, slice}
use Prim.Native.String.slice
use Prim.Native.String.compare
use Prim.Native.String.append
use text.Mathlib.Text.{is_eq}
use praktikum.Api.{DistributedTraining}
use praktikum.Controller.Defaults.{node_pool_name}
use praktikum.Controller.Ready.{with_pool_name}

dj_name-nonempty : (name : String) → is_empty ("dj-" <> name) ≡ false
dj_name-nonempty name =
    ap is_empty (append.cons "d" "j-" name) ∙ ap is_eq (compare.cons-nil "d" ("j-" <> name))

cut-nonempty :
    (b : Bool) (name : String)
    → is_empty (if b then slice ("dj-" <> name) 0 40 else "dj-" <> name) ≡ false
cut-nonempty true name =
    ap (λ s. is_empty (slice s 0 40)) (append.cons "d" "j-" name)
    ∙ ap is_empty (slice.cons-zero "d" ("j-" <> name) 40)
    ∙ ap is_eq (compare.cons-nil "d" (slice ("j-" <> name) 0 39))
cut-nonempty false name = dj_name-nonempty name

node_pool_name-nonempty : (job : DistributedTraining) → is_empty (node_pool_name job) ≡ false
unfolding node_pool_name
node_pool_name-nonempty job = elim (Bool-cases (is_empty job.spec.hardware.node_pool_name)) [
  | inl e ↦ rw e (cut-nonempty (ltb 40 (len ("dj-" <> job.name))) job.name)
  | inr e ↦ rw e e
]

-- The name is the pool's, whether the object had it or not.
pub with_pool_name-name :
    (job : DistributedTraining)
    → (with_pool_name job).spec.hardware.node_pool_name ≡ node_pool_name job
unfolding with_pool_name node_pool_name
with_pool_name-name job = elim (Bool-cases (is_empty job.spec.hardware.node_pool_name)) [
  | inl e ↦ rw e refl
  | inr e ↦ rw e refl
]

pub with_pool_name-nonempty :
    (job : DistributedTraining) → is_empty (with_pool_name job).spec.hardware.node_pool_name ≡ false
with_pool_name-nonempty job = rw (with_pool_name-name job) (node_pool_name-nonempty job)

-- Nothing else of the spec changes.
pub with_pool_name-keeps :
    (job : DistributedTraining)
    → ((with_pool_name job).spec.pytorch_spec ≡ job.spec.pytorch_spec)
      × ((with_pool_name job).spec.spark_spec ≡ job.spec.spark_spec)
      × ((with_pool_name job).spec.backend ≡ job.spec.backend)
unfolding with_pool_name
with_pool_name-keeps job = elim (Bool-cases (is_empty job.spec.hardware.node_pool_name)) [
  | inl e ↦ rw e (refl, refl, refl)
  | inr e ↦ rw e (refl, refl, refl)
]
